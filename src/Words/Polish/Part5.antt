-- ===== src/Words/Polish/Part5.antt =====
-- `DICT.pl` (internal/web/static/base.js, lines 175 to 206).
use poc_cronova_windows.Base.{List, [], codes, if◌then◌else◌, ◌++◌, ◌∷◌}
use poc_cronova_windows.Words.Phrase.{Entry, says, fills, fills_both, shown, is_one, polish_plural}

unfoldable pub polish_5 : List Entry
polish_5 =
    says "proj_filename" "Nazwa pliku"
    ∷ says "proj_content" "Treść skryptu"
    ∷ says "proj_do_upload" "Prześlij"
    ∷ fills "proj_selected" (λ n.
      codes "Wybrano "
      ++ (shown n ++ (codes " plik" ++ (polish_plural n (codes "") (codes "i") (codes "ów")))))
    ∷ says "proj_uploaded" "Projekt przesłany"
    ∷ says "proj_upload_fail" "Przesyłanie nie powiodło się"
    ∷ says "proj_need_name" "Najpierw podaj nazwę projektu"
    ∷ says "proj_need_files" "Najpierw wybierz pliki lub napisz treść skryptu"
    ∷ says "proj_manage" "Zarządzaj projektami"
    ∷ says "err_dagid" "Wymagane prawidłowe ID DAG (litery/cyfry/_-.)"
    ∷ says "err_taskid" "Nieprawidłowe ID zadania (litery/cyfry/_-.)"
    ∷ says "err_dup" "Powielone ID zadania"
    ∷ says "err_emptyid" "Puste ID zadania"
    ∷ says "err_emptycmd" "Puste polecenie"
    ∷ says "err_cycle" "Wykryto cykl zależności"
    ∷ says "sched" "Harmonogram"
    ∷ says "sm_manual" "Ręczny"
    ∷ says "sm_every" "Interwał"
    ∷ says "sm_cron" "Wyrażenie Cron"
    ∷ says "sched_manual_hint" "Tylko ręczne wyzwalanie lub przez nadrzędny przepływ"
    ∷ says "sched_every_pre" "Co"
    ∷ says "unit_s" "s"
    ∷ says "unit_m" "min"
    ∷ says "unit_h" "h"
    ∷ says "disabled_note" "(wkrótce)"
    ∷ says "cp_min" "co minutę"
    ∷ says "cp_hour" "co godzinę"
    ∷ says "cp_day" "codziennie 0:00"
    ∷ says "cp_2am" "codziennie 2:00"
    ∷ says "cp_mon" "poniedziałek 0:00"
    ∷ says "cron_help" "pomoc"
    ∷ says "ch_title" "Format Cron"
    ∷ says "ch_format"
        "Format: minuta godzina dzień miesiąc dzień_tygodnia (5 pól rozdzielonych spacją)"
    ∷ says "ch_fields" "Pola"
    ∷ says "ch_ops" "Operatory"
    ∷ says "ch_examples" "Przykłady (kliknij, aby wypełnić)"
    ∷ says "ch_shortcuts" "Skróty"
    ∷ says "t_rule" "Reguła wyzwalania"
    ∷ says "tr_all_success" "wszystkie sukces"
    ∷ says "tr_all_done" "wszystkie zakończone"
    ∷ says "tr_one_success" "jeden sukces"
    ∷ says "tr_one_failed" "jeden błąd"
    ∷ says "tr_all_failed" "wszystkie błędy"
    ∷ says "tr_none_failed" "brak błędów"
    ∷ says "trd_all_success"
        "Uruchamia się tylko gdy wszystkie nadrzędne zakończą się sukcesem (domyślnie)"
    ∷ says "trd_all_done"
        "Uruchamia się gdy wszystkie nadrzędne zakończą, niezależnie od wyniku — dobre dla sprzątania/podsumowań"
    ∷ says "trd_one_success" "Uruchamia się gdy dowolne nadrzędne zakończy się sukcesem"
    ∷ says "trd_one_failed"
        "Uruchamia się gdy dowolne nadrzędne zakończy się błędem — dobre dla alertów"
    ∷ says "trd_all_failed" "Uruchamia się tylko gdy wszystkie nadrzędne zakończą się błędem"
    ∷ says "trd_none_failed"
        "Uruchamia się gdy żadne nadrzędne nie zakończyło się błędem (sukces lub pominięcie)"
    ∷ says "pool_hint"
        "Sloty współbieżności współdzielone przez wszystkie DAGi; zadania w tym samym poolu rywalizują o sloty"
    ∷ says "cb_interp" "Interpreter"
    ∷ says "cb_runas" "Uruchom jako"
    ∷ says "cb_target" "Moduł / skrypt"
    ∷ says "cb_args" "Argumenty"
    ∷ says "cb_jar" "Ścieżka JAR"
    ∷ says "cb_mainclass" "Klasa główna"
    ∷ says "cb_client" "Klient SQL"
    ∷ says "cb_query" "Zapytanie SQL"
    ∷ says "cmdopt_module" "moduł (-m)"
    ∷ says "cmdopt_script" "plik skryptu"
    ∷ says "cmd_will_run" "Wykona:"
    ∷ says "cmd_edit_raw" "edytuj surowe polecenie"
    ∷ says "cmd_use_form" "użyj formularza"
    ∷ says "cmd_cant_parse"
        "Nie można przetworzyć polecenia do formularza; pozostawiono edytor surowy"
    ∷ says "var_insert" "kliknij lub przeciągnij, aby wstawić zmienną"
    ∷ says "var_editor_aria" "edytor poleceń — wstawianie pigułek zmiennych"
    ∷ fills "var_pill_aria" (λ n. codes "zmienna " ++ shown n)
    ∷ fills "var_pill_remove" (λ n. codes "usuń zmienną " ++ shown n)
    ∷ says "var_empty" "brak"
    ∷ says "var_add_key" "własny…"
    ∷ says "var_conn_field" "pole"
    ∷ says "var_goto_settings" "ustaw"
    ∷ says "vd_logical_date" "logiczna data tego uruchomienia (dzień)"
    ∷ says "vd_logical_datetime" "logiczna data-czas (RFC3339)"
    ∷ says "vd_date_expr"
        "wyrażenie daty: przesunięcia ±N d/h/w/mo, kotwice .month_start/.month_end/.week_start/.week_end, format | %Y%m%d; można łączyć"
    ∷ says "vd_run_id" "unikalne id tego uruchomienia"
    ∷ says "vd_dag_id" "id DAG"
    ∷ says "vd_task_id" "id tego zadania"
    ∷ says "vd_try_number" "numer próby (rosnie przy ponowieniu)"
    ∷ says "vd_var" "zmienna współdzielona"
    ∷ says "vd_conn" "pole połączenia"
    ∷ says "vd_params" "parametr ręcznego wyzwalania"
    ∷ says "vg_builtin" "wbudowane"
    ∷ says "vg_var" "zmienne"
    ∷ says "vg_conn" "połączenia"
    ∷ says "vg_params" "parametry"
    ∷ says "graph_connect_hint"
        "Przeciągnij kropkę po prawej stronie węzła na inne zadanie, aby połączyć; kliknij węzeł, aby edytować zadanie; Shift+klik dwa węzły (lub włącz tryb łączenia i kliknij kolejno) również łączy/rozłącza; kliknij krawędź, aby usunąć zależność"
    ∷ says "ge_addtask" "+ Dodaj zadanie"
    ∷ says "ge_connect" "Tryb łączenia"
    ∷ says "ge_connect_tip"
        "Włączony: kliknij zadanie nadrzędne, potem podrzędne, aby połączyć/rozłączyć (przyjazny klawiaturze)"
    ∷ says "ge_new_id_title" "Nowe ID zadania"
    ∷ says "ge_edge_remove" "Usuń zależność"
    ∷ says "ge_dup_dep" "Zależność już istnieje"
    ∷ fills_both "ge_edge_aria" (λ a b.
      codes "Zależność "
      ++ (shown a ++ (codes " → " ++ (shown b ++ codes ", naciśnij Enter, aby usunąć"))))
    ∷ fills "ge_node_aria" (λ id. codes "Zadanie " ++ shown id)
    ∷ fills "diff_unsaved" (λ n.
      shown n
      ++ (codes " niezapisana"
          ++ ((polish_plural n (codes "") (codes "e") (codes "ych"))
              ++ (codes " zmiana" ++ (if is_one n then codes "" else codes "i")))))
    ∷ says "diff_save" "Zapisz"
    ∷ says "diff_discard" "Odrzuć"
    ∷ says "diff_show" "Zobacz różnice"
    ∷ says "diff_hide" "Ukryj różnice"
    ∷ says "diff_loading" "Generowanie podglądu różnic…"
    ∷ []

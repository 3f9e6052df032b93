-- ===== src/Words/Polish/Part6.antt =====
-- `DICT.pl` (internal/web/static/base.js, lines 207 to 244).
use poc_cronova_windows.Base.{List, [], codes, ◌++◌, ◌∷◌}
use poc_cronova_windows.Words.Phrase.{Entry, says, fills, fills_both, shown}

unfoldable pub polish_6 : List Entry
polish_6 =
    says "diff_invalid" "Oczekujące zmiany nie przeszły walidacji"
    ∷ says "diff_same" "Identyczne z zapisaną wersją"
    ∷ says "diff_discarded" "Odrzucono niezapisane zmiany"
    ∷ says "t_subdag" "Docelowy przepływ"
    ∷ says "subdag_hint"
        "Uruchamia inny przepływ jako uruchomienie podrzędne: to zadanie odzwierciedla końcowy stan dziecka, a anulowanie kaskaduje"
    ∷ says "subdag_none" "Wybierz przepływ…"
    ∷ says "err_subdag" "Zadanie podprzepływu wymaga docelowego przepływu"
    ∷ says "dod_title" "Zależność między przepływami"
    ∷ says "dod_hint"
        "Zadanie staje się gotowe dopiero po sukcesie uruchomienia docelowego przepływu w dopasowanym okresie"
    ∷ says "dod_dag" "Zależy od przepływu"
    ∷ says "dod_offset" "Przesunięcie okresu"
    ∷ says "dod_offset_hint" "- 1d / .month_start / puste = ten sam okres"
    ∷ says "dod_timeout" "Limit oczekiwania (s)"
    ∷ says "dod_timeout_hint" "0 = czekaj do przekroczenia limitu uruchomienia"
    ∷ says "dod_on_timeout" "Po przekroczeniu limitu"
    ∷ says "dod_fail" "błąd"
    ∷ says "dod_skip" "pomiń"
    ∷ says "parent_run" "Uruchomienie nadrzędne"
    ∷ says "child_run" "Uruchomienie podrzędne"
    ∷ says "nav_graph" "Graf"
    ∷ says "graph_title" "Graf przepływów"
    ∷ says "graph_sub" "Zależności wyzwalania między przepływami przez trigger_after"
    ∷ says "graph_none"
        "Brak jeszcze zależności między przepływami (żaden nie deklaruje trigger_after)"
    ∷ says "graph_view_hint"
        "Wskazówka: strzałki wskazują kierunek 'po wyzwoleniu'; kliknij węzeł, aby otworzyć przepływ; przerywane węzły to nieznane przepływy"
    ∷ says "ss_saved" "Zapisano"
    ∷ says "ss_saving" "Zapisywanie…"
    ∷ says "ss_invalid" "Napraw błędy, aby zapisać"
    ∷ says "ss_error" "Zapis nie powiódł się"
    ∷ says "dag_no_tasks_title" "Brak zadań"
    ∷ says "dag_no_tasks_sub" "Dodaj zadanie, aby włączyć ten przepływ"
    ∷ says "dag_disabled_hint" "Dodaj zadanie, aby umożliwić wyzwalanie"
    ∷ says "nd_title" "Nowy przepływ"
    ∷ says "nd_create" "Utwórz"
    ∷ says "nd_cancel" "Anuluj"
    ∷ says "nd_dagid_dup" "DAG o tym id już istnieje"
    ∷ says "tpl_start" "Zacznij od szablonu"
    ∷ says "tpl_tasks" "zadania"
    ∷ says "tpl_blank" "Pusty"
    ∷ says "tpl_blank_d" "Zacznij od zera i samodzielnie dodaj zadania"
    ∷ says "tpl_etl" "Codzienny ETL"
    ∷ says "tpl_etl_d" "Trzyetapowy potok: pobierz → przekształć → załaduj"
    ∷ says "tpl_etl_m" "3 kroki · każdy czeka na sukces poprzedniego"
    ∷ says "tpl_report" "Raport okresowy"
    ∷ says "tpl_report_d" "Pobierz dane i wyślij raport — dobre dla codziennego raportu o 8:00"
    ∷ says "tpl_report_m" "2 kroki · ustawiono codziennie 08:00"
    ∷ says "tpl_fanout" "Rozgałęzienie-złączenie"
    ∷ says "tpl_fanout_d" "start → dwa równoległe gałęzie → złączenie"
    ∷ says "coach_tpl_ready"
        "Szablon gotowy — kliknij „Wyzwól uruchomienie”, aby zobaczyć wykonanie, potem dostosuj zadania"
    ∷ fills_both "sp_every"
        (λ n u. codes "Uruchamia się co " ++ (shown n ++ (codes " " ++ shown u)))
    ∷ says "sp_next" "Następne"
    ∷ says "sp_invalid" "Nieprawidłowe wyrażenie — nie można obliczyć czasów"
    ∷ says "tz_note" "Harmonogramy obliczane są w UTC; czasy wyświetlane w Twojej strefie lokalnej"
    ∷ says "btn_duplicate" "⧉ Duplikuj"
    ∷ says "dup_dag_title" "Duplikuj jako nowy przepływ (podaj nowe id)"
    ∷ says "dup_done" "Zduplikowano"
    ∷ says "y_copy" "Kopiuj"
    ∷ says "y_download" "Pobierz"
    ∷ says "y_close" "Zamknij"
    ∷ says "y_copied" "YAML skopiowany do schowka"
    ∷ says "y_copy_fail" "Kopiowanie nie powiodło się — zaznacz tekst ręcznie"
    ∷ says "nd_import_yaml" "lub wklej YAML do importu…"
    ∷ says "nd_back_form" "← wróć do formularza"
    ∷ says "nd_import" "Importuj"
    ∷ says "nd_yaml_empty" "Najpierw wklej YAML"
    ∷ says "nd_imported" "YAML zaimportowany"
    ∷ says "gs_title" "Pierwsze kroki"
    ∷ says "gs_create" "Utwórz pierwszy przepływ"
    ∷ says "gs_trigger" "Wyzwól uruchomienie"
    ∷ says "gs_green" "Uzyskaj zielone uruchomienie"
    ∷ says "adv_options" "Opcje zaawansowane"
    ∷ says "log_find_ph" "Znajdź w logu…"
    ∷ says "log_download" "Pobierz pełny log"
    ∷ fills "log_matches" (λ n. shown n ++ codes " dopasowań")
    ∷ fills "log_capped" (λ n. codes "pokazano ostatnie " ++ (shown n ++ codes " wierszy"))
    ∷ fills "back_dag" (λ d. codes "← Wróć do " ++ shown d)
    ∷ fills "confirm_del_task_title" (λ id. codes "Usunąć zadanie „" ++ (shown id ++ codes "\"?"))
    ∷ says "nav_workers" "Węzły robocze"
    ∷ says "wk_sub"
        "Zdalne węzły robocze podłączone do tego schedulera: stan na żywo, obciążenie oraz operacje drain/remove. Zadania kierowane są do grupy przez worker_group."
    ∷ says "wk_name" "Nazwa"
    ∷ says "wk_group" "Grupa"
    ∷ says "wk_state" "Stan"
    ∷ says "wk_active" "Aktywne zadania"
    ∷ says "wk_version" "Wersja"
    ∷ says "wk_heartbeat" "Ostatni heartbeat"
    ∷ says "wk_created" "Dołączono"
    ∷ says "wk_online" "online"
    ∷ says "wk_offline" "offline"
    ∷ says "wk_lost" "utracony"
    ∷ says "wk_draining" "opróżniany"
    ∷ says "wk_unnamed" "(bez nazwy)"
    ∷ says "wk_drain" "Opróżnij"
    ∷ says "wk_undrain" "Wznów przydział"
    ∷ fills "wk_drain_title" (λ n. codes "Opróżnić węzeł „" ++ (shown n ++ codes "”?"))
    ∷ says "wk_drain_body"
        "Węzeł w stanie draining nie otrzymuje nowych przydziałów; działające zadania kończą się normalnie. Można wznowić w dowolnej chwili."
    ∷ fills "wk_undrain_title"
        (λ n. codes "Wznowić przydział dla węzła „" ++ (shown n ++ codes "”?"))
    ∷ says "wk_undrain_body" "Węzeł ponownie otrzymuje przydziały zadań."
    ∷ says "wk_drained_toast" "Rozpoczęto opróżnianie"
    ∷ says "wk_undrained_toast" "Przydziały wznowione"
    ∷ says "wk_remove" "Usuń"
    ∷ fills "wk_remove_title" (λ n. codes "Usunąć węzeł „" ++ (shown n ++ codes "”?"))
    ∷ []

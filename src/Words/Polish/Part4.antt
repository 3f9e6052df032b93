-- ===== src/Words/Polish/Part4.antt =====
-- `DICT.pl` (internal/web/static/base.js, lines 131 to 174).
use poc_cronova_windows.Base.{List, [], codes, ◌++◌, ◌∷◌}
use poc_cronova_windows.Words.Phrase.{Entry, says, fills, fills_both, shown, polish_plural}

unfoldable pub polish_4 : List Entry
polish_4 =
    says "th_logical" "data logiczna"
    ∷ says "th_state" "stan"
    ∷ says "th_trig" "wyzwalacz"
    ∷ says "th_started" "rozpoczęto"
    ∷ says "th_dur" "czas"
    ∷ says "th_task" "zadanie"
    ∷ says "th_try" "próba"
    ∷ says "th_logs" "logi"
    ∷ says "no_runs" "Brak uruchomień — wyzwól jedno."
    ∷ says "k_logical" "data logiczna"
    ∷ says "k_trig" "wyzwalacz"
    ∷ says "k_dur" "czas"
    ∷ says "k_started" "rozpoczęto"
    ∷ says "log_word" "Log"
    ∷ says "live" "na żywo"
    ∷ says "pools_sub"
        "Globalne sloty współbieżności współdzielone przez wszystkie przepływy i uruchomienia."
    ∷ says "p_name" "nazwa"
    ∷ says "p_slots" "sloty"
    ∷ says "p_save" "Zapisz"
    ∷ says "p_newname" "nazwa nowego poolu"
    ∷ says "p_create" "Utwórz pool"
    ∷ says "p_need" "wymagana nazwa i dodatnia liczba slotów"
    ∷ says "trig_fail" "wyzwalanie nie powiodło się"
    ∷ says "api_err" "błąd API"
    ∷ says "err_code_not_found" "Nie znaleziono (może zostać usunięte)"
    ∷ says "err_code_no_tasks"
        "Ten przepływ nie ma jeszcze kroków — dodaj jeden przed uruchomieniem"
    ∷ says "err_code_bad_mark_state" "Nieprawidłowy stan docelowy"
    ∷ says "err_code_queue_full" "Kolejka uruchomień pełna — spróbuj za chwilę"
    ∷ says "err_code_active_runs"
        "Ten przepływ ma aktywne uruchomienia — najpierw anuluj lub poczekaj"
    ∷ says "err_code_run_not_active" "To uruchomienie już się zakończyło — nie można anulować"
    ∷ says "err_code_nothing_to_retry" "Brak nieudanych kroków do ponowienia"
    ∷ says "err_code_run_still_active" "To uruchomienie wciąż trwa — ponów po zakończeniu"
    ∷ says "err_code_bad_group_name"
        "Nieprawidłowa nazwa grupy alertów (tylko litery, cyfry, _ . -; max 128 znaków)"
    ∷ says "err_code_dag_conflict"
        "Przepływ zmienił się od czasu załadowania — odśwież, aby scalić zmiany; ponowienie spowoduje kolejny konflikt"
    ∷ says "err_code_group_channels" "Grupa alertów wymaga 1-16 kanałów"
    ∷ says "err_code_group_channel_url"
        "URL kanału musi zaczynać się od http://, https:// lub mailto:"
    ∷ says "err_code_group_channel_format"
        "Nieprawidłowy format kanału (raw / slack / feishu / dingtalk / email)"
    ∷ says "dt_hint"
        "Trend czasu trwania: wyższy=wolniejszy, kolor=wynik; kliknij słupek, aby otworzyć uruchomienie"
    ∷ says "runs_more" "Załaduj więcej ↓"
    ∷ says "audit_more" "Załaduj więcej ↓"
    ∷ says "log_all" "Wszystkie zadania"
    ∷ says "bulk_all" "Zaznacz wszystkie (aktualny filtr)"
    ∷ fills "bulk_pick" (λ id. codes "Wybierz " ++ shown id)
    ∷ fills "bulk_selected" (λ n.
      codes "Wybrano "
      ++ (shown n ++ (codes " przepływ" ++ (polish_plural n (codes "") (codes "y") (codes "ów")))))
    ∷ fills_both "bulk_done" (λ ok n.
      codes "Operacja zbiorowa zakończona: "
      ++ (shown ok ++ (codes "/" ++ (shown n ++ codes " sukcesów"))))
    ∷ fills "bulk_del_title" (λ n.
      codes "Zarchiwizować "
      ++ (shown n
          ++ (codes " wybrany"
              ++ ((polish_plural n (codes " przepływ") (codes "e przepływy")
                    (codes "ych przepływów"))
                  ++ codes "?"))))
    ∷ says "au_f_actor" "Filtruj po użytkowniku"
    ∷ says "au_f_action" "Filtruj po akcji"
    ∷ says "au_f_all" "Wszystkie"
    ∷ says "nx_paused" "wstrzymane"
    ∷ says "nx_due" "gotowe"
    ∷ fills "nx_in" (λ m. codes "za " ++ (shown m ++ codes " min"))
    ∷ says "b_dag_info" "Informacje o DAG"
    ∷ says "f_dag_id" "ID DAG"
    ∷ says "f_start" "Data startu"
    ∷ says "f_catchup" "Catchup"
    ∷ says "f_maxactive" "Maks. aktywnych"
    ∷ says "f_defretries" "Domyślne ponowienia"
    ∷ says "f_catchup_hint"
        "Włączone: każdy pominięty okres od start_date otrzyma uruchomienie uzupełniające (maks. jeden na tick, ograniczone maks. aktywnymi — brak burzy)"
    ∷ says "f_trigger_after" "Wyzwól po (sukces nadrzędnego)"
    ∷ says "b_addtask" "+ Dodaj zadanie"
    ∷ says "b_remove" "Usuń"
    ∷ says "t_id" "ID zadania"
    ∷ says "t_type" "Typ"
    ∷ says "t_command" "Polecenie"
    ∷ says "t_pool" "Pool"
    ∷ says "t_priority" "Priorytet"
    ∷ says "t_http" "Żądanie HTTP"
    ∷ says "http_method" "Metoda"
    ∷ says "http_url" "URL"
    ∷ says "http_headers" "Nagłówki"
    ∷ says "http_headers_hint" "Jeden na linię, Key: Value — obsługuje {{ var. }} / {{ conn. }}"
    ∷ says "http_body" "Ciało"
    ∷ says "http_status" "Oczekiwany status"
    ∷ says "http_status_hint" "Rozdzielone przecinkami, np. 200,201; puste = dowolny 2xx"
    ∷ says "err_httpurl" "Zadanie HTTP wymaga URL"
    ∷ says "t_python" "Kod Python"
    ∷ says "python_hint"
        "Python inline wykonywany przez python -c; zmienne CRONOVA_* dostępne w środowisku; obsługuje szablony {{ var. }}. Kod zwracający !=0 = błąd."
    ∷ says "t_sql" "Zapytanie SQL"
    ∷ says "sql_conn" "Połączenie"
    ∷ says "sql_conn_hint"
        "ID skonfigurowanego połączenia (typ wybiera sterownik: postgres/mysql/sqlite). Zobacz Zmienne i połączenia."
    ∷ says "err_sqlconn" "Zadanie SQL wymaga połączenia"
    ∷ says "t_retries" "Ponowienia (puste=domyślne)"
    ∷ says "t_retrydelay" "Opóźnienie ponowienia (s)"
    ∷ says "t_timeout" "Limit czasu (s)"
    ∷ says "t_deps" "Zależy od"
    ∷ says "t_nodeps" "brak innych zadań"
    ∷ says "t_project" "Projekt"
    ∷ says "t_optional" "(opcjonalne)"
    ∷ says "proj_none" "Brak (bez projektu)"
    ∷ says "proj_upload" "Prześlij / nowy projekt"
    ∷ says "proj_hint"
        "Gdy ustawiony, polecenie uruchamia się w czystej kopii tego projektu (np. python main.py). Tylko zadania powershell."
    ∷ says "proj_name" "Nazwa projektu"
    ∷ says "proj_name_bad" "Nazwa może zawierać tylko litery/cyfry/. _ -"
    ∷ says "proj_mode_files" "Prześlij pliki / folder"
    ∷ says "proj_mode_inline" "Napisz skrypt"
    ∷ says "proj_drop" "Przeciągnij pliki lub folder tutaj"
    ∷ says "proj_pick_files" "Wybierz pliki"
    ∷ says "proj_pick_folder" "Wybierz folder"
    ∷ says "proj_ziphint" "Upuszczenie .zip automatycznie rozpakuje"
    ∷ []

-- ===== src/Words/Polish/Part1.antt =====
-- `DICT.pl` (internal/web/static/base.js, lines 40 to 71).
use poc_cronova_windows.Base.{List, [], codes, ◌++◌, ◌∷◌}
use poc_cronova_windows.Words.Phrase.{Entry, says, fills, shown}

unfoldable pub polish_1 : List Entry
polish_1 =
    says "workspace" "Przestrzeń robocza"
    ∷ says "nav_dags" "Przepływy pracy"
    ∷ says "newdag" "+ Nowy przepływ"
    ∷ says "f_all" "Wszystkie"
    ∷ says "f_running" "Uruchomione"
    ∷ says "f_failed" "Nieudane"
    ∷ says "f_paused" "Wstrzymane"
    ∷ says "dags_sub"
        "Kliknij nazwę, aby zobaczyć historię i strukturę; przełącznik po lewej wstrzymuje / wznawia harmonogram."
    ∷ fills "ov_fail_title" (λ id. shown id ++ codes ": ostatnie uruchomienie nie powiodło się")
    ∷ fills "ov_fail_more" (λ n. shown n ++ codes " kolejnych nieudanych")
    ∷ fills "ov_rest_ok" (λ n. codes "pozostałe " ++ (shown n ++ codes " są zdrowe"))
    ∷ says "ov_all_ok" "Wszystkie przepływy pracy zdrowe"
    ∷ fills "ov_last_run" (λ w. codes "ostatnie uruchomienie " ++ shown w)
    ∷ says "ov_running" "Uruchomione"
    ∷ says "ov_running_tip" "Aktualnie wykonywane uruchomienia"
    ∷ says "ov_rate" "Ostatnia skuteczność"
    ∷ says "ov_go" "Zbadaj →"
    ∷ says "hlp_dag"
        "<b>Przepływ pracy (DAG)</b> = zadania uruchamiane w kolejności zależności plus reguła określająca kiedy uruchomić. <span class=\"eg\">np. codziennie o 2:00 — pobierz → przekształć → załaduj.</span>"
    ∷ says "hlp_toggle"
        "<b>Przełącznik harmonogramu.</b> Wyłączony = brak automatycznych uruchomień (ręczne wciąż działa); historia jest zachowana i można włączyć w każdej chwili."
    ∷ says "hlp_spark"
        "Każdy słupek to jedno uruchomienie: <b class=\"ok\">zielony</b>=sukces, <b class=\"bad\">czerwony</b>=błąd, <b class=\"run\">niebieski</b>=trwa; wyższy=wolniejszy. Najedź dla szczegółów."
    ∷ says "hlp_next"
        "Następne automatyczne uruchomienie według harmonogramu. „gotowe” = oczekiwanie na wolny slot."
    ∷ says "hlp_rate"
        "Udział ostatnich uruchomień, które zakończyły się sukcesem (do 14 na przepływ; pominięcia i anulowania się nie liczą)."
    ∷ says "toggle_tip_on" "Włączone — kliknij, aby wstrzymać harmonogram"
    ∷ says "toggle_tip_off" "Wstrzymane — kliknij, aby wznowić harmonogram"
    ∷ says "btn_run_word" "Uruchom"
    ∷ says "run_now_tip" "Uruchom raz teraz ręcznie — nie wpływa na harmonogram"
    ∷ says "day_today" "dziś"
    ∷ says "day_yesterday" "wczoraj"
    ∷ says "h_dag" "PRZEPŁYW"
    ∷ says "h_spark" "OSTATNIE 14"
    ∷ says "h_pool" "POOL"
    ∷ says "h_next" "NASTĘPNE"
    ∷ says "no_match" "Brak pasujących przepływów"
    ∷ says "no_match_filter" "Brak przepływów w tym filtrze"
    ∷ says "no_dags_title" "Brak przepływów"
    ∷ says "no_dags_sub" "Utwórz pierwszy przepływ, aby rozpocząć planowanie zadań."
    ∷ says "trigger" "Wyzwól"
    ∷ says "manual_trigger" "tylko ręcznie"
    ∷ says "back_dags" "← Przepływy pracy"
    ∷ says "run_word" "uruchomienie"
    ∷ says "sub_manual" "tylko ręcznie"
    ∷ says "max_active" "maks. aktywnych"
    ∷ says "run_progress" "Postęp"
    ∷ says "sec_graph" "Graf zależności"
    ∷ says "sec_structure" "Struktura"
    ∷ says "sec_runs" "Historia uruchomień"
    ∷ says "sec_instances" "Instancje zadań"
    ∷ says "g_timeline" "Oś czasu"
    ∷ says "g_never_ran" "nie uruchomiono"
    ∷ says "run_no_tasks" "Brak jeszcze instancji zadań dla tego uruchomienia"
    ∷ says "run_done_ok" "Uruchomienie zakończone sukcesem"
    ∷ says "run_done_fail" "Uruchomienie nie powiodło się"
    ∷ says "run_done_timeout" "Przekroczono czas uruchomienia"
    ∷ says "run_cancel" "Anuluj uruchomienie"
    ∷ says "run_retry" "Ponów nieudane"
    ∷ says "task_retry" "Ponów"
    ∷ says "run_cancelled_toast" "Uruchomienie anulowane"
    ∷ says "run_retried_toast" "Ponownie zakolejkowano"
    ∷ says "task_mark" "Oznacz stan"
    ∷ says "run_mark" "Oznacz uruchomienie"
    ∷ says "mark_skip" "Pomiń"
    ∷ says "mark_done_toast" "Oznaczono"
    ∷ fills "mark_task_title" (λ id. codes "Oznacz zadanie „" ++ (shown id ++ codes "” jako?"))
    ∷ says "mark_task_body"
        "Ręcznie nadpisz stan zadania. Działające zadanie zostanie najpierw zatrzymane; oznaczenie sukcesu/pominięcia odblokowuje zależne zadania."
    ∷ fills "mark_run_title" (λ id. codes "Oznacz uruchomienie „" ++ (shown id ++ codes "” jako?"))
    ∷ says "mark_run_body"
        "Nadpisz zapisany wynik zakończonego uruchomienia (zadania bez zmian). Oznaczenie sukcesu wywoła wyzwalacze zależnych przepływów."
    ∷ fills "confirm_cancel_title"
        (λ id. codes "Anulować uruchomienie „" ++ (shown id ++ codes "”?"))
    ∷ says "confirm_cancel_body" "Działające zadania zostaną zabite."
    ∷ says "th_act" "Akcje"
    ∷ fills "confirm_retry_title" (λ id. codes "Ponowić „" ++ (shown id ++ codes "”?"))
    ∷ says "confirm_retry_body"
        "To zadanie i wszystkie jego zależne zostaną zresetowane i uruchomione ponownie."
    ∷ says "copied" "Skopiowano"
    ∷ says "copy_fail" "Kopiowanie nie powiodło się — zaznacz tekst ręcznie"
    ∷ says "copy_hint" "Kliknij, aby skopiować"
    ∷ says "search_ph" "Szukaj przepływów…"
    ∷ says "jump_open" "Otwórz"
    ∷ says "jump_none" "Brak pasującego przepływu"
    ∷ says "gz_in" "Powiększ"
    ∷ says "gz_out" "Pomniejsz"
    ∷ says "gz_fit" "Dopasuj"
    ∷ says "gz_hint" "Przeciągnij, aby przesunąć · Ctrl/⌘ + kółko, aby przybliżyć"
    ∷ says "login_title" "Zaloguj się do cronova"
    ∷ says "login_sub" "Wprowadź dane logowania"
    ∷ says "login_user" "Użytkownik"
    ∷ says "login_pass" "Hasło"
    ∷ says "login_btn" "Zaloguj"
    ∷ says "login_bad" "Nieprawidłowy użytkownik lub hasło"
    ∷ says "logout" "Wyloguj"
    ∷ says "sess_expired" "Sesja wygasła — zaloguj się ponownie"
    ∷ says "role_admin" "Administrator"
    ∷ says "role_viewer" "Podgląd"
    ∷ says "tab_runs" "Uruchomienia"
    ∷ says "tab_structure" "Struktura"
    ∷ says "tab_settings" "Ustawienia"
    ∷ says "dh_last" "Ostatnie uruchomienie"
    ∷ says "dh_next" "Harmonogram"
    ∷ says "dh_rate" "Skuteczność"
    ∷ says "dh_never" "Brak uruchomień"
    ∷ says "dh_norate" "—"
    ∷ says "set_done" "Gotowe"
    ∷ says "set_edit" "Edytuj"
    ∷ says "set_none" "Brak"
    ∷ says "set_sched" "Harmonogram"
    ∷ says "set_max" "Maks. aktywnych"
    ∷ says "set_retries" "Domyślne ponowienia"
    ∷ says "set_deps" "Nadrzędne przepływy"
    ∷ []

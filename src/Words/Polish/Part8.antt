-- ===== src/Words/Polish/Part8.antt =====
-- `DICT.pl` (internal/web/static/base.js, lines 305 to 345).
use poc_cronova_windows.Base.{List, [], codes, if◌then◌else◌, ◌++◌, ◌∷◌}
use poc_cronova_windows.Words.Phrase.{Entry, says, fills, fills_both, shown, above, polish_plural}

unfoldable pub polish_8 : List Entry
polish_8 =
    says "nvr_done_home" "Gotowe — wróć do strony głównej"
    ∷ says "nvr_detail" "Zobacz szczegóły"
    ∷ fills_both "nvr_failed_title" (λ n id.
      codes "Krok " ++ (shown n ++ (codes " " ++ (shown id ++ codes " nie powiódł się"))))
    ∷ says "nvr_failed_generic" "Uruchomienie nie powiodło się"
    ∷ says "nvr_failed_sub"
        "Wcześniejsze kroki zakończyły się sukcesem; późniejsze nie zostały uruchomione. Przyczyna w ostatnich liniach logu."
    ∷ fills "nvr_retried"
        (λ n. codes "Ponowiono automatycznie " ++ (shown n ++ codes " raz(y), nadal błąd."))
    ∷ says "nvr_cancelled_title" "Uruchomienie anulowane"
    ∷ says "nvr_timeout_title" "Przekroczono czas uruchomienia, zatrzymano"
    ∷ says "nvr_cancelled_sub"
        "Zatrzymałeś to uruchomienie. Jeśli polecenia wyglądają dobrze, możesz uruchomić je ponownie w dowolnej chwili."
    ∷ says "nvr_timeout_sub"
        "Uruchomienie przekroczyło limit czasu i zostało wymuszone do zatrzymania; późniejsze kroki nie zostały uruchomione."
    ∷ says "nvr_rerun" "Naprawione — uruchom ponownie ▶"
    ∷ says "nvr_rerun2" "Uruchom ponownie ▶"
    ∷ says "nvr_edit_steps" "Edytuj kroki"
    ∷ says "nvr_home" "Strona główna"
    ∷ says "nvr_waiting" "oczekiwanie"
    ∷ says "nvr_notrun" "nie uruchomiono"
    ∷ says "nvr_running_dur" "trwa…"
    ∷ fills "nvr_retry_n" (λ n. shown n ++ codes " ponowień")
    ∷ says "nv_health_ok" "Wszystko dobrze"
    ∷ fills "nv_health_line" (λ n.
      shown n
      ++ (codes " przepływ"
          ++ ((polish_plural n (codes "") (codes "y") (codes "ów"))
              ++ codes " · brak ostatnich błędów")))
    ∷ fills "nv_health_bad_title" (λ n.
      shown n
      ++ (codes " przepływ"
          ++ ((polish_plural n (codes "") (codes "y") (codes "ów")) ++ codes " wymaga uwagi")))
    ∷ fills "nv_health_bad_line" (λ id.
      shown id
      ++ codes ": ostatnie uruchomienie nie powiodło się · ponów jednym kliknięciem po naprawie")
    ∷ says "nv_fix" "Napraw →"
    ∷ says "nv_metrics_link" "Pełne metryki →"
    ∷ says "nv_run_btn" "▶ Uruchom"
    ∷ says "nv_view_btn" "Zobacz →"
    ∷ says "nv_next_hints" "Następnie możesz:"
    ∷ says "nv_hint_another" "utworzyć kolejny przepływ"
    ∷ says "nv_hint_expert" "przełącz w tryb eksperta"
    ∷ says "nv_never_ran" "jeszcze nie uruchomiono"
    ∷ fills "nv_last_run" (λ s. codes "ostatnie uruchomienie " ++ shown s)
    ∷ says "nv_enabled" "włączone"
    ∷ says "nv_run_now" "▶ Uruchom teraz"
    ∷ says "nv_more" "Więcej ⋯"
    ∷ says "nv_more_title" "Wstrzymaj / duplikuj / usuń i więcej"
    ∷ fills "nv_more_q" (λ id. codes "Co zrobić z " ++ (shown id ++ codes "?"))
    ∷ says "nv_more_expert" "Edytuj w trybie eksperta"
    ∷ says "nv_steps_h" "Kroki"
    ∷ says "nv_steps_hint" "(w trybie eksperta nazywane „zadania / task”)"
    ∷ says "nv_edit" "Edytuj"
    ∷ says "nv_add_step" "+ Dodaj krok"
    ∷ fills "nv_edit_step_title" (λ id. codes "Edytuj krok " ++ shown id)
    ∷ says "nv_del_step" "Usuń ten krok"
    ∷ says "nv_recent_h" "Ostatnie uruchomienia"
    ∷ says "nv_view_log" "Zobacz log →"
    ∷ says "nv_notify_h" "Powiadomienia o błędach"
    ∷ says "nv_notify_toggle" "Powiadom mnie o błędzie"
    ∷ says "nv_notify_hint"
        "Wklej URL webhook (Slack / Feishu / DingTalk rozpoznawane automatycznie). Wiadomość wysyłana przy nieudanym uruchomieniu."
    ∷ says "nv_adv_summary" "Więcej ustawień (współbieżność, ponowienia, limity czasu…)"
    ∷ fills_both "nv_adv_body" (λ r m.
      codes "Domyślne wystarczą na start: "
      ++ (if above 0 r then shown r ++ codes " automatycznych ponowień po błędzie, " else codes "")
      ++ (codes "maks. "
          ++ (shown m
              ++ (codes " uruchomien"
                  ++ (if above 1 m then codes "ia" else codes "ie")
                  ++ codes " jednocześnie."))))
    ∷ says "nv_adv_body2" "Rozwiń, gdy potrzebujesz szczegółowej kontroli, lub"
    ∷ says "nv_adv_body3" "dla wszystkich ustawień."
    ∷ says "nv_to_expert" "przełącz w tryb eksperta"
    ∷ fills_both "nv_fail_ribbon" (λ n id.
      codes "Krok " ++ (shown n ++ (codes " " ++ (shown id ++ codes " nie powiódł się"))))
    ∷ says "nv_fail_ribbon_generic" "Ostatnie uruchomienie nie powiodło się"
    ∷ says "nv_see_log" "zobacz log"
    ∷ says "nv_step_extract" "Pobierz dane"
    ∷ says "nv_step_transform" "Przekształć"
    ∷ says "nv_step_load" "Załaduj wyniki"
    ∷ says "nv_step_fetch" "Pobierz dane"
    ∷ says "nv_step_render" "Wygeneruj i wyślij raport"
    ∷ says "nv_step_1" "Pierwszy krok"
    ∷ says "aiwiki_title" "AI wiki — cronova"
    ∷ says "aiwiki_sub"
        "Zadaj pytanie o cronova. Odpowiedź powstanie na podstawie dokumentacji i DAG-ów."
    ∷ says "aiwiki_placeholder" "Zapytaj np. jak zrobić DAG…"
    ∷ says "aiwiki_send" "Wyślij"
    ∷ says "aiwiki_close" "Zamknij"
    ∷ says "aiwiki_speak" "Czytaj dokumentację"
    ∷ says "aiwiki_speak_unsupported" "Twoja przeglądarka nie obsługuje czytania tekstu."
    ∷ says "aiwiki_welcome"
        "Witaj! Jestem AI wiki cronova. Zapytaj mnie np. \"Jak zrobić DAG?\" lub \"Co to jest retry?\""
    ∷ says "aiwiki_error" "Błąd połączenia z AI wiki: "
    ∷ says "aiwiki_copied" "Skopiowano do schowka"
    ∷ says "aiwiki_triggered" "Wyzwolono DAG "
    ∷ says "aiwiki_no_runs" "Brak runów dla DAG "
    ∷ says "aiwiki_run_dag" "Uruchom ten DAG"
    ∷ says "aiwiki_dag_runs" "Historia runów"
    ∷ says "aiwiki_show_logs" "Pokaż logi"
    ∷ says "aiwiki_copy_cmd" "Kopiuj komendę CLI"
    ∷ says "aiwiki_open_docs" "Otwórz dokumentację"
    ∷ says "aiwiki_see_dag" "Zobacz DAG"
    ∷ says "aiwiki_browse_dags" "Przeglądaj DAG-i"
    ∷ says "aiwiki_sources" "Źródła: "
    ∷ says "aiwiki_fallback"
        "Nie znalazłem dokładnej odpowiedzi w bazie wiedzy. Spróbuj zapytać inaczej, np. 'Jak zrobić DAG?' lub 'Co to jest retry?'."
    ∷ []

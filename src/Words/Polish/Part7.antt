-- ===== src/Words/Polish/Part7.antt =====
-- `DICT.pl` (internal/web/static/base.js, lines 245 to 304).
use poc_cronova_windows.Base.{List, [], codes, ◌++◌, ◌∷◌}
use poc_cronova_windows.Words.Phrase.{Entry, fills_both, says, fills, shown}

unfoldable pub polish_7 : List Entry
polish_7 =
    says "wk_remove_body"
      "Usunięcie jest natychmiastowe i nieodwracalne: certyfikat węzła przestaje być akceptowany, więc nie może się ponownie połączyć — ponowne dołączenie wymaga nowego tokenu."
    ∷ says "wk_removed_toast" "Węzeł usunięty"
    ∷ says "wk_none_title" "Brak podłączonych węzłów"
    ∷ says "wk_none_sub" "Podłącz zdalny węzeł w dwóch krokach:"
    ∷ says "wk_join_step1" "Wygeneruj jednorazowy token dołączenia na tej stronie"
    ∷ says "wk_join_step2" "Uruchom na hoście węzła:"
    ∷ says "wk_token_btn" "Nowy token dołączenia"
    ∷ says "wk_token_title" "Wygeneruj jednorazowy token dołączenia"
    ∷ says "wk_token_ttl" "Wygasa za"
    ∷ says "wk_ttl_1h" "1 godzina"
    ∷ says "wk_ttl_24h" "24 godziny"
    ∷ says "wk_ttl_7d" "7 dni"
    ∷ says "wk_token_create" "Generuj"
    ∷ says "wk_token_reveal_h" "Twój token dołączenia"
    ∷ says "wk_token_warn"
        "Token widoczny tylko raz i można go użyć tylko raz — po zamknięciu nie będzie można go ponownie wyświetlić."
    ∷ says "wk_join_cmd_h" "Uruchom na hoście węzła:"
    ∷ says "wk_expires" "Wygasa"
    ∷ says "err_code_workers_disabled"
        "Hub węzłów nie jest włączony — ustaw worker_listen w konfiguracji serwera"
    ∷ says "wk_disabled_hint"
        "Serwer nie ma włączonego huba węzłów. Skonfiguruj worker_listen w cronova.yaml (lub ustaw CRONOVA_WORKER_LISTEN), zrestartuj i spróbuj ponownie."
    ∷ says "rel_now" "przed chwilą"
    ∷ fills "rel_ago" (λ s. shown s ++ codes " temu")
    ∷ says "set_policy" "Polityka wykonania"
    ∷ says "set_policy_hint"
        "Jak uruchomienia tego przepływu są dopuszczane, gdy kilka jest gotowych jednocześnie. Polityki szeregowe wymuszają maksymalnie jedno aktywne uruchomienie, niezależnie od maks. aktywnych."
    ∷ says "po_parallel" "Równolegle"
    ∷ says "po_serial_wait" "Szeregowo (kolejkuj)"
    ∷ says "po_serial_discard" "Szeregowo (porzuć)"
    ∷ says "po_serial_priority" "Szeregowo (priorytet)"
    ∷ says "pod_parallel"
        "Równolegle: do maks. aktywnych uruchomień wykonuje się jednocześnie (domyślnie)"
    ∷ says "pod_serial_wait"
        "Szeregowo-kolejkuj: jedno na raz; późniejsze uruchomienia kolejkują się i wykonują w kolejności logicznej daty"
    ∷ says "pod_serial_discard"
        "Szeregowo-porzuć: jedno na raz; uruchomienia przychodzące podczas zajętości są anulowane (widocznie, nigdy po cichu)"
    ∷ says "pod_serial_priority"
        "Szeregowo-priorytet: jedno na raz; kolejka obsługiwana według priorytetu uruchomienia"
    ∷ says "p_priority" "Priorytet"
    ∷ says "p_priority_hint"
        "-100 do 100, domyślnie 0; wyższy wygrywa o slot (i pierwszy obsługiwany w kolejce priorytetowej)"
    ∷ says "run_priority_tip" "Priorytet uruchomienia: wyższy wygrywa o slot"
    ∷ says "mode_novice" "Prosty"
    ∷ says "mode_expert" "Ekspert"
    ∷ says "mode_toggle_title"
        "Tryb interfejsu: Prosty pokazuje tylko niezbędne informacje, Ekspert pokazuje wszystkie metryki i akcje"
    ∷ says "nv_workbench" "Stanowisko"
    ∷ says "nv_myflows" "Moje przepływy"
    ∷ says "nv_shared" "Wspólna konfiguracja"
    ∷ says "nv_help" "Centrum pomocy"
    ∷ says "nv_sys_ok" "System zdrowy"
    ∷ says "nv_newflow" "+ Nowy przepływ"
    ∷ says "s0_title" "Powierz powtarzające się skrypty cronova"
    ∷ says "s0_sub" "Uruchamia zgodnie z harmonogramem, ponawia po błędach, logi zawsze pod ręką."
    ∷ says "s0_sub2" "Trzy kroki do pierwszego przepływu — około minuty."
    ∷ says "s0_step1" "Wybierz punkt wyjścia"
    ∷ says "s0_step2" "Potwierdź polecenia"
    ∷ says "s0_step3" "Uruchom raz i obserwuj, jak staje się zielone"
    ∷ says "s0_cta" "Utwórz mój pierwszy przepływ →"
    ∷ says "s0_expert_link" "Używałem Airflow / Azkaban — przejdź do trybu eksperta →"
    ∷ says "s0_term_hint"
        "„Przepływ pracy” to zestaw poleceń wykonywanych po kolei — techniczna nazwa to DAG. W trybie eksperta używane jest pełne nazewnictwo."
    ∷ says "wz_crumb" "Nowy przepływ"
    ∷ says "wz_back" "← Wstecz"
    ∷ fills "wz_stepof" (λ n. codes "Krok " ++ (shown n ++ codes " z 3"))
    ∷ says "wz1_title" "Wybierz scenariusz najbliższy Twojemu"
    ∷ says "wz1_sub" "Wszystko można później zmienić — to tylko punkt wyjścia."
    ∷ says "wz_tpl_etl" "Codzienny potok danych"
    ∷ says "wz_tpl_etl_d" "Pobierz, przekształć, załaduj — trzy kroki po kolei"
    ∷ says "wz_tpl_etl_m" "3 kroki · każdy czeka na sukces poprzedniego"
    ∷ says "wz_tpl_report" "Raport okresowy"
    ∷ says "wz_tpl_report_d" "Pobierz dane i wyślij raport — dobre dla codziennego raportu o 8:00"
    ∷ says "wz_tpl_report_m" "2 kroki · ustawiono codziennie 08:00"
    ∷ says "wz_tpl_blank" "Od zera"
    ∷ says "wz_tpl_blank_d" "Jeden krok uruchamiający dowolne polecenie lub skrypt"
    ∷ says "wz_tpl_blank_m" "1 krok · najprostszy"
    ∷ says "wz_tpl_blank_chip" "twoje polecenie"
    ∷ says "wz1_next" "Dalej: potwierdź polecenia →"
    ∷ says "wz2_title" "Te kroki wykonują się jeden po drugim"
    ∷ says "wz2_sub"
        "Polecenie to linia, którą wpisałbyś w terminalu. Każdy krok zaczyna się dopiero po sukcesie poprzedniego; błędy są automatycznie ponawiane."
    ∷ says "wz2_name_label" "Nazwij przepływ"
    ∷ says "wz2_name_hint" "Litery, cyfry lub podkreślenia — np. daily_report"
    ∷ says "wz2_adv"
        "Opcjonalnie: polecenia mogą zawierać zmienne czasu wykonania, zastępowane rzeczywistymi wartościami. Spróbuj —"
    ∷ says "wz2_datevar" "+ Dzisiejsza data"
    ∷ says "wz2_datevar_note" "dodaje na końcu polecenia kroku 1:"
    ∷ fills "wz2_inserted" (λ d.
      codes "Wstawiono ✓ zostanie zastąpione rzeczywistą datą podczas wykonania, np. --date "
      ++ (shown d ++ codes " (edytowalne w powyższym polu)"))
    ∷ says "wz2_next" "Dalej: kiedy ma się uruchamiać →"
    ∷ says "wz_prev" "← Wstecz"
    ∷ says "wz3_title" "Kiedy ma się uruchamiać?"
    ∷ says "wz3_sub" "Przybliżony wybór wystarczy — można to później zmienić."
    ∷ says "wz3_daily" "Codziennie o stałej porze"
    ∷ says "wz3_daily_d" "Najczęstsze: nocne przetwarzanie danych, poranne raporty"
    ∷ says "wz3_interval" "Co jakiś czas"
    ∷ says "wz3_interval_d" "Dobre dla odpytywania i zadań synchronizacyjnych"
    ∷ says "wz3_every" "co"
    ∷ says "wz3_minutes" "minut"
    ∷ says "wz3_manual" "Tylko gdy ja to wyzwolę"
    ∷ says "wz3_manual_d" "Najpierw uruchom ręcznie — zautomatyzuj, gdy zaufasz"
    ∷ says "wz3_note"
        "Po utworzeniu przejdziemy od razu do próbnego uruchomienia, aby potwierdzić, że wszystko działa."
    ∷ says "wz3_cron_hint"
        "W trybie eksperta to wyrażenie cron (np. 0 2 * * *) z potężniejszymi regułami."
    ∷ says "wz3_create" "▶ Utwórz i uruchom raz"
    ∷ fills "nv_sched_daily"
        (λ h. codes "Będzie uruchamiany codziennie o " ++ (shown h ++ codes "."))
    ∷ fills "nv_sched_interval"
        (λ n. codes "Będzie uruchamiany co " ++ (shown n ++ codes " minut."))
    ∷ says "nv_sched_manual" "Uruchamia się tylko po kliknięciu „Uruchom” — nigdy automatycznie."
    ∷ fills "nv_gloss_daily" (λ h. codes "codziennie o " ++ shown h)
    ∷ fills_both "nv_gloss_every" (λ n u. codes "co " ++ (shown n ++ (codes " " ++ shown u)))
    ∷ says "nv_gloss_manual" "tylko ręcznie"
    ∷ fills "nvr_running_title" (λ d. codes "Uruchamianie " ++ (shown d ++ codes " …"))
    ∷ says "nvr_sub" "Kroki postępują automatycznie — nie trzeba odświeżać."
    ∷ fills "nvr_done_title" (λ d. codes "Sukces w " ++ shown d)
    ∷ says "nvr_done_sub" "W razie błędu automatycznie ponowi i zachowa logi."
    ∷ []

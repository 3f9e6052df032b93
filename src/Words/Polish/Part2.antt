-- ===== src/Words/Polish/Part2.antt =====
-- `DICT.pl` (internal/web/static/base.js, lines 72 to 95).
use poc_cronova_windows.Base.{List, [], codes, ◌++◌, ◌∷◌}
use poc_cronova_windows.Words.Phrase.{Entry, says, fills, fills_both, shown}

unfoldable pub polish_2 : List Entry
polish_2 =
    says "set_deps_hint" "Wyzwalane automatycznie po sukcesie tych przepływów"
    ∷ says "set_no_deps_avail" "Brak innych dostępnych przepływów"
    ∷ says "set_notify" "Powiadomienia"
    ∷ says "set_notify_hint"
        "Wyślij JSON webhook po zakończeniu uruchomienia (kompatybilne ze Slack/Feishu/Discord) lub odwołaj się do grupy alertów, aby powiadomić wiele kanałów naraz"
    ∷ says "notify_failure" "Błąd"
    ∷ says "notify_success" "Sukces"
    ∷ says "notify_off" "Nie wybrano zdarzeń"
    ∷ says "notify_need_url"
        "Najpierw podaj URL webhook lub wybierz grupę alertów, potem zaznacz zdarzenia"
    ∷ says "err_notify_url" "URL powiadomienia musi zaczynać się od http://, https:// lub mailto:"
    ∷ says "nf_label" "Format wiadomości"
    ∷ says "nf_hint"
        "raw = pełne JSON; pozostałe opakowują podsumowanie w formacie danego kanału; email dla celów mailto:"
    ∷ says "nf_feishu" "Feishu"
    ∷ says "nf_dingtalk" "DingTalk"
    ∷ says "nf_email" "Email"
    ∷ says "set_group" "Grupa alertów"
    ∷ says "ag_group_none" "Bez grupy alertów"
    ∷ fills "ag_opt_missing" (λ n. shown n ++ codes " (brak)")
    ∷ says "ag_url_overridden" "Wybrano grupę alertów — ten osobny URL zostanie zignorowany"
    ∷ says "notify_mailto_hint"
        "URL akceptuje też mailto:addr1,addr2 (wymaga skonfigurowanego smtp: po stronie serwera)"
    ∷ says "btn_backfill" "Uzupełnij"
    ∷ says "bf_hint"
        "Dodaj po jednym uruchomieniu na okres harmonogramu w zakresie (włącznie; istniejące okresy są pomijane, wykonanie podlega maks. aktywnym)"
    ∷ says "bf_from" "Od"
    ∷ says "bf_to" "Do"
    ∷ says "bf_go" "Uzupełnij"
    ∷ says "bf_need_dates" "Wybierz obie daty"
    ∷ fills_both "bf_done" (λ c s.
      codes "Uzupełnianie zakolejkowane: utworzono "
      ++ (shown c ++ (codes ", pominięto " ++ shown s)))
    ∷ says "rf_all" "Wszystkie"
    ∷ says "rf_running" "Aktywne"
    ∷ says "rf_failed" "Nieudane"
    ∷ says "rf_success" "Sukces"
    ∷ says "t_backoff" "Wycofanie ponowień"
    ∷ says "bo_fixed" "Stałe"
    ∷ says "bo_exponential" "Wykładnicze"
    ∷ says "t_backoff_hint" "Wykładnicze: n-te ponowienie czeka delay × 2ⁿ⁻¹"
    ∷ says "t_backoffmax" "Limit wycofania (s)"
    ∷ says "t_backoffmax_hint" "Najdłuższy czas wykładniczego wycofania; 0 = bez limitu"
    ∷ says "set_sla" "SLA (miękkie)"
    ∷ says "set_sla_hint"
        "Od startu uruchomienia; alert jeśli nie zakończone w czasie (uruchomienie trwa dalej). 0 = wyłączone. Wymaga URL powiadomienia."
    ∷ says "set_timeout" "Limit czasu uruchomienia (twardy)"
    ∷ says "set_timeout_hint"
        "Od startu uruchomienia; po przekroczeniu uruchomienie kończy się błędem i zabija działające zadania → timed_out. 0 = wyłączone."
    ∷ says "secs" "s"
    ∷ says "set_off" "wył."
    ∷ says "t_sla" "SLA zadania (s)"
    ∷ says "t_sla_hint"
        "Od startu uruchomienia; alert jeśli to zadanie nie zakończyło się w czasie. 0 = wyłączone."
    ∷ says "t_timeout_hint" "Zabij pojedyncze wykonanie po tylu sekundach. 0 = brak."
    ∷ says "danger_title" "Strefa niebezpieczeństwa"
    ∷ says "danger_del_hint"
        "Zarchiwizuj ten przepływ: brak dalszego planowania; historia zachowana."
    ∷ says "nd_more" "Harmonogram i więcej"
    ∷ says "nd_less" "Ukryj"
    ∷ says "nav_resources" "Zmienne i połączenia"
    ∷ says "nav_audit" "Audyt"
    ∷ says "nav_api" "API"
    ∷ says "nav_ai_providers" "AI Provider"
    ∷ says "nv_ai_providers" "AI Provider"
    ∷ says "nav_aiwiki" "AI wiki"
    ∷ says "nv_aiwiki" "AI wiki"
    ∷ says "ai_title" "AI Provider"
    ∷ says "ai_sub" "Skonfiguruj lokalny serwer zgodny z OpenAI. Token jest szyfrowany AES-256-GCM."
    ∷ says "ai_id" "ID"
    ∷ says "ai_name" "Nazwa wyświetlana"
    ∷ says "ai_url" "Base URL"
    ∷ says "ai_model" "Model"
    ∷ says "ai_token" "API Token"
    ∷ says "ai_default" "Ustaw jako domyślny"
    ∷ says "ai_url_ph" "http://127.0.0.1:4141/v1"
    ∷ says "ai_model_ph" "np. gpt-4o-mini"
    ∷ says "ai_name_ph" "Lokalny serwer"
    ∷ says "ai_need_url" "Base URL jest wymagane"
    ∷ says "ai_need_model" "Model jest wymagany"
    ∷ says "ai_need_token" "API Token jest wymagany"
    ∷ says "ai_save" "Zapisz provider"
    ∷ says "ai_none" "Brak skonfigurowanego AI Provider"
    ∷ says "ai_edit" "Edytuj provider"
    ∷ says "ai_add" "Nowy provider"
    ∷ fills "ai_del_title" (λ n. codes "Usunąć AI Provider „" ++ (shown n ++ codes "”?"))
    ∷ says "ai_saved" "Zapisano"
    ∷ says "ai_deleted" "Usunięto"
    ∷ says "audit_sub" "Dziennik operacji: kto, kiedy i co zrobił z danym przepływem/uruchomieniem."
    ∷ says "audit_empty" "Brak zarejestrowanych operacji"
    ∷ says "au_time" "Czas"
    ∷ says "au_actor" "Użytkownik"
    ∷ says "au_action" "Akcja"
    ∷ says "au_target" "Cel"
    ∷ says "act_trigger" "wyzwól"
    ∷ says "act_cancel" "anuluj"
    ∷ says "act_retry_run" "ponów uruchomienie"
    ∷ says "act_retry_task" "ponów zadanie"
    ∷ says "act_mark_task" "oznacz zadanie"
    ∷ says "act_mark_run" "oznacz uruchomienie"
    ∷ says "act_update_dag" "zapisz przepływ"
    ∷ says "act_create_dag" "utwórz DAG"
    ∷ says "act_delete_dag" "zarchiwizuj DAG"
    ∷ says "act_pause" "wstrzymaj"
    ∷ says "act_unpause" "wznów"
    ∷ says "act_create_token" "utwórz token"
    ∷ says "act_delete_token" "unieważnij token"
    ∷ says "act_set_alert_group" "zapisz grupę alertów"
    ∷ says "act_delete_alert_group" "usuń grupę alertów"
    ∷ says "act_set_ai_provider" "zapisz AI provider"
    ∷ says "act_delete_ai_provider" "usuń AI provider"
    ∷ []

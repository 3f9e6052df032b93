-- ===== src/Words/Polish/Part3.antt =====
-- `DICT.pl` (internal/web/static/base.js, lines 96 to 130).
use poc_cronova_windows.Base.{List, [], codes, ◌++◌, ◌∷◌}
use poc_cronova_windows.Words.Phrase.{Entry, says, fills, shown, polish_plural}

unfoldable pub polish_3 : List Entry
polish_3 =
    says "api_title" "API i integracje"
    ∷ says "api_sub"
        "Steruj cronova z własnej platformy. Przeglądaj interaktywną dokumentację API i zarządzaj tokenami maszynowymi."
    ∷ says "api_docs_h" "Dokumentacja API"
    ∷ says "api_docs_hint"
        "Pełna referencja OpenAPI z przykładami curl / Go / Python / Java i przełącznikiem języka na stronie."
    ∷ says "api_open_docs" "Otwórz dokumentację API →"
    ∷ says "api_spec_link" "Specyfikacja OpenAPI"
    ∷ says "tok_title" "Tokeny API"
    ∷ says "tok_sub"
        "Dane uwierzytelniające dla maszyn. Wywołuj API z nagłówkiem Authorization: Bearer <token>. Tekst jawny widoczny tylko raz, przy tworzeniu."
    ∷ says "tok_name" "Nazwa"
    ∷ says "tok_role" "Rola"
    ∷ says "tok_prefix" "Prefiks"
    ∷ says "tok_created" "Utworzono"
    ∷ says "tok_lastused" "Ostatnie użycie"
    ∷ says "tok_never" "Nigdy"
    ∷ says "tok_create" "Utwórz token"
    ∷ says "tok_none" "Brak tokenów"
    ∷ says "tok_name_ph" "np. ci-bot"
    ∷ says "tok_revoke" "Unieważnij"
    ∷ says "tok_need_name" "Nazwa jest wymagana"
    ∷ fills "tok_revoke_title" (λ n. codes "Unieważnić token „" ++ (shown n ++ codes "”?"))
    ∷ says "tok_revoke_body" "Wywołania z tym tokenem natychmiast zawiodą. Nie można tego cofnąć."
    ∷ says "tok_created_ok" "Token utworzony"
    ∷ says "tok_revoked" "Token unieważniony"
    ∷ says "tok_reveal_h" "Twój nowy token API"
    ∷ says "tok_reveal_warn"
        "Skopiuj go teraz i przechowaj bezpiecznie — nie będzie można ponownie wyświetlić tekstu jawnego."
    ∷ says "tok_copy" "Kopiuj"
    ∷ says "tok_done" "Zapisano"
    ∷ says "role_admin_full" "Administrator (odczyt/zapis)"
    ∷ says "role_operator" "Operator (wyzwól/anuluj/ponów)"
    ∷ says "role_viewer_ro" "Tylko podgląd (tylko GET)"
    ∷ says "res_vars" "Zmienne"
    ∷ says "res_conns" "Połączenia"
    ∷ says "res_groups" "Grupy alertów"
    ∷ says "res_sub"
        "Konfiguracja współdzielona między zadaniami. Odwołuj się w poleceniach jako {{ var.KLUCZ }} / {{ conn.ID.pole }} lub {{ params.KLUCZ }} przy wyzwalaniu."
    ∷ says "ag_hint"
        "Połącz kilka kanałów powiadomień pod jedną nazwą i odwołuj się do niej z przepływów przez notify.group; gdy zmieni się dyżur, wystarczy edytować je tutaj."
    ∷ says "ag_name" "Nazwa grupy"
    ∷ says "ag_channels" "Kanały"
    ∷ says "ag_updated" "Zaktualizowano"
    ∷ fills "ag_channel_n"
        (λ n. shown n ++ (codes " kanał" ++ (polish_plural n (codes "") (codes "y") (codes "ów"))))
    ∷ says "ag_none" "Brak grup alertów"
    ∷ says "ag_add" "Nowa grupa alertów"
    ∷ says "ag_edit" "Edytuj grupę alertów"
    ∷ says "ag_add_channel" "+ Dodaj kanał"
    ∷ says "ag_remove_channel" "Usuń kanał"
    ∷ says "ag_fmt" "Format"
    ∷ says "ag_url_ph" "https://hooks.slack.com/… lub mailto:oncall@example.com"
    ∷ fills "ag_max" (λ n. codes "maks. " ++ (shown n ++ codes " kanałów"))
    ∷ says "ag_err_channels" "Grupa alertów wymaga 1-16 kanałów"
    ∷ says "ag_err_url" "URL kanału musi zaczynać się od http://, https:// lub mailto:"
    ∷ says "ag_mailto_hint"
        "Kanały mailto: wysyłane są przez serwer SMTP — najpierw skonfiguruj sekcję smtp: w pliku konfiguracyjnym"
    ∷ fills "ag_del_title" (λ n. codes "Usunąć grupę alertów „" ++ (shown n ++ codes "”?"))
    ∷ says "ag_del_body"
        "Przepływy odwołujące się do niej wrócą do własnego URL powiadomień lub domyślnego — żaden alert nie zginie."
    ∷ says "v_key" "Klucz"
    ∷ says "v_value" "Wartość"
    ∷ says "v_add" "Dodaj zmienną"
    ∷ says "v_none" "Brak zmiennych"
    ∷ says "v_save" "Zapisz"
    ∷ says "c_id" "ID połączenia"
    ∷ says "c_type" "Typ"
    ∷ says "c_host" "Host"
    ∷ says "c_port" "Port"
    ∷ says "c_login" "Login"
    ∷ says "c_password" "Hasło"
    ∷ says "c_extra" "Dodatkowe (JSON)"
    ∷ says "c_add" "Nowe połączenie"
    ∷ says "c_edit" "Edytuj połączenie"
    ∷ says "c_none" "Brak połączeń"
    ∷ says "c_pw_set" "ustawione"
    ∷ says "c_pw_none" "nieustawione"
    ∷ says "c_pw_keep" "pozostaw puste, aby zachować"
    ∷ fills "c_del_title" (λ id. codes "Usunąć połączenie „" ++ (shown id ++ codes "\"?"))
    ∷ fills "v_del_title" (λ k. codes "Usunąć zmienną „" ++ (shown k ++ codes "\"?"))
    ∷ says "del_body" "Tej operacji nie można cofnąć."
    ∷ says "trig_params" "Wyzwól z parametrami"
    ∷ says "p_params" "Parametry"
    ∷ says "p_add" "Dodaj wiersz"
    ∷ says "p_key" "Klucz"
    ∷ says "p_val" "Wartość"
    ∷ says "p_trigger" "Wyzwól"
    ∷ says "p_hint"
        "Parametry są wstrzykiwane jako zmienne środowiskowe CRONOVA_PARAM_*; odwołuj się jako {{ params.klucz }} w poleceniach."
    ∷ says "run_params" "Parametry"
    ∷ says "res_saved" "Zapisano"
    ∷ says "res_deleted" "Usunięto"
    ∷ says "err_key" "Nieprawidłowa nazwa (tylko litery, cyfry, _ . -)"
    ∷ says "btn_trigger" "▶ Wyzwól"
    ∷ says "btn_pause" "Wstrzymaj"
    ∷ says "btn_resume" "Wznów"
    ∷ says "btn_delete" "Usuń"
    ∷ fills "confirm_del_dag_title"
        (λ id. codes "Zarchiwizować przepływ „" ++ (shown id ++ codes "\"?"))
    ∷ says "confirm_del_dag_body"
        "Zostanie zarchiwizowany (ukryty z list); historia uruchomień zachowana, można przywrócić."
    ∷ says "dag_archived" "Ten przepływ jest zarchiwizowany (usunięty)."
    ∷ says "confirm_word" "Potwierdź"
    ∷ says "cancel_word" "Anuluj"
    ∷ says "aria_theme" "Zmień motyw"
    ∷ says "aria_lang" "Zmień język"
    ∷ says "toast_run_queued" "Wyzwolono — uruchomienie zakolejkowane"
    ∷ says "toast_pool_saved" "Pool zapisany"
    ∷ says "toast_dag_deleted" "Przepływ zarchiwizowany"
    ∷ says "th_id" "id"
    ∷ says "th_type" "typ"
    ∷ says "th_command" "polecenie"
    ∷ says "th_deps" "zależności"
    ∷ []

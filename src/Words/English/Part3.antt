-- ===== src/Words/English/Part3.antt =====
-- `DICT.en` (internal/web/static/base.js, lines 404 to 438).
use poc_cronova_windows.Base.{List, [], codes, if◌then◌else◌, ◌++◌, ◌∷◌}
use poc_cronova_windows.Words.Phrase.{Entry, says, fills, shown, above}

unfoldable pub english_3 : List Entry
english_3 =
    says "api_title" "API & Integration"
    ∷ says "api_sub"
        "Drive cronova from your own platform. Browse the interactive API reference and manage API tokens for machine access."
    ∷ says "api_docs_h" "API reference"
    ∷ says "api_docs_hint"
        "Full OpenAPI reference with built-in curl / Go / Python / Java samples and an in-page language switcher."
    ∷ says "api_open_docs" "Open API reference →"
    ∷ says "api_spec_link" "OpenAPI spec"
    ∷ says "tok_title" "API Tokens"
    ∷ says "tok_sub"
        "Machine credentials. Call the API with Authorization: Bearer <token>. The plaintext is shown only once, at creation."
    ∷ says "tok_name" "Name"
    ∷ says "tok_role" "Role"
    ∷ says "tok_prefix" "Prefix"
    ∷ says "tok_created" "Created"
    ∷ says "tok_lastused" "Last used"
    ∷ says "tok_never" "Never used"
    ∷ says "tok_create" "Create token"
    ∷ says "tok_none" "No tokens yet"
    ∷ says "tok_name_ph" "e.g. ci-bot"
    ∷ says "tok_revoke" "Revoke"
    ∷ says "tok_need_name" "Name is required"
    ∷ fills "tok_revoke_title" (λ n. codes "Revoke token “" ++ (shown n ++ codes "”?"))
    ∷ says "tok_revoke_body" "Calls using this token will fail immediately. This cannot be undone."
    ∷ says "tok_created_ok" "Token created"
    ∷ says "tok_revoked" "Token revoked"
    ∷ says "tok_reveal_h" "Your new API token"
    ∷ says "tok_reveal_warn"
        "Copy it now and store it securely — you won't be able to see the plaintext again."
    ∷ says "tok_copy" "Copy"
    ∷ says "tok_done" "I've saved it"
    ∷ says "role_admin_full" "Admin (read-write)"
    ∷ says "role_operator" "Operator (trigger/cancel/retry)"
    ∷ says "role_viewer_ro" "Viewer (GET only)"
    ∷ says "res_vars" "Variables"
    ∷ says "res_conns" "Connections"
    ∷ says "res_groups" "Alert groups"
    ∷ says "res_sub"
        "Config shared across tasks. Reference in commands as {{ var.KEY }} / {{ conn.ID.field }}, or {{ params.KEY }} at trigger time."
    ∷ says "ag_hint"
        "Bundle several notify channels under one name and reference it from workflows via notify.group; when the on-call destinations change, edit them here once."
    ∷ says "ag_name" "Group name"
    ∷ says "ag_channels" "Channels"
    ∷ says "ag_updated" "Updated"
    ∷ fills "ag_channel_n"
        (λ n. shown n ++ (codes " channel" ++ (if above 1 n then codes "s" else codes "")))
    ∷ says "ag_none" "No alert groups yet"
    ∷ says "ag_add" "New alert group"
    ∷ says "ag_edit" "Edit alert group"
    ∷ says "ag_add_channel" "+ Add channel"
    ∷ says "ag_remove_channel" "Remove channel"
    ∷ says "ag_fmt" "Format"
    ∷ says "ag_url_ph" "https://hooks.slack.com/… or mailto:oncall@example.com"
    ∷ fills "ag_max" (λ n. codes "up to " ++ (shown n ++ codes " channels"))
    ∷ says "ag_err_channels" "An alert group needs 1-16 channels"
    ∷ says "ag_err_url" "Channel URL must start with http://, https:// or mailto:"
    ∷ says "ag_mailto_hint"
        "mailto: channels are sent through the server's SMTP relay — configure the smtp: section of the config file first"
    ∷ fills "ag_del_title" (λ n. codes "Delete alert group “" ++ (shown n ++ codes "”?"))
    ∷ says "ag_del_body"
        "Workflows referencing it fall back to their own notify URL or the instance default — no alert is lost."
    ∷ says "v_key" "Key"
    ∷ says "v_value" "Value"
    ∷ says "v_add" "Add variable"
    ∷ says "v_none" "No variables yet"
    ∷ says "v_save" "Save"
    ∷ says "c_id" "Connection ID"
    ∷ says "c_type" "Type"
    ∷ says "c_host" "Host"
    ∷ says "c_port" "Port"
    ∷ says "c_login" "Login"
    ∷ says "c_password" "Password"
    ∷ says "c_extra" "Extra (JSON)"
    ∷ says "c_add" "New connection"
    ∷ says "c_edit" "Edit connection"
    ∷ says "c_none" "No connections yet"
    ∷ says "c_pw_set" "set"
    ∷ says "c_pw_none" "not set"
    ∷ says "c_pw_keep" "leave blank to keep"
    ∷ fills "c_del_title" (λ id. codes "Delete connection “" ++ (shown id ++ codes "”?"))
    ∷ fills "v_del_title" (λ k. codes "Delete variable “" ++ (shown k ++ codes "”?"))
    ∷ says "del_body" "This cannot be undone."
    ∷ says "trig_params" "Trigger with params"
    ∷ says "p_params" "Params"
    ∷ says "p_add" "Add row"
    ∷ says "p_key" "Key"
    ∷ says "p_val" "Value"
    ∷ says "p_trigger" "Trigger"
    ∷ says "p_hint"
        "Params are injected as CRONOVA_PARAM_* env vars; reference as {{ params.key }} in commands."
    ∷ says "run_params" "Params"
    ∷ says "res_saved" "Saved"
    ∷ says "res_deleted" "Deleted"
    ∷ says "err_key" "Invalid name (letters, digits, _ . - only)"
    ∷ says "btn_trigger" "▶ Trigger run"
    ∷ says "btn_pause" "Pause"
    ∷ says "btn_resume" "Resume"
    ∷ says "btn_delete" "Delete"
    ∷ fills "confirm_del_dag_title" (λ id. codes "Archive workflow “" ++ (shown id ++ codes "”?"))
    ∷ says "confirm_del_dag_body"
        "It will be archived (hidden from lists); run history is kept and it can be restored."
    ∷ says "dag_archived" "This workflow is archived (deleted)."
    ∷ says "confirm_word" "Confirm"
    ∷ says "cancel_word" "Cancel"
    ∷ says "aria_theme" "Toggle theme"
    ∷ says "aria_lang" "Switch language"
    ∷ says "toast_run_queued" "Triggered — run queued"
    ∷ says "toast_pool_saved" "Pool saved"
    ∷ says "toast_dag_deleted" "Workflow archived"
    ∷ says "th_id" "id"
    ∷ says "th_type" "type"
    ∷ says "th_command" "command"
    ∷ says "th_deps" "deps"
    ∷ []

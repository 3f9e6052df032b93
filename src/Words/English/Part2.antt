-- ===== src/Words/English/Part2.antt =====
-- `DICT.en` (internal/web/static/base.js, lines 379 to 403).
use poc_cronova_windows.Base.{List, [], codes, ◌++◌, ◌∷◌}
use poc_cronova_windows.Words.Phrase.{Entry, says, fills, fills_both, shown}

unfoldable pub english_2 : List Entry
english_2 =
    says "set_done" "Done"
    ∷ says "set_edit" "Edit"
    ∷ says "set_none" "None"
    ∷ says "set_sched" "Schedule"
    ∷ says "set_max" "Max active runs"
    ∷ says "set_retries" "Default retries"
    ∷ says "set_deps" "Upstream workflows"
    ∷ says "set_deps_hint" "Triggered automatically after these workflows succeed"
    ∷ says "set_no_deps_avail" "No other workflows available"
    ∷ says "set_notify" "Notifications"
    ∷ says "set_notify_hint"
        "POST a JSON webhook when a run finishes (Slack/Feishu/Discord compatible), or reference an alert group to notify several channels at once"
    ∷ says "notify_failure" "Failure"
    ∷ says "notify_success" "Success"
    ∷ says "notify_off" "No events selected"
    ∷ says "notify_need_url" "Enter a webhook URL or pick an alert group first, then pick events"
    ∷ says "err_notify_url" "Notify URL must start with http://, https:// or mailto:"
    ∷ says "nf_label" "Message format"
    ∷ says "nf_hint"
        "raw = full JSON payload; the others wrap the summary text in that platform's incoming-webhook envelope; email is for mailto: targets"
    ∷ says "nf_feishu" "Feishu"
    ∷ says "nf_dingtalk" "DingTalk"
    ∷ says "nf_email" "Email"
    ∷ says "set_group" "Alert group"
    ∷ says "ag_group_none" "No alert group"
    ∷ fills "ag_opt_missing" (λ n. shown n ++ codes " (missing)")
    ∷ says "ag_url_overridden" "An alert group is selected — this standalone URL will be ignored"
    ∷ says "notify_mailto_hint"
        "The URL also accepts mailto:addr1,addr2 (requires smtp: configured on the server)"
    ∷ says "btn_backfill" "Backfill"
    ∷ says "bf_hint"
        "Enqueue one run per schedule period in the window (inclusive; existing periods are skipped, execution obeys max active runs)"
    ∷ says "bf_from" "From"
    ∷ says "bf_to" "To"
    ∷ says "bf_go" "Backfill"
    ∷ says "bf_need_dates" "Pick both dates"
    ∷ fills_both "bf_done" (λ c s.
      codes "Backfill enqueued: "
      ++ (shown c ++ (codes " run(s) created, " ++ (shown s ++ codes " skipped"))))
    ∷ says "rf_all" "All"
    ∷ says "rf_running" "Active"
    ∷ says "rf_failed" "Failed"
    ∷ says "rf_success" "Success"
    ∷ says "t_backoff" "Retry backoff"
    ∷ says "bo_fixed" "Fixed"
    ∷ says "bo_exponential" "Exponential"
    ∷ says "t_backoff_hint" "Exponential: the n-th retry waits retry delay × 2ⁿ⁻¹"
    ∷ says "t_backoffmax" "Backoff cap (s)"
    ∷ says "t_backoffmax_hint" "Longest exponential wait; 0 = uncapped"
    ∷ says "set_sla" "SLA (soft)"
    ∷ says "set_sla_hint"
        "From run start; alert if not finished in time (run keeps going). 0 = off. Needs a notify webhook."
    ∷ says "set_timeout" "Run timeout (hard)"
    ∷ says "set_timeout_hint"
        "From run start; on breach the run is force-failed and running tasks killed → timed_out. 0 = off."
    ∷ says "secs" "sec"
    ∷ says "set_off" "off"
    ∷ says "t_sla" "Task SLA (sec)"
    ∷ says "t_sla_hint" "From run start; alert if this task hasn't finished in time. 0 = off."
    ∷ says "t_timeout_hint" "Kill a single execution after this many seconds. 0 = none."
    ∷ says "danger_title" "Danger zone"
    ∷ says "danger_del_hint" "Archive this workflow: no more scheduling; history is kept."
    ∷ says "nd_more" "Schedule & more options"
    ∷ says "nd_less" "Hide"
    ∷ says "nav_resources" "Variables & Connections"
    ∷ says "nav_audit" "Audit"
    ∷ says "nav_api" "API"
    ∷ says "nav_ai_providers" "AI Provider"
    ∷ says "nv_ai_providers" "AI Provider"
    ∷ says "nav_aiwiki" "AI wiki"
    ∷ says "nv_aiwiki" "AI wiki"
    ∷ says "ai_title" "AI Provider"
    ∷ says "ai_sub"
        "Configure one OpenAI-compatible local proxy. The token is sealed with AES-256-GCM."
    ∷ says "ai_id" "ID"
    ∷ says "ai_name" "Display name"
    ∷ says "ai_url" "Base URL"
    ∷ says "ai_model" "Model"
    ∷ says "ai_token" "API Token"
    ∷ says "ai_default" "Set as default"
    ∷ says "ai_url_ph" "http://127.0.0.1:4141/v1"
    ∷ says "ai_model_ph" "e.g. gpt-4o-mini"
    ∷ says "ai_name_ph" "Local proxy"
    ∷ says "ai_need_url" "Base URL is required"
    ∷ says "ai_need_model" "Model is required"
    ∷ says "ai_need_token" "API Token is required"
    ∷ says "ai_save" "Save provider"
    ∷ says "ai_none" "No AI provider configured yet"
    ∷ says "ai_edit" "Edit provider"
    ∷ says "ai_add" "New provider"
    ∷ fills "ai_del_title" (λ n. codes "Delete AI provider “" ++ (shown n ++ codes "”?"))
    ∷ says "ai_saved" "Saved"
    ∷ says "ai_deleted" "Deleted"
    ∷ says "audit_sub" "Operations log: who did what to which DAG/run, and when."
    ∷ says "audit_empty" "No operations logged yet"
    ∷ says "au_time" "Time"
    ∷ says "au_actor" "Actor"
    ∷ says "au_action" "Action"
    ∷ says "au_target" "Target"
    ∷ says "act_trigger" "trigger"
    ∷ says "act_cancel" "cancel"
    ∷ says "act_retry_run" "retry run"
    ∷ says "act_retry_task" "retry task"
    ∷ says "act_mark_task" "mark task"
    ∷ says "act_mark_run" "mark run"
    ∷ says "act_update_dag" "save workflow"
    ∷ says "act_create_dag" "create DAG"
    ∷ says "act_delete_dag" "delete DAG"
    ∷ says "act_pause" "pause"
    ∷ says "act_unpause" "unpause"
    ∷ says "act_create_token" "create token"
    ∷ says "act_delete_token" "revoke token"
    ∷ says "act_set_alert_group" "save alert group"
    ∷ says "act_delete_alert_group" "delete alert group"
    ∷ says "act_set_ai_provider" "save AI provider"
    ∷ says "act_delete_ai_provider" "delete AI provider"
    ∷ []

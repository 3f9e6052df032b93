-- ===== src/Words/English/Part7.antt =====
-- `DICT.en` (internal/web/static/base.js, lines 552 to 614).
use poc_cronova_windows.Base.{List, [], codes, ◌++◌, ◌∷◌}
use poc_cronova_windows.Words.Phrase.{Entry, fills_both, says, fills, shown}

unfoldable pub english_7 : List Entry
english_7 =
    says "wk_remove" "Remove"
    ∷ fills "wk_remove_title" (λ n. codes "Remove worker “" ++ (shown n ++ codes "”?"))
    ∷ says "wk_remove_body"
        "Removal is immediate and cannot be undone: the worker's certificate stops being accepted, so it cannot reconnect — rejoining requires a fresh join token."
    ∷ says "wk_removed_toast" "Worker removed"
    ∷ says "wk_none_title" "No workers have joined yet"
    ∷ says "wk_none_sub" "Attach a remote worker in two steps:"
    ∷ says "wk_join_step1" "Mint a one-time join token on this page"
    ∷ says "wk_join_step2" "Run on the worker host:"
    ∷ says "wk_token_btn" "New join token"
    ∷ says "wk_token_title" "Mint a one-time join token"
    ∷ says "wk_token_ttl" "Expires in"
    ∷ says "wk_ttl_1h" "1 hour"
    ∷ says "wk_ttl_24h" "24 hours"
    ∷ says "wk_ttl_7d" "7 days"
    ∷ says "wk_token_create" "Mint token"
    ∷ says "wk_token_reveal_h" "Your join token"
    ∷ says "wk_token_warn"
        "This token is shown only once and can be used only once — you won't see it again after closing."
    ∷ says "wk_join_cmd_h" "Run on the worker host:"
    ∷ says "wk_expires" "Expires"
    ∷ says "err_code_workers_disabled"
        "Worker hub is not enabled — set worker_listen in the server config"
    ∷ says "wk_disabled_hint"
        "The server has no worker hub enabled. Configure worker_listen in cronova.yaml (or set CRONOVA_WORKER_LISTEN), restart, and try again."
    ∷ says "rel_now" "just now"
    ∷ fills "rel_ago" (λ s. shown s ++ codes " ago")
    ∷ says "set_policy" "Execution policy"
    ∷ says "set_policy_hint"
        "How runs of this workflow are admitted when several are ready at once. Serial policies force at most one active run, whatever Max active runs says."
    ∷ says "po_parallel" "Parallel"
    ∷ says "po_serial_wait" "Serial (wait)"
    ∷ says "po_serial_discard" "Serial (discard)"
    ∷ says "po_serial_priority" "Serial (priority)"
    ∷ says "pod_parallel" "Parallel: up to Max active runs execute concurrently (default)"
    ∷ says "pod_serial_wait"
        "Serial wait: one at a time; later runs queue and execute in logical-date order"
    ∷ says "pod_serial_discard"
        "Serial discard: one at a time; runs arriving while busy are cancelled (visibly, never silently)"
    ∷ says "pod_serial_priority"
        "Serial priority: one at a time; the queue drains highest run priority first"
    ∷ says "p_priority" "Priority"
    ∷ says "p_priority_hint"
        "-100 to 100, default 0; higher wins the competition for dispatch slots (and drains first from a serial_priority queue)"
    ∷ says "run_priority_tip" "Run priority: higher wins dispatch-slot competition"
    ∷ says "mode_novice" "Simple"
    ∷ says "mode_expert" "Expert"
    ∷ says "mode_toggle_title"
        "Interface mode: Simple keeps only the essentials; Expert shows every metric and action"
    ∷ says "nv_workbench" "Workbench"
    ∷ says "nv_myflows" "My workflows"
    ∷ says "nv_shared" "Shared config"
    ∷ says "nv_help" "Help center"
    ∷ says "nv_sys_ok" "System healthy"
    ∷ says "nv_newflow" "+ New workflow"
    ∷ says "s0_title" "Hand your repetitive scripts to cronova"
    ∷ says "s0_sub" "Runs on schedule, retries on failure, logs always at hand."
    ∷ says "s0_sub2" "Three steps to your first workflow — about a minute."
    ∷ says "s0_step1" "Pick a starting point"
    ∷ says "s0_step2" "Confirm the commands"
    ∷ says "s0_step3" "Run once, watch it go green"
    ∷ says "s0_cta" "Create my first workflow →"
    ∷ says "s0_expert_link" "I've used Airflow / Azkaban — take me to expert mode →"
    ∷ says "s0_term_hint"
        "A “workflow” is a set of commands run in order — the technical term is DAG. Expert mode uses the full terminology."
    ∷ says "wz_crumb" "New workflow"
    ∷ says "wz_back" "← Back"
    ∷ fills "wz_stepof" (λ n. codes "Step " ++ (shown n ++ codes " of 3"))
    ∷ says "wz1_title" "Pick the scenario closest to yours"
    ∷ says "wz1_sub" "Everything can be changed later — this is just a starting point."
    ∷ says "wz_tpl_etl" "Daily data pipeline"
    ∷ says "wz_tpl_etl_d" "Fetch, transform, then load — three steps in order"
    ∷ says "wz_tpl_etl_m" "3 steps · each waits for the previous to succeed"
    ∷ says "wz_tpl_report" "Scheduled report"
    ∷ says "wz_tpl_report_d" "Fetch data and send a report — great for a daily 8am digest"
    ∷ says "wz_tpl_report_m" "2 steps · preset daily 08:00"
    ∷ says "wz_tpl_blank" "From scratch"
    ∷ says "wz_tpl_blank_d" "A single step running any command or script of yours"
    ∷ says "wz_tpl_blank_m" "1 step · simplest"
    ∷ says "wz_tpl_blank_chip" "your command"
    ∷ says "wz1_next" "Next: confirm commands →"
    ∷ says "wz2_title" "These steps run one after another"
    ∷ says "wz2_sub"
        "A command is the line you'd type in a terminal. Each step starts only after the previous succeeds; failures retry automatically."
    ∷ says "wz2_name_label" "Name your workflow"
    ∷ says "wz2_name_hint" "Letters, digits or underscores — e.g. daily_report"
    ∷ says "wz2_adv"
        "Optional: commands can embed runtime variables, replaced with real values at run time. Try it —"
    ∷ says "wz2_datevar" "+ Today's date"
    ∷ says "wz2_datevar_note" "appends to the end of step 1's command:"
    ∷ fills "wz2_inserted" (λ d.
      codes "Inserted ✓ replaced with the actual date at run time, e.g. --date "
      ++ (shown d ++ codes " (editable in the input above)"))
    ∷ says "wz2_next" "Next: when should it run →"
    ∷ says "wz_prev" "← Previous"
    ∷ says "wz3_title" "When should it run?"
    ∷ says "wz3_sub" "A rough choice is fine — change it any time later."
    ∷ says "wz3_daily" "Every day at a fixed time"
    ∷ says "wz3_daily_d" "Most common: crunch data at night, send reports in the morning"
    ∷ says "wz3_interval" "At a regular interval"
    ∷ says "wz3_interval_d" "Good for polling and sync jobs"
    ∷ says "wz3_every" "every"
    ∷ says "wz3_minutes" "minutes"
    ∷ says "wz3_manual" "Only when I trigger it"
    ∷ says "wz3_manual_d" "Run it by hand first — automate once you trust it"
    ∷ says "wz3_note"
        "After creating, we'll take you straight to a trial run to confirm everything works."
    ∷ says "wz3_cron_hint"
        "In expert mode this is a cron expression (e.g. 0 2 * * *) with more powerful rules."
    ∷ says "wz3_create" "▶ Create & run once"
    ∷ fills "nv_sched_daily"
        (λ h. codes "It will run automatically every day at " ++ (shown h ++ codes "."))
    ∷ fills "nv_sched_interval"
        (λ n. codes "It will run automatically every " ++ (shown n ++ codes " minutes."))
    ∷ says "nv_sched_manual" "It only runs when you click “Run” — never automatically."
    ∷ fills "nv_gloss_daily" (λ h. codes "daily at " ++ shown h)
    ∷ fills_both "nv_gloss_every" (λ n u. codes "every " ++ (shown n ++ (codes " " ++ shown u)))
    ∷ says "nv_gloss_manual" "manual only"
    ∷ []

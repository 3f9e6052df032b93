-- ===== src/Words/English/Part6.antt =====
-- `DICT.en` (internal/web/static/base.js, lines 514 to 551).
use poc_cronova_windows.Base.{List, [], codes, ◌++◌, ◌∷◌}
use poc_cronova_windows.Words.Phrase.{Entry, says, fills, fills_both, shown}

unfoldable pub english_6 : List Entry
english_6 =
    says "diff_show" "View diff"
    ∷ says "diff_hide" "Hide diff"
    ∷ says "diff_loading" "Building diff preview…"
    ∷ says "diff_invalid" "Pending changes fail validation"
    ∷ says "diff_same" "Identical to the saved version"
    ∷ says "diff_discarded" "Unsaved changes discarded"
    ∷ says "t_subdag" "Target workflow"
    ∷ says "subdag_hint"
        "Runs another workflow as a child run: this task mirrors the child run's terminal state, and cancel cascades into it"
    ∷ says "subdag_none" "Pick a workflow…"
    ∷ says "err_subdag" "A sub-workflow task needs a target workflow"
    ∷ says "dod_title" "Cross-workflow dependency"
    ∷ says "dod_hint"
        "The task becomes ready only after the target workflow's matching period run succeeds"
    ∷ says "dod_dag" "Depends on workflow"
    ∷ says "dod_offset" "Period offset"
    ∷ says "dod_offset_hint" "- 1d / .month_start / blank = same period"
    ∷ says "dod_timeout" "Wait timeout (sec)"
    ∷ says "dod_timeout_hint" "0 = wait until the run times out"
    ∷ says "dod_on_timeout" "On timeout"
    ∷ says "dod_fail" "fail"
    ∷ says "dod_skip" "skip"
    ∷ says "parent_run" "Parent run"
    ∷ says "child_run" "Child run"
    ∷ says "nav_graph" "Graph"
    ∷ says "graph_title" "Workflow Graph"
    ∷ says "graph_sub" "Trigger dependencies between workflows via trigger_after"
    ∷ says "graph_none" "No cross-workflow dependencies yet (none declares trigger_after)"
    ∷ says "graph_view_hint"
        "Tip: arrows point in the trigger-after direction; click a node to open that workflow; dashed nodes are unknown workflows"
    ∷ says "ss_saved" "Saved"
    ∷ says "ss_saving" "Saving…"
    ∷ says "ss_invalid" "Fix errors to save"
    ∷ says "ss_error" "Save failed"
    ∷ says "dag_no_tasks_title" "No tasks yet"
    ∷ says "dag_no_tasks_sub" "Add a task to enable this workflow"
    ∷ says "dag_disabled_hint" "Add a task to enable triggering"
    ∷ says "nd_title" "New workflow"
    ∷ says "nd_create" "Create"
    ∷ says "nd_cancel" "Cancel"
    ∷ says "nd_dagid_dup" "A DAG with this id already exists"
    ∷ says "tpl_start" "Start from a template"
    ∷ says "tpl_tasks" "tasks"
    ∷ says "tpl_blank" "Blank"
    ∷ says "tpl_blank_d" "Start empty and add tasks yourself"
    ∷ says "tpl_etl" "Daily ETL"
    ∷ says "tpl_etl_d" "Three-step extract → transform → load pipeline"
    ∷ says "tpl_report" "Scheduled report"
    ∷ says "tpl_report_d" "Fetch → render, preset to run daily at 08:00"
    ∷ says "tpl_fanout" "Fan-out / fan-in"
    ∷ says "tpl_fanout_d" "start → two parallel branches → join"
    ∷ says "coach_tpl_ready"
        "Template ready — hit “Trigger run” to watch it execute, then tweak the tasks"
    ∷ fills_both "sp_every" (λ n u. codes "Runs every " ++ (shown n ++ (codes " " ++ shown u)))
    ∷ says "sp_next" "Next"
    ∷ says "sp_invalid" "Invalid expression — cannot compute fire times"
    ∷ says "tz_note" "Schedules evaluate in UTC; times shown in your local timezone"
    ∷ says "btn_duplicate" "⧉ Duplicate"
    ∷ says "dup_dag_title" "Duplicate as a new workflow (enter a new id)"
    ∷ says "dup_done" "Duplicated"
    ∷ says "y_copy" "Copy"
    ∷ says "y_download" "Download"
    ∷ says "y_close" "Close"
    ∷ says "y_copied" "YAML copied to clipboard"
    ∷ says "y_copy_fail" "Copy failed — select the text manually"
    ∷ says "nd_import_yaml" "or paste YAML to import…"
    ∷ says "nd_back_form" "← back to the form"
    ∷ says "nd_import" "Import"
    ∷ says "nd_yaml_empty" "Paste some YAML first"
    ∷ says "nd_imported" "YAML imported"
    ∷ says "gs_title" "Getting started"
    ∷ says "gs_create" "Create your first workflow"
    ∷ says "gs_trigger" "Trigger a run"
    ∷ says "gs_green" "Get a green run"
    ∷ says "adv_options" "Advanced options"
    ∷ says "log_find_ph" "Find in log…"
    ∷ says "log_download" "Download full log"
    ∷ fills "log_matches" (λ n. shown n ++ codes " matching lines")
    ∷ fills "log_capped" (λ n. codes "showing last " ++ (shown n ++ codes " lines"))
    ∷ fills "back_dag" (λ d. codes "← Back to " ++ shown d)
    ∷ fills "confirm_del_task_title" (λ id. codes "Delete task “" ++ (shown id ++ codes "”?"))
    ∷ says "nav_workers" "Workers"
    ∷ says "wk_sub"
        "Remote workers dialed into this scheduler: live state, load, and drain/remove operations. Tasks route to a group via worker_group."
    ∷ says "wk_name" "Name"
    ∷ says "wk_group" "Group"
    ∷ says "wk_state" "State"
    ∷ says "wk_active" "Active tasks"
    ∷ says "wk_version" "Version"
    ∷ says "wk_heartbeat" "Last heartbeat"
    ∷ says "wk_created" "Joined"
    ∷ says "wk_online" "online"
    ∷ says "wk_offline" "offline"
    ∷ says "wk_lost" "lost"
    ∷ says "wk_draining" "draining"
    ∷ says "wk_unnamed" "(unnamed)"
    ∷ says "wk_drain" "Drain"
    ∷ says "wk_undrain" "Undrain"
    ∷ fills "wk_drain_title" (λ n. codes "Drain worker “" ++ (shown n ++ codes "”?"))
    ∷ says "wk_drain_body"
        "A draining worker gets no new assignments; its running tasks finish normally. You can undrain it any time."
    ∷ fills "wk_undrain_title" (λ n. codes "Undrain worker “" ++ (shown n ++ codes "”?"))
    ∷ says "wk_undrain_body" "The worker resumes receiving task assignments."
    ∷ says "wk_drained_toast" "Draining started"
    ∷ says "wk_undrained_toast" "Assignments resumed"
    ∷ []

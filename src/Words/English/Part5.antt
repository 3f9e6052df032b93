-- ===== src/Words/English/Part5.antt =====
-- `DICT.en` (internal/web/static/base.js, lines 483 to 513).
use poc_cronova_windows.Base.{List, [], codes, if◌then◌else◌, ◌++◌, ◌∷◌}
use poc_cronova_windows.Words.Phrase.{Entry, says, fills, fills_both, shown, above}

unfoldable pub english_5 : List Entry
english_5 =
    says "proj_filename" "Filename"
    ∷ says "proj_content" "Script content"
    ∷ says "proj_do_upload" "Upload"
    ∷ fills "proj_selected" (λ n. shown n ++ codes " file(s) selected")
    ∷ says "proj_uploaded" "Project uploaded"
    ∷ says "proj_upload_fail" "Upload failed"
    ∷ says "proj_need_name" "Enter a project name first"
    ∷ says "proj_need_files" "Choose files or write script content first"
    ∷ says "proj_manage" "Manage projects"
    ∷ says "err_dagid" "Valid DAG ID required (letters/digits/_-.)"
    ∷ says "err_taskid" "Invalid task ID (letters/digits/_-.)"
    ∷ says "err_dup" "Duplicate task ID"
    ∷ says "err_emptyid" "Empty task ID"
    ∷ says "err_emptycmd" "Empty command"
    ∷ says "err_cycle" "Dependency cycle detected"
    ∷ says "sched" "Schedule"
    ∷ says "sm_manual" "Manual"
    ∷ says "sm_every" "Interval"
    ∷ says "sm_cron" "Cron expression"
    ∷ says "sched_manual_hint" "Manual trigger or triggered by an upstream workflow only"
    ∷ says "sched_every_pre" "Every"
    ∷ says "unit_s" "sec"
    ∷ says "unit_m" "min"
    ∷ says "unit_h" "hr"
    ∷ says "disabled_note" "(coming soon)"
    ∷ says "cp_min" "every minute"
    ∷ says "cp_hour" "hourly"
    ∷ says "cp_day" "daily 0:00"
    ∷ says "cp_2am" "daily 2:00"
    ∷ says "cp_mon" "Mon 0:00"
    ∷ says "cron_help" "help"
    ∷ says "ch_title" "Cron format"
    ∷ says "ch_format" "Format: min hour day month weekday (5 space-separated fields)"
    ∷ says "ch_fields" "Fields"
    ∷ says "ch_ops" "Operators"
    ∷ says "ch_examples" "Examples (click to fill)"
    ∷ says "ch_shortcuts" "Shortcuts"
    ∷ says "t_rule" "Trigger rule"
    ∷ says "tr_all_success" "all success"
    ∷ says "tr_all_done" "all done"
    ∷ says "tr_one_success" "one success"
    ∷ says "tr_one_failed" "one failed"
    ∷ says "tr_all_failed" "all failed"
    ∷ says "tr_none_failed" "none failed"
    ∷ says "trd_all_success" "Runs only if all upstreams succeeded (default)"
    ∷ says "trd_all_done"
        "Runs once all upstreams finish, success or not — good for cleanup/summary"
    ∷ says "trd_one_success" "Runs as soon as any upstream succeeds"
    ∷ says "trd_one_failed" "Runs as soon as any upstream fails — good for alerts"
    ∷ says "trd_all_failed" "Runs only if all upstreams failed"
    ∷ says "trd_none_failed" "Runs if no upstream failed (succeeded or skipped)"
    ∷ says "pool_hint"
        "Concurrency slots shared across all DAGs; tasks in the same pool compete for its slots"
    ∷ says "cb_interp" "Interpreter"
    ∷ says "cb_runas" "Run as"
    ∷ says "cb_target" "Module / script"
    ∷ says "cb_args" "Arguments"
    ∷ says "cb_jar" "Jar path"
    ∷ says "cb_mainclass" "Main class"
    ∷ says "cb_client" "SQL client"
    ∷ says "cb_query" "SQL query"
    ∷ says "cmdopt_module" "module (-m)"
    ∷ says "cmdopt_script" "script file"
    ∷ says "cmd_will_run" "Will run:"
    ∷ says "cmd_edit_raw" "edit raw command"
    ∷ says "cmd_use_form" "use form"
    ∷ says "cmd_cant_parse" "This command can't be parsed into the form; keeping the raw editor"
    ∷ says "var_insert" "click or drag to insert a variable"
    ∷ says "var_editor_aria" "command editor — insert variable pills"
    ∷ fills "var_pill_aria" (λ n. codes "variable " ++ shown n)
    ∷ fills "var_pill_remove" (λ n. codes "remove variable " ++ shown n)
    ∷ says "var_empty" "none"
    ∷ says "var_add_key" "custom…"
    ∷ says "var_conn_field" "field"
    ∷ says "var_goto_settings" "set up"
    ∷ says "vd_logical_date" "this run's logical date (day)"
    ∷ says "vd_logical_datetime" "logical date-time (RFC3339)"
    ∷ says "vd_date_expr"
        "date expression: ±N d/h/w/mo offsets, .month_start/.month_end/.week_start/.week_end anchors, | %Y%m%d custom format; composable"
    ∷ says "vd_run_id" "this run's unique id"
    ∷ says "vd_dag_id" "the DAG id"
    ∷ says "vd_task_id" "this task's id"
    ∷ says "vd_try_number" "attempt number (increments on retry)"
    ∷ says "vd_var" "shared variable"
    ∷ says "vd_conn" "connection field"
    ∷ says "vd_params" "manual-trigger param"
    ∷ says "vg_builtin" "built-in"
    ∷ says "vg_var" "variables"
    ∷ says "vg_conn" "connections"
    ∷ says "vg_params" "params"
    ∷ says "graph_connect_hint"
        "Drag the dot on a node's right edge onto another task to connect; click a node to edit the task; Shift+click two nodes (or toggle connect mode and click them in turn) also connects/disconnects; click an edge to remove the dependency"
    ∷ says "ge_addtask" "+ Add task"
    ∷ says "ge_connect" "Connect mode"
    ∷ says "ge_connect_tip"
        "When on: click the upstream task, then the downstream task to connect/disconnect (keyboard friendly)"
    ∷ says "ge_new_id_title" "New task ID"
    ∷ says "ge_edge_remove" "Remove dependency"
    ∷ says "ge_dup_dep" "Dependency already exists"
    ∷ fills_both "ge_edge_aria" (λ a b.
      codes "Dependency "
      ++ (shown a ++ (codes " → " ++ (shown b ++ codes ", press Enter to remove"))))
    ∷ fills "ge_node_aria" (λ id. codes "Task " ++ shown id)
    ∷ fills "diff_unsaved"
        (λ n. shown n ++ (codes " unsaved change" ++ (if above 1 n then codes "s" else codes "")))
    ∷ says "diff_save" "Save"
    ∷ says "diff_discard" "Discard"
    ∷ []

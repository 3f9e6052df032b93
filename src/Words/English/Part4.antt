-- ===== src/Words/English/Part4.antt =====
-- `DICT.en` (internal/web/static/base.js, lines 439 to 482).
use poc_cronova_windows.Base.{List, [], codes, if◌then◌else◌, ◌++◌, ◌∷◌}
use poc_cronova_windows.Words.Phrase.{Entry, says, fills, fills_both, shown, above}

unfoldable pub english_4 : List Entry
english_4 =
    says "th_logical" "logical date"
    ∷ says "th_state" "state"
    ∷ says "th_trig" "trigger"
    ∷ says "th_started" "started"
    ∷ says "th_dur" "duration"
    ∷ says "th_task" "task"
    ∷ says "th_try" "try"
    ∷ says "th_logs" "logs"
    ∷ says "no_runs" "No runs yet — trigger one."
    ∷ says "k_logical" "logical date"
    ∷ says "k_trig" "trigger"
    ∷ says "k_dur" "duration"
    ∷ says "k_started" "started"
    ∷ says "log_word" "Log"
    ∷ says "live" "live"
    ∷ says "pools_sub" "Global concurrency slots, shared across all workflows and runs."
    ∷ says "p_name" "name"
    ∷ says "p_slots" "slots"
    ∷ says "p_save" "Save"
    ∷ says "p_newname" "new pool name"
    ∷ says "p_create" "Create pool"
    ∷ says "p_need" "name + positive slots required"
    ∷ says "trig_fail" "trigger failed"
    ∷ says "api_err" "API error"
    ∷ says "err_code_not_found" "Not found (it may have been deleted)"
    ∷ says "err_code_no_tasks" "This workflow has no steps yet — add one before running it"
    ∷ says "err_code_bad_mark_state" "That state is not a valid mark target"
    ∷ says "err_code_queue_full" "The run queue is full — try again shortly"
    ∷ says "err_code_active_runs"
        "This workflow still has active runs — cancel or wait for them first"
    ∷ says "err_code_run_not_active" "This run has already finished — nothing to cancel"
    ∷ says "err_code_nothing_to_retry" "This run has no failed steps to retry"
    ∷ says "err_code_run_still_active" "This run is still active — retry it after it finishes"
    ∷ says "err_code_bad_group_name"
        "Invalid alert group name (letters, digits, _ . - only; max 128 chars)"
    ∷ says "err_code_dag_conflict"
        "This workflow changed since you loaded it — reload to merge your edits; retrying will conflict again"
    ∷ says "err_code_group_channels" "An alert group needs 1-16 channels"
    ∷ says "err_code_group_channel_url" "Channel URL must start with http://, https:// or mailto:"
    ∷ says "err_code_group_channel_format"
        "Invalid channel format (raw / slack / feishu / dingtalk / email)"
    ∷ says "dt_hint"
        "Duration trend: taller = slower, color = outcome; click a bar to open that run"
    ∷ says "runs_more" "Load more ↓"
    ∷ says "audit_more" "Load more ↓"
    ∷ says "log_all" "All tasks"
    ∷ says "bulk_all" "Select all (current filter)"
    ∷ fills "bulk_pick" (λ id. codes "Select " ++ shown id)
    ∷ fills "bulk_selected" (λ n.
      shown n
      ++ (codes " workflow" ++ (if above 1 n then codes "s" else codes "") ++ codes " selected"))
    ∷ fills_both "bulk_done" (λ ok n.
      codes "Bulk action done: " ++ (shown ok ++ (codes "/" ++ (shown n ++ codes " succeeded"))))
    ∷ fills "bulk_del_title" (λ n.
      codes "Archive the "
      ++ (shown n
          ++ (codes " selected workflow"
              ++ (if above 1 n then codes "s" else codes "")
              ++ codes "?")))
    ∷ says "au_f_actor" "Filter by actor"
    ∷ says "au_f_action" "Filter by action"
    ∷ says "au_f_all" "All"
    ∷ says "nx_paused" "paused"
    ∷ says "nx_due" "due"
    ∷ fills "nx_in" (λ m. codes "in " ++ (shown m ++ codes "m"))
    ∷ says "b_dag_info" "DAG info"
    ∷ says "f_dag_id" "DAG ID"
    ∷ says "f_start" "Start date"
    ∷ says "f_catchup" "Catchup"
    ∷ says "f_maxactive" "Max active"
    ∷ says "f_defretries" "Default retries"
    ∷ says "f_catchup_hint"
        "When on, every schedule period missed since start_date gets a backfilled run (at most one per tick, bounded by max active runs — no thundering herd)"
    ∷ says "f_trigger_after" "Trigger after (upstream success)"
    ∷ says "b_addtask" "+ Add task"
    ∷ says "b_remove" "Remove"
    ∷ says "t_id" "Task ID"
    ∷ says "t_type" "Type"
    ∷ says "t_command" "Command"
    ∷ says "t_pool" "Pool"
    ∷ says "t_priority" "Priority"
    ∷ says "t_http" "HTTP request"
    ∷ says "http_method" "Method"
    ∷ says "http_url" "URL"
    ∷ says "http_headers" "Headers"
    ∷ says "http_headers_hint" "One per line, Key: Value — supports {{ var. }} / {{ conn. }}"
    ∷ says "http_body" "Body"
    ∷ says "http_status" "Expected status"
    ∷ says "http_status_hint" "Comma-separated, e.g. 200,201; empty = any 2xx"
    ∷ says "err_httpurl" "HTTP task requires a URL"
    ∷ says "t_python" "Python code"
    ∷ says "python_hint"
        "Inline Python run with python -c; CRONOVA_* vars are in the environment; supports {{ var. }} templates. Non-zero exit = failure."
    ∷ says "t_sql" "SQL query"
    ∷ says "sql_conn" "Connection"
    ∷ says "sql_conn_hint"
        "A configured connection id (its type picks the driver: postgres/mysql/sqlite). See Variables & Connections."
    ∷ says "err_sqlconn" "SQL task requires a connection"
    ∷ says "t_retries" "Retries (empty=default)"
    ∷ says "t_retrydelay" "Retry delay (s)"
    ∷ says "t_timeout" "Timeout (s)"
    ∷ says "t_deps" "Depends on"
    ∷ says "t_nodeps" "no other tasks"
    ∷ says "t_project" "Project"
    ∷ says "t_optional" "(optional)"
    ∷ says "proj_none" "None (no project)"
    ∷ says "proj_upload" "Upload / new project"
    ∷ says "proj_hint"
        "When set, the command runs inside a clean copy of this project (e.g. python main.py). PowerShell tasks only."
    ∷ says "proj_name" "Project name"
    ∷ says "proj_name_bad" "Name may contain only letters/digits/. _ -"
    ∷ says "proj_mode_files" "Upload files / folder"
    ∷ says "proj_mode_inline" "Write a script"
    ∷ says "proj_drop" "Drag files or a folder here"
    ∷ says "proj_pick_files" "Choose files"
    ∷ says "proj_pick_folder" "Choose folder"
    ∷ says "proj_ziphint" "Drop a .zip to auto-extract"
    ∷ []

-- ===== src/Words/English/Part1.antt =====
-- `DICT.en` (internal/web/static/base.js, lines 348 to 378).
use poc_cronova_windows.Base.{List, [], codes, ◌++◌, ◌∷◌}
use poc_cronova_windows.Words.Phrase.{Entry, says, fills, shown}

unfoldable pub english_1 : List Entry
english_1 =
    says "workspace" "Workspace"
    ∷ says "nav_dags" "Workflows"
    ∷ says "newdag" "+ New workflow"
    ∷ says "f_all" "All"
    ∷ says "f_running" "Running"
    ∷ says "f_failed" "Failed"
    ∷ says "f_paused" "Paused"
    ∷ says "dags_sub"
        "Click a name for runs and structure; the left toggle pauses / resumes scheduling."
    ∷ fills "ov_fail_title" (λ id. shown id ++ codes ": latest run failed")
    ∷ fills "ov_fail_more" (λ n. shown n ++ codes " more failing")
    ∷ fills "ov_rest_ok" (λ n. codes "the other " ++ (shown n ++ codes " are healthy"))
    ∷ says "ov_all_ok" "All workflows healthy"
    ∷ fills "ov_last_run" (λ w. codes "last run " ++ shown w)
    ∷ says "ov_running" "Running"
    ∷ says "ov_running_tip" "Runs currently executing"
    ∷ says "ov_rate" "Recent success"
    ∷ says "ov_go" "Investigate →"
    ∷ says "hlp_dag"
        "<b>A workflow (DAG)</b> = tasks that run in dependency order, plus a rule for when to run. <span class=\"eg\">e.g. daily at 2:00 — extract → transform → load.</span>"
    ∷ says "hlp_toggle"
        "<b>Schedule switch.</b> Off = no more automatic runs (manual trigger still works); history is kept and it can be re-enabled any time."
    ∷ says "hlp_spark"
        "Each bar is one run: <b class=\"ok\">green</b>=success, <b class=\"bad\">red</b>=failed, <b class=\"run\">blue</b>=running; taller = slower. Hover for details."
    ∷ says "hlp_next" "Next automatic run per the schedule. “due” = waiting for a free slot."
    ∷ says "hlp_rate"
        "Share of recent runs that succeeded (up to 14 per workflow; skips and cancellations don't count)."
    ∷ says "toggle_tip_on" "Enabled — click to pause scheduling"
    ∷ says "toggle_tip_off" "Paused — click to resume scheduling"
    ∷ says "btn_run_word" "Run"
    ∷ says "run_now_tip" "Run once now, manually — doesn't affect the schedule"
    ∷ says "day_today" "today"
    ∷ says "day_yesterday" "yesterday"
    ∷ says "h_dag" "WORKFLOW"
    ∷ says "h_spark" "LAST 14"
    ∷ says "h_pool" "POOL"
    ∷ says "h_next" "NEXT RUN"
    ∷ says "no_match" "No matching workflows"
    ∷ says "no_match_filter" "No workflows under this filter"
    ∷ says "no_dags_title" "No workflows yet"
    ∷ says "no_dags_sub" "Create your first workflow to start scheduling tasks."
    ∷ says "trigger" "Trigger"
    ∷ says "manual_trigger" "manual trigger"
    ∷ says "back_dags" "← Workflows"
    ∷ says "run_word" "run"
    ∷ says "sub_manual" "manual trigger only"
    ∷ says "max_active" "max active"
    ∷ says "run_progress" "Progress"
    ∷ says "sec_graph" "Dependency graph"
    ∷ says "sec_structure" "Structure"
    ∷ says "sec_runs" "Run history"
    ∷ says "sec_instances" "Task instances"
    ∷ says "g_timeline" "Timeline"
    ∷ says "g_never_ran" "did not run"
    ∷ says "run_no_tasks" "No task instances yet for this run"
    ∷ says "run_done_ok" "Run finished — success"
    ∷ says "run_done_fail" "Run failed"
    ∷ says "run_done_timeout" "Run timed out"
    ∷ says "run_cancel" "Cancel run"
    ∷ says "run_retry" "Retry failed"
    ∷ says "task_retry" "Retry"
    ∷ says "run_cancelled_toast" "Run cancelled"
    ∷ says "run_retried_toast" "Re-queued"
    ∷ says "task_mark" "Mark state"
    ∷ says "run_mark" "Mark run"
    ∷ says "mark_skip" "Skip"
    ∷ says "mark_done_toast" "Marked"
    ∷ fills "mark_task_title" (λ id. codes "Mark task “" ++ (shown id ++ codes "” as?"))
    ∷ says "mark_task_body"
        "Manually override the task state. A running task is stopped first; marking success/skip releases downstream tasks it was blocking."
    ∷ fills "mark_run_title" (λ id. codes "Mark run “" ++ (shown id ++ codes "” as?"))
    ∷ says "mark_run_body"
        "Override a finished run's recorded outcome (tasks untouched). Marking success fires downstream-workflow triggers."
    ∷ fills "confirm_cancel_title" (λ id. codes "Cancel run “" ++ (shown id ++ codes "”?"))
    ∷ says "confirm_cancel_body" "Running tasks will be killed."
    ∷ says "th_act" "Actions"
    ∷ fills "confirm_retry_title" (λ id. codes "Retry “" ++ (shown id ++ codes "”?"))
    ∷ says "confirm_retry_body"
        "This task and all of its downstream tasks will be reset and re-run."
    ∷ says "copied" "Copied"
    ∷ says "copy_fail" "Copy failed — select the text manually"
    ∷ says "copy_hint" "Click to copy"
    ∷ says "search_ph" "Search workflows…"
    ∷ says "jump_open" "Open"
    ∷ says "jump_none" "No matching workflow"
    ∷ says "gz_in" "Zoom in"
    ∷ says "gz_out" "Zoom out"
    ∷ says "gz_fit" "Fit to view"
    ∷ says "gz_hint" "Drag to pan · Ctrl/⌘ + wheel to zoom"
    ∷ says "login_title" "Sign in to cronova"
    ∷ says "login_sub" "Enter your account credentials"
    ∷ says "login_user" "Username"
    ∷ says "login_pass" "Password"
    ∷ says "login_btn" "Sign in"
    ∷ says "login_bad" "Invalid username or password"
    ∷ says "logout" "Sign out"
    ∷ says "sess_expired" "Session expired — please sign in again"
    ∷ says "role_admin" "Admin"
    ∷ says "role_viewer" "Viewer"
    ∷ says "tab_runs" "Runs"
    ∷ says "tab_structure" "Structure"
    ∷ says "tab_settings" "Settings"
    ∷ says "dh_last" "Last run"
    ∷ says "dh_next" "Schedule"
    ∷ says "dh_rate" "Success rate"
    ∷ says "dh_never" "No runs yet"
    ∷ says "dh_norate" "—"
    ∷ []

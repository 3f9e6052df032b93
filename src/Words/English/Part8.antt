-- ===== src/Words/English/Part8.antt =====
-- `DICT.en` (internal/web/static/base.js, lines 615 to 657).
use poc_cronova_windows.Base.{List, [], codes, if◌then◌else◌, ◌++◌, ◌∷◌}
use poc_cronova_windows.Words.Phrase.{Entry, says, fills, fills_both, shown, above}

unfoldable pub english_8 : List Entry
english_8 =
    fills "nvr_running_title" (λ d. codes "Running " ++ (shown d ++ codes " …"))
    ∷ says "nvr_sub" "Steps advance automatically — no need to refresh."
    ∷ fills "nvr_done_title" (λ d. codes "Run succeeded in " ++ shown d)
    ∷ says "nvr_done_sub" "On failure it retries automatically and keeps the logs here."
    ∷ says "nvr_done_home" "Done — back home"
    ∷ says "nvr_detail" "View details"
    ∷ fills_both "nvr_failed_title"
        (λ n id. codes "Step " ++ (shown n ++ (codes " " ++ (shown id ++ codes " failed"))))
    ∷ says "nvr_failed_generic" "The run failed"
    ∷ says "nvr_failed_sub"
        "Earlier steps succeeded; later ones didn't run. See the last lines of the log for the cause."
    ∷ fills "nvr_retried"
        (λ n. codes "Retried " ++ (shown n ++ codes " time(s) automatically, still failing."))
    ∷ says "nvr_cancelled_title" "Run cancelled"
    ∷ says "nvr_timeout_title" "Run timed out and was stopped"
    ∷ says "nvr_cancelled_sub"
        "You stopped this run. If the commands look right, run it again any time."
    ∷ says "nvr_timeout_sub"
        "The run exceeded its time limit and was force-stopped; later steps did not run."
    ∷ says "nvr_rerun" "Fixed — run again ▶"
    ∷ says "nvr_rerun2" "Run again ▶"
    ∷ says "nvr_edit_steps" "Edit steps"
    ∷ says "nvr_home" "Home"
    ∷ says "nvr_waiting" "waiting"
    ∷ says "nvr_notrun" "did not run"
    ∷ says "nvr_running_dur" "running…"
    ∷ fills "nvr_retry_n"
        (λ n. shown n ++ (codes " retr" ++ (if above 1 n then codes "ies" else codes "y")))
    ∷ says "nv_health_ok" "All good"
    ∷ fills "nv_health_line" (λ n.
      shown n
      ++ (codes " workflow"
          ++ (if above 1 n then codes "s" else codes "")
          ++ codes " · no recent failures"))
    ∷ fills "nv_health_bad_title" (λ n.
      shown n
      ++ (codes " workflow"
          ++ (if above 1 n then codes "s" else codes "")
          ++ (codes " need" ++ (if above 1 n then codes "" else codes "s") ++ codes " attention")))
    ∷ fills "nv_health_bad_line"
        (λ id. shown id ++ codes "'s latest run failed · rerun with one click once fixed")
    ∷ says "nv_fix" "Fix it →"
    ∷ says "nv_metrics_link" "Full metrics →"
    ∷ says "nv_run_btn" "▶ Run"
    ∷ says "nv_view_btn" "View →"
    ∷ says "nv_next_hints" "Next you could:"
    ∷ says "nv_hint_another" "create another workflow"
    ∷ says "nv_hint_expert" "switch to expert mode for everything else"
    ∷ says "nv_never_ran" "hasn't run yet"
    ∷ fills "nv_last_run" (λ s. codes "last run " ++ shown s)
    ∷ says "nv_enabled" "enabled"
    ∷ says "nv_run_now" "▶ Run now"
    ∷ says "nv_more" "More ⋯"
    ∷ says "nv_more_title" "Pause / duplicate / delete and more"
    ∷ fills "nv_more_q" (λ id. codes "What to do with " ++ (shown id ++ codes "?"))
    ∷ says "nv_more_expert" "Edit in expert mode"
    ∷ says "nv_steps_h" "Steps"
    ∷ says "nv_steps_hint" "(called “tasks” in expert mode)"
    ∷ says "nv_edit" "Edit"
    ∷ says "nv_add_step" "+ Add step"
    ∷ fills "nv_edit_step_title" (λ id. codes "Edit step " ++ shown id)
    ∷ says "nv_del_step" "Delete this step"
    ∷ says "nv_recent_h" "Recent runs"
    ∷ says "nv_view_log" "View log →"
    ∷ says "nv_notify_h" "Failure alerts"
    ∷ says "nv_notify_toggle" "Notify me on failure"
    ∷ says "nv_notify_hint"
        "Paste an incoming-webhook URL (Slack / Feishu / DingTalk auto-detected). A message is sent when a run fails."
    ∷ says "nv_adv_summary" "More settings (concurrency, retries, timeouts…)"
    ∷ fills_both "nv_adv_body" (λ r m.
      codes "The defaults are enough to start: "
      ++ (if above 0 r
          then shown r
            ++ (codes " automatic retr"
                ++ (if above 1 r then codes "ies" else codes "y")
                ++ codes " on failure, ")
          else codes "")
      ++ (codes "at most "
          ++ (shown m
              ++ (codes " run"
                  ++ (if above 1 m then codes "s" else codes "")
                  ++ codes " at a time."))))
    ∷ says "nv_adv_body2" "Expand when you need fine control, or"
    ∷ says "nv_adv_body3" "for every setting."
    ∷ says "nv_to_expert" "switch to expert mode"
    ∷ fills_both "nv_fail_ribbon"
        (λ n id. codes "Step " ++ (shown n ++ (codes " " ++ (shown id ++ codes " failed"))))
    ∷ says "nv_fail_ribbon_generic" "The latest run failed"
    ∷ says "nv_see_log" "view log"
    ∷ says "nv_step_extract" "Extract data"
    ∷ says "nv_step_transform" "Transform"
    ∷ says "nv_step_load" "Load results"
    ∷ says "nv_step_fetch" "Fetch data"
    ∷ says "nv_step_render" "Render & send report"
    ∷ says "nv_step_1" "First step"
    ∷ says "aiwiki_title" "AI wiki — cronova"
    ∷ says "aiwiki_sub"
        "Ask a question about cronova. The answer is built from the documentation and DAGs."
    ∷ says "aiwiki_placeholder" "Ask something like how to create a DAG…"
    ∷ says "aiwiki_send" "Send"
    ∷ says "aiwiki_close" "Close"
    ∷ says "aiwiki_speak" "Read documentation"
    ∷ says "aiwiki_speak_unsupported" "Your browser does not support text-to-speech."
    ∷ says "aiwiki_welcome"
        "Hi! I'm the cronova AI wiki. Ask me e.g. \"How do I create a DAG?\" or \"What is retry?\""
    ∷ says "aiwiki_error" "AI wiki connection error: "
    ∷ says "aiwiki_copied" "Copied to clipboard"
    ∷ says "aiwiki_triggered" "Triggered DAG "
    ∷ says "aiwiki_no_runs" "No runs for DAG "
    ∷ says "aiwiki_run_dag" "Run this DAG"
    ∷ says "aiwiki_dag_runs" "Run history"
    ∷ says "aiwiki_show_logs" "Show logs"
    ∷ says "aiwiki_copy_cmd" "Copy CLI command"
    ∷ says "aiwiki_open_docs" "Open documentation"
    ∷ says "aiwiki_see_dag" "View DAG"
    ∷ says "aiwiki_browse_dags" "Browse DAGs"
    ∷ says "aiwiki_sources" "Sources: "
    ∷ says "aiwiki_fallback"
        "I couldn't find an exact answer in the knowledge base. Try rephrasing, e.g. 'How do I create a DAG?' or 'What is retry?'."
    ∷ []

-- ===== src/Samples/Flows.antt =====
-- The theorems on the list of workflows and on what surrounds the pages applied at small inputs.
use poc_cronova_windows.Base.{
  In, if◌then◌else◌, drop, leb, ◌&&◌, List, Option, Text, [], all, codes, contains, false, includes,
  length, map, none, refl, some, starts_with, trim, trim_start, is_space, true, ◌+◌, ◌==◌, ◌<◌,
  arith, ◌∷◌, ◌≡◌, ◌≢◌, ◌⊎◌, list_eq, list_eqb, nat_eq,
}
use poc_cronova_windows.Editor.Validate.{has_duplicates, lower}
use poc_cronova_windows.Flows.{Activity, Overview, Point, Row, is_failed}
use poc_cronova_windows.Flows.Spark.{bar_height, longest, max_ms, padded, sparkline}
use poc_cronova_windows.Flows.Spark.Heights.{sparkline-bounds}
use poc_cronova_windows.Flows.Bulk.{Bulk, fan_out, goes_on, pause, run_bulk}
use poc_cronova_windows.Flows.Selected.{Act, do_all, drawn, run_bulk-reaches, ticked, ticked_all}
use poc_cronova_windows.Flows.Health.{
  bad, dag_page, failed_run, failing, go_to, health_bar, others, rest_ok, run_page,
}
use poc_cronova_windows.Flows.Judged.{health_bar-bad}
use poc_cronova_windows.Shell.Access.{
  Shell, UiMode, User, closed, expert, go_on, infer_mode, init_auth, loaded, me_answered, ok,
  render_user_chip, chip_of, resolve_mode, set_mode, start_app,
}
use poc_cronova_windows.Shell.Access.Gate.{
  asked, chosen, done, guarded, next, resolve_mode-set_mode,
}
use poc_cronova_windows.Shell.Jump.{
  Jump, down, input, jump_enter, jump_move, matches, moved, new_jump, update_jump,
}
use poc_cronova_windows.Shell.Jump.Cursor.{jump_act, jump_acts, jump_enter-found, key, typed}

abbrev row : Text → Text → Row
row id state = record { dag_id = id; latest_state = state; paused = false; sparkline = [] }

abbrev acts : List Act
acts = drawn (codes "etl" ∷ codes "report" ∷ []) ∷ ticked_all true ∷ ticked (codes "etl") false ∷ []

abbrev picked : Bulk
picked = do_all acts (record { rows = []; sel = [] })

-- The server refuses one workflow.
abbrev answers : Text → Option Text
answers id = if id == codes "report" then some (codes "active runs") else none

went_on : (run_bulk pause true answers picked).0 ≡ some (fan_out pause answers picked.sel)
unfolding run_bulk goes_on
went_on = refl

run_bulk-reaches_example :
    ((fan_out pause answers picked.sel).calls ≡ map (λ id. (pause, id)) picked.sel)
    × (has_duplicates picked.sel ≡ false)
    × (all (contains picked.rows) picked.sel ≡ true)
    × ((fan_out pause answers picked.sel).ok + length (fan_out pause answers picked.sel).fails
        ≡ length picked.sel)
    × ((run_bulk pause true answers picked).1.sel ≡ [])
run_bulk-reaches_example =
    run_bulk-reaches acts pause true answers (fan_out pause answers picked.sel) picked refl went_on

abbrev overview : Overview
overview = record {
  total_dags = 2;
  dags = row (codes "etl") (codes "success") ∷ row (codes "report") (codes "failed") ∷ [];
  activity =
      record {
        dag_id = codes "report";
        run_id = codes "r7";
        state = codes "failed";
        started = codes "t1";
        finished = codes "t2";
      }
      ∷ [];
}

bad_bar :
    health_bar overview
    ≡ bad
        (row (codes "report") (codes "failed"))
        (failed_run (codes "report") overview.activity)
        (rest_ok 1)
unfolding health_bar failing others is_failed list_eqb
bad_bar = refl

health_bar-bad_example :
    In (row (codes "report") (codes "failed")) overview.dags
    × (is_failed (codes "failed") ≡ true)
    × ((go_to
            (row (codes "report") (codes "failed"))
            (failed_run (codes "report") overview.activity)
          ≡ dag_page (codes "report"))
        ⊎ ((a : Activity) × In a overview.activity
            × (go_to
                  (row (codes "report") (codes "failed"))
                  (failed_run (codes "report") overview.activity)
                ≡ run_page a.run_id)
            × (a.dag_id ≡ codes "report")
            × (is_failed a.state ≡ true)))
health_bar-bad_example =
    health_bar-bad overview (row (codes "report") (codes "failed"))
      (failed_run (codes "report") overview.activity) (rest_ok 1) bad_bar

abbrev ann : User
ann = record { role = codes "viewer"; username = codes "ann"; auth = true }

-- The page behind a successful start.
abbrev started : Shell
started = start_app (ok 3) (me_answered (ok ann) (loaded none))

started-facts : (started.started ≡ true) × (started.login ≡ closed) × (started.asking ≡ 0)
unfolding start_app me_answered go_on init_auth resolve_mode infer_mode render_user_chip chip_of
    loaded list_eqb
started-facts = (refl, refl, refl)

loaded-asking : 0 < (loaded none).asking
unfolding loaded
loaded-asking = omega arith

asked-choosing : 0 < (me_answered (ok ann) (loaded none)).choosing
unfolding me_answered go_on init_auth render_user_chip chip_of loaded list_eqb
asked-choosing = omega arith

guarded_example :
    ((m : UiMode) × (started.mode ≡ some m))
    × (started.login ≡ closed → started.asking ≡ 0 → (u : User) × (started.user ≡ some u))
guarded_example =
    guarded none {s = started}
      (next (next done (asked (ok ann) loaded-asking)) (chosen (ok 3) asked-choosing))
      started-facts.0

fresh-mode : (loaded none).mode ≢ some expert
unfolding loaded
fresh-mode e = cc

resolve_mode-set_mode_example :
    (resolve_mode (ok 0) (loaded (set_mode expert (loaded none)).stored)).mode ≡ some expert
resolve_mode-set_mode_example = resolve_mode-set_mode expert (loaded none) (ok 0) fresh-mode

-- ASCII letters.
abbrev to_lower : Text → Text
to_lower = map lower

abbrev searched : Jump
searched =
    jump_acts to_lower
      (typed (some (codes "etl" ∷ codes "Report" ∷ codes "export" ∷ [])) (codes " Por")
        ∷ key down
        ∷ [])
      new_jump

searched-menu : searched.menu ≡ some (codes "Report" ∷ codes "export" ∷ [])
unfolding jump_acts jump_act input update_jump matches jump_move moved new_jump lower includes
    starts_with trim trim_start is_space list_eqb
searched-menu = refl

jump_enter-found_example :
    (id : Text) × ((jump_enter searched).0 ≡ some id)
    × In id (codes "Report" ∷ codes "export" ∷ [])
    × In id searched.dags
    × (includes (to_lower id) (to_lower (trim searched.text)) ≡ true)
    × ((jump_enter searched).1.menu ≡ none)
jump_enter-found_example =
    jump_enter-found to_lower
      (typed (some (codes "etl" ∷ codes "Report" ∷ codes "export" ∷ [])) (codes " Por")
        ∷ key down
        ∷ [])
      searched (codes "Report") (codes "export" ∷ []) refl searched-menu

abbrev points : List Point
points =
    record { state = codes "success"; ms = 1500 }
    ∷ record { state = codes "running"; ms = 0 }
    ∷ record { state = codes "failed"; ms = 400 }
    ∷ []

sparkline-bounds_example :
    (length (sparkline points 3000) ≡ 14)
    × (all (λ h. leb 6 h && leb h 22) (sparkline points 3000) ≡ true)
sparkline-bounds_example = sparkline-bounds points 3000

spark-heights : drop 11 (sparkline points 3000) ≡ 14 ∷ 15 ∷ 8 ∷ []
unfolding sparkline padded max_ms longest bar_height list_eqb
spark-heights = refl

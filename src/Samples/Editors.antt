-- ===== src/Samples/Editors.antt =====
-- Tests of the workflow editor (internal/web/static/views.js), and the theorems on it applied.
use poc_cronova_windows.Base.{
  [], codes, false, is_space, length, list_eqb, if◌then◌else◌, none, refl, trim, trim_start, true,
  ◌<◌, ◌∷◌, ◌≡◌, ◌≤◌, list_eq, nat_eq, arith,
}
use poc_cronova_windows.Graph.Cycle.{has_cycle, visit, visit_all, visit_tasks, starts, is_undefined}
use poc_cronova_windows.Editor.Console.Progress.{
  none_yet, after, save_dag_accepted, accepted_edit_sent,
}
use poc_cronova_windows.Editor.Console.Events.{
  next, done, IsFresh, OneRemoval, Steps, remove, reopen, save, send_removal, timer,
}
use poc_cronova_windows.Model.{
  Task, blank_task, blank, number, pos, by_id, deps_of, known, inherited,
}
use poc_cronova_windows.Schedule.{Mode}
use poc_cronova_windows.Editor.{Settings, Editor}
use poc_cronova_windows.Editor.Console.{
  Console, saved, saving, save_dag, fire, lose_dag, open_dag, settle, with_schedule, end_delete,
  send_delete, begin_delete, reflect_save_state, flush_save, schedule_save, send_save,
}
use poc_cronova_windows.Editor.Validate.{
  bad_url, blank_text, has_duplicates, id_ok, is_alnum, is_id_part, lacks_command, lacks_conn,
  lacks_subdag, lacks_url, validate_dag,
}
use poc_cronova_windows.Editor.Spec.{dag_spec_from}
use poc_cronova_windows.Editor.Console.Safety.{IsFresh-IsSound, Step-IsSound, at_most_one_save}
use poc_cronova_windows.Editor.Console.Removal.{no_save_beside_removal}
use poc_cronova_windows.Editor.Console.Stuck.{lost_dag_blocks_saves}
use poc_cronova_windows.Editor.Console.Flaws.{
  fire_sends_unvalidated, redraw_shows_saving, refused_delete_drops_save, saved_once,
}

abbrev settings : Settings
settings = record {
  dag_id = codes "nightly";
  sched = record {
    schedule = [];
    mode = Mode.manual;
    every_n = 30;
    unit = codes "m";
    cron_text = [];
  };
  start_date = [];
  catchup = false;
  paused = false;
  max_active_runs = number (pos 1);
  default_retries = number (pos 0);
  execution_policy = [];
  trigger_after = [];
  notify_url = [];
  notify_on = [];
  notify_format = [];
  notify_group = [];
  sla = blank;
  dagrun_timeout = blank;
  definition_hash = codes "h0";
}

abbrev pub load : Task
load = record blank_task { id = codes "load"; command = codes "echo hi" }

abbrev pub page : Editor
page = record {
  dag = settings;
  tasks = load ∷ [];
  all_dags = [];
  active_task = none;
  graph_pending = none;
  graph_base = none;
  graph_dirty = 0;
  diff_open = false;
  diff_cached = false;
  connect_mode = false;
}

-- The page as it is opened.
abbrev opened : Console
opened = record {
  ed = page;
  present = true;
  timer_set = false;
  armed = false;
  seq = 0;
  inflight = false;
  pending = false;
  deleting = false;
  removals = 0;
  removals_sent = 0;
  indicator = saved;
  errors = [];
  wire = [];
}

page-valid : validate_dag page ≡ []
unfolding validate_dag id_ok is_alnum is_id_part has_duplicates lacks_command lacks_url lacks_conn
    lacks_subdag bad_url blank_text has_cycle visit_tasks visit visit_all known deps_of by_id starts
    is_undefined inherited trim trim_start is_space list_eqb
page-valid = refl

opened-IsFresh : IsFresh opened
opened-IsFresh = record {
  quiet = (refl, refl, refl);
  idle = (refl, refl);
  kept = (refl, refl, refl);
}

abbrev edited : Console
edited = save_dag opened

edited-armed : edited.armed ≡ true
edited-armed = (save_dag_accepted opened (refl, refl) page-valid).1

at_most_one_save_example :
    (length (fire edited).wire ≤ (if (fire edited).inflight then 1 else 0))
    × ((fire edited).pending ≡ true → (fire edited).inflight ≡ true)
    × ((fire edited).deleting ≡ true
        → ((fire edited).armed ≡ false) × ((fire edited).pending ≡ false))
at_most_one_save_example =
    at_most_one_save {c = opened} {d = fire edited} opened-IsFresh
      (next (next done save) (timer edited-armed))

-- A deletion of the page as it is opened, with its request out.
abbrev deleted : Console
deleted = send_delete (begin_delete opened)

deleted-steps : Steps opened deleted
unfolding begin_delete
deleted-steps = next (next done remove) (send_removal (omega arith) refl)

deleted-once : OneRemoval deleted-steps × (0 < deleted.removals_sent)
unfolding deleted-steps begin_delete send_delete
deleted-once = (((tt, omega arith), omega arith), omega arith)

no_save_beside_removal_example :
    (deleted.wire ≡ []) × (deleted.armed ≡ false) × (deleted.pending ≡ false)
no_save_beside_removal_example =
    no_save_beside_removal {c = opened} {d = deleted} opened-IsFresh deleted-steps deleted-once.0
      deleted-once.1

-- The workflow is lost before the timer fires, and another one is opened.
abbrev lost : Console
lost = fire (lose_dag (save_dag opened))

lost_dag_blocks_saves_example :
    ((save_dag (open_dag page lost)).inflight ≡ true)
    × ((save_dag (open_dag page lost)).wire ≡ [])
    × ((save_dag (open_dag page lost)).seq ≡ 1)
lost_dag_blocks_saves_example =
    lost_dag_blocks_saves opened {d = save_dag (open_dag page lost)} (refl, refl) refl refl
      page-valid (next (next done (reopen page)) save)

edited-idle :
    ((edited.deleting ≡ false) × (edited.present ≡ true))
    × (edited.inflight ≡ false)
    × (validate_dag edited.ed ≡ [])
unfolding save_dag schedule_save validate_dag id_ok is_alnum is_id_part has_duplicates lacks_command
    lacks_url lacks_conn lacks_subdag bad_url blank_text has_cycle visit_tasks visit visit_all known
    deps_of by_id starts is_undefined inherited trim trim_start is_space list_eqb
edited-idle = ((refl, refl), refl, refl)

fire-edited :
    ((fire edited).armed ≡ false)
    × ((fire edited).pending ≡ false)
    × ((fire edited).deleting ≡ false)
    × ((fire edited).present ≡ true)
unfolding fire flush_save send_save save_dag schedule_save validate_dag id_ok is_alnum is_id_part
    has_duplicates lacks_command lacks_url lacks_conn lacks_subdag bad_url blank_text has_cycle
    visit_tasks visit visit_all known deps_of by_id starts is_undefined inherited trim trim_start
    is_space list_eqb
fire-edited = (refl, refl, refl, refl)

accepted_edit_sent_example : 0 < (fire edited).seq
accepted_edit_sent_example =
    accepted_edit_sent {c = opened} {d = fire edited} (IsFresh-IsSound opened-IsFresh) (refl, refl)
      page-valid (after none_yet (timer edited-armed) tt (fire-edited.2, fire-edited.3))
      fire-edited.0 fire-edited.1

redraw_shows_saving_example :
    ((saved_once (codes "h1") edited).armed ≡ false)
    × ((saved_once (codes "h1") edited).inflight ≡ false)
    × ((saved_once (codes "h1") edited).wire ≡ [])
    × ((saved_once (codes "h1") edited).indicator ≡ saved)
    × ((reflect_save_state (saved_once (codes "h1") edited)).indicator ≡ saving)
redraw_shows_saving_example =
    redraw_shows_saving (codes "h1") {c = edited}
      (Step-IsSound save (IsFresh-IsSound opened-IsFresh)) edited-idle.0 edited-armed edited-idle.1
      edited-idle.2

-- The page with a task without an id.
abbrev broken : Editor
broken = record page { tasks = blank_task ∷ [] }

fire_sends_unvalidated_example :
    (fire (record (save_dag opened) { ed = broken })).wire
    ≡ (1, dag_spec_from (with_schedule broken)) ∷ []
fire_sends_unvalidated_example =
    fire_sends_unvalidated opened (refl, refl) refl refl page-valid broken

refused_delete_drops_save_example :
    let d = end_delete (send_delete (begin_delete (save_dag opened))) in
    (d.seq ≡ 0) × (d.armed ≡ false) × (d.pending ≡ false) × (d.wire ≡ []) × (d.ed ≡ settle page)
refused_delete_drops_save_example =
    refused_delete_drops_save opened (IsFresh-IsSound opened-IsFresh) (refl, refl) refl page-valid

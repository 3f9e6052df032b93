-- ===== src/Editor/Console.antt =====
-- The save protocol (internal/web/static/views.js): `saveDag`, `flushSave`, `flushPendingSaves`,
-- `reflectSaveState` and `deleteActiveDag`, with the timer, the requests on the way and the server's
-- answers as explicit events.
pub mod Events
pub mod Safety
pub mod Progress
pub mod Flaws
pub mod Stuck
pub mod Removal
use poc_cronova_windows.Base.{
  Bool, List, Text, [], false, if◌then◌else◌, none, suc, true, ℕ, ◌++◌, ◌-◌, ◌==◌, ◌||◌, ◌∷◌,
  list_eq, nat_eq,
}
use poc_cronova_windows.Schedule.{compute_schedule}
use poc_cronova_windows.Editor.{Editor}
use poc_cronova_windows.Editor.Validate.{validate_dag}
use poc_cronova_windows.Editor.Spec.{DagSpec, dag_spec_from}

-- What `setSaveState` shows.
pub data Indicator : Type 0 where
  saved saving invalid : Indicator
  failed : Text → Indicator

-- The editor with the variables of the save protocol. `present` is whether `D` is not null: `showDag`
-- sets it to null when the workflow cannot be shown, and `ed` is then the model that was. `timer_set`
-- is whether `saveTimer` holds a timer's id, `armed` whether that timer is still to fire, and `wire`
-- the requests that are sent and not yet answered, each with the `seq` of its call. `removals` counts
-- the calls of `deleteActiveDag` that run behind their confirmation, `removals_sent` those of them
-- whose request is out.
pub record Console : Type 0 where
  pub ed : Editor
  pub present : Bool
  pub timer_set : Bool
  pub armed : Bool
  pub seq : ℕ
  pub inflight : Bool
  pub pending : Bool
  pub deleting : Bool
  pub removals : ℕ
  pub removals_sent : ℕ
  pub indicator : Indicator
  pub errors : List Text
  pub wire : List (ℕ × DagSpec)

-- `D.graphBase = null; D.graphDirty = 0; D.diffCache = null`.
abbrev pub settle : Editor → Editor
settle d = record d { graph_base = none; graph_dirty = 0; diff_cached = false }

unfoldable pub schedule_save : List Text → Console → Console
schedule_save [] c = record c {
  ed = settle c.ed;
  errors = [];
  indicator = saving;
  timer_set = true;
  armed = true;
}
schedule_save (e ∷ es) c = record c { errors = e ∷ es; indicator = invalid }

-- `saveDag`; `validateDag` throws when `D` is null.
unfoldable pub save_dag : Console → Console
unfolding schedule_save
save_dag c =
    if c.deleting then c else (if c.present then schedule_save (validate_dag c.ed) c else c)

-- `computeSchedule(D)`.
abbrev pub with_schedule : Editor → Editor
with_schedule d = record d { dag = record d.dag { sched = compute_schedule d.dag.sched } }

unfoldable pub send_save : Console → Console
send_save c = record c {
  inflight = true;
  seq = suc c.seq;
  ed = with_schedule c.ed;
  wire = c.wire ++ ((suc c.seq, dag_spec_from (with_schedule c.ed)) ∷ []);
}

-- What is left when `computeSchedule` throws, since `D` is null.
abbrev pub throw_save : Console → Console
throw_save c = record c { inflight = true; seq = suc c.seq }

-- `flushSave`, up to its `await`.
unfoldable pub flush_save : Console → Console
unfolding send_save
flush_save c =
    if c.deleting
    then c
    else (if c.inflight
        then record c { pending = true }
        else (if c.present then send_save c else throw_save c))

-- The timer fires: `saveTimer` keeps its id.
unfoldable pub fire : Console → Console
unfolding flush_save
fire c = flush_save (record c { armed = false })

-- `flushPendingSaves`, up to its wait.
unfoldable pub flush_pending : Console → Console
unfolding flush_save
flush_pending c =
    if c.timer_set then flush_save (record c { armed = false; timer_set = false }) else c

-- The server's answer to a save: the new hash, or an error with its message.
pub data Answer : Type 0 where
  stored : Text → Answer
  refused : Text → Answer

abbrev pub with_hash : Text → Editor → Editor
with_hash [] d = d
with_hash (c ∷ h) d = record d { dag = record d.dag { definition_hash = c ∷ h } }

-- `flushSave` behind its `await`, for the call with number `n`.
unfoldable pub settle_answer : Answer → ℕ → Console → Console
settle_answer (stored h) n c = record c {
  ed = if c.present then with_hash h c.ed else c.ed;
  indicator = if n == c.seq then saved else c.indicator;
}
settle_answer (refused m) n c = record c {
  indicator = if n == c.seq then failed m else c.indicator;
}

-- The `finally` block.
unfoldable pub finish_save : Console → Console
unfolding flush_save
finish_save c =
    if c.pending
    then flush_save (record c { inflight = false; pending = false })
    else record c { inflight = false }

unfoldable pub answer : Answer → Console → Console
unfolding settle_answer finish_save
answer a c = elim c.wire [
  | [] ↦ c
  | r ∷ rest ↦ finish_save (settle_answer a r.0 (record c { wire = rest }))
]

-- `reflectSaveState`; it throws as `saveDag` does.
unfoldable pub reflect_errors : List Text → Console → Console
reflect_errors [] c = record c {
  errors = [];
  indicator = if c.timer_set || c.inflight then saving else saved;
}
reflect_errors (e ∷ es) c = record c { errors = e ∷ es; indicator = invalid }

unfoldable pub reflect_save_state : Console → Console
unfolding reflect_errors
reflect_save_state c = if c.present then reflect_errors (validate_dag c.ed) c else c

-- `deleteActiveDag` behind the confirmation, up to its wait. Nothing keeps it from running twice.
unfoldable pub begin_delete : Console → Console
begin_delete c = record c {
  deleting = true;
  armed = false;
  timer_set = false;
  pending = false;
  removals = suc c.removals;
}

-- Its request, which is sent when no save is in flight, and its `finally` block.
unfoldable pub send_delete : Console → Console
send_delete c = record c { removals_sent = suc c.removals_sent }

unfoldable pub end_delete : Console → Console
end_delete c = record c {
  deleting = false;
  removals = c.removals - 1;
  removals_sent = c.removals_sent - 1;
}

-- What `showDag` does with `D` when its requests are answered: the workflow cannot be shown, or is
-- shown.
unfoldable pub lose_dag : Console → Console
lose_dag c = record c { present = false }

unfoldable pub open_dag : Editor → Console → Console
open_dag d c = record c { ed = d; present = true }

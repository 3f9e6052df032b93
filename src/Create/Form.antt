-- ===== src/Create/Form.antt =====
-- The modal in which an expert creates a workflow (internal/web/static/builder.js): its templates,
-- the check of the id, and the definition that `submitNewDag` sends.
pub mod Pressed
use poc_cronova_windows.Base.{
  Bool, List, Option, Text, [], codes, contains, false, find, if◌then◌else◌, map, none, not, some,
  trim, true, ◌&&◌, ◌==◌, ◌||◌, ◌∷◌, list_eq, nat_eq,
}
use poc_cronova_windows.Editor.Validate.{id_ok, is_empty}
use poc_cronova_windows.Schedule.{Sched, compute_schedule, parse_schedule_state}
use poc_cronova_windows.Create.{BuildSpec, BuildTask, build_task}

pub record DagTemplate : Type 0 where
  pub key : Text
  pub schedule : Text
  pub tasks : List BuildTask

abbrev pub shell : Text → Text → List Text → BuildTask
shell id command deps = build_task id (codes "powershell") command deps

-- `DAG_TEMPLATES`, with the tasks as `submitNewDag` completes them. The first one is the default.
unfoldable pub blank_template : DagTemplate
blank_template = record { key = codes "blank"; schedule = []; tasks = [] }

unfoldable pub dag_templates : List DagTemplate
unfolding blank_template
dag_templates =
    blank_template
    ∷ record {
      key = codes "etl";
      schedule = [];
      tasks =
          shell (codes "extract") (codes "Write-Output extract {{ logical_date }}; Start-Sleep 1")
            []
          ∷ shell (codes "transform") (codes "Write-Output transform; Start-Sleep 1")
              (codes "extract" ∷ [])
          ∷ shell (codes "load") (codes "Write-Output load run={{ run_id }}; Start-Sleep 1")
              (codes "transform" ∷ [])
          ∷ [];
    }
    ∷ record {
      key = codes "report";
      schedule = codes "0 8 * * *";
      tasks =
          shell (codes "fetch")
            (codes "Write-Output fetch data for {{ logical_date }}; Start-Sleep 1") []
          ∷ shell (codes "render") (codes "Write-Output render report; Start-Sleep 1")
              (codes "fetch" ∷ [])
          ∷ [];
    }
    ∷ record {
      key = codes "fanout";
      schedule = [];
      tasks =
          shell (codes "start") (codes "Write-Output start; Start-Sleep 1") []
          ∷ shell (codes "branch_a") (codes "Write-Output branch A; Start-Sleep 1")
              (codes "start" ∷ [])
          ∷ shell (codes "branch_b") (codes "Write-Output branch B; Start-Sleep 1")
              (codes "start" ∷ [])
          ∷ shell (codes "join") (codes "Write-Output join; Start-Sleep 1")
              (codes "branch_a" ∷ codes "branch_b" ∷ [])
          ∷ [];
    }
    ∷ []

-- `ND`.
pub record NewDag : Type 0 where
  pub existing : List Text
  pub dag_id : Text
  pub sched : Sched
  pub start_date : Text
  pub catchup : Bool
  pub template : Text
  pub advanced : Bool
  pub yaml_mode : Bool

-- The state that `newDagModal` opens with; a failed request leaves no existing ids.
unfoldable pub new_dag : List Text → NewDag
new_dag xs = record {
  existing = xs;
  dag_id = [];
  sched = parse_schedule_state [];
  start_date = [];
  catchup = false;
  template = codes "blank";
  advanced = false;
  yaml_mode = false;
}

abbrev pub find_template : Text → Option DagTemplate
find_template k = find (λ (x : DagTemplate). x.key == k) dag_templates

-- A click on a template's card.
unfoldable pub pick_card : Text → NewDag → NewDag
pick_card k nd =
    let s : Text = elim (find_template k) [ none ↦ [] | some tp ↦ tp.schedule ] in
    record nd {
      template = k;
      sched = parse_schedule_state s;
      advanced = not (is_empty s) || nd.advanced;
    }

-- `updateNewDagValidity`: the key of the error, and whether the button is enabled.
unfoldable pub id_error : NewDag → Option Text
id_error nd =
    if not (is_empty nd.dag_id) && not (id_ok nd.dag_id)
    then some (codes "err_dagid")
    else if not (is_empty nd.dag_id) && contains nd.existing nd.dag_id
    then some (codes "nd_dagid_dup")
    else none

unfoldable pub can_create : NewDag → Bool
unfolding id_error
can_create nd = not (is_empty nd.dag_id) && elim (id_error nd) [ none ↦ true | some k ↦ false ]

-- The template that is used: the chosen one, or else the first.
unfoldable pub used_template : Text → DagTemplate
unfolding blank_template dag_templates
used_template k = elim (find_template k) [ none ↦ blank_template | some tp ↦ tp ]

-- The definition that `submitNewDag` sends.
unfoldable pub new_dag_spec : NewDag → BuildSpec
unfolding used_template
new_dag_spec nd =
    let sched = compute_schedule nd.sched in
    record {
      dag_id = nd.dag_id;
      schedule = sched.schedule;
      start_date = nd.start_date;
      catchup = not (is_empty sched.schedule) && nd.catchup;
      max_active_runs = 1;
      default_retries = 0;
      trigger_after = [];
      tasks = (used_template nd.template).tasks;
    }

-- The modal with its button, and the definitions that were sent, the newest first.
pub record Modal : Type 0 where
  pub nd : NewDag
  pub disabled : Bool
  pub sent : List BuildSpec

-- `updateNewDagValidity`: it alone sets the button when the form is drawn or an id is typed.
unfoldable pub update_validity : Modal → Modal
unfolding can_create
update_validity m = record m { disabled = not (can_create m.nd) }

unfoldable pub open_modal : List Text → Modal
unfolding update_validity new_dag
open_modal xs = update_validity (record { nd = new_dag xs; disabled = false; sent = [] })

unfoldable pub type_id : Text → Modal → Modal
unfolding update_validity
type_id k m = update_validity (record m { nd = record m.nd { dag_id = trim k } })

unfoldable pub click_card : Text → Modal → Modal
unfolding update_validity pick_card
click_card k m = update_validity (record m { nd = pick_card k m.nd })

-- `submitNewDag` up to its wait, which a button that is disabled does not call.
unfoldable pub press_create : Modal → Modal
unfolding new_dag_spec
press_create m =
    if m.disabled then m else record m { disabled = true; sent = new_dag_spec m.nd ∷ m.sent }

-- Its `catch` block.
unfoldable pub create_refused : Modal → Modal
create_refused m = record m { disabled = false }

-- `coachDag` behind a successful request: the id of a workflow that was created with tasks.
unfoldable pub coach_dag : BuildSpec → Option Text → Option Text
coach_dag spec old = elim spec.tasks [ [] ↦ old | x ∷ xs ↦ some spec.dag_id ]

-- ===== src/Create.antt =====
-- The ways to create a workflow (internal/web/static/builder.js): the form of the experts' modal and
-- the wizard of the novices. Both send a definition of the same shape to /api/dags/build.
pub mod Wizard
pub mod Form
use poc_cronova_windows.Base.{Bool, List, Option, Text, [], codes, none, ℕ}
use poc_cronova_windows.Model.{Task, blank_task, number, pos, ℤ}

-- A task of such a definition.
pub record BuildTask : Type 0 where
  pub id : Text
  pub type : Text
  pub command : Text
  pub deps : List Text
  pub pool : Text
  pub priority : ℕ
  pub timeout : ℕ
  pub trigger_rule : Text
  pub retries : Option ℕ
  pub retry_delay : Option ℕ

pub record BuildSpec : Type 0 where
  pub dag_id : Text
  pub schedule : Text
  pub start_date : Text
  pub catchup : Bool
  pub max_active_runs : ℕ
  pub default_retries : ℕ
  pub trigger_after : List Text
  pub tasks : List BuildTask

-- The object that both build for a step, with the defaults that they share.
abbrev pub build_task : Text → Text → Text → List Text → BuildTask
build_task id type command deps = record {
  id = id;
  type = type;
  command = command;
  deps = deps;
  pool = codes "default";
  priority = 0;
  timeout = 0;
  trigger_rule = codes "all_success";
  retries = none;
  retry_delay = none;
}

-- The task that the editor shows for it.
abbrev pub as_task : BuildTask → Task
as_task b = record blank_task { id = b.id; type = b.type; command = b.command; deps = b.deps }

-- ===== src/Editor.antt =====
-- The workflow editor (internal/web/static/views.js): the model `D` behind the operation page, its
-- validation, the save protocol and the operations on tasks.
pub mod Validate
pub mod Spec
pub mod Console
pub mod Tasks
pub mod Session
pub mod Load
use poc_cronova_windows.Base.{Bool, List, Option, Text, ℕ}
use poc_cronova_windows.Model.{Task, Entry}
use poc_cronova_windows.Schedule.{Sched}

-- `D.dag`.
pub record Settings : Type 0 where
  pub dag_id : Text
  pub sched : Sched
  pub start_date : Text
  pub catchup : Bool
  pub paused : Bool
  pub max_active_runs : Entry
  pub default_retries : Entry
  pub execution_policy : Text
  pub trigger_after : List Text
  pub notify_url : Text
  pub notify_on : List Text
  pub notify_format : Text
  pub notify_group : Text
  pub sla : Entry
  pub dagrun_timeout : Entry
  pub definition_hash : Text

-- `D`, without the fetched runs and the fields that only choose what is drawn.
pub record Editor : Type 0 where
  pub dag : Settings
  pub tasks : List Task
  pub all_dags : List Text
  pub active_task : Option Text
  pub graph_pending : Option Text
  pub graph_base : Option (List Task)
  pub graph_dirty : ℕ
  pub diff_open : Bool
  pub diff_cached : Bool
  pub connect_mode : Bool

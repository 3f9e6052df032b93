-- ===== src/Editor/Load.antt =====
-- How the editor is filled (internal/web/static/views.js): `editorTaskFrom` and `showDag`, from what
-- /api/dags/<id> answers. A task of the answer has the shape of one that is sent.
pub mod Texts
pub mod RoundTrip
use poc_cronova_windows.Base.{
  Bool, List, Option, Text, [], codes, decimal, false, if◌then◌else◌, join, map, none, not, some,
  suc, take, zero, ℕ, ◌&&◌, ◌++◌, ◌==◌, ◌||◌, ◌∷◌, list_eq, nat_eq,
}
use poc_cronova_windows.Model.{Entry, Task, blank, number, pos, ℤ}
use poc_cronova_windows.Schedule.{parse_schedule_state}
use poc_cronova_windows.Editor.{Editor, Settings}
use poc_cronova_windows.Editor.Spec.{
  HttpSpec, Payload, TaskSpec, WaitSpec, command, http, or_else, subdag,
}
use poc_cronova_windows.Editor.Validate.{is_empty}

-- `x || ""` of a number, and `x ?? ""` of one that can be null.
abbrev pub shown_if_set : ℕ → Entry
shown_if_set zero = blank
shown_if_set (suc n) = number (pos (suc n))

abbrev pub shown_unless_null : Option ℤ → Entry
shown_unless_null none = blank
shown_unless_null (some n) = number n

abbrev pub text_or_empty : Option Text → Text
text_or_empty none = []
text_or_empty (some s) = s

-- The header lines and the status list of a form.
unfoldable pub header_text : Text × Text → Text
header_text (k, v) = k ++ (codes ": " ++ v)

unfoldable pub headers_text : List (Text × Text) → Text
unfolding header_text
headers_text h = join (codes "\n") (map header_text h)

unfoldable pub statuses_text : List ℕ → Text
statuses_text xs = join (codes ", ") (map decimal xs)

-- The fields that a task of each type has; the others stay empty.
unfoldable pub with_payload : Payload → Task → Task
unfolding headers_text statuses_text
with_payload (http h) tk = record tk {
  http_method = or_else h.method (codes "GET");
  http_url = h.url;
  http_headers = headers_text h.headers;
  http_body = h.body;
  http_status = statuses_text h.expected_status;
}
with_payload (subdag child) tk = record tk { subdag = child }
with_payload (command cmd conn project) tk = record tk {
  command = cmd;
  conn = text_or_empty conn;
  project = text_or_empty project;
}

unfoldable pub with_wait : Option WaitSpec → Task → Task
with_wait none tk = tk
with_wait (some w) tk = record tk {
  dod_dag = w.dag;
  dod_offset = w.offset;
  dod_timeout = shown_if_set w.timeout;
  dod_on_timeout = w.on_timeout;
}

-- The fields that do not depend on the type.
abbrev pub plain_fields : TaskSpec → Task
plain_fields a = record {
  id = a.id;
  type = or_else a.type (codes "powershell");
  command = [];
  conn = [];
  project = [];
  pool = or_else a.pool (codes "default");
  priority = number a.priority;
  retries = shown_unless_null a.retries;
  retry_delay = shown_unless_null a.retry_delay;
  retry_backoff = a.retry_backoff;
  retry_delay_max = shown_if_set a.retry_delay_max;
  timeout = shown_if_set a.timeout;
  sla = shown_if_set a.sla;
  deps = a.deps;
  trigger_rule = or_else a.trigger_rule (codes "all_success");
  subdag = [];
  worker_group = text_or_empty a.worker_group;
  dod_dag = [];
  dod_offset = [];
  dod_timeout = blank;
  dod_on_timeout = [];
  http_method = codes "GET";
  http_url = [];
  http_headers = [];
  http_body = [];
  http_status = [];
}

-- `editorTaskFrom`.
unfoldable pub editor_task_from : TaskSpec → Task
unfolding with_payload with_wait
editor_task_from a = with_wait a.depends_on_dag (with_payload a.payload (plain_fields a))

-- What /api/dags/<id> answers, with empty texts for what it leaves out.
pub record ApiDag : Type 0 where
  pub dag_id : Text
  pub deleted_at : Text
  pub schedule : Text
  pub start_date : Text
  pub catchup : Bool
  pub paused : Bool
  pub max_active_runs : ℕ
  pub default_retries : ℕ
  pub execution_policy : Text
  pub trigger_after : List Text
  pub notify_url : Text
  pub notify_on : List Text
  pub notify_format : Text
  pub notify_group : Text
  pub sla : ℕ
  pub dagrun_timeout : ℕ
  pub definition_hash : Text
  pub tasks : List TaskSpec

-- `x || 1`.
abbrev pub at_least_one : ℕ → ℕ
at_least_one zero = 1
at_least_one (suc n) = suc n

unfoldable pub settings_from : ApiDag → Settings
settings_from a = record {
  dag_id = a.dag_id;
  sched = parse_schedule_state a.schedule;
  start_date = take 10 a.start_date;
  catchup = a.catchup;
  paused = a.paused;
  max_active_runs = number (pos (at_least_one a.max_active_runs));
  default_retries = number (pos a.default_retries);
  execution_policy = a.execution_policy;
  trigger_after = a.trigger_after;
  notify_url = a.notify_url;
  notify_on = a.notify_on;
  notify_format = a.notify_format;
  notify_group = a.notify_group;
  sla = number (pos a.sla);
  dagrun_timeout = number (pos a.dagrun_timeout);
  definition_hash = a.definition_hash;
}

-- What `showDag` shows: the message of a failure, an archived workflow, which is not opened for
-- editing, or the editor.
pub data Shown : Type 0 where
  failed : Text → Shown
  archived : Shown
  editing : Editor → Shown

-- The answers to the requests; a failure to list the workflows leaves the list empty.
unfoldable pub editor_from : List Text → ApiDag → Editor
unfolding settings_from editor_task_from
editor_from all_dags a = record {
  dag = settings_from a;
  tasks = map editor_task_from a.tasks;
  all_dags = all_dags;
  active_task = none;
  graph_pending = none;
  graph_base = none;
  graph_dirty = 0;
  diff_open = false;
  diff_cached = false;
  connect_mode = false;
}

unfoldable pub opened : List Text → ApiDag → Shown
unfolding editor_from
opened all_dags a = if is_empty a.deleted_at then editing (editor_from all_dags a) else archived

pub data Answer : Type 0 where
  refused : Text → Answer
  found : ApiDag → Answer

unfoldable pub show_dag : Answer → List Text → Shown
unfolding opened
show_dag (refused m) all_dags = failed m
show_dag (found a) all_dags = opened all_dags a

-- The tab that is opened: the one that was asked for, or the runs, or, for a workflow without tasks,
-- its structure.
pub data Tab : Type 0 where
  runs structure settings : Tab

unfoldable pub tab_of : Text → List TaskSpec → Tab
tab_of tab tasks =
    if tab == codes "structure"
    then structure
    else if tab == codes "settings"
    then settings
    else if tab == codes "runs"
    then runs
    else elim tasks [ [] ↦ structure | x ∷ xs ↦ runs ]

-- `setDagHash`: the runs have no suffix.
unfoldable pub dag_hash : (Text → Text) → Text → Tab → Text
dag_hash encode id runs = codes "#/dag/" ++ encode id
dag_hash encode id structure = codes "#/dag/" ++ (encode id ++ codes "/structure")
dag_hash encode id settings = codes "#/dag/" ++ (encode id ++ codes "/settings")

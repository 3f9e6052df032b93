-- ===== src/Editor/Spec.antt =====
-- `dagSpecFrom`, `parseHeaderLines` and `parseStatusList` (internal/web/static/views.js): the
-- definition that a save sends, from the editor's model.
use poc_cronova_windows.Base.{
  Bool, List, Option, Text, [], codes, contains, filter, if◌then◌else◌, leb, map, none, not,
  number_of_digits, some, span_digits, split, trim, zero, ℕ, ◌&&◌, ◌==◌, ◌||◌, ◌∷◌, list_eq, nat_eq,
}
use poc_cronova_windows.Model.{Task, ids, Entry, entry_value, at_least_zero, ℤ, blank, number, pos}
use poc_cronova_windows.Editor.{Settings, Editor}
use poc_cronova_windows.Editor.Validate.{named, is_empty}

pub record HttpSpec : Type 0 where
  pub method : Text
  pub url : Text
  pub headers : List (Text × Text)
  pub body : Text
  pub expected_status : List ℕ

-- What a task runs, by its type.
pub data Payload : Type 0 where
  http : HttpSpec → Payload
  subdag : Text → Payload
  command : Text → Option Text → Option Text → Payload

pub record WaitSpec : Type 0 where
  pub dag : Text
  pub offset : Text
  pub timeout : ℕ
  pub on_timeout : Text

pub record TaskSpec : Type 0 where
  pub id : Text
  pub type : Text
  pub pool : Text
  pub priority : ℤ
  pub deps : List Text
  pub timeout : ℕ
  pub sla : ℕ
  pub trigger_rule : Text
  pub retries : Option ℤ
  pub retry_delay : Option ℤ
  pub retry_backoff : Text
  pub retry_delay_max : ℕ
  pub payload : Payload
  pub worker_group : Option Text
  pub depends_on_dag : Option WaitSpec

pub record DagSpec : Type 0 where
  pub dag_id : Text
  pub schedule : Text
  pub start_date : Text
  pub catchup : Bool
  pub max_active_runs : ℤ
  pub default_retries : ℤ
  pub trigger_after : List Text
  pub notify_url : Text
  pub notify_group : Text
  pub notify_on : List Text
  pub notify_format : Text
  pub execution_policy : Text
  pub expected_hash : Text
  pub sla : ℕ
  pub dagrun_timeout : ℕ
  pub tasks : List TaskSpec

-- `x || d` on texts.
abbrev pub or_else : Text → Text → Text
or_else [] d = d
or_else (c ∷ s) d = c ∷ s

-- `+x || 1`.
abbrev pub or_one : Entry → ℤ
or_one blank = pos 1
or_one (number (pos zero)) = pos 1
or_one (number n) = n

-- `x === "" || x == null ? null : +x`.
abbrev pub or_null : Entry → Option ℤ
or_null blank = none
or_null (number n) = some n

-- `Math.max(0, +x || 0)`.
abbrev pub or_zero : Entry → ℕ
or_zero x = at_least_zero (entry_value x)

abbrev pub unless_empty : Text → Option Text
unless_empty [] = none
unless_empty (c ∷ s) = some (c ∷ s)

-- `h[k] = v`: under "__proto__" the assignment of a text does nothing.
unfoldable pub put_key : Text → Text → List (Text × Text) → List (Text × Text)
put_key k v [] = (k, v) ∷ []
put_key k v ((j, w) ∷ h) = if j == k then (k, v) ∷ h else (j, w) ∷ put_key k v h

unfoldable pub set_key : Text → Text → List (Text × Text) → List (Text × Text)
unfolding put_key
set_key k v h = if k == codes "__proto__" then h else put_key k v h

-- The text before the first colon and the text behind it.
unfoldable pub cut_colon : Text → Option (Text × Text)
cut_colon [] = none
cut_colon (c ∷ s) =
    if c == b':'
    then some ([], s)
    else elim (cut_colon s) [ none ↦ none | some p ↦ some (c ∷ p.0, p.1) ]

-- The body of the loop of `parseHeaderLines`: `i > 0` asks for a colon that is not first.
unfoldable pub header_line : Text → List (Text × Text) → List (Text × Text)
unfolding cut_colon
header_line line h = elim (cut_colon line) [
  | none ↦ h
  | some p ↦ elim p.0 [
    | [] ↦ h
    | c ∷ s ↦ if is_empty (trim (c ∷ s)) then h else set_key (trim (c ∷ s)) (trim p.1) h
  ]
]

unfoldable pub header_lines : List Text → List (Text × Text) → List (Text × Text)
header_lines [] h = h
header_lines (line ∷ rest) h = header_lines rest (header_line line h)

-- `parseHeaderLines`.
unfoldable pub parse_header_lines : Text → List (Text × Text)
unfolding header_lines
parse_header_lines s = header_lines (split b'\n' s) []

unfoldable pub digits_value : Text → Option ℕ
digits_value [] = none
digits_value (c ∷ ds) = some (number_of_digits (c ∷ ds))

-- `parseInt(s, 10)`, where it is a natural number: an optional plus, then digits, then anything. A
-- negative number or none at all is out of the range that the caller keeps.
unfoldable pub parse_int : Text → Option ℕ
unfolding digits_value
parse_int [] = none
parse_int (c ∷ s) =
    if c == b'+' then digits_value (span_digits s).0 else digits_value (span_digits (c ∷ s)).0

unfoldable pub status_list : List Text → List ℕ
unfolding parse_int
status_list [] = []
status_list (s ∷ rest) = elim (parse_int (trim s)) [
  | none ↦ status_list rest
  | some n ↦ if leb 100 n && leb n 599 then n ∷ status_list rest else status_list rest
]

-- `parseStatusList`.
unfoldable pub parse_status_list : Text → List ℕ
unfolding status_list
parse_status_list s = status_list (split b',' s)

unfoldable pub http_spec : Task → HttpSpec
unfolding parse_header_lines parse_status_list
http_spec tk = record {
  method = or_else tk.http_method (codes "GET");
  url = trim tk.http_url;
  headers = parse_header_lines tk.http_headers;
  body = tk.http_body;
  expected_status = parse_status_list tk.http_status;
}

unfoldable pub payload_of : Task → Payload
unfolding http_spec
payload_of tk =
    if tk.type == codes "http"
    then http (http_spec tk)
    else (if tk.type == codes "subdag"
        then subdag (trim tk.subdag)
        else command tk.command (if tk.type == codes "sql" then some (trim tk.conn) else none)
            (if tk.type == codes "powershell" then unless_empty tk.project else none))

unfoldable pub wait_of : Task → Option WaitSpec
wait_of tk = elim (trim tk.dod_dag) [
  | [] ↦ none
  | c ∷ s ↦ some (record {
    dag = c ∷ s;
    offset = trim tk.dod_offset;
    timeout = or_zero tk.dod_timeout;
    on_timeout = tk.dod_on_timeout;
  })
]

-- The object that `dagSpecFrom` builds for one task, given all tasks.
unfoldable pub task_spec : List Task → Task → TaskSpec
unfolding payload_of wait_of
task_spec ts tk = record {
  id = tk.id;
  type = tk.type;
  pool = or_else tk.pool (codes "default");
  priority = entry_value tk.priority;
  deps = filter (λ dep. contains (ids ts) dep) tk.deps;
  timeout = or_zero tk.timeout;
  sla = or_zero tk.sla;
  trigger_rule = or_else tk.trigger_rule (codes "all_success");
  retries = or_null tk.retries;
  retry_delay = or_null tk.retry_delay;
  retry_backoff = tk.retry_backoff;
  retry_delay_max = or_zero tk.retry_delay_max;
  payload = payload_of tk;
  worker_group = unless_empty (trim tk.worker_group);
  depends_on_dag = wait_of tk;
}

-- Whether notifications have somewhere to go.
abbrev pub has_target : Settings → Bool
has_target d = not (is_empty (trim d.notify_url)) || not (is_empty (trim d.notify_group))

-- `dagSpecFrom`.
unfoldable pub dag_spec_from : Editor → DagSpec
unfolding task_spec
dag_spec_from st =
    let d = st.dag in
    record {
      dag_id = d.dag_id;
      schedule = d.sched.schedule;
      start_date = d.start_date;
      catchup = d.catchup;
      max_active_runs = or_one d.max_active_runs;
      default_retries = entry_value d.default_retries;
      trigger_after = d.trigger_after;
      notify_url = trim d.notify_url;
      notify_group = trim d.notify_group;
      notify_on = if has_target d then d.notify_on else [];
      notify_format = d.notify_format;
      execution_policy = d.execution_policy;
      expected_hash = d.definition_hash;
      sla = or_zero d.sla;
      dagrun_timeout = or_zero d.dagrun_timeout;
      tasks = map (task_spec st.tasks) (named st.tasks);
    }

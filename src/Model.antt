-- ===== src/Model.antt =====
-- The task records of the editor, as `editorTaskFrom` (internal/web/static/views.js) and `blankTask`
-- (internal/web/static/builder.js) build them.

-- Whole numbers; `negsuc n` is -(n + 1).
use poc_cronova_windows.Base.{
  Bool, List, Option, Text, [], codes, contains, if◌then◌else◌, map, none, some, true, ℕ, ◌==◌, ◌∷◌,
  list_eq, nat_eq,
}

pub data ℤ : Type 0 where
  pos : ℕ → ℤ
  negsuc : ℕ → ℤ

-- `Math.max(0, n)`.
abbrev pub at_least_zero : ℤ → ℕ
at_least_zero (pos n) = n
at_least_zero (negsuc n) = 0

-- What a number input holds: the empty text or a number.
pub data Entry : Type 0 where
  blank : Entry
  number : ℤ → Entry

-- `+x || 0`.
abbrev pub entry_value : Entry → ℤ
entry_value blank = pos 0
entry_value (number n) = n

pub record Task : Type 0 where
  pub id : Text
  pub type : Text
  pub command : Text
  pub conn : Text
  pub project : Text
  pub pool : Text
  pub priority : Entry
  pub retries : Entry
  pub retry_delay : Entry
  pub retry_backoff : Text
  pub retry_delay_max : Entry
  pub timeout : Entry
  pub sla : Entry
  pub deps : List Text
  pub trigger_rule : Text
  pub subdag : Text
  pub worker_group : Text
  pub dod_dag : Text
  pub dod_offset : Text
  pub dod_timeout : Entry
  pub dod_on_timeout : Text
  pub http_method : Text
  pub http_url : Text
  pub http_headers : Text
  pub http_body : Text
  pub http_status : Text

abbrev pub blank_task : Task
blank_task = record {
  id = [];
  type = codes "powershell";
  command = [];
  conn = [];
  project = [];
  pool = codes "default";
  priority = number (pos 0);
  retries = blank;
  retry_delay = blank;
  retry_backoff = [];
  retry_delay_max = blank;
  timeout = blank;
  sla = blank;
  deps = [];
  trigger_rule = codes "all_success";
  subdag = [];
  worker_group = [];
  dod_dag = [];
  dod_offset = [];
  dod_timeout = blank;
  dod_on_timeout = [];
  http_method = [];
  http_url = [];
  http_headers = [];
  http_body = [];
  http_status = [];
}

-- The ids of a list of tasks.
abbrev pub ids : List Task → List Text
ids = map (λ tk. tk.id)

-- The names that every plain object inherits, so that a lookup under them is never `undefined`.
unfoldable pub inherited_names : List Text
inherited_names =
    codes "constructor"
    ∷ codes "toString"
    ∷ codes "toLocaleString"
    ∷ codes "valueOf"
    ∷ codes "hasOwnProperty"
    ∷ codes "isPrototypeOf"
    ∷ codes "propertyIsEnumerable"
    ∷ codes "__proto__"
    ∷ codes "__defineGetter__"
    ∷ codes "__defineSetter__"
    ∷ codes "__lookupGetter__"
    ∷ codes "__lookupSetter__"
    ∷ []

unfoldable pub inherited : Text → Bool
unfolding inherited_names
inherited k = contains inherited_names k

-- `const byId = {}; tasks.forEach((tk) => byId[tk.id] = tk)`, and the own property `byId[id]`: the
-- last task with that id.
unfoldable pub by_id : List Task → Text → Option Task
by_id [] k = none
by_id (tk ∷ ts) k = elim (by_id ts k) [
  | some u ↦ some u
  | none ↦ if tk.id == k then some tk else none
]

-- Whether `byId[id]` is truthy.
unfoldable pub known : List Task → Text → Bool
known ts k = elim (by_id ts k) [ some u ↦ true | none ↦ inherited k ]

-- `byId[id]?.deps || []`: an inherited function has no `deps`.
unfoldable pub deps_of : List Task → Text → List Text
deps_of ts k = elim (by_id ts k) [ some u ↦ u.deps | none ↦ [] ]

-- ===== src/Editor/Load/RoundTrip.antt =====
-- A task that is loaded and saved with no edit (internal/web/static/views.js): `editorTaskFrom` and
-- `dagSpecFrom`.
use poc_cronova_windows.Base.{
  Bool, In, List, List-cases, inl, inr, Option, Text, [], ap, codes, contains, false, filter,
  In→contains, none, refl, some, there, here, trim, trim_start, true, ℕ, zero, suc, ◌∷◌, ◌≡◌, ◌≢◌,
  ◌≤◌, ◌∙◌, ≢→eq, list_eq, list_eqb, nat_eq,
}
use poc_cronova_windows.Model.{Task, ℤ, ids}
use poc_cronova_windows.Editor.Validate.{has_duplicates}
use poc_cronova_windows.Editor.Spec.{
  HttpSpec, Payload, TaskSpec, WaitSpec, command, http, http_spec, or_else, or_null, or_zero,
  payload_of, subdag, task_spec, unless_empty, wait_of,
}
use poc_cronova_windows.Editor.Load.{
  editor_task_from, plain_fields, shown_if_set, shown_unless_null, text_or_empty, with_payload,
  with_wait,
}
use poc_cronova_windows.Editor.Load.Texts.{
  IsHeader, IsTrimmed, keys, parse_header_lines-headers_text, parse_status_list-statuses_text,
}

-- What a task of each type runs, in the fields that `dagSpecFrom` writes for that type.
pub data IsPayload : Text → Payload → Type 0 where
  http_task :
      {h : HttpSpec}
      → h.method ≢ []
      → IsTrimmed h.url
      → ((p : Text × Text) → In p h.headers → IsHeader p)
      → has_duplicates (keys h.headers) ≡ false
      → ((n : ℕ) → In n h.expected_status → (100 ≤ n) × (n ≤ 599))
      → IsPayload (codes "http") (http h)
  subdag_task : {child : Text} → IsTrimmed child → IsPayload (codes "subdag") (subdag child)
  sql_task :
      {cmd conn : Text} → IsTrimmed conn → IsPayload (codes "sql") (command cmd (some conn) none)
  powershell_task : {cmd : Text} → IsPayload (codes "powershell") (command cmd none none)
  project_task :
      {cmd project : Text}
      → project ≢ []
      → IsPayload (codes "powershell") (command cmd none (some project))
  other_task :
      {type cmd : Text}
      → type ≢ []
      → type ≢ codes "http"
      → type ≢ codes "subdag"
      → type ≢ codes "sql"
      → type ≢ codes "powershell"
      → IsPayload type (command cmd none none)

pub data IsWait : Option WaitSpec → Type 0 where
  no_wait : IsWait none
  waits : {w : WaitSpec} → w.dag ≢ [] → IsTrimmed w.dag → IsTrimmed w.offset → IsWait (some w)

pub data IsGroup : Option Text → Type 0 where
  no_group : IsGroup none
  group : {g : Text} → g ≢ [] → IsTrimmed g → IsGroup (some g)

pub record IsKept (ts : List Task) (a : TaskSpec) : Type 0 where
  pub pool : a.pool ≢ []
  pub trigger_rule : a.trigger_rule ≢ []
  pub deps : (d : Text) → In d a.deps → In d (ids ts)
  pub worker_group : IsGroup a.worker_group
  pub payload : IsPayload a.type a.payload
  pub wait : IsWait a.depends_on_dag

or_else-full : (s d : Text) → s ≢ [] → or_else s d ≡ s
or_else-full [] d h = absurd (h refl)
or_else-full (c ∷ s) d h = refl

or_zero-shown : (n : ℕ) → or_zero (shown_if_set n) ≡ n
or_zero-shown zero = refl
or_zero-shown (suc n) = refl

or_null-shown : (o : Option ℤ) → or_null (shown_unless_null o) ≡ o
or_null-shown none = refl
or_null-shown (some n) = refl

unless_empty-full : (s : Text) → s ≢ [] → unless_empty s ≡ some s
unless_empty-full [] h = absurd (h refl)
unless_empty-full (c ∷ s) h = refl

group-kept : (o : Option Text) → IsGroup o → unless_empty (trim (text_or_empty o)) ≡ o
unfolding trim trim_start
group-kept none no_group = refl
group-kept (some g) (group full t) = rw t (unless_empty-full g full)

filter-all :
    (p : Text → Bool) (xs : List Text) → ((d : Text) → In d xs → p d ≡ true) → filter p xs ≡ xs
filter-all p [] h = refl
filter-all p (x ∷ xs) h = rw (h x (here refl)) (ap (x ∷◌) (filter-all p xs (λ d m. h d (there m))))

-- The payload that is built from a task with the fields that were filled.
payload-kept :
    (type : Text) (p : Payload) (tk : Task)
    → IsPayload type p
    → tk.type ≡ type
    → tk.project ≡ []
    → payload_of (with_payload p tk) ≡ p
unfolding payload_of with_payload http_spec list_eqb
payload-kept type p tk (http_task {h} m u hs once st) e n =
    rw
      (
        payload_of,
        e,
        or_else-full h.method (codes "GET") m,
        u,
        parse_header_lines-headers_text h.headers hs once,
        parse_status_list-statuses_text h.expected_status st,
      )
      (ap (λ z. http (record h { method = z })) (or_else-full h.method (codes "GET") m))
payload-kept type p tk (subdag_task t) e n = rw (payload_of, e, t)
payload-kept type p tk (sql_task t) e n = rw (payload_of, e, t)
payload-kept type p tk powershell_task e n = rw (payload_of, e)
payload-kept type p tk (project_task {project} f) e n =
    rw (payload_of, e, unless_empty-full project f)
payload-kept type p tk (other_task full a b c d) e n = rw (
  payload_of,
  e,
  ≢→eq type (codes "http") a,
  ≢→eq type (codes "subdag") b,
  ≢→eq type (codes "sql") c,
  ≢→eq type (codes "powershell") d,
)

wait-kept :
    (w : Option WaitSpec) (tk : Task) → IsWait w → tk.dod_dag ≡ [] → wait_of (with_wait w tk) ≡ w
unfolding wait_of with_wait trim trim_start
wait-kept none tk no_wait e = rw (wait_of, e)
wait-kept (some w) tk (waits full d o) e = elim (List-cases w.dag) [
  | inl n ↦ absurd (full n)
  | inr (c, s, n) ↦ rw (wait_of, d, n, o, or_zero-shown w.timeout)
]

task_spec-filled :
    (ts : List Task) (w : Option WaitSpec) (p : Payload) (tk : Task)
    → task_spec ts (with_wait w (with_payload p tk)) ≡ record (task_spec ts tk) {
      payload = payload_of (with_payload p tk);
      depends_on_dag = wait_of (with_wait w tk);
    }
unfolding task_spec payload_of wait_of with_wait with_payload http_spec
task_spec-filled ts none (http h) tk = refl
task_spec-filled ts none (subdag child) tk = refl
task_spec-filled ts none (command cmd conn project) tk = refl
task_spec-filled ts (some w) (http h) tk = refl
task_spec-filled ts (some w) (subdag child) tk = refl
task_spec-filled ts (some w) (command cmd conn project) tk = refl

type-full : (type : Text) (p : Payload) → IsPayload type p → type ≢ []
type-full type p (http_task m u hs once st) e = cc
type-full type p (subdag_task t) e = cc
type-full type p (sql_task t) e = cc
type-full type p powershell_task e = cc
type-full type p (project_task f) e = cc
type-full type p (other_task full a b c d) e = full e

-- A task in the shape that `dagSpecFrom` writes is sent back as it was received when it is loaded and
-- saved with no edit: its pool, rule and type are not empty, its dependencies are ids of the workflow,
-- its group and the texts of its wait are trimmed, and it has only the fields of its type, which are a
-- command with a connection for "sql" and with a project at most for "powershell", a trimmed child for
-- "subdag", and for "http" a method, a trimmed URL, statuses from 100 to 599 and headers that fit on the
-- lines of the form.
pub task_spec-editor_task_from :
    (ts : List Task) (a : TaskSpec) → IsKept ts a → task_spec ts (editor_task_from a) ≡ a
unfolding task_spec editor_task_from
task_spec-editor_task_from ts a h =
    let type = or_else-full a.type (codes "powershell") (type-full a.type a.payload h.payload) in
    let pool = or_else-full a.pool (codes "default") h.pool in
    let rule = or_else-full a.trigger_rule (codes "all_success") h.trigger_rule in
    task_spec-filled ts a.depends_on_dag a.payload (plain_fields a)
    ∙ rw
        (
          payload-kept a.type a.payload (plain_fields a) h.payload type refl,
          wait-kept a.depends_on_dag (plain_fields a) h.wait refl,
          type,
          pool,
          rule,
          or_zero-shown a.timeout,
          or_zero-shown a.sla,
          or_zero-shown a.retry_delay_max,
          or_null-shown a.retries,
          or_null-shown a.retry_delay,
          group-kept a.worker_group h.worker_group,
          filter-all (λ dep. contains (ids ts) dep) a.deps
              (λ d m. In→contains (ids ts) (h.deps d m)),
        )
        (ap
            (λ z. record a {
              pool = z;
              trigger_rule = or_else a.trigger_rule (codes "all_success");
            })
            pool
          ∙ ap (λ z. record a { trigger_rule = z }) rule)

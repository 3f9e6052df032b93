-- ===== src/Samples/Loads.antt =====
-- The theorems on loading a workflow and on the order of its steps applied at small inputs.
use poc_cronova_windows.Base.{
  In, In-cons, List, Text, [], codes, contains, In→contains, map, false, here, inl, inr, is_space,
  length, list_eqb, none, not-In-nil, refl, some, subst, sym, there, trim, trim_start, true, ℕ, ◌∷◌,
  ◌≡◌, ◌≢◌, ◌≤◌, arith, list_eq, nat_eq,
}
use poc_cronova_windows.Model.{Task, blank_task, by_id, deps_of, ids, inherited, known, pos}
use poc_cronova_windows.Graph.Cycle.{has_cycle, is_undefined, starts, visit, visit_all, visit_tasks}
use poc_cronova_windows.Graph.Cycle.Sound.{IsRoot}
use poc_cronova_windows.Graph.Topo.{is_ready, left_over, pass, placed, rounds, topo_order}
use poc_cronova_windows.Graph.Topo.Placed.{IsOrdered}
use poc_cronova_windows.Graph.Topo.Finished.{topo_order-IsOrdered}
use poc_cronova_windows.Editor.Validate.{has_duplicates}
use poc_cronova_windows.Editor.Spec.{HttpSpec, TaskSpec, http, parse_status_list, task_spec}
use poc_cronova_windows.Editor.Load.{editor_task_from, header_text, statuses_text}
use poc_cronova_windows.Editor.Load.Texts.{IsHeader, keys, parse_status_list-statuses_text}
use poc_cronova_windows.Editor.Load.RoundTrip.{
  IsKept, http_task, no_group, no_wait, task_spec-editor_task_from,
}
use poc_cronova_windows.Samples.Editors.{load}

abbrev header : Text × Text
header = (codes "Accept", codes "text/plain")

-- A one-element list has this member only.
module _ {ℓ} {A : Type ℓ} where
  single : (P : A → Type 0) (a : A) → P a → (x : A) → In x (a ∷ []) → P x
  single P a p x m = elim ((In-cons x a []).0 m) [
    | inl e ↦ subst P (sym e) p
    | inr q ↦ absurd (not-In-nil q)
  ]

absent : (s : Text) (d : ℕ) → contains s d ≡ false → (c : ℕ) → In c s → c ≢ d
absent s d f c m e =
    let t : contains s d ≡ true = subst (λ z. contains s z ≡ true) e (In→contains s m) in cc

header-IsHeader : IsHeader header
unfolding header_text trim trim_start is_space
header-IsHeader = record {
  own = λ e. cc;
  key = (λ e. cc, refl);
  value = refl;
  no_colon = absent (codes "Accept") b':' refl;
  one_line = absent (header_text header) b'\n' refl;
}

header-once : has_duplicates (keys (header ∷ [])) ≡ false
unfolding has_duplicates
header-once = refl

abbrev IsStatus : ℕ → Type 0
IsStatus n = (100 ≤ n) × (n ≤ 599)

parse_status_list-statuses_text_example : parse_status_list (statuses_text (204 ∷ [])) ≡ 204 ∷ []
parse_status_list-statuses_text_example =
    parse_status_list-statuses_text (204 ∷ []) (single IsStatus 204 (omega arith, omega arith))

abbrev call : HttpSpec
call = record {
  method = codes "POST";
  url = codes "https://example.org";
  headers = header ∷ [];
  body = [];
  expected_status = 204 ∷ [];
}

abbrev fetched : TaskSpec
fetched = record {
  id = codes "notify";
  type = codes "http";
  pool = codes "default";
  priority = pos 2;
  deps = codes "load" ∷ [];
  timeout = 30;
  sla = 0;
  trigger_rule = codes "all_success";
  retries = none;
  retry_delay = some (pos 5);
  retry_backoff = [];
  retry_delay_max = 0;
  payload = http call;
  worker_group = none;
  depends_on_dag = none;
}

fetched-IsKept : IsKept (load ∷ []) fetched
unfolding trim trim_start is_space
fetched-IsKept = record {
  pool = λ e. cc;
  trigger_rule = λ e. cc;
  deps = single (λ d. In d (ids (load ∷ []))) (codes "load") (here refl);
  worker_group = no_group;
  payload =
      http_task {h = call} (λ e. cc) refl (single IsHeader header header-IsHeader) header-once
        (single IsStatus 204 (omega arith, omega arith));
  wait = no_wait;
}

task_spec-editor_task_from_example : task_spec (load ∷ []) (editor_task_from fetched) ≡ fetched
task_spec-editor_task_from_example = task_spec-editor_task_from (load ∷ []) fetched fetched-IsKept

-- Two tasks in the opposite order of their dependency.
abbrev store : Task
store = record blank_task { id = codes "store"; deps = codes "load" ∷ [] }

abbrev both : List Task
both = store ∷ load ∷ []

both-distinct : has_duplicates (ids both) ≡ false
unfolding has_duplicates list_eqb
both-distinct = refl

both-acyclic : has_cycle both ≡ false
unfolding has_cycle visit_tasks visit visit_all known deps_of by_id starts is_undefined inherited
    list_eqb
both-acyclic = refl

pair : {A : Type 0} (P : A → Type 0) (a b : A) → P a → P b → (x : A) → In x (a ∷ b ∷ []) → P x
pair P a b p q x m = elim ((In-cons x a (b ∷ [])).0 m) [
  | inl e ↦ subst P (sym e) p
  | inr r ↦ single P b q x r
]

abbrev NoneInherited : Task → Type 0
NoneInherited x = (d : Text) → In d x.deps → inherited d ≡ false

load-own : inherited (codes "load") ≡ false
unfolding inherited list_eqb
load-own = refl

store-own : inherited (codes "store") ≡ false
unfolding inherited list_eqb
store-own = refl

topo_order-IsOrdered_example :
    IsOrdered both (topo_order both)
    × (length (topo_order both) ≡ length both)
    × ((x : Task) → In x (topo_order both) → In x both)
topo_order-IsOrdered_example =
    topo_order-IsOrdered both both-distinct
      (pair NoneInherited store load (single (λ d. inherited d ≡ false) (codes "load") load-own)
        (λ d m. absurd (not-In-nil m)))
      (pair (IsRoot both) (codes "store") (codes "load")
        (record { listed = here refl; nonempty = λ e. cc; own = store-own })
        (record { listed = there (here refl); nonempty = λ e. cc; own = load-own }))
      both-acyclic

-- The first step is the one that the second one depends on.
first-both : map (λ (x : Task). x.id) (topo_order both) ≡ codes "load" ∷ codes "store" ∷ []
unfolding topo_order placed rounds pass is_ready left_over known by_id list_eqb inherited
first-both = refl

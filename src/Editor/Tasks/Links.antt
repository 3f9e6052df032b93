-- ===== src/Editor/Tasks/Links.antt =====
-- The graph's actions on the tasks (internal/web/static/views.js), among nodes that are there.
use poc_cronova_windows.Base.{
  Bool, Bool-cases, List, Option, Option-cases, Text, [], ap, arith, contains, false, if_elim, inl,
  inr, none, not, not-In-nil, refl, some, subst, text_iff, true, ◌==◌, ◌||◌, ◌∷◌, ◌≡◌, ◌∙◌, list_eq,
  nat_eq,
}
use poc_cronova_windows.Model.{Task}
use poc_cronova_windows.Editor.{Editor}
use poc_cronova_windows.Editor.Validate.{has_duplicates, id_ok, is_empty}
use poc_cronova_windows.Editor.Tasks.{change_deps, has_id, push, remove_first}
use poc_cronova_windows.Editor.Tasks.Fresh.{In→has_id, has_id→In}
use poc_cronova_windows.Editor.Tasks.Tidy.{IsTidy, append-IsTidy}
use poc_cronova_windows.Editor.Tasks.Chips.{member-IsTidy}
use poc_cronova_windows.Editor.Session.{
  add_node, add_task_from_graph, closes_cycle, connect_node, drop_edge, graph_discard, graph_mutate,
  graph_task, graph_toggle_dep, is_some, is_stub, on_graph_node_activate, task_at,
  toggle_connect_mode, toggle_found, toggle_member,
}
use poc_cronova_windows.Editor.Session.Discard.{Action, act, add, click, connect, drop, remove_edge}

-- Whether the node that an action starts from is there: the node that a click connects was remembered
-- by an earlier click, and its task may have been deleted since.
abbrev pub starts_live : Action → Editor → Bool
starts_live (add answer) d = true
starts_live (click id shift) d = elim d.graph_pending [ none ↦ true | some up ↦ has_id up d.tasks ]
starts_live (drop from target) d = has_id from d.tasks
starts_live (remove_edge from to) d = has_id from d.tasks
starts_live connect d = true

-- The tasks are tidy, and so are those that a discard gives back.
pub record IsOrderly (d : Editor) : Type 0 where
  pub now : IsTidy d.tasks
  pub before : (b : List Task) → d.graph_base ≡ some b → IsTidy b

some_injective : {a b : List Task} → some a ≡ some b → a ≡ b
some_injective e = cc

pub graph_mutate-IsOrderly :
    (f : List Task → List Task) (d : Editor)
    → IsTidy (f d.tasks)
    → IsOrderly d
    → IsOrderly (graph_mutate f d)
unfolding graph_mutate
graph_mutate-IsOrderly f d t h = elim (Option-cases d.graph_base) [
  | inl e ↦ record { now = t; before = λ b q. subst IsTidy (some_injective (rw e at q)) h.now }
  | inr (c, e) ↦ record { now = t; before = λ b q. h.before b (e ∙ rw e at q) }
]

pub graph_discard-IsOrderly : (d : Editor) → IsOrderly d → IsOrderly (graph_discard d)
unfolding graph_discard
graph_discard-IsOrderly d h = elim (Option-cases d.graph_base) [
  | inl e ↦ record { now = rw e h.now; before = λ b q. cc }
  | inr (c, e) ↦ record { now = rw e (h.before c e); before = λ b q. cc }
]

-- Changes that agree on the dependencies of the task that is changed.
change_deps-same :
    (f g : List Text → List Text) (k : Text) (ts : List Task) (dt : Task)
    → task_at k ts ≡ some dt
    → f dt.deps ≡ g dt.deps
    → change_deps f k ts ≡ change_deps g k ts
unfolding change_deps
change_deps-same f g k [] dt e q = refl
change_deps-same f g k (x ∷ ts) dt e q = elim (Bool-cases (x.id == k)) [
  | inl t ↦
      let same : x ≡ dt = task_injective (rw t at e) in
      rw t (ap (λ ds. record x { deps = ds } ∷ ts) (agree x same))
  | inr n ↦ rw n (ap (x ∷◌) (change_deps-same f g k ts dt (rw n at e) q))
]
  where
    task_injective : {a b : Task} → some a ≡ some b → a ≡ b
    task_injective p = cc

    agree : (y : Task) → y ≡ dt → f y.deps ≡ g y.deps
    agree y p = rw p q

toggle_found-IsOrderly :
    (up down : Text) (allow : Bool) (dt : Task) (d : Editor)
    → task_at down d.tasks ≡ some dt
    → has_id up d.tasks ≡ true
    → (up == down) ≡ false
    → IsOrderly d
    → IsOrderly (toggle_found up down allow dt d)
unfolding toggle_found toggle_member
toggle_found-IsOrderly up down allow dt d at l ne h =
    let toggled : IsTidy (change_deps (toggle_member up) down d.tasks) =
      member-IsTidy up down d.tasks (has_id→In up d.tasks l)
        (λ e. let q = (text_iff up down).1 e in cc) h.now in
    if_elim IsOrderly (contains dt.deps up) _ _
      (λ t.
        if_elim IsOrderly allow _ _
          (λ a.
            graph_mutate-IsOrderly (change_deps (remove_first up) down) d
              (rw
                (change_deps-same (remove_first up) (toggle_member up) down d.tasks dt at
                  (rw (toggle_member, t)))
                toggled)
              h)
          (λ a. h))
      (λ f.
        if_elim IsOrderly (closes_cycle up down d.tasks) _ _ (λ c. h)
          (λ c.
            graph_mutate-IsOrderly (change_deps (push up) down) d
              (rw
                (change_deps-same (push up) (toggle_member up) down d.tasks dt at
                  (rw (toggle_member, f)))
                toggled)
              h))

toggle-IsOrderly :
    (up down : Text) (allow : Bool) (d : Editor)
    → has_id up d.tasks ≡ true
    → IsOrderly d
    → IsOrderly (graph_toggle_dep up down allow d)
unfolding graph_toggle_dep
toggle-IsOrderly up down allow d l h = elim (Option-cases (task_at down d.tasks)) [
  | inl e ↦ rw (graph_toggle_dep, e) h
  | inr (dt, e) ↦
      rw (graph_toggle_dep, e)
        (if_elim IsOrderly (up == down) d _ (λ t. h)
          (λ f. toggle_found-IsOrderly up down allow dt d e l f h))
]

connect-IsOrderly :
    (id : Text) (pending : Option Text) (d : Editor)
    → elim pending [ none ↦ true | some up ↦ has_id up d.tasks ] ≡ true
    → IsOrderly d
    → IsOrderly (connect_node id pending d)
unfolding connect_node
connect-IsOrderly id none d l h = record { now = h.now; before = h.before }
connect-IsOrderly id (some up) d l h =
    if_elim IsOrderly (up == id) _ _ (λ t. record { now = h.now; before = h.before })
      (λ f.
        toggle-IsOrderly up id true (record d { graph_pending = none }) l
          (record { now = h.now; before = h.before }))

pub act-IsOrderly :
    (a : Action) (d : Editor) → starts_live a d ≡ true → IsOrderly d → IsOrderly (act a d)
unfolding act add_task_from_graph on_graph_node_activate drop_edge toggle_connect_mode
    has_duplicates
act-IsOrderly (add none) d l h = h
act-IsOrderly (add (some id)) d l h =
    if_elim IsOrderly (is_empty id || (not (id_ok id) || has_id id d.tasks)) _ _ (λ t. h)
      (λ f.
        let free : has_id id d.tasks ≡ false = ground arith in
        graph_mutate-IsOrderly (add_node id) d
          (append-IsTidy d.tasks (graph_task id) h.now (λ m. let t = In→has_id id d.tasks m in cc)
            (λ k m. absurd (not-In-nil m)) refl)
          h)
act-IsOrderly (click id shift) d l h =
    if_elim IsOrderly (is_stub id) _ _ (λ t. h)
      (λ f.
        if_elim IsOrderly (d.connect_mode || (shift || is_some d.graph_pending)) _ _
          (λ c. connect-IsOrderly id d.graph_pending d l h)
          (λ c. record { now = h.now; before = h.before }))
act-IsOrderly (drop from none) d l h = h
act-IsOrderly (drop from (some tid)) d l h =
    if_elim IsOrderly (tid == from || is_stub tid) _ _ (λ t. h)
      (λ f. toggle-IsOrderly from tid false d l h)
act-IsOrderly (remove_edge from to) d l h = toggle-IsOrderly from to true d l h
act-IsOrderly connect d l h = record { now = h.now; before = h.before }

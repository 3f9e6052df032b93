-- ===== src/Editor/Session/Discard.antt =====
-- Discarding a session of the graph (internal/web/static/views.js), and what the pointer is told while
-- an edge is drawn.
use poc_cronova_windows.Base.{
  Bool, List, Option, Option-cases, if_elim, Text, [], arith, contains, false, if◌then◌else◌, inl,
  inr, none, not, refl, some, true, ◌&&◌, ◌==◌, ◌||◌, ◌∷◌, ◌≡◌, list_eq, nat_eq,
}
use poc_cronova_windows.Model.{Task}
use poc_cronova_windows.Editor.{Editor}
use poc_cronova_windows.Editor.Validate.{id_ok, is_empty}
use poc_cronova_windows.Editor.Tasks.{change_deps, has_id, push, remove_first}
use poc_cronova_windows.Editor.Session.{
  add_node, add_task_from_graph, base_of, closes_cycle, connect_node, drop_edge, graph_discard,
  graph_drop_allowed, graph_mutate, graph_toggle_dep, is_some, is_stub, on_graph_node_activate,
  task_at, toggle_connect_mode, toggle_found,
}

-- What can be done to the graph.
pub data Action : Type 0 where
  add : Option Text → Action
  click : Text → Bool → Action
  drop : Text → Option Text → Action
  remove_edge : Text → Text → Action
  connect : Action

unfoldable pub act : Action → Editor → Editor
act (add answer) d = add_task_from_graph answer d
act (click id shift) d = on_graph_node_activate id shift d
act (drop from target) d = drop_edge from target d
act (remove_edge from to) d = graph_toggle_dep from to true d
act connect d = toggle_connect_mode d

unfoldable pub run : List Action → Editor → Editor
unfolding act
run [] d = d
run (a ∷ as') d = run as' (act a d)

-- The tasks `ts` are what a discard gives back.
abbrev Kept : List Task → Editor → Type 0
Kept ts d = base_of d ≡ some ts

graph_mutate-Kept :
    (f : List Task → List Task) (ts : List Task) (d : Editor)
    → Kept ts d
    → Kept ts (graph_mutate f d)
unfolding graph_mutate
graph_mutate-Kept f ts d h = ground arith

toggle_found-Kept :
    (up down : Text) (allow : Bool) (dt : Task) (ts : List Task) (d : Editor)
    → Kept ts d
    → Kept ts (toggle_found up down allow dt d)
unfolding toggle_found
toggle_found-Kept up down allow dt ts d h =
    if_elim (Kept ts) (contains dt.deps up) _ _
      (λ t.
        if_elim (Kept ts) allow _ _
          (λ a. graph_mutate-Kept (change_deps (remove_first up) down) ts d h) (λ a. h))
      (λ f.
        if_elim (Kept ts) (closes_cycle up down d.tasks) _ _ (λ c. h)
          (λ c. graph_mutate-Kept (change_deps (push up) down) ts d h))

toggle-Kept :
    (up down : Text) (allow : Bool) (ts : List Task) (d : Editor)
    → Kept ts d
    → Kept ts (graph_toggle_dep up down allow d)
unfolding graph_toggle_dep
toggle-Kept up down allow ts d h = elim (Option-cases (task_at down d.tasks)) [
  | inl e ↦ rw (graph_toggle_dep, e) h
  | inr (dt, e) ↦
      rw (graph_toggle_dep, e)
        (if_elim (Kept ts) (up == down) d _ (λ t. h)
          (λ f. toggle_found-Kept up down allow dt ts d h))
]

connect-Kept :
    (id : Text) (pending : Option Text) (ts : List Task) (d : Editor)
    → Kept ts d
    → Kept ts (connect_node id pending d)
unfolding connect_node
connect-Kept id none ts d h = h
connect-Kept id (some up) ts d h =
    if_elim (Kept ts) (up == id) _ _ (λ t. h)
      (λ f. toggle-Kept up id true ts (record d { graph_pending = none }) h)

act-Kept : (a : Action) (ts : List Task) (d : Editor) → Kept ts d → Kept ts (act a d)
unfolding act add_task_from_graph on_graph_node_activate drop_edge toggle_connect_mode
act-Kept (add none) ts d h = h
act-Kept (add (some id)) ts d h =
    if_elim (Kept ts) (is_empty id || (not (id_ok id) || has_id id d.tasks)) _ _ (λ t. h)
      (λ f. graph_mutate-Kept (add_node id) ts d h)
act-Kept (click id shift) ts d h =
    if_elim (Kept ts) (is_stub id) _ _ (λ t. h)
      (λ f.
        if_elim (Kept ts) (d.connect_mode || (shift || is_some d.graph_pending)) _ _
          (λ c. connect-Kept id d.graph_pending ts d h) (λ c. h))
act-Kept (drop from none) ts d h = h
act-Kept (drop from (some tid)) ts d h =
    if_elim (Kept ts) (tid == from || is_stub tid) _ _ (λ t. h)
      (λ f. toggle-Kept from tid false ts d h)
act-Kept (remove_edge from to) ts d h = toggle-Kept from to true ts d h
act-Kept connect ts d h = h

run-Kept : (as' : List Action) (ts : List Task) (d : Editor) → Kept ts d → Kept ts (run as' d)
unfolding run
run-Kept [] ts d h = h
run-Kept (a ∷ as') ts d h = run-Kept as' ts (act a d) (act-Kept a ts d h)

tasks-graph_discard : (ts : List Task) (d : Editor) → Kept ts d → (graph_discard d).tasks ≡ ts
unfolding graph_discard
tasks-graph_discard ts d h = elim (Option-cases d.graph_base) [
  | inl e ↦ ground arith
  | inr (b, e) ↦ ground arith
]

-- Discarding after any actions on the graph gives back the tasks as they were when the session
-- began, with nothing left unsaved.
pub discard-run :
    (as' : List Action) (d : Editor)
    → d.graph_base ≡ none
    → ((graph_discard (run as' d)).tasks ≡ d.tasks)
      × ((graph_discard (run as' d)).graph_base ≡ none)
      × ((graph_discard (run as' d)).graph_dirty ≡ 0)
unfolding graph_discard
discard-run as' d h =
    (tasks-graph_discard d.tasks (run as' d) (run-Kept as' d.tasks d (ground arith)), refl, refl)

-- The pointer is told that an edge may be drawn exactly if releasing it adds the dependency; else
-- releasing it changes nothing.
pub graph_drop_allowed_iff :
    (up down : Text) (d : Editor)
    → graph_toggle_dep up down false d
      ≡ (if graph_drop_allowed up down d then graph_mutate (change_deps (push up) down) d else d)
unfolding graph_toggle_dep graph_drop_allowed toggle_found
graph_drop_allowed_iff up down d = elim (Option-cases (task_at down d.tasks)) [
  | inl e ↦ rw (graph_toggle_dep, graph_drop_allowed, e)
  | inr (dt, e) ↦
      rw (graph_toggle_dep, graph_drop_allowed, e)
        (cases (up == down) (contains dt.deps up) (closes_cycle up down d.tasks)
          (graph_mutate (change_deps (push up) down) d))
]
  where
    cases :
        (a b c : Bool) (e : Editor)
        → (if a
            then d
            else (if b
                then (if false then graph_mutate (change_deps (remove_first up) down) d else d)
                else (if c then d else e)))
          ≡ (if not a && (not b && not c) then e else d)
    cases true b c e = refl
    cases false true c e = refl
    cases false false true e = refl
    cases false false false e = refl

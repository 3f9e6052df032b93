-- ===== src/Editor/Session/Acyclic.antt =====
-- What `hasCycle` answers while the graph is edited (internal/web/static/views.js).
use poc_cronova_windows.Base.{
  Bool, Bool-cases, In, In-cons, List, Option, Option-cases, Text, [], contains, false, here,
  if_elim, inl, inr, none, not, refl, some, there, true, ◌==◌, ◌||◌, ◌∷◌, ◌≡◌, list_eq, nat_eq,
}
use poc_cronova_windows.Model.{Task}
use poc_cronova_windows.Graph.Cycle.{has_cycle}
use poc_cronova_windows.Graph.Below.{
  Below, Below-refl, acyclic-Below, acyclic-append, below_cons, below_nil,
}
use poc_cronova_windows.Editor.{Editor}
use poc_cronova_windows.Editor.Validate.{id_ok, is_empty, named}
use poc_cronova_windows.Editor.Tasks.{change_deps, has_id, push, remove_first}
use poc_cronova_windows.Editor.Session.{
  add_node, add_task_from_graph, closes_cycle, connect_node, drop_edge, graph_mutate, graph_task,
  graph_toggle_dep, is_some, is_stub, on_graph_node_activate, task_at, toggle_connect_mode,
  toggle_found,
}
use poc_cronova_windows.Editor.Session.Discard.{
  Action, act, add, click, connect, drop, remove_edge, run,
}

-- `hasCycle` answers false for the tasks that have a name.
abbrev pub IsAcyclic : List Task → Type 0
IsAcyclic ts = has_cycle (named ts) ≡ false

pub In-remove_first : (k : Text) (ds : List Text) (d : Text) → In d (remove_first k ds) → In d ds
unfolding remove_first
In-remove_first k [] d m = m
In-remove_first k (x ∷ ds) d m = elim (Bool-cases (x == k)) [
  | inl t ↦ there (rw t at m)
  | inr f ↦ elim ((In-cons d x _).0 (rw f at m)) [
    | inl e ↦ here e
    | inr n ↦ there (In-remove_first k ds d n)
  ]
]

change_deps-Below :
    (f : List Text → List Text)
    → ((ds : List Text) (d : Text) → In d (f ds) → In d ds)
    → (k : Text) (ts : List Task) → Below (change_deps f k ts) ts
unfolding change_deps
change_deps-Below f s k [] = below_nil
change_deps-Below f s k (x ∷ ts) =
    if_elim (λ us. Below us (x ∷ ts)) (x.id == k) _ _
      (λ t. below_cons refl (s x.deps) (Below-refl ts))
      (λ n. below_cons refl (λ d m. m) (change_deps-Below f s k ts))

remove-IsAcyclic :
    (up down : Text) (ts : List Task)
    → IsAcyclic ts
    → IsAcyclic (change_deps (remove_first up) down ts)
remove-IsAcyclic up down ts =
    acyclic-Below (change_deps-Below (remove_first up) (In-remove_first up) down ts)

-- The tasks of an editor.
abbrev Sound : Editor → Type 0
Sound d = IsAcyclic d.tasks

mutate-Sound :
    (f : List Task → List Task) (d : Editor) → IsAcyclic (f d.tasks) → Sound (graph_mutate f d)
unfolding graph_mutate
mutate-Sound f d h = h

toggle_found-Sound :
    (up down : Text) (allow : Bool) (dt : Task) (d : Editor)
    → Sound d
    → Sound (toggle_found up down allow dt d)
unfolding toggle_found closes_cycle
toggle_found-Sound up down allow dt d h =
    if_elim Sound (contains dt.deps up) _ _
      (λ t.
        if_elim Sound allow _ _
          (λ a.
            mutate-Sound (change_deps (remove_first up) down) d
              (remove-IsAcyclic up down d.tasks h))
          (λ a. h))
      (λ f.
        if_elim Sound (closes_cycle up down d.tasks) _ _ (λ c. h)
          (λ c. mutate-Sound (change_deps (push up) down) d c))

toggle-Sound :
    (up down : Text) (allow : Bool) (d : Editor)
    → Sound d
    → Sound (graph_toggle_dep up down allow d)
unfolding graph_toggle_dep
toggle-Sound up down allow d h = elim (Option-cases (task_at down d.tasks)) [
  | inl e ↦ rw (graph_toggle_dep, e) h
  | inr (dt, e) ↦
      rw (graph_toggle_dep, e)
        (if_elim Sound (up == down) d _ (λ t. h) (λ f. toggle_found-Sound up down allow dt d h))
]

connect-Sound :
    (id : Text) (pending : Option Text) (d : Editor) → Sound d → Sound (connect_node id pending d)
unfolding connect_node
connect-Sound id none d h = h
connect-Sound id (some up) d h =
    if_elim Sound (up == id) _ _ (λ t. h)
      (λ f. toggle-Sound up id true (record d { graph_pending = none }) h)

act-Sound : (a : Action) (d : Editor) → Sound d → Sound (act a d)
unfolding act add_task_from_graph on_graph_node_activate drop_edge toggle_connect_mode
act-Sound (add none) d h = h
act-Sound (add (some id)) d h =
    if_elim Sound (is_empty id || (not (id_ok id) || has_id id d.tasks)) _ _ (λ t. h)
      (λ f. mutate-Sound (add_node id) d (acyclic-append d.tasks (graph_task id) refl h))
act-Sound (click id shift) d h =
    if_elim Sound (is_stub id) _ _ (λ t. h)
      (λ f.
        if_elim Sound (d.connect_mode || (shift || is_some d.graph_pending)) _ _
          (λ c. connect-Sound id d.graph_pending d h) (λ c. h))
act-Sound (drop from none) d h = h
act-Sound (drop from (some tid)) d h =
    if_elim Sound (tid == from || is_stub tid) _ _ (λ t. h) (λ f. toggle-Sound from tid false d h)
act-Sound (remove_edge from to) d h = toggle-Sound from to true d h
act-Sound connect d h = h

-- When `hasCycle` answers false for the tasks that have a name, it answers false again after any
-- sequence of actions on the graph.
pub run-IsAcyclic :
    (as' : List Action) (d : Editor)
    → has_cycle (named d.tasks) ≡ false
    → has_cycle (named (run as' d).tasks) ≡ false
unfolding run
run-IsAcyclic [] d h = h
run-IsAcyclic (a ∷ as') d h = run-IsAcyclic as' (act a d) (act-Sound a d h)

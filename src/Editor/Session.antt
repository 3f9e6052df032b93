-- ===== src/Editor/Session.antt =====
-- The editing session of the graph (internal/web/static/views.js): changes of the structure gather in
-- `D.tasks` beside the tasks as they were last saved, until they are saved or discarded.
pub mod Discard
pub mod Acyclic
use poc_cronova_windows.Base.{
  Bool, List, Option, Text, [], codes, contains, false, find, if◌then◌else◌, not, none, some,
  starts_with, suc, true, ℕ, ◌&&◌, ◌++◌, ◌==◌, ◌||◌, ◌∷◌, list_eq, nat_eq,
}
use poc_cronova_windows.Model.{Task, blank_task}
use poc_cronova_windows.Graph.Cycle.{has_cycle}
use poc_cronova_windows.Editor.{Editor}
use poc_cronova_windows.Editor.Validate.{id_ok, is_empty, named, validate_dag}
use poc_cronova_windows.Editor.Console.{Console, reflect_save_state, save_dag}
use poc_cronova_windows.Editor.Tasks.{change_deps, has_id, push, remove_first}

-- `graphMutate`: the first change of a session keeps a copy of the tasks.
abbrev pub base_of : Editor → Option (List Task)
base_of d = elim d.graph_base [ none ↦ some d.tasks | some b ↦ some b ]

unfoldable pub graph_mutate : (List Task → List Task) → Editor → Editor
graph_mutate f d = record d {
  graph_base = base_of d;
  tasks = f d.tasks;
  graph_dirty = suc d.graph_dirty;
  diff_cached = false;
}

abbrev pub session_over : Editor → Editor
session_over d = record d {
  graph_base = none;
  graph_dirty = 0;
  diff_cached = false;
  diff_open = false;
  graph_pending = none;
}

-- `graphSaveSession`.
unfoldable pub graph_save_session : Console → Console
graph_save_session c = elim (validate_dag c.ed) [
  | [] ↦ save_dag (record c { ed = session_over c.ed })
  | e ∷ es ↦ reflect_save_state c
]

-- `graphDiscardSession`.
unfoldable pub graph_discard : Editor → Editor
graph_discard d =
    session_over (record d { tasks = elim d.graph_base [ none ↦ d.tasks | some b ↦ b ] })

-- The task that the graph's toolbar adds.
abbrev pub graph_task : Text → Task
graph_task id = record blank_task { id = id; command = codes "Write-Output TODO" }

abbrev pub add_node : Text → List Task → List Task
add_node id ts = ts ++ graph_task id ∷ []

-- `addTaskFromGraph`, with the answer of the prompt.
unfoldable pub add_task_from_graph : Option Text → Editor → Editor
unfolding graph_mutate
add_task_from_graph none d = d
add_task_from_graph (some id) d =
    if is_empty id || (not (id_ok id) || has_id id d.tasks) then d else graph_mutate (add_node id) d

-- The first task with an id.
abbrev pub task_at : Text → List Task → Option Task
task_at k ts = find (λ (x : Task). x.id == k) ts

-- Whether `down` would close a cycle if it depended on `up`.
unfoldable pub closes_cycle : Text → Text → List Task → Bool
closes_cycle up down ts = has_cycle (named (change_deps (push up) down ts))

unfoldable pub toggle_found : Text → Text → Bool → Task → Editor → Editor
unfolding graph_mutate closes_cycle
toggle_found up down allow_remove dt d =
    if contains dt.deps up
    then (if allow_remove then graph_mutate (change_deps (remove_first up) down) d else d)
    else (if closes_cycle up down d.tasks then d else graph_mutate (change_deps (push up) down) d)

-- `graphToggleDep`.
unfoldable pub graph_toggle_dep : Text → Text → Bool → Editor → Editor
unfolding toggle_found
graph_toggle_dep up down allow_remove d = elim (task_at down d.tasks) [
  | none ↦ d
  | some dt ↦ if up == down then d else toggle_found up down allow_remove dt d
]

-- `graphDropAllowed`.
unfoldable pub graph_drop_allowed : Text → Text → Editor → Bool
unfolding closes_cycle
graph_drop_allowed up down d = elim (task_at down d.tasks) [
  | none ↦ false
  | some dt ↦ not (up == down) && (not (contains dt.deps up) && not (closes_cycle up down d.tasks))
]

-- The nodes that stand for other workflows.
unfoldable pub is_stub : Text → Bool
unfolding starts_with
is_stub id = starts_with id (codes "__ext__")

-- `startEdgeDrag`, when the pointer is released over a node, or over none.
unfoldable pub drop_edge : Text → Option Text → Editor → Editor
unfolding graph_toggle_dep is_stub
drop_edge from none d = d
drop_edge from (some tid) d =
    if tid == from || is_stub tid then d else graph_toggle_dep from tid false d

-- A click on a node while the graph connects: the first one is remembered.
unfoldable pub connect_node : Text → Option Text → Editor → Editor
unfolding graph_toggle_dep
connect_node id none d = record d { graph_pending = some id }
connect_node id (some up) d =
    if up == id
    then record d { graph_pending = none }
    else graph_toggle_dep up id true (record d { graph_pending = none })

abbrev pub is_some {ℓ} : {A : Type ℓ} → Option A → Bool
is_some none = false
is_some (some a) = true

-- `onGraphNodeActivate`; a plain click opens the task's page.
unfoldable pub on_graph_node_activate : Text → Bool → Editor → Editor
unfolding connect_node is_stub
on_graph_node_activate id shift d =
    if is_stub id
    then d
    else (if d.connect_mode || (shift || is_some d.graph_pending)
        then connect_node id d.graph_pending d
        else record d { active_task = some id })

-- The button that switches connecting on and off.
unfoldable pub toggle_connect_mode : Editor → Editor
toggle_connect_mode d = record d { connect_mode = not d.connect_mode; graph_pending = none }

-- A dependency chip of the task page: what closes a cycle is taken back.
unfoldable pub toggle_member : Text → List Text → List Text
toggle_member dep ds = if contains ds dep then remove_first dep ds else push dep ds

unfoldable pub toggle_chip : Text → Text → List Task → List Task
unfolding toggle_member
toggle_chip dep id ts =
    let toggled = change_deps (toggle_member dep) id ts in
    if has_cycle (named toggled) then change_deps (toggle_member dep) id toggled else toggled

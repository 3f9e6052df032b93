-- ===== src/Editor/Tasks/Sequences.antt =====
-- The operations of the editor (internal/web/static/views.js) that change `D.tasks`, in sequence.
use poc_cronova_windows.Base.{
  List, Option-cases, Text, [], arith, false, get_elem?, if◌then◌else◌, if_elim, inl, inr, none,
  not, refl, some, true, text_iff, sym, ℕ, ◌∙◌, ◌&&◌, ◌==◌, ◌∷◌, ◌≡◌, list_eq, nat_eq,
}
use poc_cronova_windows.Model.{Task}
use poc_cronova_windows.Graph.Topo.{topo_order}
use poc_cronova_windows.Editor.{Editor}
use poc_cronova_windows.Editor.Validate.{named}
use poc_cronova_windows.Editor.Console.{settle}
use poc_cronova_windows.Editor.Tasks.{
  Renaming, add_task, delete_task, duplicate_task, has_id, kept, nv_add_step, refused,
  rename_active, renamed,
}
use poc_cronova_windows.Editor.Tasks.Fresh.{has_id→In}
use poc_cronova_windows.Editor.Tasks.Tidy.{IsTidy}
use poc_cronova_windows.Editor.Tasks.Rename.{rename_active-IsTidy}
use poc_cronova_windows.Editor.Tasks.Edits.{
  add_task-IsTidy, delete_task-IsTidy, duplicate_task-IsTidy,
}
use poc_cronova_windows.Editor.Tasks.Chips.{toggle_chip-IsTidy}
use poc_cronova_windows.Editor.Tasks.Steps.{nv_add_step-IsTidy}
use poc_cronova_windows.Editor.Tasks.Links.{
  IsOrderly, act-IsOrderly, graph_discard-IsOrderly, starts_live,
}
use poc_cronova_windows.Editor.Session.{graph_discard, toggle_chip}
use poc_cronova_windows.Editor.Session.Discard.{Action, act}

-- What the page offers: the buttons of the list, the novices' button for a step, the name field of the
-- task at a position, the chips, which stand for the ids of the other tasks, an action on the graph,
-- and the end of a session of the graph by a discard or by a save.
pub data Edit : Type 0 where
  add add_step discard saved : Edit
  duplicate : Text → Edit
  delete : Text → Edit
  rename : ℕ → Text → Edit
  chip : Text → Text → Edit
  graph : Action → Edit

unfoldable pub after_rename : Renaming → List Task → List Task
after_rename kept ts = ts
after_rename (refused e) ts = ts
after_rename (renamed us) ts = us

abbrev pub with_tasks : List Task → Editor → Editor
with_tasks ts d = record d { tasks = ts }

-- An action on the graph that starts from a node whose task is gone is left out.
unfoldable pub edit : Edit → Editor → Editor
unfolding after_rename
edit add d = with_tasks (add_task d.tasks) d
edit add_step d = with_tasks (nv_add_step (topo_order (named d.tasks)) d.tasks) d
edit discard d = graph_discard d
edit saved d = settle d
edit (duplicate k) d = with_tasks (duplicate_task k d.tasks) d
edit (delete k) d = with_tasks (delete_task k d.tasks) d
edit (rename i k2) d = elim (get_elem? d.tasks i) [
  | none ↦ d
  | some tk ↦ with_tasks (after_rename (rename_active i tk.id k2 d.tasks) d.tasks) d
]
edit (chip dep k) d =
    if has_id dep d.tasks && not (dep == k) then with_tasks (toggle_chip dep k d.tasks) d else d
edit (graph a) d = if starts_live a d then act a d else d

unfoldable pub edit_all : List Edit → Editor → Editor
unfolding edit
edit_all [] d = d
edit_all (e ∷ es) d = edit_all es (edit e d)

with_tasks-IsOrderly :
    (ts : List Task) (d : Editor) → IsTidy ts → IsOrderly d → IsOrderly (with_tasks ts d)
with_tasks-IsOrderly ts d t h = record { now = t; before = h.before }

edit-IsOrderly : (e : Edit) (d : Editor) → IsOrderly d → IsOrderly (edit e d)
unfolding edit after_rename
edit-IsOrderly add d h = with_tasks-IsOrderly _ d (add_task-IsTidy d.tasks h.now) h
edit-IsOrderly add_step d h = with_tasks-IsOrderly _ d (nv_add_step-IsTidy d.tasks h.now) h
edit-IsOrderly discard d h = graph_discard-IsOrderly d h
edit-IsOrderly saved d h = record { now = h.now; before = λ b q. cc }
edit-IsOrderly (duplicate k) d h =
    with_tasks-IsOrderly _ d (duplicate_task-IsTidy k d.tasks h.now) h
edit-IsOrderly (delete k) d h = with_tasks-IsOrderly _ d (delete_task-IsTidy k d.tasks h.now) h
edit-IsOrderly (rename i k2) d h = elim (Option-cases (get_elem? d.tasks i)) [
  | inl e ↦ rw (edit, e) h
  | inr (tk, e) ↦
      rw (edit, e)
        (with_tasks-IsOrderly _ d
          (after (rename_active i tk.id k2 d.tasks)
            (λ us r. rename_active-IsTidy i k2 d.tasks us tk e r h.now))
          h)
]
  where
    after :
        (r : Renaming)
        → ((us : List Task) → r ≡ renamed us → IsTidy us)
        → IsTidy (after_rename r d.tasks)
    after kept g = h.now
    after (refused m) g = h.now
    after (renamed us) g = g us refl
edit-IsOrderly (chip dep k) d h =
    if_elim IsOrderly (has_id dep d.tasks && not (dep == k)) _ _
      (λ t.
        let there_is : has_id dep d.tasks ≡ true = ground arith in
        let other : (dep == k) ≡ false = ground arith in
        with_tasks-IsOrderly _ d
          (toggle_chip-IsTidy dep k d.tasks (has_id→In dep d.tasks there_is)
            (λ e. let q = (text_iff dep k).1 e in cc) h.now)
          h)
      (λ f. h)
edit-IsOrderly (graph a) d h =
    if_elim IsOrderly (starts_live a d) _ _ (λ l. act-IsOrderly a d l h) (λ f. h)

edits-IsOrderly : (es : List Edit) (d : Editor) → IsOrderly d → IsOrderly (edit_all es d)
unfolding edit_all
edits-IsOrderly [] d h = h
edits-IsOrderly (e ∷ es) d h = edits-IsOrderly es (edit e d) (edit-IsOrderly e d h)

-- From tidy tasks with no unsaved change of the graph, after any sequence of additions, steps, copies,
-- deletions, renamings, chips, saves, discards and actions on the graph, of which those that start from
-- a node whose task is gone are left out, the tasks are tidy: the ids are distinct, and the
-- dependencies of a task are distinct ids of other tasks.
pub edit_all-IsTidy :
    (es : List Edit) (d : Editor)
    → IsTidy d.tasks
    → d.graph_base ≡ none
    → IsTidy (edit_all es d).tasks
edit_all-IsTidy es d t n =
    (edits-IsOrderly es d (record { now = t; before = λ b q. absurd (none≢some (sym n ∙ q)) })).now
  where
    none≢some : {b : List Task} → ¬ (none ≡ some b)
    none≢some q = cc

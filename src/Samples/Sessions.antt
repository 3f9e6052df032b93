-- ===== src/Samples/Sessions.antt =====
-- The theorems on the tasks of the editor and the graph's session applied at small inputs.
use poc_cronova_windows.Base.{
  List, [], codes, false, if◌then◌else◌, In-cons, here, inl, inr, list_eqb, none, not-In-nil, refl,
  some, ◌∷◌, ◌≡◌, list_eq, nat_eq, ◌==◌, arith,
}
use poc_cronova_windows.Model.{Task, blank_task, by_id, deps_of, inherited, known}
use poc_cronova_windows.Graph.Cycle.{has_cycle, is_undefined, starts, visit, visit_all, visit_tasks}
use poc_cronova_windows.Editor.{Editor}
use poc_cronova_windows.Editor.Validate.{has_duplicates, id_ok, is_alnum, is_id_part, named}
use poc_cronova_windows.Editor.Tasks.{
  change_deps, id_elsewhere, has_id, new_task_id, push, rename_active, renamed, rename_at,
}
use poc_cronova_windows.Editor.Tasks.Fresh.{new_task_id-free}
use poc_cronova_windows.Editor.Tasks.Tidy.{IsTidy, append-IsTidy}
use poc_cronova_windows.Editor.Tasks.Rename.{rename_active-IsTidy}
use poc_cronova_windows.Editor.Tasks.Sequences.{
  Edit, add, add_step, chip, delete, discard, duplicate, edit_all, edit_all-IsTidy, graph, rename,
  saved,
}
use poc_cronova_windows.Editor.Session.{
  graph_discard, graph_drop_allowed, graph_mutate, graph_toggle_dep,
}
use poc_cronova_windows.Editor.Session.Discard.{
  Action, click, connect, discard-run, drop, graph_drop_allowed_iff, run,
}
use poc_cronova_windows.Editor.Session.Acyclic.{run-IsAcyclic}
use poc_cronova_windows.Samples.Editors.{load, page}

abbrev save : Task
save = record blank_task { id = codes "save"; deps = codes "load" ∷ [] }

abbrev two : List Task
two = load ∷ save ∷ []

nothing-IsTidy : IsTidy []
unfolding has_duplicates
nothing-IsTidy = record {
  distinct = refl;
  closed = λ x m d n. absurd (not-In-nil m);
  once = λ x m. absurd (not-In-nil m);
  others = λ x m n. not-In-nil m;
}

one-IsTidy : IsTidy (load ∷ [])
unfolding has_duplicates
one-IsTidy =
    append-IsTidy [] load nothing-IsTidy (λ m. not-In-nil m) (λ d m. absurd (not-In-nil m)) refl

two-IsTidy : IsTidy two
unfolding has_duplicates list_eqb
two-IsTidy =
    append-IsTidy (load ∷ []) save one-IsTidy
      (λ m. elim ((In-cons save.id load.id []).0 m) [
        | inl e ↦ let t : (save.id == load.id) ≡ false = refl in absurd (ground (arith, e))
        | inr q ↦ not-In-nil q
      ])
      (λ d m. elim ((In-cons d (codes "load") []).0 m) [
        | inl e ↦ here e
        | inr q ↦ absurd (not-In-nil q)
      ])
      refl

abbrev shown : Editor
shown = record page { tasks = two }

abbrev edits : List Edit
edits =
    rename 0 (codes "fetch")
    ∷ add
    ∷ saved
    ∷ duplicate (codes "save")
    ∷ chip (codes "task_3") (codes "fetch")
    ∷ graph (drop (codes "task_3") (some (codes "save")))
    ∷ add_step
    ∷ discard
    ∷ delete (codes "save")
    ∷ []

edit_all-IsTidy_example : IsTidy (edit_all edits shown).tasks
edit_all-IsTidy_example = edit_all-IsTidy edits shown two-IsTidy refl

renamed-two :
    rename_active 0 (codes "load") (codes "fetch") two
    ≡ renamed (rename_at 0 (codes "load") (codes "fetch") two)
unfolding rename_active id_elsewhere id_ok is_alnum is_id_part list_eqb
renamed-two = refl

rename_active-IsTidy_example : IsTidy (rename_at 0 (codes "load") (codes "fetch") two)
rename_active-IsTidy_example =
    rename_active-IsTidy 0 (codes "fetch") two (rename_at 0 (codes "load") (codes "fetch") two) load
      refl renamed-two two-IsTidy

new_task_id-free_example : has_id (new_task_id two) two ≡ false
new_task_id-free_example = new_task_id-free two

abbrev actions : List Action
actions =
    connect
    ∷ click (codes "save") false
    ∷ click (codes "load") false
    ∷ drop (codes "load") (some (codes "save"))
    ∷ []

discard-run_example :
    ((graph_discard (run actions shown)).tasks ≡ two)
    × ((graph_discard (run actions shown)).graph_base ≡ none)
    × ((graph_discard (run actions shown)).graph_dirty ≡ 0)
discard-run_example = discard-run actions shown refl

shown-acyclic : has_cycle (named two) ≡ false
unfolding has_cycle visit_tasks visit visit_all known deps_of by_id starts is_undefined inherited
    list_eqb
shown-acyclic = refl

run-IsAcyclic_example : has_cycle (named (run actions shown).tasks) ≡ false
run-IsAcyclic_example = run-IsAcyclic actions shown shown-acyclic

graph_drop_allowed_iff_example : graph_toggle_dep (codes "save") (codes "load") false shown ≡ (
    if graph_drop_allowed (codes "save") (codes "load") shown
    then graph_mutate (change_deps (push (codes "save")) (codes "load")) shown
    else shown)
graph_drop_allowed_iff_example = graph_drop_allowed_iff (codes "save") (codes "load") shown

-- ===== src/Samples/Shells.antt =====
-- The theorems on the dialogs and the labels applied at small inputs.
use poc_cronova_windows.Base.{
  In, List, [], codes, false, list_eqb, none, refl, true, ℕ, ◌∷◌, ◌≡◌, ◌⊎◌,
}
use poc_cronova_windows.Model.{inherited}
use poc_cronova_windows.Shell.Access.{novice}
use poc_cronova_windows.Shell.Chrome.{nav_label, new_dag_label, nv_task_label}
use poc_cronova_windows.Shell.Chrome.Known.{is_readable, labels-readable}
use poc_cronova_windows.Shell.Dialogs.{
  Input, confirm_dialog, confirms, enter, escape, other_key, press, resolved, settled_by, step,
  steps,
}
use poc_cronova_windows.Shell.Dialogs.Answered.{confirm_dialog-true}

abbrev inputs : List Input
inputs = other_key ∷ enter ∷ []

confirmed : confirm_dialog inputs ≡ resolved true
unfolding confirm_dialog steps step settled_by confirms
confirmed = refl

confirm_dialog-true_example :
    ((In enter inputs) ⊎ ((n : ℕ) × In (press n) inputs))
    × (steps confirms (escape ∷ []) (confirm_dialog inputs) ≡ resolved true)
confirm_dialog-true_example = confirm_dialog-true inputs (escape ∷ []) confirmed

extract-own : inherited (codes "extract") ≡ false
unfolding inherited list_eqb
extract-own = refl

labels-readable_example :
    (is_readable (nav_label novice (codes "resources") none) ≡ true)
    × (is_readable (new_dag_label novice) ≡ true)
    × (is_readable (nv_task_label (codes "extract")) ≡ true)
labels-readable_example =
    labels-readable novice (codes "resources") none (codes "extract") extract-own

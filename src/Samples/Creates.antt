-- ===== src/Samples/Creates.antt =====
-- The theorems on the wizard and the modal applied at small inputs.
use poc_cronova_windows.Base.{
  List, [], any, codes, false, is_space, list_eqb, map, refl, some, trim, trim_start, true, ◌<◌,
  ◌∷◌, ◌≡◌, ◌≤◌, list_eq, nat_eq, arith,
}
use poc_cronova_windows.Editor.{Editor}
use poc_cronova_windows.Editor.Validate.{id_ok, is_alnum, is_empty, is_id_part, validate_dag}
use poc_cronova_windows.Create.{BuildSpec, as_task}
use poc_cronova_windows.Create.Wizard.{
  TemplateStep, Wizard, advance, answered, create_and_run, create_as, edit_of, known_name,
  new_wizard, press_next, template_steps, type_name, def_name, wz_spec, wz_steps, wz_validate,
}
use poc_cronova_windows.Create.Wizard.Steps.{after, done, name, next, reached-IsFilled}
use poc_cronova_windows.Create.Wizard.Sent.{create_and_run-valid, sent}
use poc_cronova_windows.Create.Form.{
  Modal, can_create, click_card, create_refused, id_error, new_dag, new_dag_spec, open_modal,
  pick_card, press_create, type_id, update_validity,
}
use poc_cronova_windows.Create.Form.Pressed.{FormInput, card, pressed, typed}
use poc_cronova_windows.Samples.Editors.{page}

-- The wizard on its third screen, with a name of the user's own.
abbrev second : Wizard
second = press_next new_wizard

abbrev renamed : Wizard
renamed = type_name (codes "nightly_load") second

abbrev third : Wizard
third = press_next renamed

second-step : second.step ≡ 2
unfolding press_next advance new_wizard
second-step = refl

renamed-step : renamed.step ≡ 2
unfolding press_next advance new_wizard type_name
renamed-step = refl

new_wizard-below : new_wizard.step < 3
unfolding new_wizard
new_wizard-below = omega arith

renamed-below : renamed.step < 3
renamed-below = omega (arith, renamed-step)

third-step : 3 ≤ third.step
unfolding press_next advance new_wizard type_name wz_validate def_name wz_steps template_steps
    edit_of id_ok is_alnum is_id_part trim trim_start is_space
third-step = omega arith

reached-IsFilled_example :
    (third.step ≡ 3)
    × (id_ok (trim third.name) ≡ true)
    × (any (λ (s : TemplateStep). is_empty (trim s.cmd)) (wz_steps third) ≡ false)
reached-IsFilled_example =
    reached-IsFilled {w = third}
      (after (after (after done (next new_wizard-below)) (name (codes "nightly_load") second-step))
        (next renamed-below))
      third-step

-- The definition of the wizard as it starts, in an editor.
abbrev built : Editor
built = record page { tasks = map as_task (wz_spec new_wizard).tasks }

sent-new_wizard :
    sent (create_and_run (answered tt) (answered (codes "r1")) new_wizard)
    ≡ some (wz_spec new_wizard)
unfolding create_and_run create_as wz_validate new_wizard def_name wz_steps template_steps edit_of
    id_ok is_alnum is_id_part trim trim_start is_space
sent-new_wizard = refl

create_and_run-valid_example :
    (validate_dag built ≡ [])
    × (id_ok (wz_spec new_wizard).dag_id ≡ true)
    × (known_name new_wizard (wz_spec new_wizard).dag_id ≡ false)
create_and_run-valid_example =
    create_and_run-valid (answered tt) (answered (codes "r1")) new_wizard (wz_spec new_wizard) built
      sent-new_wizard refl refl

-- The modal with the template "fanout" chosen, a name typed and the button pressed.
abbrev inputs : List FormInput
inputs = card (codes "fanout") ∷ typed (codes " fan") ∷ pressed ∷ []

abbrev filled : Modal
filled = type_id (codes " fan") (click_card (codes "fanout") (open_modal (codes "nightly" ∷ [])))

-- An id that became invalid while the request waited, and a refusal of the server.
abbrev resent : Modal
resent = press_create (create_refused (type_id (codes "-") (press_create filled)))

resent-ids : map (λ (b : BuildSpec). b.dag_id) resent.sent ≡ codes "-" ∷ codes "fan" ∷ []
unfolding create_refused open_modal press_create type_id click_card update_validity new_dag
    new_dag_spec pick_card can_create id_error id_ok is_alnum is_id_part trim trim_start is_space
    list_eqb
resent-ids = refl

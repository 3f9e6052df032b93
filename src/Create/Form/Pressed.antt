-- ===== src/Create/Form/Pressed.antt =====
-- What the button of the modal sends (internal/web/static/builder.js).
use poc_cronova_windows.Base.{In, List, Text, [], contains, false, true, ◌∷◌, ◌≡◌, list_eq, nat_eq}
use poc_cronova_windows.Editor.Validate.{id_ok}
use poc_cronova_windows.Create.{BuildSpec}
use poc_cronova_windows.Create.Form.{Modal, click_card, press_create, type_id}

-- What the user does with the modal.
pub data FormInput : Type 0 where
  typed : Text → FormInput
  card : Text → FormInput
  pressed : FormInput

unfoldable pub handle : FormInput → Modal → Modal
handle (typed k) m = type_id k m
handle (card k) m = click_card k m
handle pressed m = press_create m

unfoldable pub handle_all : List FormInput → Modal → Modal
unfolding handle
handle_all [] m = m
handle_all (i ∷ is') m = handle_all is' (handle i m)

-- An id that may be created beside the workflows `xs`.
abbrev pub IsNew : List Text → Text → Type 0
IsNew xs id = (id_ok id ≡ true) × (contains xs id ≡ false)

record IsChecked (xs : List Text) (m : Modal) : Type 0 where
  same : m.nd.existing ≡ xs
  able : m.disabled ≡ false → IsNew xs m.nd.dag_id
  each : (b : BuildSpec) → In b m.sent → IsNew xs b.dag_id

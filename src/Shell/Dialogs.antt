-- ===== src/Shell/Dialogs.antt =====
-- The dialog that asks for a confirmation (internal/web/static/base.js): `confirmDialog`, which resolves
-- its promise once.
pub mod Answered
use poc_cronova_windows.Base.{
  Bool, List, Option, Text, [], false, get_elem?, none, some, true, ℕ, ◌∷◌,
}

-- What the user does: a key, whatever has the focus, or a click on a button or beside the dialog.
pub data Input : Type 0 where
  escape enter other_key beside inside cancel : Input
  press : ℕ → Input

-- What one input resolves a confirmation with. `confirmDialog` has one button besides Cancel.
unfoldable pub confirms : Input → Option Bool
confirms escape = some false
confirms enter = some true
confirms beside = some false
confirms cancel = some false
confirms (press n) = some true
confirms _ = none

-- The dialog while it listens, and after `close`, which takes its listeners and its elements away.
pub data Dialog (A : Type 0) : Type 0 where
  listening : Dialog A
  resolved : A → Dialog A

module _ {A : Type 0} where
  unfoldable pub settled_by : Option A → Dialog A
  settled_by none = listening
  settled_by (some a) = resolved a

  unfoldable pub step : (Input → Option A) → Input → Dialog A → Dialog A
  unfolding settled_by
  step answer i listening = settled_by (answer i)
  step answer i (resolved a) = resolved a

  unfoldable pub steps : (Input → Option A) → List Input → Dialog A → Dialog A
  unfolding step
  steps answer [] d = d
  steps answer (i ∷ is') d = steps answer is' (step answer i d)

unfoldable pub confirm_dialog : List Input → Dialog Bool
unfolding steps confirms
confirm_dialog is' = steps confirms is' listening

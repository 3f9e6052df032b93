-- ===== src/Shell/Jump.antt =====
-- The jump search of the topbar (internal/web/static/base.js, with the handlers of boot.js):
-- `updateJump`, `jumpMove`, `jumpEnter`, `jumpTo` and `closeJump`. The lower case of a text is an
-- argument.
pub mod Cursor
use poc_cronova_windows.Base.{
  Bool, List, Option, Text, [], false, filter, get_elem?, if◌then◌else◌, includes, length, none,
  some, suc, take, trim, true, zero, ℕ, ◌%◌, ◌+◌, ◌-◌, ◌∷◌,
}
use poc_cronova_windows.Editor.Validate.{is_empty}

-- The menu: hidden, or the ids that match. `sel` is `jumpSel`, with none for -1.
pub record Jump : Type 0 where
  pub dags : List Text
  pub text : Text
  pub query : Text
  pub menu : Option (List Text)
  pub sel : Option ℕ

unfoldable pub new_jump : Jump
new_jump = record { dags = []; text = []; query = []; menu = none; sel = none }

-- Where the cursor stands in a menu that is drawn anew.
abbrev pub first_of : List Text → Option ℕ
first_of [] = none
first_of (x ∷ xs) = some 0

-- `updateJump`, with the ids that the overview has, if it was fetched.
abbrev pub dags_now : Option (List Text) → List Text → List Text
dags_now none old = old
dags_now (some xs) old = xs

unfoldable pub matches : (Text → Text) → Text → List Text → List Text
matches to_lower q ids = take 8 (filter (λ id. includes (to_lower id) q) ids)

unfoldable pub update_jump : (Text → Text) → Option (List Text) → Text → Jump → Jump
unfolding matches
update_jump to_lower overview raw j =
    let q = to_lower (trim raw) in
    let ids = dags_now overview j.dags in
    let found = matches to_lower q ids in
    if is_empty q
    then record j { dags = ids; menu = none; sel = none }
    else record j { dags = ids; menu = some found; sel = first_of found }

-- The search field's input, which also filters the list of workflows.
unfoldable pub input : (Text → Text) → Option (List Text) → Text → Jump → Jump
unfolding update_jump
input to_lower overview raw j =
    update_jump to_lower overview raw (record j { text = raw; query = to_lower raw })

pub data Key : Type 0 where
  down up : Key

-- `(jumpSel + delta + items.length) % items.length` for a menu of `n` items.
unfoldable pub moved : Key → Option ℕ → ℕ → ℕ
moved down none n = n % n
moved down (some i) n = (i + 1 + n) % n
moved up none n = (n - 2) % n
moved up (some i) n = (i + n - 1) % n

-- `jumpMove`.
unfoldable pub jump_move : Key → Jump → Jump
unfolding moved
jump_move k j = elim j.menu [
  | none ↦ j
  | some [] ↦ j
  | some (x ∷ xs) ↦ record j { sel = some (moved k j.sel (length (x ∷ xs))) }
]

-- The highlighted item.
unfoldable pub chosen : Jump → Option Text
chosen j = elim j.menu [
  | none ↦ none
  | some items ↦ elim j.sel [ none ↦ none | some i ↦ get_elem? items i ]
]

unfoldable pub close_jump : Jump → Jump
close_jump j = record j { menu = none; sel = none }

-- `jumpTo` opens the page of a workflow: the id, and the search behind it.
unfoldable pub jump_to : Text → Jump → Text × Jump
unfolding close_jump
jump_to id j = (id, record (close_jump j) { text = []; query = [] })

-- `jumpEnter`: the page that was opened, if one was.
unfoldable pub jump_enter : Jump → Option Text × Jump
unfolding chosen jump_to
jump_enter j = elim (chosen j) [
  | none ↦ (none, j)
  | some id ↦ (some (jump_to id j).0, (jump_to id j).1)
]

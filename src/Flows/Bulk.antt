-- ===== src/Flows/Bulk.antt =====
-- The selection of rows and what is done to it: `wireBulk`, `renderBulkBar` and `runBulk`
-- (internal/web/static/views.js). A `Set` is the list of its members in the order of insertion.
use poc_cronova_windows.Base.{
  Bool, List, Option, Text, [], all, contains, false, filter, if◌then◌else◌, none, not, some, suc,
  true, ℕ, ◌++◌, ◌==◌, ◌∷◌, list_eq, nat_eq,
}

-- `Set.add` and `Set.delete`.
unfoldable pub set_add : Text → List Text → List Text
set_add k s = if contains s k then s else s ++ (k ∷ [])

unfoldable pub set_delete : Text → List Text → List Text
set_delete k s = filter (λ x. not (x == k)) s

-- The rows of the last redraw, and the ids that are selected.
pub record Bulk : Type 0 where
  pub rows : List Text
  pub sel : List Text

-- `wireBulk`: rows that are no longer shown leave the selection.
unfoldable pub redraw : List Text → Bulk → Bulk
redraw ids b = record { rows = ids; sel = filter (contains ids) b.sel }

-- A row's checkbox, which stands in the row.
unfoldable pub tick : Text → Bool → Bulk → Bulk
unfolding set_add set_delete
tick id checked b =
    if contains b.rows id
    then record b { sel = if checked then set_add id b.sel else set_delete id b.sel }
    else b

unfoldable pub each : (Text → List Text → List Text) → List Text → List Text → List Text
each f [] s = s
each f (k ∷ ks) s = each f ks (f k s)

-- The checkbox over all rows, and whether it shows a tick.
unfoldable pub tick_all : Bool → Bulk → Bulk
unfolding each set_add set_delete
tick_all checked b = record b {
  sel = if checked then each set_add b.rows b.sel else each set_delete b.rows b.sel;
}

unfoldable pub all_checked : Bulk → Bool
all_checked b = elim b.rows [ [] ↦ false | k ∷ ks ↦ all (contains b.sel) b.rows ]

-- `bulk-clear`, which redraws.
unfoldable pub clear : Bulk → Bulk
clear b = record b { sel = [] }

pub data Op : Type 0 where
  pause resume trigger delete : Op

-- What `runBulk` did: the requests in their order, the ids whose request failed with the messages,
-- and how many succeeded.
pub record Outcome : Type 0 where
  pub calls : List (Op × Text)
  pub fails : List (Text × Text)
  pub ok : ℕ

-- The loop over the selected ids; a request's answer is an error's message, or none.
unfoldable pub fan_out : Op → (Text → Option Text) → List Text → Outcome
fan_out op call [] = record { calls = []; fails = []; ok = 0 }
fan_out op call (id ∷ ids) =
    let rest = fan_out op call ids in
    elim (call id) [
      | none ↦ record rest { calls = (op, id) ∷ rest.calls; ok = suc rest.ok }
      | some m ↦ record rest { calls = (op, id) ∷ rest.calls; fails = (id, m) ∷ rest.fails }
    ]

-- `op === "delete" && !(await confirmDialog(...))`.
unfoldable pub goes_on : Op → Bool → Bool
goes_on delete confirmed = confirmed
goes_on _ confirmed = true

-- `runBulk`: what was done, if the user went on, and the selection behind it.
unfoldable pub run_bulk : Op → Bool → (Text → Option Text) → Bulk → Option Outcome × Bulk
unfolding goes_on fan_out clear
run_bulk op confirmed call b =
    if goes_on op confirmed then (some (fan_out op call b.sel), clear b) else (none, b)

-- The toast about the whole, and those about single failures, of which three are shown.
unfoldable pub is_warning : Outcome → Bool
is_warning o = elim o.fails [ [] ↦ false | f ∷ fs ↦ true ]

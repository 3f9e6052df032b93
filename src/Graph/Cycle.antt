-- ===== src/Graph/Cycle.antt =====
-- `hasCycle` (internal/web/static/views.js): a depth first search that colours ids 1 while they are
-- on the stack and 2 when they are finished.
pub mod Colors
pub mod Sound
pub mod Complete
pub mod Correct
use poc_cronova_windows.Base.{
  Bool, List, Text, [], false, if◌then◌else◌, length, not, suc, true, zero, ℕ, ◌==◌, ◌∷◌, list_eq,
  nat_eq,
}
use poc_cronova_windows.Model.{Task, inherited, known, deps_of}

-- The own property `color[id]`: absent, 1 or 2.
pub data Color : Type 0 where
  unset gray black : Color

pub record Search : Type 0 where
  pub color : Text → Color
  pub cyc : Bool

abbrev pub paint : Search → Text → Color → Search
paint s k c = record s { color = λ x. if x == k then c else s.color x }

-- `color[id] === undefined`, which an inherited name never is.
unfoldable pub is_undefined : Search → Text → Bool
is_undefined s k = elim (s.color k) [ unset ↦ not (inherited k) | gray ↦ false | black ↦ false ]

-- The loop over the dependencies of an id, which visits those that `byId` knows.
unfoldable pub visit_all : (Text → Search → Search) → List Task → List Text → Search → Search
visit_all visit_one ts [] s = s
visit_all visit_one ts (d ∷ ds) s =
    visit_all visit_one ts ds (if known ts d then visit_one d s else s)

-- `visit`. The fuel bounds the depth of the calls; `hasCycle` gives one more than there are tasks.
unfoldable pub visit : ℕ → List Task → Text → Search → Search
visit zero ts k s = s
visit (suc n) ts k s = elim (s.color k) [
  | gray ↦ record s { cyc = true }
  | black ↦ s
  | unset ↦ paint (visit_all (visit n ts) ts (deps_of ts k) (paint s k gray)) k black
]

-- `tk.id && color[tk.id] === undefined`.
unfoldable pub starts : Search → Text → Bool
starts s [] = false
starts s (c ∷ k) = is_undefined s (c ∷ k)

unfoldable pub visit_tasks : ℕ → List Task → List Task → Search → Search
visit_tasks n ts [] s = s
visit_tasks n ts (tk ∷ rest) s =
    visit_tasks n ts rest (if starts s tk.id then visit n ts tk.id s else s)

abbrev pub start : Search
start = record { color = λ _. unset; cyc = false }

unfoldable pub has_cycle : List Task → Bool
has_cycle ts = (visit_tasks (suc (length ts)) ts ts start).cyc

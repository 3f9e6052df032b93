-- ===== src/Graph/Topo.antt =====
-- `topoOrder` (internal/web/static/base.js): the order in which the novices' steps are numbered.
pub mod Placed
pub mod Finished
use poc_cronova_windows.Base.{
  Bool, List, Text, [], all, contains, false, filter, if◌then◌else◌, length, ltb, not, suc, true,
  zero, ℕ, ◌&&◌, ◌++◌, ◌||◌, ◌∷◌, list_eq, nat_eq,
}
use poc_cronova_windows.Model.{Task, known}

-- `out`, `done` and `progress`.
pub record Order : Type 0 where
  pub out : List Task
  pub done : List Text
  pub progress : Bool

-- Whether every dependency is placed or unknown.
unfoldable pub is_ready : List Task → List Text → Task → Bool
is_ready tasks done tk = all (λ d. contains done d || not (known tasks d)) tk.deps

abbrev pub place : Task → Order → Order
place tk o = record { out = o.out ++ (tk ∷ []); done = o.done ++ (tk.id ∷ []); progress = true }

-- One pass of the `for` loop.
unfoldable pub pass : List Task → List Task → Order → Order
unfolding is_ready
pass tasks [] o = o
pass tasks (tk ∷ rest) o =
    pass tasks rest
      (if contains o.done tk.id then o else if is_ready tasks o.done tk then place tk o else o)

-- The `while` loop, on fuel.
unfoldable pub rounds : ℕ → List Task → Order → Order
unfolding pass
rounds zero tasks o = o
rounds (suc n) tasks o =
    let next = rounds n tasks (pass tasks tasks (record o { progress = false })) in
    if ltb (length o.out) (length tasks) && o.progress then next else o

abbrev pub empty_order : Order
empty_order = record { out = []; done = []; progress = true }

-- Every pass but the last one places a task, so that two passes more than there are tasks are enough.
unfoldable pub placed : List Task → Order
unfolding rounds
placed tasks = rounds (suc (suc (length tasks))) tasks empty_order

-- The tasks that are left, in the order of the list.
unfoldable pub left_over : List Task → List Text → List Task
left_over tasks done = filter (λ (tk : Task). not (contains done tk.id)) tasks

unfoldable pub topo_order : List Task → List Task
unfolding placed left_over
topo_order tasks = (placed tasks).out ++ left_over tasks (placed tasks).done

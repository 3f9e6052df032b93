-- ===== src/Samples/Graphs.antt =====
-- The dependency graph at small workflows.
use poc_cronova_windows.Base.{
  List, Text, [], codes, false, list_eqb, refl, true, ◌↔◌, ◌∷◌, ◌≡◌, list_eq, nat_eq,
}
use poc_cronova_windows.Model.{Task, blank_task, by_id, deps_of, inherited, known}
use poc_cronova_windows.Graph.Cycle.{has_cycle, is_undefined, starts, visit, visit_all, visit_tasks}
use poc_cronova_windows.Graph.Cycle.Sound.{Found}
use poc_cronova_windows.Graph.Cycle.Correct.{has_cycle_iff}

abbrev task : Text → List Text → Task
task k ds = record blank_task { id = k; deps = ds }

abbrev chain : List Task
chain =
    task (codes "extract") []
    ∷ task (codes "transform") (codes "extract" ∷ [])
    ∷ task (codes "load") (codes "transform" ∷ [])
    ∷ []

abbrev loop : List Task
loop =
    task (codes "a") (codes "c" ∷ [])
    ∷ task (codes "b") (codes "a" ∷ [])
    ∷ task (codes "c") (codes "b" ∷ [])
    ∷ []

-- Two tasks named like properties of every object wait for one another.
abbrev inherited_loop : List Task
inherited_loop =
    task (codes "toString") (codes "valueOf" ∷ [])
    ∷ task (codes "valueOf") (codes "toString" ∷ [])
    ∷ []

has_cycle-chain : has_cycle chain ≡ false
unfolding has_cycle visit_tasks visit visit_all starts is_undefined known deps_of by_id inherited
    list_eqb
has_cycle-chain = refl

has_cycle-loop : has_cycle loop ≡ true
unfolding has_cycle visit_tasks visit visit_all starts is_undefined known deps_of by_id inherited
    list_eqb
has_cycle-loop = refl

has_cycle-inherited_loop : has_cycle inherited_loop ≡ false
unfolding has_cycle visit_tasks visit visit_all starts is_undefined known deps_of by_id inherited
    list_eqb
has_cycle-inherited_loop = refl

has_cycle_iff_example : (has_cycle loop ≡ true) ↔ Found loop
has_cycle_iff_example = has_cycle_iff loop

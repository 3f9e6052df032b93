-- ===== src/Graph/Walks.antt =====
-- Walks along the dependencies of a list of tasks, which `hasCycle` and the layout follow.
use poc_cronova_windows.Base.{In, List, Text, true, ◌≡◌}
use poc_cronova_windows.Model.{Task, known, deps_of}

module _ (ts : List Task) where
  -- The task `u` names `v` as a dependency, and `v` is looked up with success.
  abbrev pub Edge : Text → Text → Type 0
  Edge u v = In v (deps_of ts u) × (known ts v ≡ true)

  pub data Reach (u : Text) : Text → Type 0 where
    stay : Reach u u
    go : {v w : Text} → Reach u v → Edge v w → Reach u w

  -- A walk of at least one edge.
  pub data Walk (u : Text) : Text → Type 0 where
    one : {v : Text} → Edge u v → Walk u v
    then_edge : {v w : Text} → Walk u v → Edge v w → Walk u w

  -- Every walk from `u` ends: the graph is well founded below `u`.
  pub data Ends : Text → Type 0 where
    ends : {u : Text} → ((v : Text) → Edge u v → Ends v) → Ends u

  pub Edge-Walk : {u v w : Text} → Edge u v → Walk v w → Walk u w
  Edge-Walk e (one f) = then_edge (one e) f
  Edge-Walk e (then_edge p f) = then_edge (Edge-Walk e p) f

  pub Ends-Reach : {u v : Text} → Ends u → Reach u v → Ends v
  Ends-Reach h stay = h
  Ends-Reach h (go r e) = step (Ends-Reach h r) e
    where
      step : {v w : Text} → Ends v → Edge v w → Ends w
      step (ends f) e = f _ e

  -- The first edge of a walk and what is left of it.
  pub Walk-head : {u w : Text} → Walk u w → (v : Text) × Edge u v × Reach v w
  Walk-head (one {v} e) = (v, e, stay)
  Walk-head (then_edge p f) = let (v, e, r) = Walk-head p in (v, e, go r f)

  pub Reach-Edge : {u v w : Text} → Reach u v → Edge v w → Walk u w
  Reach-Edge stay e = one e
  Reach-Edge (go r f) e = then_edge (Reach-Edge r f) e

  -- Where every walk ends there is no cycle.
  pub not-Walk_self : {u : Text} → Ends u → ¬ Walk u u
  not-Walk_self (ends f) p = let (v, e, r) = Walk-head p in not-Walk_self (f v e) (Reach-Edge r e)

-- ===== src/Graph/Compare.antt =====
-- Walks in lists of tasks whose graphs are compared, for `hasCycle` (internal/web/static/views.js).
use poc_cronova_windows.Base.{Bool-cases, In, List, Text, false, inl, inr, ◌≡◌, list_eq, nat_eq}
use poc_cronova_windows.Model.{Task, ids}
use poc_cronova_windows.Graph.Walks.{
  Edge, Reach, Walk, Reach-Edge, Walk-head, go, one, stay, then_edge,
}
use poc_cronova_windows.Graph.Cycle.Sound.{Found}
use poc_cronova_windows.Graph.Cycle.{has_cycle}
use poc_cronova_windows.Graph.Cycle.Correct.{has_cycle_iff}

-- Every edge of `us` that another one follows is an edge of `ts`, and a task of `us` that has an edge
-- is a task of `ts`.
module _ (us ts : List Task) (edges : (u v w : Text) → Edge us u v → Edge us v w → Edge ts u v)
    (listed : (r v : Text) → Edge us r v → In r (ids us) → In r (ids ts)) where
  Walk-from : {u v w : Text} → Walk us u v → Edge us v w → Walk ts u v
  Walk-from (one e) f = one (edges _ _ _ e f)
  Walk-from (then_edge p e) f = then_edge (Walk-from p e) (edges _ _ _ e f)

  Reach-from : {u v w : Text} → Reach us u v → Edge us v w → Reach ts u v
  Reach-from stay f = stay
  Reach-from (go p e) f = go (Reach-from p e) (edges _ _ _ e f)

  -- Then a cycle of `us` is one of `ts`.
  pub Found-from : Found us → Found ts
  Found-from (r, root, v, reach, walk) =
      let (x, first, rest) = Walk-head us walk in
      let (y, out, later) = Walk-head us (Reach-Edge us reach first) in
      (
        r,
        record { listed = listed r y out root.listed; nonempty = root.nonempty; own = root.own },
        v,
        Reach-from reach first,
        Walk-from walk first,
      )

  pub acyclic-from : has_cycle ts ≡ false → has_cycle us ≡ false
  acyclic-from h = elim (Bool-cases (has_cycle us)) [
    | inl t ↦ let f = (has_cycle_iff ts).1 (Found-from ((has_cycle_iff us).0 t)) in absurd (cc)
    | inr f ↦ f
  ]

-- ===== src/Graph/Topo/Finished.antt =====
-- The end of the loop of `topoOrder` (internal/web/static/base.js), and the order that it leaves.
use poc_cronova_windows.Base.{
  Bool, Bool-cases, In, In-cons, List, List-cases, Option-cases, Text, [], all, ap, append-nil,
  arith, contains, false, here, if_elim, inl, inr, length, length-append, ltb, none, not,
  not-In-nil, refl, some, subst, suc, sym, text_iff, there, true, zero, ℕ, ◌+◌, ◌<◌, ◌==◌, ◌∙◌, ◌∷◌,
  ◌≡◌, ◌≤◌, ◌⊎◌, list_eq, nat_eq,
}
use mathlib.Core.Option.{some-injective}
use poc_cronova_windows.Model.{Task, by_id, deps_of, ids, inherited, known}
use poc_cronova_windows.Graph.Cycle.{has_cycle}
use poc_cronova_windows.Graph.Cycle.Sound.{IsRoot}
use poc_cronova_windows.Graph.Cycle.Correct.{has_cycle_complete}
use poc_cronova_windows.Graph.Walks.{Edge, Ends, ends}
use poc_cronova_windows.Editor.Validate.{has_duplicates}
use poc_cronova_windows.Editor.Tasks.Edits.{In-filter, filter-In}
use poc_cronova_windows.Editor.Tasks.Tidy.{In-map, contains→not_In}
use poc_cronova_windows.Graph.Topo.{
  Order, empty_order, is_ready, left_over, pass, place, placed, rounds, topo_order,
}
use poc_cronova_windows.Graph.Topo.Placed.{IsOrdered, placed-IsGood}

module _ (tasks : List Task) where
  pass-progress :
      (ts : List Task) (o : Order) → o.progress ≡ true → (pass tasks ts o).progress ≡ true
  unfolding pass
  pass-progress [] o h = h
  pass-progress (tk ∷ ts) o h = pass-progress ts _ (
      if_elim (λ (u : Order). u.progress ≡ true) (contains o.done tk.id) _ _ (λ t. h)
        (λ f.
          if_elim (λ (u : Order). u.progress ≡ true) (is_ready tasks o.done tk) _ _ (λ t. refl)
            (λ q. h)))

  -- A pass without progress changed nothing and found no task ready.
  pass-still :
      (ts : List Task) (o : Order)
      → (pass tasks ts o).progress ≡ false
      → (pass tasks ts o ≡ o)
        × ((x : Task) → In x ts → contains o.done x.id ≡ false → is_ready tasks o.done x ≡ false)
  unfolding pass
  pass-still [] o h = (refl, λ x m n. absurd (not-In-nil m))
  pass-still (tk ∷ ts) o h = elim (Bool-cases (contains o.done tk.id)) [
    | inl t ↦
        let (same, rest) = pass-still ts o (rw (pass, t) at h) in
        (
          rw (pass, t) same,
          λ x m n. elim ((In-cons x tk ts).0 m) [
            | inl e ↦ let c : contains o.done x.id ≡ true = rw e t in cc
            | inr r ↦ rest x r n
          ],
        )
    | inr f ↦ elim (Bool-cases (is_ready tasks o.done tk)) [
      | inl t ↦
          let p = pass-progress ts (place tk o) refl in
          let q : (pass tasks ts (place tk o)).progress ≡ false = rw (pass, f, t) at h in
          absurd (cc)
      | inr r ↦
          let (same, rest) = pass-still ts o (rw (pass, f, r) at h) in
          (
            rw (pass, f, r) same,
            λ x m n. elim ((In-cons x tk ts).0 m) [ inl e ↦ rw e r | inr q ↦ rest x q n ],
          )
    ]
  ]

  -- A pass with progress has placed a task.
  pass-longer :
      (ts : List Task) (o : Order)
      → (length o.out ≤ length (pass tasks ts o).out)
        × ((o.progress ≡ true)
            ⊎ ((pass tasks ts o).progress ≡ false)
            ⊎ (length o.out < length (pass tasks ts o).out))
  unfolding pass
  pass-longer [] o = elim (Bool-cases o.progress) [
    | inl t ↦ (omega arith, inl t)
    | inr f ↦ (omega arith, inr (inl f))
  ]
  pass-longer (tk ∷ ts) o = elim (Bool-cases (contains o.done tk.id)) [
    | inl t ↦ rw (pass, t) (pass-longer ts o)
    | inr f ↦ elim (Bool-cases (is_ready tasks o.done tk)) [
      | inl t ↦
          let (l, r) = pass-longer ts (place tk o) in
          let one = length-append o.out (tk ∷ []) in
          rw (pass, f, t) (omega (arith, l, one), inr (inr (omega (arith, l, one))))
      | inr r ↦ rw (pass, f, r) (pass-longer ts o)
    ]
  ]

  -- Why the loop ended: everything is placed, or nothing more is ready.
  abbrev Stopped : Order → Type 0
  Stopped o =
      (length tasks ≤ length o.out)
      ⊎ ((x : Task) → In x tasks → contains o.done x.id ≡ false → is_ready tasks o.done x ≡ false)

  rounds-still : (n : ℕ) (o : Order) → o.progress ≡ false → rounds n tasks o ≡ o
  unfolding rounds
  rounds-still zero o h = refl
  rounds-still (suc n) o h = elim (Bool-cases (ltb (length o.out) (length tasks))) [
    | inl t ↦ rw (rounds, t, h)
    | inr f ↦ rw (rounds, f)
  ]

  rounds-Stopped :
      (n : ℕ) (o : Order)
      → (o.progress ≡ false → Stopped o)
      → length tasks < n + length o.out
      → Stopped (rounds n tasks o)
  unfolding rounds
  rounds-Stopped zero o h fuel = inl (omega arith)
  rounds-Stopped (suc n) o h fuel = elim (Bool-cases (ltb (length o.out) (length tasks))) [
    | inr f ↦ rw (rounds, f) (inl (ground arith))
    | inl t ↦ elim (Bool-cases o.progress) [
      | inr p ↦ rw (rounds, t, p) (h p)
      | inl p ↦
          let start : Order = record o { progress = false } in
          let o' = pass tasks tasks start in
          rw (rounds, t, p)
            (elim (Bool-cases o'.progress) [
              | inr q ↦
                  let (same, blocked) = pass-still tasks start q in
                  rw (rounds-still n o' q) (
                    inr (
                      subst
                        (λ (u : Order).
                          (x : Task)
                          → In x tasks
                          → contains u.done x.id ≡ false
                          → is_ready tasks u.done x ≡ false)
                        (sym same) blocked))
              | inl q ↦
                  rounds-Stopped n o' (λ r. absurd (cc))
                    (let (l, c) = pass-longer tasks start in
                      elim c [
                        | inl a ↦ absurd (cc)
                        | inr (inl a) ↦ absurd (cc)
                        | inr (inr a) ↦ omega (arith, a)
                      ])
            ])
    ]
  ]

  placed-Stopped : Stopped (placed tasks)
  unfolding placed
  placed-Stopped =
      rounds-Stopped (suc (suc (length tasks))) empty_order (λ q. absurd (cc)) (omega arith)

  all-false :
      (p : Text → Bool) (xs : List Text) → all p xs ≡ false → (d : Text) × In d xs × (p d ≡ false)
  all-false p [] h = cc
  all-false p (x ∷ xs) h = elim (Bool-cases (p x)) [
    | inl t ↦ let (d, m, f) = all-false p xs (rw t at h) in (d, there m, f)
    | inr f ↦ (x, here refl, f)
  ]

-- What a lookup by id finds.
by_id-In : (ts : List Task) (k : Text) (u : Task) → by_id ts k ≡ some u → In u ts × (u.id ≡ k)
unfolding by_id
by_id-In [] k u h = cc
by_id-In (x ∷ ts) k u h = elim (Option-cases (by_id ts k)) [
  | inr (v, e) ↦ let (m, i) = by_id-In ts k u (e ∙ (rw (by_id, e) at h)) in (there m, i)
  | inl e ↦ elim (Bool-cases (x.id == k)) [
    | inl t ↦
        let same : x ≡ u = some-injective x u (rw (by_id, e, t) at h) in
        (here (sym same), subst (λ (v : Task). v.id ≡ k) same ((text_iff x.id k).0 t))
    | inr f ↦ absurd (none-some (rw (by_id, e, f) at h))
  ]
]
  where
    none-some : ¬ (none ≡ some u)
    none-some q = cc

by_id-own :
    (ts : List Task) (x : Task) → has_duplicates (ids ts) ≡ false → In x ts → by_id ts x.id ≡ some x
unfolding by_id has_duplicates
by_id-own [] x h m = absurd (not-In-nil m)
by_id-own (y ∷ ts) x h m = elim ((In-cons x y ts).0 m) [
  | inr r ↦ rw (by_id-own ts x (ground arith) r)
  | inl e ↦ elim (Option-cases (by_id ts x.id)) [
    | inl n ↦
        let t : (y.id == x.id) ≡ true = (text_iff y.id x.id).1 (sym (ap (λ (u : Task). u.id) e)) in
        rw (n, t) (ap some (sym e))
    | inr (v, n) ↦
        let (l, i) = by_id-In ts x.id v n in
        let k : In y.id (ids ts) =
          subst (λ z. In z (ids ts)) (i ∙ ap (λ (u : Task). u.id) e)
            (In-map (λ (u : Task). u.id) ts l) in
        absurd (contains→not_In (ids ts) y.id (ground arith) k)
  ]
]

module _ (tasks : List Task) (distinct : has_duplicates (ids tasks) ≡ false)
    (own : (x : Task) → In x tasks → (d : Text) → In d x.deps → inherited d ≡ false) where
  -- What is left over waits for something else that is left over.
  blocked :
      (x : Task)
      → In x (left_over tasks (placed tasks).done)
      → (u : Task) × In u (left_over tasks (placed tasks).done) × Edge tasks x.id u.id
  unfolding left_over is_ready known deps_of
  blocked x m =
      let good = placed-IsGood tasks distinct in
      let (l, q) = In-filter (λ (tk : Task). not (contains (placed tasks).done tk.id)) tasks m in
      let fresh : contains (placed tasks).done x.id ≡ false = ground arith in
      elim (placed-Stopped tasks) [
        | inl full ↦ absurd (nothing full good.count m)
        | inr none_ready ↦
            let (d, i, f) = all-false tasks _ x.deps (none_ready x l fresh) in
            let k : known tasks d ≡ true = ground arith in
            elim (Option-cases (by_id tasks d)) [
              | inl e ↦
                  let a : inherited d ≡ true = rw (known, e) at k in
                  let b = own x l d i in absurd (cc)
              | inr (u, e) ↦
                  let (n, j) = by_id-In tasks d u e in
                  let undone : not (contains (placed tasks).done u.id) ≡ true =
                    rw j (ground arith) in
                  (
                    u,
                    filter-In (λ (tk : Task). not (contains (placed tasks).done tk.id)) tasks n
                        undone,
                    subst (λ z. Edge tasks x.id z) (sym j)
                        (rw (deps_of, by_id-own tasks x distinct l) i, k),
                  )
            ]
      ]
    where
      nothing : {a n : ℕ} {xs : List Task} {y : Task} → n ≤ a → a + length xs ≡ n → In y xs → ⊥
      nothing {xs = []} h c i = not-In-nil i
      nothing {xs = z ∷ zs} h c i = omega arith

  none_left :
      {k : Text}
      → Ends tasks k
      → (x : Task) → x.id ≡ k
      → In x (left_over tasks (placed tasks).done)
      → ⊥
  none_left (ends f) x e m =
      let (u, n, edge) = blocked x m in
      none_left (f u.id (subst (λ z. Edge tasks z u.id) e edge)) u refl n

  -- Where the ids of the tasks are distinct and nonempty and neither an id nor a dependency is the name
  -- of a property that every object inherits, the order of a graph without a cycle has each task
  -- behind its dependencies, and as many tasks as there are, all of them tasks of the graph.
  pub topo_order-IsOrdered :
      ((r : Text) → In r (ids tasks) → IsRoot tasks r)
      → has_cycle tasks ≡ false
      → IsOrdered tasks (topo_order tasks)
        × (length (topo_order tasks) ≡ length tasks)
        × ((x : Task) → In x (topo_order tasks) → In x tasks)
  unfolding topo_order
  topo_order-IsOrdered roots acyclic =
      let good = placed-IsGood tasks distinct in
      let empty : left_over tasks (placed tasks).done ≡ [] =
        elim (List-cases (left_over tasks (placed tasks).done)) [
          | inl e ↦ e
          | inr (x, xs, e) ↦
              let m : In x (left_over tasks (placed tasks).done) = rw e (here refl) in
              let l = left_over-In x m in
              absurd (
                none_left
                  (has_cycle_complete tasks acyclic x.id
                    (roots x.id (In-map (λ (u : Task). u.id) tasks l)))
                  x refl m)
        ] in
      let same : topo_order tasks ≡ (placed tasks).out =
        rw (topo_order, empty) (append-nil (placed tasks).out) in
      let c = good.count in
      (
        rw same good.ordered,
        rw same (let n = ap length empty in omega (arith, c, n)),
        λ x m. good.listed x (subst (In x) same m),
      )
    where
      left_over-In : (x : Task) → In x (left_over tasks (placed tasks).done) → In x tasks
      left_over-In x m =
          (In-filter (λ (tk : Task). not (contains (placed tasks).done tk.id)) tasks m).0

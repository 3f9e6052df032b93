-- ===== src/Graph/Cycle/Correct.antt =====
-- The answer of `hasCycle` (internal/web/static/views.js) beside the walks of the graph.
use poc_cronova_windows.Base.{
  Bool-cases, In, In-cons, List, Text, [], arith, false, inl, inr, length, not-In-nil, refl, suc,
  true, ℕ, ◌<◌, ◌↔◌, ◌∷◌, ◌≡◌, ◌≢◌, ◌≤◌, ◌⊎◌,
}
use poc_cronova_windows.Model.{Task, ids, inherited}
use poc_cronova_windows.Graph.Walks.{Ends, Walk, Ends-Reach, Walk-head, not-Walk_self}
use poc_cronova_windows.Graph.Cycle.{
  Search, black, gray, has_cycle, is_undefined, start, starts, visit, visit_tasks,
}
use poc_cronova_windows.Graph.Cycle.Colors.{
  Keeps, Color-cases, Keeps-refl, Keeps-trans, Keeps-visit,
}
use poc_cronova_windows.Graph.Cycle.Sound.{Found, IsRoot, has_cycle_sound}
use poc_cronova_windows.Graph.Cycle.Complete.{Good, white, In-deps_of, finish, weight, white-Keeps}

not_seen : {s t : Search} → Keeps s t → t.cyc ≡ false → s.cyc ≡ false
not_seen {s} k e = elim (Bool-cases s.cyc) [
  | inl told ↦ absurd (ground (arith, k.seen told))
  | inr g ↦ g
]

-- An id that `starts` rejects has a colour, or is empty or inherited.
starts-eq-false :
    (s : Search) (k : Text)
    → starts s k ≡ false
    → k ≢ []
    → inherited k ≡ false
    → (s.color k ≡ gray) ⊎ (s.color k ≡ black)
unfolding starts is_undefined
starts-eq-false s [] h full own = absurd (full refl)
starts-eq-false s (c ∷ k) h full own = elim (Color-cases (s.color (c ∷ k))) [
  | inl e ↦ absurd (ground arith)
  | inr o ↦ o
]

module _ (ts : List Task) (n : ℕ) where
  Keeps-visit_tasks : (rest : List Task) (s : Search) → Keeps s (visit_tasks n ts rest s)
  unfolding visit_tasks
  Keeps-visit_tasks [] s = Keeps-refl s
  Keeps-visit_tasks (tk ∷ rest) s = elim (Bool-cases (starts s tk.id)) [
    | inl t ↦
        rw (t, visit_tasks)
          (Keeps-trans (Keeps-visit n ts tk.id s) (Keeps-visit_tasks rest (visit n ts tk.id s)))
    | inr f ↦ rw (f, visit_tasks) (Keeps-visit_tasks rest s)
  ]

  black_now :
      (s : Search) (k : Text)
      → starts s k ≡ false
      → k ≢ []
      → inherited k ≡ false
      → ((g : Text) → s.color g ≢ gray)
      → Good ts s
      → Ends ts k
  black_now s k f full own clear good = elim (starts-eq-false s k f full own) [
    | inl g ↦ absurd (clear k g)
    | inr b ↦ good k b
  ]

  -- After the loop over `rest` its roots are finished, and all walks below them end.
  finish_tasks :
      (rest : List Task) (s : Search)
      → white ts s < n
      → ((g : Text) → s.color g ≢ gray)
      → (visit_tasks n ts rest s).cyc ≡ false
      → Good ts s
      → (r : Text) → (In r (ids rest) ⊎ Ends ts r)
      → r ≢ []
      → inherited r ≡ false
      → Ends ts r
  unfolding visit_tasks
  finish_tasks [] s fuel clear h good r (inl m) full own = absurd (not-In-nil m)
  finish_tasks [] s fuel clear h good r (inr e) full own = e
  finish_tasks (tk ∷ rest) s fuel clear h good r (inr e) full own = e
  finish_tasks (tk ∷ rest) s fuel clear h good r (inl m) full own =
      elim (Bool-cases (starts s tk.id)) [
        | inl t ↦
            let s' = visit n ts tk.id s in
            let keeps = Keeps-visit n ts tk.id s in
            let h' : (visit_tasks n ts rest s').cyc ≡ false = rw (t, visit_tasks) at h in
            let later = Keeps-visit_tasks rest s' in
            let (good', done) = finish ts n tk.id s fuel (not_seen later h') good in
            finish_tasks rest s' (omega (arith, white-Keeps ts keeps))
              (λ g e. clear g (keeps.gray_from g e)) h' good' r
              (elim ((In-cons r tk.id (ids rest)).0 m) [
                | inl p ↦ inr (rw p (good' tk.id done))
                | inr q ↦ inl q
              ])
              full own
        | inr f ↦
            finish_tasks rest s fuel clear (rw (f, visit_tasks) at h) good r
              (elim ((In-cons r tk.id (ids rest)).0 m) [
                | inl p ↦ inr (rw p (black_now s tk.id f (rw (← p) full) (rw (← p) own) clear good))
                | inr q ↦ inl q
              ])
              full own
      ]

white-start-le : (ts : List Task) → white ts start ≤ length ts
unfolding white weight
white-start-le [] = omega arith
white-start-le (tk ∷ ts) = omega (arith, white-start-le ts)

pub has_cycle_complete :
    (ts : List Task) → has_cycle ts ≡ false → (r : Text) → IsRoot ts r → Ends ts r
unfolding has_cycle
has_cycle_complete ts h r root =
    finish_tasks ts (suc (length ts)) ts start (omega (arith, white-start-le ts)) (λ g e. cc) h
      (λ x e. cc) r (inl root.listed) root.nonempty root.own

-- `hasCycle` answers true exactly when a cycle of dependencies can be reached from some task whose
-- id is nonempty and is not the name of a property that every object inherits. It needs no
-- hypothesis: the search always ends, since its fuel is enough.
pub has_cycle_iff : (ts : List Task) → (has_cycle ts ≡ true) ↔ Found ts
has_cycle_iff ts = (has_cycle_sound ts, reported)
  where
    reported : Found ts → has_cycle ts ≡ true
    reported (r, root, v, reach, walk) = elim (Bool-cases (has_cycle ts)) [
      | inl t ↦ t
      | inr f ↦
          absurd (not-Walk_self ts (Ends-Reach ts (has_cycle_complete ts f r root) reach) walk)
    ]

-- If `hasCycle` answers false, and every id is nonempty and no inherited name, then no task lies on
-- a cycle.
pub not-cycle_of_false :
    (ts : List Task)
    → ((r : Text) → In r (ids ts) → IsRoot ts r)
    → has_cycle ts ≡ false
    → (u : Text) → ¬ Walk ts u u
not-cycle_of_false ts roots h u p =
    let (v, e, r) = Walk-head ts p in
    not-Walk_self ts (has_cycle_complete ts h u (roots u (In-deps_of ts u v e.0))) p

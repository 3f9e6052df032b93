-- ===== src/Graph/Cycle/Complete.antt =====
-- The colours of `hasCycle` (internal/web/static/views.js) when it answers false, and its fuel.
use poc_cronova_windows.Base.{
  Bool-cases, In, In-cons, List, Option-cases, Text, [], ap, arith, eq_self, false, here,
  if◌then◌else◌, inl, inr, none, not-In-nil, refl, some, suc, sym, text_iff, there, true, zero, ℕ,
  ◌+◌, ◌<◌, ◌==◌, ◌∷◌, ◌≡◌, ◌≤◌, list_eq, nat_eq,
}
use poc_cronova_windows.Model.{Task, ids, by_id, deps_of, known}
use poc_cronova_windows.Graph.Walks.{Ends, ends}
use poc_cronova_windows.Graph.Cycle.{Color, unset, gray, black, Search, paint, visit, visit_all}
use poc_cronova_windows.Graph.Cycle.Colors.{Keeps, Color-cases, Keeps-visit, Keeps-visit_all}

-- 1 for an id with no colour.
unfoldable pub weight : Color → ℕ
weight unset = 1
weight gray = 0
weight black = 0

-- The tasks whose id has no colour.
unfoldable pub white : List Task → Search → ℕ
white [] s = 0
white (tk ∷ ts) s = weight (s.color tk.id) + white ts s

weight-Keeps : {s t : Search} (x : Text) → Keeps s t → weight (t.color x) ≤ weight (s.color x)
unfolding weight
weight-Keeps {s} {t} x h = elim (Color-cases (s.color x)) [
  | inl e ↦ ground arith
  | inr (inl e) ↦ rw (e, h.gray_to x e) (omega arith)
  | inr (inr e) ↦ rw (e, h.black_to x e) (omega arith)
]

pub white-Keeps : (ts : List Task) {s t : Search} → Keeps s t → white ts t ≤ white ts s
unfolding white
white-Keeps [] h = omega arith
white-Keeps (tk ∷ ts) h = omega (arith, weight-Keeps tk.id h, white-Keeps ts h)

weight-paint : (s : Search) (k x : Text) → weight ((paint s k gray).color x) ≤ weight (s.color x)
unfolding weight
weight-paint s k x = ground arith

white-paint-le : (ts : List Task) (s : Search) (k : Text) → white ts (paint s k gray) ≤ white ts s
unfolding white
white-paint-le [] s k = omega arith
white-paint-le (tk ∷ ts) s k = omega (arith, weight-paint s k tk.id, white-paint-le ts s k)

-- Painting the id of a task that had no colour.
pub white-paint-lt :
    (ts : List Task) (s : Search) (k : Text)
    → In k (ids ts)
    → s.color k ≡ unset
    → white ts (paint s k gray) < white ts s
unfolding white
white-paint-lt [] s k m e = elim m [ ]
white-paint-lt (tk ∷ ts) s k (here p) e =
    let q : tk.id ≡ k = sym p in
    let gone : weight ((paint s k gray).color tk.id) ≡ 0 =
      rw ((text_iff tk.id k).1 q) (unfold weight in refl) in
    let was : weight (s.color tk.id) ≡ 1 = rw (q, e) (unfold weight in refl) in
    omega (arith, gone, was, white-paint-le ts s k)
white-paint-lt (tk ∷ ts) s k (there m) e =
    omega (arith, weight-paint s k tk.id, white-paint-lt ts s k m e)

-- An id with dependencies is the id of a task.
In-ids_of_by_id : (ts : List Task) (k : Text) (tk : Task) → by_id ts k ≡ some tk → In k (ids ts)
unfolding by_id
In-ids_of_by_id [] k tk e = cc
In-ids_of_by_id (u ∷ ts) k tk e = elim (Option-cases (by_id ts k)) [
  | inr (v, f) ↦ there (In-ids_of_by_id ts k v f)
  | inl f ↦ elim (Bool-cases (u.id == k)) [
    | inl t ↦ here (sym ((text_iff u.id k).0 t))
    | inr g ↦ absurd (false_some (rw (f, by_id) at e) g)
  ]
]
  where
    false_some : (if u.id == k then some u else none) ≡ some tk → (u.id == k) ≡ false → ⊥
    false_some h g = ground arith

pub In-deps_of : (ts : List Task) (k d : Text) → In d (deps_of ts k) → In k (ids ts)
unfolding deps_of
In-deps_of ts k d m = elim (Option-cases (by_id ts k)) [
  | inr (v, f) ↦ In-ids_of_by_id ts k v f
  | inl f ↦ absurd (not-In-nil (rw (f, deps_of) at m))
]

module _ (ts : List Task) where
  -- Below every finished id all walks end.
  abbrev pub Good : Search → Type 0
  Good s = (x : Text) → s.color x ≡ black → Ends ts x

  abbrev Finishes : ℕ → Type 0
  Finishes n =
      (d : Text) (s : Search)
      → white ts s < n
      → (visit n ts d s).cyc ≡ false
      → Good s
      → Good (visit n ts d s) × ((visit n ts d s).color d ≡ black)

  finish_all :
      (n : ℕ)
      → Finishes n
      → (ds : List Text) (s : Search) → ((d : Text) → In d ds → white ts s < n)
      → (visit_all (visit n ts) ts ds s).cyc ≡ false
      → Good s
      → Good (visit_all (visit n ts) ts ds s)
        × ((d : Text)
            → In d ds
            → known ts d ≡ true
            → (visit_all (visit n ts) ts ds s).color d ≡ black)
  unfolding visit_all
  finish_all n ih [] s fuel h good = (good, λ d m. absurd (not-In-nil m))
  finish_all n ih (d ∷ ds) s fuel h good = elim (Bool-cases (known ts d)) [
    | inl t ↦
        let keeps = Keeps-visit n ts d s in
        let later = Keeps-visit_all (visit n ts) ts (Keeps-visit n ts) ds (visit n ts d s) in
        let h' : (visit_all (visit n ts) ts ds (visit n ts d s)).cyc ≡ false =
          rw (t, visit_all) at h in
        let (good', done) = ih d s (fuel d (here refl)) (not_seen later h') good in
        let (good'', all_done) =
          finish_all n ih ds (visit n ts d s)
            (λ x m. omega (arith, white-Keeps ts keeps, fuel x (there m))) h' good' in
        rw (t, visit_all)
          (
            good'',
            λ x m k. elim ((In-cons x d ds).0 m) [
              | inl p ↦ later.black_to x (rw p done)
              | inr r ↦ all_done x r k
            ],
          )
    | inr f ↦
        let (good'', all_done) =
          finish_all n ih ds s (λ x m. fuel x (there m)) (rw (f, visit_all) at h) good in
        rw (f, visit_all)
          (
            good'',
            λ x m k. elim ((In-cons x d ds).0 m) [
              | inl p ↦ absurd (ground (arith, ap (known ts) p))
              | inr r ↦ all_done x r k
            ],
          )
  ]
    where
      not_seen : {s t : Search} → Keeps s t → t.cyc ≡ false → s.cyc ≡ false
      not_seen {s} k e = elim (Bool-cases s.cyc) [
        | inl seen ↦ absurd (ground (arith, k.seen seen))
        | inr g ↦ g
      ]

  pub finish : (n : ℕ) → Finishes n
  unfolding visit
  finish zero k s fuel h good = elim fuel [ ]
  finish (suc n) k s fuel h good = elim (Color-cases (s.color k)) [
    | inl e ↦
        let s' = paint s k gray in
        let (good', all_done) =
          finish_all n (finish n) (deps_of ts k) s'
            (λ d m. omega (arith, white-paint-lt ts s k (In-deps_of ts k d m) e))
            (rw (e, visit) at h) (Good-paint s k good) in
        let t = visit_all (visit n ts) ts (deps_of ts k) s' in
        rw (e, visit) (Good-finish t k good' (ends (λ d edge. good' d (all_done d edge.0 edge.1))))
    | inr (inl e) ↦ absurd (ground (arith, rw (e, visit) at h))
    | inr (inr e) ↦ rw (e, visit) (good, e)
  ]
    where
      Good-paint : (s : Search) (k : Text) → Good s → Good (paint s k gray)
      Good-paint s k good x b = good x (ground (arith, text_iff x k))

      Good-finish :
          (t : Search) (k : Text)
          → Good t
          → Ends ts k
          → Good (paint t k black) × ((paint t k black).color k ≡ black)
      Good-finish t k good e = (
        λ x b. elim (Bool-cases (x == k)) [
          | inl p ↦ rw ((text_iff x k).0 p) e
          | inr q ↦ good x (rw q at b)
        ],
        rw (eq_self k),
      )

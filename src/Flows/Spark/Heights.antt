-- ===== src/Flows/Spark/Heights.antt =====
-- The bars of a sparkline (internal/web/static/base.js): their number and their heights.
use poc_cronova_windows.Base.{
  In, In-cons, List, [], all, arith, codes, drop, here, if_elim, inl, inr, leb, length,
  length-append, ltb, map, max, not-In-nil, refl, replicate, suc, sym, there, true, zero, ℕ, ◌&&◌,
  ◌*◌, ◌+◌, ◌-◌, ◌/◌, ◌<◌, ◌==◌, ◌||◌, ◌∷◌, ◌≡◌, ◌≤◌, ◌∙◌, list_eq, nat_eq, subst,
}
use native.Mathlib.Nat.{div-lt_iff_lt-mul}
use poc_cronova_windows.Editor.Validate.{is_empty}
use poc_cronova_windows.Flows.{Point}
use poc_cronova_windows.Flows.Spark.{
  bar_height, last_points, longest, max_ms, no_run, padded, rounded, sparkline,
}

length-drop : (n : ℕ) (ps : List Point) → length (drop n ps) ≡ length ps - n
length-drop zero ps = omega arith
length-drop (suc n) [] = omega arith
length-drop (suc n) (p ∷ ps) = omega (arith, length-drop n ps)

length-replicate : (n : ℕ) (p : Point) → length (replicate n p) ≡ n
length-replicate zero p = refl
length-replicate (suc n) p = omega (arith, length-replicate n p)

length-padded : (ps : List Point) → length (padded ps) ≡ 14
unfolding padded
length-padded ps =
    let a = length-append (replicate (14 - length (last_points ps)) no_run) (last_points ps) in
    let b = length-replicate (14 - length (last_points ps)) no_run in
    let c = length-drop (length ps - 14) ps in omega (arith, a, b, c)

length-map : {A B : Type 0} (f : A → B) (xs : List A) → length (map f xs) ≡ length xs
length-map f [] = refl
length-map f (x ∷ xs) = omega (arith, length-map f xs)

longest-positive : (ps : List Point) → 0 < longest ps
unfolding longest
longest-positive [] = omega arith
longest-positive (p ∷ ps) = omega (arith, longest-positive ps)

In-longest : (ps : List Point) (p : Point) → In p ps → p.ms ≤ longest ps
unfolding longest
In-longest [] p m = absurd (not-In-nil m)
In-longest (q ∷ ps) p m = elim ((In-cons p q ps).0 m) [
  | inl e ↦ subst (λ (z : Point). z.ms ≤ max q.ms (longest ps)) (sym e) (omega arith)
  | inr r ↦ let l = In-longest ps p r in omega (arith, l)
]

rounded-le : (a m : ℕ) → 0 < m → a ≤ m → rounded (a * 16) m ≤ 16
rounded-le a m h l =
    let lt : (2 * (a * 16) + m) / (2 * m) < 17 =
      (div-lt_iff_lt-mul {k = 2 * m} {x = 2 * (a * 16) + m} {y = 17} (omega arith)).1
        (omega arith) in
    omega arith

bar_height-bounds :
    (m : ℕ) (p : Point) → 0 < m → p.ms ≤ m → (6 ≤ bar_height m p) × (bar_height m p ≤ 22)
unfolding bar_height
bar_height-bounds m p h l =
    let r = rounded-le p.ms m h l in
    if_elim (λ n. (6 ≤ n) × (n ≤ 22))
      (is_empty p.state || (p.state == codes "noruns" || p.state == codes "skipped")) _ _
      (λ t. (omega arith, omega arith))
      (λ f.
        if_elim (λ n. (6 ≤ n) × (n ≤ 22)) (ltb 0 p.ms) _ _ (λ t. (omega arith, omega (arith, r)))
          (λ t. (omega arith, omega arith)))

all-map :
    (f : Point → ℕ) (ps : List Point)
    → ((p : Point) → In p ps → (6 ≤ f p) × (f p ≤ 22))
    → all (λ h. leb 6 h && leb h 22) (map f ps) ≡ true
all-map f [] h = refl
all-map f (p ∷ ps) h =
    let (a, b) = h p (here refl) in
    let rest = all-map f ps (λ q m. h q (there m)) in ground (arith, rest)

-- A sparkline has fourteen bars, however many runs there are, and each is from 6 to 22 pixels high.
pub sparkline-bounds :
    (ps : List Point) (scale : ℕ)
    → (length (sparkline ps scale) ≡ 14)
      × (all (λ h. leb 6 h && leb h 22) (sparkline ps scale) ≡ true)
unfolding sparkline max_ms
sparkline-bounds ps scale =
    let m = max_ms scale (padded ps) in
    (
      length-map (bar_height m) (padded ps) ∙ length-padded ps,
      all-map (bar_height m) (padded ps) (λ p i.
          let l = In-longest (padded ps) p i in
          let s = longest-positive (padded ps) in
          bar_height-bounds m p (omega (arith, s)) (omega (arith, l))),
    )

-- ===== src/Samples/Routes.antt =====
-- The theorems on the routes applied to a small encoding and a small browser.
use poc_cronova_windows.Base.{
  Bool-cases, In, In-cons, Text, [], ap, arith, codes, contains, false, if◌then◌else◌, inl, inr,
  not-In-nil, refl, sym, true, ℕ, ◌==◌, ◌∙◌, ◌∷◌, ◌≡◌, ◌≢◌, ◌<◌, list_eqb, list_eq, nat_eq,
  nat_eqb_iff,
}
use poc_cronova_windows.Shell.Route.{
  Location, apply_route, follow, go_to_hash, hash_of, on_hashchange, set_hash, task,
}
use poc_cronova_windows.Shell.Route.There.{a_task, apply_route-hash_of}
use poc_cronova_windows.Shell.Route.Moves.{done, event, follow-routes, next, set, set_hash-swallows}

abbrev escape : ℕ → Text → Text
escape c s = if c == b'/' then b'%' ∷ b's' ∷ s else if c == b'%' then b'%' ∷ b'p' ∷ s else c ∷ s

encode : Text → Text
encode [] = []
encode (c ∷ s) = escape c (encode s)

decode : Text → Text
decode [] = []
decode (c ∷ []) = c ∷ []
decode (c ∷ d ∷ s) =
    let rest = decode s in
    let next_one = decode (d ∷ s) in
    if c == b'%' then (if d == b's' then b'/' ∷ rest else b'%' ∷ rest) else c ∷ next_one

decode-other : (c : ℕ) (s : Text) → (c == b'%') ≡ false → decode (c ∷ s) ≡ c ∷ decode s
unfolding decode
decode-other c [] f = refl
decode-other c (d ∷ s) f = rw f

decode-encode : (s : Text) → decode (encode s) ≡ s
unfolding decode encode
decode-encode [] = refl
decode-encode (c ∷ s) = elim (Bool-cases (c == b'/')) [
  | inl t ↦
      rw (encode, t)
        (ap (b'/' ∷◌) (decode-encode s) ∙ ap (λ z. z ∷ s) (sym ((nat_eqb_iff c b'/').0 t)))
  | inr f ↦ elim (Bool-cases (c == b'%')) [
    | inl t ↦
        rw (encode, f, t)
          (ap (b'%' ∷◌) (decode-encode s) ∙ ap (λ z. z ∷ s) (sym ((nat_eqb_iff c b'%').0 t)))
    | inr g ↦ rw (encode, f, g) (decode-other c (encode s) g ∙ ap (c ∷◌) (decode-encode s))
  ]
]

decode-plain : (s : Text) → contains s b'%' ≡ false → decode s ≡ s
unfolding decode
decode-plain [] h = refl
decode-plain (c ∷ s) h =
    let f : (c == b'%') ≡ false = flip c (ground arith) in
    decode-other c s f ∙ ap (c ∷◌) (decode-plain s (ground arith))
  where
    flip : (c : ℕ) → (b'%' == c) ≡ false → (c == b'%') ≡ false
    flip c h = ground arith

encode-free : (s : Text) (c : ℕ) → In c (encode s) → c ≢ b'/'
unfolding encode
encode-free [] c m = absurd (not-In-nil m)
encode-free (d ∷ s) c m = elim (Bool-cases (d == b'/')) [
  | inl t ↦ escaped b's' (rw (encode, t) at m) (λ e. omega arith) (encode-free s c)
  | inr f ↦ elim (Bool-cases (d == b'%')) [
    | inl t ↦ escaped b'p' (rw (encode, f, t) at m) (λ e. omega arith) (encode-free s c)
    | inr g ↦ elim ((In-cons c d (encode s)).0 (rw (encode, f, g) at m)) [
      | inl e ↦ λ p. let t = (nat_eqb_iff d b'/').1 (sym e ∙ p) in cc
      | inr r ↦ encode-free s c r
    ]
  ]
]
  where
    escaped :
        (k : ℕ) → In c (b'%' ∷ k ∷ encode s) → k ≢ b'/' → (In c (encode s) → c ≢ b'/') → c ≢ b'/'
    escaped k n ne rest = elim ((In-cons c b'%' _).0 n) [
      | inl e ↦ λ p. omega arith
      | inr r ↦ elim ((In-cons c k _).0 r) [ inl e ↦ λ p. ne (sym e ∙ p) | inr q ↦ rest q ]
    ]

apply_route-hash_of_example :
    apply_route decode (hash_of encode (task (codes "a/b") (codes "50%")))
    ≡ task (codes "a/b") (codes "50%")
apply_route-hash_of_example =
    apply_route-hash_of encode decode decode-encode decode-plain encode-free
      (task (codes "a/b") (codes "50%")) (a_task (λ e. cc) (λ e. cc))

abbrev at_start : Location
at_start = record { hash = codes "#/dags"; suppress = false; queued = 0 }

-- A browser that writes a space as "%20".
keep : Text → Text
keep [] = []
keep (c ∷ s) = if c == b' ' then b'%' ∷ b'2' ∷ b'0' ∷ keep s else c ∷ keep s

kept-pools : keep (codes "#/pools") ≡ codes "#/pools"
unfolding keep
kept-pools = refl

-- A page has set its hash, and the event was delivered.
abbrev settled : Location
settled = (on_hashchange (set_hash keep (codes "#/pools") false at_start)).0

set-queued : 0 < (set_hash keep (codes "#/pools") false at_start).queued
unfolding set_hash go_to_hash keep list_eqb
set-queued = omega arith

settled-queued : settled.queued ≡ 0
unfolding on_hashchange set_hash go_to_hash keep list_eqb
settled-queued = refl

settled-hash : settled.hash ≢ keep (codes "#/dags")
unfolding on_hashchange set_hash go_to_hash keep list_eqb
settled-hash e = cc

follow-routes_example : (on_hashchange (follow keep (codes "#/dags") settled)).1 ≡ true
follow-routes_example =
    follow-routes keep (codes "#/dags") (codes "#/dags") {l = settled}
      (next (next done (set (codes "#/pools") false kept-pools)) (event set-queued)) settled-queued
      settled-hash

-- The page of a workflow at a tab with a space in it, which `showDag` writes with the space.
abbrev at_tab : Location
at_tab = record { hash = codes "#/dag/x/foo%20bar"; suppress = false; queued = 0 }

tab-other : at_tab.hash ≢ codes "#/dag/x/foo bar"
tab-other e = cc

tab-kept : at_tab.hash ≡ keep (codes "#/dag/x/foo bar")
unfolding keep
tab-kept = refl

tab-left : at_tab.hash ≢ keep (codes "#/pools")
unfolding keep
tab-left e = cc

set_hash-swallows_example :
    (set_hash keep (codes "#/dag/x/foo bar") false at_tab ≡ record at_tab { suppress = true })
    × ((on_hashchange
          (follow keep (codes "#/pools") (set_hash keep (codes "#/dag/x/foo bar") false at_tab))).1
        ≡ false)
    × ((on_hashchange
          (follow keep (codes "#/pools") (set_hash keep (codes "#/dag/x/foo bar") false at_tab))).0
        ≡ record { hash = keep (codes "#/pools"); suppress = false; queued = 0 })
set_hash-swallows_example =
    set_hash-swallows keep (codes "#/dag/x/foo bar") (codes "#/pools") at_tab refl tab-other
      tab-kept tab-left

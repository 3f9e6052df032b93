-- ===== src/Graph/Below.antt =====
-- Lists of tasks compared by their dependencies, for `hasCycle` (internal/web/static/views.js).
use poc_cronova_windows.Base.{
  Bool-cases, In, In-cons, List, Text, [], false, here, if◌then◌else◌, inl, inr, none, not-In-nil,
  refl, some, sym, subst, there, true, ap, ◌++◌, ◌==◌, ◌∷◌, ◌≡◌, ◌≢◌, list_eq, nat_eq, text_iff,
  ≢→eq,
}
use poc_cronova_windows.Model.{Task, by_id, deps_of, ids, known}
use poc_cronova_windows.Graph.Walks.{Edge}
use poc_cronova_windows.Graph.Cycle.{has_cycle}
use poc_cronova_windows.Graph.Compare.{acyclic-from}
use poc_cronova_windows.Editor.Validate.{is_empty, named}

-- The same ids in the same order, each with dependencies among those of the other list.
pub data Below : List Task → List Task → Type 0 where
  below_nil : Below [] []
  below_cons :
      {x y : Task} {us ts : List Task}
      → x.id ≡ y.id
      → ((d : Text) → In d x.deps → In d y.deps)
      → Below us ts
      → Below (x ∷ us) (y ∷ ts)

pub Below-refl : (ts : List Task) → Below ts ts
Below-refl [] = below_nil
Below-refl (x ∷ ts) = below_cons refl (λ d m. m) (Below-refl ts)

-- Both lookups fail, or both succeed.
data Both (us ts : List Task) (k : Text) : Type 0 where
  missing : by_id us k ≡ none → by_id ts k ≡ none → Both us ts k
  present :
      (u v : Task)
      → by_id us k ≡ some u
      → by_id ts k ≡ some v
      → ((d : Text) → In d u.deps → In d v.deps)
      → Both us ts k

Below-Both : {us ts : List Task} → Below us ts → (k : Text) → Both us ts k
unfolding by_id
Below-Both below_nil k = missing refl refl
Below-Both (below_cons {x} {y} {us} {ts} e s b) k = elim (Below-Both b k) [
  | missing p q ↦ elim (Bool-cases (x.id == k)) [
    | inl t ↦
        let t2 : (y.id == k) ≡ true = subst (λ z. (z == k) ≡ true) e t in
        present x y (rw (p, t)) (rw (q, t2)) s
    | inr f ↦
        let f2 : (y.id == k) ≡ false = subst (λ z. (z == k) ≡ false) e f in
        missing (rw (p, f)) (rw (q, f2))
  ]
  | present u v p q t ↦ present u v (rw p) (rw q) t
]

Below-Edge : {us ts : List Task} → Below us ts → (u v : Text) → Edge us u v → Edge ts u v
unfolding deps_of known
Below-Edge {us} {ts} b u v (m, h) = (deps (Below-Both b u), found (Below-Both b v))
  where
    deps : Both us ts u → In v (deps_of ts u)
    deps (missing p q) = absurd (not-In-nil (rw (deps_of, p) at m))
    deps (present x y p q s) = rw (deps_of, q) (s v (rw (deps_of, p) at m))

    found : Both us ts v → known ts v ≡ true
    found (missing p q) = rw (known, q) (rw (known, p) at h)
    found (present x y p q s) = rw (known, q)

Below-ids : {us ts : List Task} → Below us ts → ids us ≡ ids ts
Below-ids below_nil = refl
Below-ids (below_cons e s b) = ap2 (e) (Below-ids b)
  where
    ap2 : {a b : Text} {as' bs : List Text} → a ≡ b → as' ≡ bs → (a ∷ as') ≡ (b ∷ bs)
    ap2 p q = rw (p, q)

pub Below-named : {us ts : List Task} → Below us ts → Below (named us) (named ts)
Below-named below_nil = below_nil
Below-named (below_cons {x} {y} e s b) = elim (Bool-cases (is_empty x.id)) [
  | inl t ↦
      let t2 : is_empty y.id ≡ true = subst (λ z. is_empty z ≡ true) e t in
      rw (t, t2) (Below-named b)
  | inr f ↦
      let f2 : is_empty y.id ≡ false = subst (λ z. is_empty z ≡ false) e f in
      rw (f, f2) (below_cons e s (Below-named b))
]

pub acyclic-Below :
    {us ts : List Task} → Below us ts → has_cycle (named ts) ≡ false → has_cycle (named us) ≡ false
acyclic-Below {us} {ts} b =
    let n = Below-named b in
    acyclic-from (named us) (named ts) (λ u v w e f. Below-Edge n u v e)
      (λ r v e m. subst (In r) (Below-ids n) m)

by_id-append :
    (ts : List Task) (x : Task) (k : Text)
    → by_id (ts ++ x ∷ []) k ≡ (if x.id == k then some x else by_id ts k)
unfolding by_id
by_id-append [] x k = elim (Bool-cases (x.id == k)) [ inl t ↦ rw t | inr f ↦ rw f ]
by_id-append (y ∷ ts) x k = elim (Bool-cases (x.id == k)) [
  | inl t ↦ rw (by_id-append ts x k, t)
  | inr f ↦ rw (by_id-append ts x k, f)
]

named-append : (ts us : List Task) → named (ts ++ us) ≡ named ts ++ named us
named-append [] us = refl
named-append (x ∷ ts) us = elim (Bool-cases (is_empty x.id)) [
  | inl t ↦ rw (t, named-append ts us)
  | inr f ↦ rw (f, named-append ts us)
]

In-ids-append :
    (ts : List Task) (x : Task) (k : Text) → In k (ids (ts ++ x ∷ [])) → x.id ≢ k → In k (ids ts)
In-ids-append [] x k m ne = elim ((In-cons k x.id []).0 m) [
  | inl e ↦ absurd (ne (sym e))
  | inr q ↦ q
]
In-ids-append (y ∷ ts) x k m ne = elim ((In-cons k y.id _).0 m) [
  | inl e ↦ here e
  | inr q ↦ there (In-ids-append ts x k q ne)
]

module _ (ts : List Task) (x : Task) (free : x.deps ≡ []) where
  -- A task with an edge is not the new one.
  not_new : (u v : Text) → Edge (ts ++ x ∷ []) u v → x.id ≢ u
  unfolding deps_of
  not_new u v (m, h) e =
      let t = (text_iff x.id u).1 e in
      let n : In v x.deps = rw (deps_of, by_id-append ts x u, t) at m in not-In-nil (rw free at n)

  old-Edge : (u v w : Text) → Edge (ts ++ x ∷ []) u v → Edge (ts ++ x ∷ []) v w → Edge ts u v
  unfolding deps_of known
  old-Edge u v w (m, h) f =
      let a : (x.id == u) ≡ false = ≢→eq x.id u (not_new u v (m, h)) in
      let b : (x.id == v) ≡ false = ≢→eq x.id v (not_new v w f) in
      (rw (deps_of, by_id-append ts x u, a) at m, rw (known, by_id-append ts x v, b) at h)

  acyclic-add : has_cycle ts ≡ false → has_cycle (ts ++ x ∷ []) ≡ false
  acyclic-add =
      acyclic-from (ts ++ x ∷ []) ts old-Edge (λ r v e m. In-ids-append ts x r m (not_new r v e))

pub acyclic-append :
    (ts : List Task) (x : Task)
    → x.deps ≡ []
    → has_cycle (named ts) ≡ false
    → has_cycle (named (ts ++ x ∷ [])) ≡ false
acyclic-append ts x free h = elim (Bool-cases (is_empty x.id)) [
  | inl t ↦ rw (named-append ts (x ∷ []), t) (rw (nil_right (named ts)) h)
  | inr f ↦ rw (named-append ts (x ∷ []), f) (acyclic-add (named ts) x free h)
]
  where
    nil_right : (us : List Task) → us ++ [] ≡ us
    nil_right [] = refl
    nil_right (y ∷ us) = ap (y ∷◌) (nil_right us)

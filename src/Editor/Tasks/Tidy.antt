-- ===== src/Editor/Tasks/Tidy.antt =====
-- The invariant of the tasks of the editor (internal/web/static/views.js), and a task that is appended.
use poc_cronova_windows.Base.{
  Bool-cases, In, In-append_cases, In-append_left, In-cons, In→contains, List, Text, [], arith,
  contains, contains→In, false, here, inl, inr, map, not-In-nil, refl, subst, sym, there, ◌++◌, ◌∷◌,
  ◌≡◌, list_eq, nat_eq, ap,
}
use poc_cronova_windows.Model.{Task, ids}
use poc_cronova_windows.Editor.Validate.{has_duplicates}

pub record IsTidy (ts : List Task) : Type 0 where
  pub distinct : has_duplicates (ids ts) ≡ false
  pub closed : (x : Task) → In x ts → (d : Text) → In d x.deps → In d (ids ts)
  pub once : (x : Task) → In x ts → has_duplicates x.deps ≡ false
  pub others : (x : Task) → In x ts → ¬ In x.id x.deps

module _ {ℓ κ} {A : Type ℓ} {B : Type κ} where
  pub In-map_of :
      (f : A → B) {y : B} (xs : List A) → In y (map f xs) → (x : A) × In x xs × (y ≡ f x)
  In-map_of f [] m = absurd (not-In-nil m)
  In-map_of f (x ∷ xs) (here e) = (x, here refl, e)
  In-map_of f (x ∷ xs) (there m) = let (z, i, e) = In-map_of f xs m in (z, there i, e)

  pub In-map : (f : A → B) {x : A} (xs : List A) → In x xs → In (f x) (map f xs)
  In-map f [] m = absurd (not-In-nil m)
  In-map f (x ∷ xs) (here e) = here (ap f e)
  In-map f (x ∷ xs) (there m) = there (In-map f xs m)

pub not_In→contains : (xs : List Text) (k : Text) → ¬ In k xs → contains xs k ≡ false
not_In→contains xs k h = elim (Bool-cases (contains xs k)) [
  | inl t ↦ absurd (h (contains→In xs k t))
  | inr f ↦ f
]

pub contains→not_In : (xs : List Text) (k : Text) → contains xs k ≡ false → ¬ In k xs
contains→not_In xs k f m = let t = In→contains xs m in cc

pub has_duplicates-append :
    (xs : List Text) (k : Text)
    → has_duplicates xs ≡ false
    → ¬ In k xs
    → has_duplicates (xs ++ k ∷ []) ≡ false
unfolding has_duplicates
has_duplicates-append [] k h n = refl
has_duplicates-append (x ∷ xs) k h n =
    let fresh : ¬ In x (xs ++ k ∷ []) = λ m. elim (In-append_cases xs (k ∷ []) m) [
      | inl l ↦ contains→not_In xs x (ground arith) l
      | inr r ↦ elim ((In-cons x k []).0 r) [ inl e ↦ n (here (sym e)) | inr q ↦ not-In-nil q ]
    ] in
    let rest = has_duplicates-append xs k (ground arith) (λ m. n (there m)) in
    rw (not_In→contains (xs ++ k ∷ []) x fresh, rest)

pub ids-append : (ts us : List Task) → ids (ts ++ us) ≡ ids ts ++ ids us
ids-append [] us = refl
ids-append (x ∷ ts) us = ap (x.id ∷◌) (ids-append ts us)

-- What holds of every task and of a new one holds behind the addition.
all-append :
    (P : Task → Type 0) (ts : List Task) (tk : Task)
    → ((x : Task) → In x ts → P x)
    → P tk
    → (x : Task) → In x (ts ++ tk ∷ [])
    → P x
all-append P ts tk h p x m = elim (In-append_cases ts (tk ∷ []) m) [
  | inl l ↦ h x l
  | inr r ↦ elim ((In-cons x tk []).0 r) [
    | inl e ↦ subst P (sym e) p
    | inr q ↦ absurd (not-In-nil q)
  ]
]

-- A new task at the end, with a free id and dependencies on what is there.
pub append-IsTidy :
    (ts : List Task) (tk : Task)
    → IsTidy ts
    → ¬ In tk.id (ids ts)
    → ((d : Text) → In d tk.deps → In d (ids ts))
    → has_duplicates tk.deps ≡ false
    → IsTidy (ts ++ tk ∷ [])
append-IsTidy ts tk h fresh known once =
    let names = ids-append ts (tk ∷ []) in
    record {
      distinct = rw names (has_duplicates-append (ids ts) tk.id h.distinct fresh);
      closed =
          all-append (λ x. (d : Text) → In d x.deps → In d (ids (ts ++ tk ∷ []))) ts tk
            (λ x m d n. rw names (In-append_left (ids ts) (tk.id ∷ []) (h.closed x m d n)))
            (λ d n. rw names (In-append_left (ids ts) (tk.id ∷ []) (known d n)));
      once = all-append (λ x. has_duplicates x.deps ≡ false) ts tk h.once once;
      others = all-append (λ x. ¬ In x.id x.deps) ts tk h.others (λ m. fresh (known tk.id m));
    }

-- ===== src/Graph/Topo/Placed.antt =====
-- The invariant of the loop of `topoOrder` (internal/web/static/base.js).
use poc_cronova_windows.Base.{
  Bool, Bool-cases, In, In-append_cases, In-cons, List, Text, [], all, ap, arith, contains,
  contains→In, false, here, if_elim, inl, inr, length, length-append, ltb, not-In-nil, refl, subst,
  suc, sym, there, true, zero, ℕ, ◌&&◌, ◌+◌, ◌++◌, ◌==◌, ◌||◌, ◌∙◌, ◌∷◌, ◌≡◌, text_iff, ≢→eq,
  list_eq, nat_eq,
}
use poc_cronova_windows.Model.{Task, ids, known}
use poc_cronova_windows.Editor.Validate.{has_duplicates}
use poc_cronova_windows.Editor.Tasks.Tidy.{contains→not_In, In-map, ids-append}
use poc_cronova_windows.Graph.Topo.{
  Order, empty_order, is_ready, left_over, pass, place, placed, rounds,
}

-- Every task comes behind those of its dependencies that are ids of known tasks.
pub data IsOrdered (tasks : List Task) : List Task → Type 0 where
  none_yet : IsOrdered tasks []
  behind :
      {out : List Task} (tk : Task)
      → IsOrdered tasks out
      → ((d : Text) → In d tk.deps → known tasks d ≡ true → In d (ids out))
      → IsOrdered tasks (out ++ tk ∷ [])

contains-append :
    (xs : List Text) (k j : Text) → contains (xs ++ k ∷ []) j ≡ (contains xs j || j == k)
contains-append [] k j = or_false (j == k)
  where
    or_false : (b : Bool) → (b || false) ≡ b
    or_false true = refl
    or_false false = refl
contains-append (x ∷ xs) k j = ground (arith, contains-append xs k j)

-- A task with another id is left over or not as before.
left_over-other :
    (ts : List Task) (done : List Text) (k : Text)
    → ¬ In k (ids ts)
    → left_over ts (done ++ k ∷ []) ≡ left_over ts done
unfolding left_over
left_over-other [] done k h = refl
left_over-other (x ∷ ts) done k h =
    let f : (x.id == k) ≡ false = ≢→eq x.id k (λ e. h (here (sym e))) in
    let same : contains (done ++ k ∷ []) x.id ≡ contains done x.id =
      rw (contains-append done k x.id, f) (or_false (contains done x.id)) in
    let rest = left_over-other ts done k (λ m. h (there m)) in
    elim (Bool-cases (contains done x.id)) [
      | inl t ↦ rw (left_over, same, t) rest
      | inr n ↦ rw (left_over, same, n) (ap (x ∷◌) rest)
    ]
  where
    or_false : (b : Bool) → (b || false) ≡ b
    or_false true = refl
    or_false false = refl

-- Placing a task that is left over leaves one task less.
left_over-placed :
    (ts : List Task) (done : List Text) (tk : Task)
    → has_duplicates (ids ts) ≡ false
    → In tk ts
    → contains done tk.id ≡ false
    → suc (length (left_over ts (done ++ tk.id ∷ []))) ≡ length (left_over ts done)
unfolding left_over has_duplicates
left_over-placed [] done tk h m n = absurd (not-In-nil m)
left_over-placed (x ∷ ts) done tk h m n = elim ((In-cons tk x ts).0 m) [
  | inl e ↦
      let i : x.id ≡ tk.id = sym (ap (λ (u : Task). u.id) e) in
      let before : contains done x.id ≡ false = rw i n in
      let after : contains (done ++ tk.id ∷ []) x.id ≡ true =
        rw (contains-append done tk.id x.id, before) ((text_iff x.id tk.id).1 i) in
      let rest =
        left_over-other ts done tk.id
          (subst (λ z. ¬ In z (ids ts)) i (contains→not_In (ids ts) x.id (ground arith))) in
      rw (left_over, before, after) (ap (λ (l : List Task). suc (length l)) rest)
  | inr r ↦
      let f : (x.id == tk.id) ≡ false = ≢→eq x.id tk.id (λ e.
        contains→not_In (ids ts) x.id (ground arith)
          (subst (λ z. In z (ids ts)) (sym e) (In-map (λ (u : Task). u.id) ts r))) in
      let same : contains (done ++ tk.id ∷ []) x.id ≡ contains done x.id =
        rw (contains-append done tk.id x.id, f) (or_false (contains done x.id)) in
      let rest = left_over-placed ts done tk (ground arith) r n in
      elim (Bool-cases (contains done x.id)) [
        | inl t ↦ rw (left_over, same, t) rest
        | inr q ↦ rw (left_over, same, q) (ap suc rest)
      ]
]
  where
    or_false : (b : Bool) → (b || false) ≡ b
    or_false true = refl
    or_false false = refl

left_over-start : (ts : List Task) → left_over ts [] ≡ ts
unfolding left_over
left_over-start [] = refl
left_over-start (x ∷ ts) = ap (x ∷◌) (left_over-start ts)

module _ (tasks : List Task) (distinct : has_duplicates (ids tasks) ≡ false) where
  pub record IsGood (o : Order) : Type 0 where
    pub same : o.done ≡ ids o.out
    pub ordered : IsOrdered tasks o.out
    pub listed : (x : Task) → In x o.out → In x tasks
    pub count : length o.out + length (left_over tasks o.done) ≡ length tasks

  pub all-In :
      (p : Text → Bool) (xs : List Text) → all p xs ≡ true → (d : Text) → In d xs → p d ≡ true
  all-In p [] h d m = absurd (not-In-nil m)
  all-In p (x ∷ xs) h d m = elim ((In-cons d x xs).0 m) [
    | inl e ↦ subst (λ z. p z ≡ true) (sym e) (ground arith)
    | inr r ↦ all-In p xs (ground arith) d r
  ]

  place-IsGood :
      (tk : Task) (o : Order)
      → In tk tasks
      → contains o.done tk.id ≡ false
      → is_ready tasks o.done tk ≡ true
      → IsGood o
      → IsGood (place tk o)
  unfolding is_ready
  place-IsGood tk o l fresh r h = record {
    same = ap (λ s. s ++ tk.id ∷ []) h.same ∙ sym (ids-append o.out (tk ∷ []));
    ordered = behind tk h.ordered (λ d m k.
        let t = all-In _ tk.deps r d m in
        let c : contains o.done d ≡ true = ground arith in
        subst (In d) h.same (contains→In o.done d c));
    listed = λ x m. elim (In-append_cases o.out (tk ∷ []) m) [
      | inl n ↦ h.listed x n
      | inr n ↦ elim ((In-cons x tk []).0 n) [
        | inl e ↦ subst (λ z. In z tasks) (sym e) l
        | inr q ↦ absurd (not-In-nil q)
      ]
    ];
    count =
        let one = left_over-placed tasks o.done tk distinct l fresh in
        omega (arith, one, h.count, length-append o.out (tk ∷ []));
  }

  pub pass-IsGood :
      (ts : List Task) (o : Order)
      → ((x : Task) → In x ts → In x tasks)
      → IsGood o
      → IsGood (pass tasks ts o)
  unfolding pass
  pass-IsGood [] o sub h = h
  pass-IsGood (tk ∷ ts) o sub h =
      pass-IsGood ts _ (λ x m. sub x (there m))
        (if_elim IsGood (contains o.done tk.id) _ _ (λ t. h)
          (λ f. elim (Bool-cases (is_ready tasks o.done tk)) [
            | inl t ↦ rw t (place-IsGood tk o (sub tk (here refl)) f t h)
            | inr n ↦ rw n h
          ]))

  rounds-IsGood : (n : ℕ) (o : Order) → IsGood o → IsGood (rounds n tasks o)
  unfolding rounds
  rounds-IsGood zero o h = h
  rounds-IsGood (suc n) o h =
      if_elim IsGood (ltb (length o.out) (length tasks) && o.progress) _ _
        (λ t. rounds-IsGood n _ (
          pass-IsGood tasks (record o { progress = false }) (λ x m. m)
            (record { same = h.same; ordered = h.ordered; listed = h.listed; count = h.count })))
        (λ f. h)

  pub placed-IsGood : IsGood (placed tasks)
  unfolding placed
  placed-IsGood = rounds-IsGood (suc (suc (length tasks))) empty_order (record {
    same = refl;
    ordered = none_yet;
    listed = λ x m. absurd (not-In-nil m);
    count = let e = ap length (left_over-start tasks) in omega (arith, e);
  })

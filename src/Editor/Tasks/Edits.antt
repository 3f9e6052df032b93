-- ===== src/Editor/Tasks/Edits.antt =====
-- Adding, copying and deleting tasks (internal/web/static/views.js).
use poc_cronova_windows.Base.{
  Bool, Bool-cases, In, In-cons, List, Option-cases, Text, [], arith, false, filter, find, here,
  inl, inr, not, not-In-nil, refl, some, subst, sym, there, true, ◌==◌, ◌∷◌, ◌≡◌, ap, list_eq,
  nat_eq,
}
use poc_cronova_windows.Model.{Task, ids}
use poc_cronova_windows.Editor.Validate.{has_duplicates}
use poc_cronova_windows.Editor.Tasks.{
  add_task, copy_id, delete_task, duplicate_task, new_task_id, scrub,
}
use poc_cronova_windows.Editor.Tasks.Fresh.{In→has_id, copy_id-free, new_task_id-free}
use poc_cronova_windows.Editor.Tasks.Tidy.{
  IsTidy, In-map_of, append-IsTidy, contains→not_In, not_In→contains,
}

pub add_task-IsTidy : (ts : List Task) → IsTidy ts → IsTidy (add_task ts)
unfolding add_task has_duplicates
add_task-IsTidy ts h =
    append-IsTidy ts _ h
      (λ m. let t = In→has_id (new_task_id ts) ts m in let f = new_task_id-free ts in cc)
      (λ d m. absurd (not-In-nil m)) refl

find-In :
    (k : Text) (ts : List Task) (x : Task) → find (λ (y : Task). y.id == k) ts ≡ some x → In x ts
find-In k [] x h = cc
find-In k (y ∷ ts) x h = elim (Bool-cases (y.id == k)) [
  | inl t ↦ here (some_injective (sym (rw t at h)))
  | inr f ↦ there (find-In k ts x (rw f at h))
]
  where
    some_injective : {a b : Task} → some a ≡ some b → a ≡ b
    some_injective e = cc

pub duplicate_task-IsTidy : (k : Text) (ts : List Task) → IsTidy ts → IsTidy (duplicate_task k ts)
unfolding duplicate_task
duplicate_task-IsTidy k ts h = elim (Option-cases (find (λ (x : Task). x.id == k) ts)) [
  | inl e ↦ rw (duplicate_task, e) h
  | inr (x, e) ↦
      let l = find-In k ts x e in
      rw (duplicate_task, e)
        (append-IsTidy ts _ h
          (λ m. let t = In→has_id (copy_id k ts) ts m in let f = copy_id-free k ts in cc)
          (h.closed x l) (h.once x l))
]

-- The members of a filtered list.
module _ {ℓ} {A : Type ℓ} where
  pub In-filter : (p : A → Bool) (xs : List A) {a : A} → In a (filter p xs) → In a xs × (p a ≡ true)
  In-filter p [] m = absurd (not-In-nil m)
  In-filter p (x ∷ xs) {a} m = elim (Bool-cases (p x)) [
    | inl t ↦ elim ((In-cons a x _).0 (rw t at m)) [
      | inl e ↦ (here e, subst (λ z. p z ≡ true) (sym e) t)
      | inr r ↦ let (n, q) = In-filter p xs r in (there n, q)
    ]
    | inr f ↦ let (n, q) = In-filter p xs (rw f at m) in (there n, q)
  ]

  pub filter-In : (p : A → Bool) (xs : List A) {a : A} → In a xs → p a ≡ true → In a (filter p xs)
  filter-In p [] m t = absurd (not-In-nil m)
  filter-In p (x ∷ xs) {a} m t = elim (Bool-cases (p x)) [
    | inl q ↦ elim ((In-cons a x xs).0 m) [
      | inl e ↦ rw q (here e)
      | inr r ↦ rw q (there (filter-In p xs r t))
    ]
    | inr q ↦ elim ((In-cons a x xs).0 m) [
      | inl e ↦ let b : p x ≡ true = subst (λ z. p z ≡ true) e t in cc
      | inr r ↦ rw q (filter-In p xs r t)
    ]
  ]

pub has_duplicates-filter :
    (p : Text → Bool) (xs : List Text)
    → has_duplicates xs ≡ false
    → has_duplicates (filter p xs) ≡ false
unfolding has_duplicates
has_duplicates-filter p [] h = refl
has_duplicates-filter p (x ∷ xs) h = elim (Bool-cases (p x)) [
  | inl t ↦
      let fresh : ¬ In x (filter p xs) =
        λ m. contains→not_In xs x (ground arith) ((In-filter p xs m).0) in
      rw (t, not_In→contains (filter p xs) x fresh) (has_duplicates-filter p xs (ground arith))
  | inr f ↦ rw f (has_duplicates-filter p xs (ground arith))
]

ids-delete_task :
    (k : Text) (ts : List Task) → ids (delete_task k ts) ≡ filter (λ j. not (j == k)) (ids ts)
unfolding delete_task
ids-delete_task k [] = refl
ids-delete_task k (x ∷ ts) = elim (Bool-cases (x.id == k)) [
  | inl t ↦ rw (t, delete_task) (ids-delete_task k ts)
  | inr f ↦ rw (f, delete_task) (ap (x.id ∷◌) (ids-delete_task k ts))
]

In-delete_task :
    (k : Text) (ts : List Task) (y : Task)
    → In y (delete_task k ts)
    → (x : Task) × In x ts × (y ≡ scrub k x)
unfolding delete_task
In-delete_task k ts y m =
    let (x, n, e) = In-map_of (scrub k) _ m in
    (x, (In-filter (λ (z : Task). not (z.id == k)) ts n).0, e)

pub delete_task-IsTidy : (k : Text) (ts : List Task) → IsTidy ts → IsTidy (delete_task k ts)
delete_task-IsTidy k ts h = record {
  distinct = rw (ids-delete_task k ts) (has_duplicates-filter _ (ids ts) h.distinct);
  closed = λ y m d n.
      let (x, l, e) = In-delete_task k ts y m in
      let (q, t) = In-filter (λ j. not (j == k)) x.deps (rw e at n) in
      rw (ids-delete_task k ts) (filter-In (λ j. not (j == k)) (ids ts) (h.closed x l d q) t);
  once = λ y m.
      let (x, l, e) = In-delete_task k ts y m in rw e (has_duplicates-filter _ x.deps (h.once x l));
  others = λ y m n.
      let (x, l, e) = In-delete_task k ts y m in
      let (q, t) = In-filter (λ j. not (j == k)) x.deps (rw e at n) in h.others x l q;
}

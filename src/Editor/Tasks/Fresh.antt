-- ===== src/Editor/Tasks/Fresh.antt =====
-- The ids that `addTask`, `nvAddStep` and `duplicateTask` choose (internal/web/static/views.js).
use poc_cronova_windows.Base.{
  Bool-cases, In, In-cons, List, Text, [], ap, arith, codes, decimal, false, here, if◌then◌else◌,
  inl, inr, length, ltb, ltb→lt, number_of_digits, number_of_digits-decimal, refl, subst, suc, sym,
  text_iff, there, true, zero, ℕ, ◌++◌, ◌+◌, ◌-◌, ◌<◌, ◌==◌, ◌∙◌, ◌∷◌, ◌≡◌, ◌≢◌, ◌≤◌, ◌⊎◌, list_eq,
  nat_eq,
}
use poc_cronova_windows.Model.{Task, ids}
use poc_cronova_windows.Editor.Tasks.{
  has_id, first_free, remove_first, copy_id, copy_name, new_step_id, new_task_id, step_name,
  task_name,
}

length-remove_first :
    (k : Text) (xs : List Text) → In k xs → suc (length (remove_first k xs)) ≡ length xs
unfolding remove_first
length-remove_first k [] m = elim m [ ]
length-remove_first k (x ∷ xs) m = elim (Bool-cases (x == k)) [
  | inl t ↦ rw t
  | inr f ↦ elim ((In-cons k x xs).0 m) [
    | inl p ↦ absurd (ground (arith, text_iff x k, sym p))
    | inr r ↦ rw f (ap suc (length-remove_first k xs r))
  ]
]

In-remove_first : (k j : Text) (xs : List Text) → j ≢ k → In j xs → In j (remove_first k xs)
unfolding remove_first
In-remove_first k j [] ne m = m
In-remove_first k j (x ∷ xs) ne m = elim (Bool-cases (x == k)) [
  | inl t ↦ elim ((In-cons j x xs).0 m) [
    | inl p ↦ absurd (ne (p ∙ (text_iff x k).0 t))
    | inr r ↦ rw t r
  ]
  | inr f ↦ elim ((In-cons j x xs).0 m) [
    | inl p ↦ rw f (here p)
    | inr r ↦ rw f (there (In-remove_first k j xs ne r))
  ]
]

-- Different members of a list are no more than its length.
pigeons :
    (m : ℕ) (g : ℕ → Text) (xs : List Text)
    → ((i j : ℕ) → g i ≡ g j → i ≡ j)
    → ((i : ℕ) → i < m → In (g i) xs)
    → m ≤ length xs
pigeons zero g xs inj all_in = omega arith
pigeons (suc m) g xs inj all_in =
    let last = all_in m (omega arith) in
    let rest = pigeons m g (remove_first (g m) xs) inj (λ i h.
      In-remove_first (g m) (g i) xs (λ e. absurd (omega (arith, inj i m e)))
        (all_in i (omega arith))) in
    omega (arith, rest, length-remove_first (g m) xs last)

pub has_id→In : (k : Text) (ts : List Task) → has_id k ts ≡ true → In k (ids ts)
has_id→In k [] h = cc
has_id→In k (x ∷ ts) h = elim (Bool-cases (x.id == k)) [
  | inl t ↦ here (sym ((text_iff x.id k).0 t))
  | inr f ↦ there (has_id→In k ts (rw f at h))
]

pub In→has_id : (k : Text) (ts : List Task) → In k (ids ts) → has_id k ts ≡ true
In→has_id k [] m = elim m [ ]
In→has_id k (x ∷ ts) m = elim ((In-cons k x.id (ids ts)).0 m) [
  | inl p ↦ rw ((text_iff x.id k).1 (sym p))
  | inr r ↦ ground (arith, In→has_id k ts r)
]

-- Either the loop found a free id, or every id that it tried is taken.
tried :
    (f : ℕ) (name : ℕ → Text) (n : ℕ) (ts : List Task)
    → (has_id (first_free f name n ts) ts ≡ false)
      ⊎ ((i : ℕ) → i < suc f → In (name (n + i)) (ids ts))
unfolding first_free
tried zero name n ts = elim (Bool-cases (has_id (name n) ts)) [
  | inl t ↦ inr (λ i h.
      let e : n ≡ n + i = omega arith in
      subst (λ j. In (name j) (ids ts)) e (has_id→In (name n) ts t))
  | inr f ↦ inl f
]
tried (suc f) name n ts = elim (Bool-cases (has_id (name n) ts)) [
  | inr free ↦ inl (rw free free)
  | inl t ↦ elim (tried f name (suc n) ts) [
    | inl found ↦ inl (rw t found)
    | inr taken ↦ inr (λ i h. elim (Bool-cases (ltb 0 i)) [
      | inl later ↦
          let p = ltb→lt 0 i later in
          let e : suc n + (i - 1) ≡ n + i = omega arith in
          subst (λ j. In (name j) (ids ts)) e (taken (i - 1) (omega arith))
      | inr first ↦
          let e : n ≡ n + i = ground arith in
          subst (λ j. In (name j) (ids ts)) e (has_id→In (name n) ts t)
    ])
  ]
]

length-ids : (ts : List Task) → length (ids ts) ≡ length ts
length-ids [] = refl
length-ids (x ∷ ts) = ap suc (length-ids ts)

first_free-free :
    (name : ℕ → Text) (n : ℕ) (ts : List Task)
    → ((i j : ℕ) → name (n + i) ≡ name (n + j) → i ≡ j)
    → has_id (first_free (length ts) name n ts) ts ≡ false
first_free-free name n ts inj = elim (tried (length ts) name n ts) [
  | inl found ↦ found
  | inr taken ↦ absurd (
      omega
        (arith, pigeons (suc (length ts)) (λ i. name (n + i)) (ids ts) inj taken, length-ids ts))
]

decimal_injective : (m n : ℕ) → decimal m ≡ decimal n → m ≡ n
decimal_injective m n e =
    sym (number_of_digits-decimal m) ∙ (ap number_of_digits e ∙ number_of_digits-decimal n)

append_cancel : (xs ys zs : Text) → xs ++ ys ≡ xs ++ zs → ys ≡ zs
append_cancel [] ys zs e = e
append_cancel (x ∷ xs) ys zs e = append_cancel xs ys zs (cc)

-- The id that `addTask` chooses is free.
pub new_task_id-free : (ts : List Task) → has_id (new_task_id ts) ts ≡ false
unfolding new_task_id
new_task_id-free ts = first_free-free task_name (suc (length ts)) ts (λ i j e. omega (
  arith,
  decimal_injective (suc (length ts) + i) (suc (length ts) + j)
      (append_cancel (codes "task_") _ _ e),
))

-- The id that `nvAddStep` chooses is free.
pub new_step_id-free : (ts : List Task) → has_id (new_step_id ts) ts ≡ false
unfolding new_step_id
new_step_id-free ts = first_free-free step_name (suc (length ts)) ts (λ i j e. omega (
  arith,
  decimal_injective (suc (length ts) + i) (suc (length ts) + j)
      (append_cancel (codes "step_") _ _ e),
))

-- What follows "_copy" in the names that `duplicateTask` tries.
suffix : ℕ → Text
suffix n = if ltb 1 n then codes "_" ++ decimal n else []

decimal-of_suffix : (m n : ℕ) → codes "_" ++ decimal m ≡ codes "_" ++ decimal n → m ≡ n
decimal-of_suffix m n e = decimal_injective m n (append_cancel (codes "_") _ _ e)

suffix_injective : (i j : ℕ) → suffix (1 + i) ≡ suffix (1 + j) → i ≡ j
unfolding suffix
suffix_injective i j e = elim (Bool-cases (ltb 1 (1 + i))) [
  | inl p ↦ elim (Bool-cases (ltb 1 (1 + j))) [
    | inl q ↦ omega (arith, decimal-of_suffix (1 + i) (1 + j) (rw (p, q) at e))
    | inr q ↦ absurd (let d = rw (p, q) at e in cc)
  ]
  | inr p ↦ elim (Bool-cases (ltb 1 (1 + j))) [
    | inl q ↦ absurd (let d = rw (p, q) at e in cc)
    | inr q ↦ ground arith
  ]
]

copy_suffix : (k : Text) (i j : ℕ) → copy_name k (1 + i) ≡ copy_name k (1 + j) → i ≡ j
unfolding copy_name suffix
copy_suffix k i j e =
    suffix_injective i j (append_cancel (codes "_copy") _ _ (append_cancel k _ _ e))

-- The id that `duplicateTask` chooses is free.
pub copy_id-free : (k : Text) (ts : List Task) → has_id (copy_id k ts) ts ≡ false
unfolding copy_id
copy_id-free k ts = first_free-free (copy_name k) 1 ts (copy_suffix k)

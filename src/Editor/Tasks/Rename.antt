-- ===== src/Editor/Tasks/Rename.antt =====
-- Renaming a task (internal/web/static/views.js): `renameActiveTask`.
use poc_cronova_windows.Base.{
  Bool-cases, In, In-cons, List, Text, [], any-of-In, arith, map, false, get_elem?, here, inl, inr,
  not-In-nil, refl, some, subst, suc, sym, there, zero, ℕ, ◌==◌, ◌∙◌, ◌∷◌, ◌≡◌, ◌≢◌, ◌⊎◌, ap,
  list_eq, nat_eq, text_iff,
}
use mathlib.Core.Option.{some-injective}
use poc_cronova_windows.Model.{Task, ids}
use poc_cronova_windows.Editor.Validate.{has_duplicates}
use poc_cronova_windows.Editor.Tasks.{
  id_elsewhere, rename_active, rename_at, renamed, replace_first,
}
use poc_cronova_windows.Editor.Tasks.Fresh.{In→has_id}
use poc_cronova_windows.Editor.Tasks.Tidy.{IsTidy, In-map_of, contains→not_In, not_In→contains}

-- The members of a list of dependencies after the replacement.
In-replace_first :
    (k k2 : Text) (ds : List Text) (d : Text)
    → has_duplicates ds ≡ false
    → In d (replace_first k k2 ds)
    → (d ≡ k2) ⊎ (In d ds × (d ≢ k))
unfolding replace_first has_duplicates
In-replace_first k k2 [] d h m = absurd (not-In-nil m)
In-replace_first k k2 (x ∷ ds) d h m = elim (Bool-cases (x == k)) [
  | inl t ↦ elim ((In-cons d k2 ds).0 (rw t at m)) [
    | inl e ↦ inl e
    | inr n ↦
        let same = (text_iff x k).0 t in
        inr (
          there n,
          λ e. contains→not_In ds x (ground arith) (subst (λ z. In z ds) (e ∙ sym same) n),
        )
  ]
  | inr f ↦ elim ((In-cons d x (replace_first k k2 ds)).0 (rw f at m)) [
    | inl e ↦ inr (here e, λ p. let t = (text_iff x k).1 (sym e ∙ p) in cc)
    | inr n ↦ elim (In-replace_first k k2 ds d (ground arith) n) [
      | inl e ↦ inl e
      | inr (q, ne) ↦ inr (there q, ne)
    ]
  ]
]

has_duplicates-replace_first :
    (k k2 : Text) (ds : List Text)
    → has_duplicates ds ≡ false
    → ¬ In k2 ds
    → has_duplicates (replace_first k k2 ds) ≡ false
unfolding replace_first has_duplicates
has_duplicates-replace_first k k2 [] h n = refl
has_duplicates-replace_first k k2 (x ∷ ds) h n = elim (Bool-cases (x == k)) [
  | inl t ↦ rw t (ground (arith, not_In→contains ds k2 (λ m. n (there m))))
  | inr f ↦
      let fresh : ¬ In x (replace_first k k2 ds) = λ m.
        elim (In-replace_first k k2 ds x (ground arith) m) [
          | inl e ↦ n (here (sym e))
          | inr (q, ne) ↦ contains→not_In ds x (ground arith) q
        ] in
      let rest = has_duplicates-replace_first k k2 ds (ground arith) (λ m. n (there m)) in
      rw (f, not_In→contains (replace_first k k2 ds) x fresh, rest)
]

-- A task of the result is the renamed one, or another with its dependencies rewritten.
In-rename_at :
    (i : ℕ) (k k2 : Text) (ts : List Task) (y : Task)
    → id_elsewhere i k2 ts ≡ false
    → In y (rename_at i k k2 ts)
    → (x : Task) × In x ts
      × (((get_elem? ts i ≡ some x) × (y ≡ record x { id = k2 }))
          ⊎ ((y ≡ record x { deps = replace_first k k2 x.deps }) × (x.id ≢ k2)))
unfolding rename_at id_elsewhere
In-rename_at i k k2 [] y h m = absurd (not-In-nil m)
In-rename_at zero k k2 (x ∷ ts) y h m = elim ((In-cons y _ _).0 m) [
  | inl e ↦ (x, here refl, inl (refl, e))
  | inr r ↦
      let (z, n, e) =
        In-map_of (λ (u : Task). record u { deps = replace_first k k2 u.deps }) ts r in
      (
        z,
        there n,
        inr (
          e,
          λ p. let t = any-of-In (λ (u : Task). u.id == k2) ts n ((text_iff z.id k2).1 p) in cc,
        ),
      )
]
In-rename_at (suc i) k k2 (x ∷ ts) y h m = elim ((In-cons y _ _).0 m) [
  | inl e ↦ (x, here refl, inr (e, λ p. let t = (text_iff x.id k2).1 p in ground arith))
  | inr r ↦ let (z, n, c) = In-rename_at i k k2 ts y (ground arith) r in (z, there n, c)
]

ids-with_deps :
    (k k2 : Text) (ts : List Task)
    → ids (map (λ (u : Task). record u { deps = replace_first k k2 u.deps }) ts) ≡ ids ts
ids-with_deps k k2 [] = refl
ids-with_deps k k2 (x ∷ ts) = ap (x.id ∷◌) (ids-with_deps k k2 ts)

In-ids-rename_at :
    (i : ℕ) (k k2 : Text) (ts : List Task) (j : Text)
    → In j (ids (rename_at i k k2 ts))
    → (j ≡ k2) ⊎ In j (ids ts)
unfolding rename_at
In-ids-rename_at i k k2 [] j m = absurd (not-In-nil m)
In-ids-rename_at zero k k2 (x ∷ ts) j m = elim ((In-cons j k2 _).0 m) [
  | inl e ↦ inl e
  | inr r ↦ inr (there (rw (ids-with_deps k k2 ts) at r))
]
In-ids-rename_at (suc i) k k2 (x ∷ ts) j m = elim ((In-cons j x.id _).0 m) [
  | inl e ↦ inr (here e)
  | inr r ↦ elim (In-ids-rename_at i k k2 ts j r) [ inl e ↦ inl e | inr n ↦ inr (there n) ]
]

-- Every id but the old one is still there, and so is the new one.
still_there :
    (i : ℕ) (k k2 : Text) (ts : List Task) (tk : Task)
    → get_elem? ts i ≡ some tk
    → tk.id ≡ k
    → In k2 (ids (rename_at i k k2 ts))
      × ((d : Text) → In d (ids ts) → d ≢ k → In d (ids (rename_at i k k2 ts)))
unfolding rename_at
still_there i k k2 [] tk e p = cc
still_there zero k k2 (x ∷ ts) tk e p = (
  here refl,
  λ d m ne. elim ((In-cons d x.id (ids ts)).0 m) [
    | inl q ↦ absurd (ne (q ∙ (ap (λ (o : Task). o.id) (some-injective x tk e) ∙ p)))
    | inr r ↦ there (rw (ids-with_deps k k2 ts) r)
  ],
)
still_there (suc i) k k2 (x ∷ ts) tk e p =
    let (new, old) = still_there i k k2 ts tk e p in
    (
      there new,
      λ d m ne. elim ((In-cons d x.id (ids ts)).0 m) [
        | inl q ↦ here q
        | inr r ↦ there (old d r ne)
      ],
    )

distinct-rename_at :
    (i : ℕ) (k k2 : Text) (ts : List Task)
    → id_elsewhere i k2 ts ≡ false
    → has_duplicates (ids ts) ≡ false
    → has_duplicates (ids (rename_at i k k2 ts)) ≡ false
unfolding rename_at id_elsewhere has_duplicates
distinct-rename_at i k k2 [] h d = refl
distinct-rename_at zero k k2 (x ∷ ts) h d =
    let fresh : ¬ In k2 (ids ts) = λ m. let t = In→has_id k2 ts m in cc in
    rw (ids-with_deps k k2 ts, not_In→contains (ids ts) k2 fresh) (ground arith)
distinct-rename_at (suc i) k k2 (x ∷ ts) h d =
    let fresh : ¬ In x.id (ids (rename_at i k k2 ts)) = λ m.
      elim (In-ids-rename_at i k k2 ts x.id m) [
        | inl e ↦ let t = (text_iff x.id k2).1 e in absurd (ground arith)
        | inr n ↦ contains→not_In (ids ts) x.id (ground arith) n
      ] in
    let rest = distinct-rename_at i k k2 ts (ground arith) (ground arith) in
    rw (not_In→contains (ids (rename_at i k k2 ts)) x.id fresh, rest)

-- The new id is used by no other task.
elsewhere-free :
    (i : ℕ) (k k2 : Text) (ts : List Task) (tk : Task)
    → get_elem? ts i ≡ some tk
    → tk.id ≡ k
    → k2 ≢ k
    → id_elsewhere i k2 ts ≡ false
    → ¬ In k2 (ids ts)
unfolding id_elsewhere
elsewhere-free i k k2 [] tk e p ne h m = not-In-nil m
elsewhere-free zero k k2 (x ∷ ts) tk e p ne h m = elim ((In-cons k2 x.id (ids ts)).0 m) [
  | inl q ↦ ne (q ∙ (ap (λ (o : Task). o.id) (some-injective x tk e) ∙ p))
  | inr r ↦ let t = In→has_id k2 ts r in cc
]
elsewhere-free (suc i) k k2 (x ∷ ts) tk e p ne h m = elim ((In-cons k2 x.id (ids ts)).0 m) [
  | inl q ↦ let t = (text_iff x.id k2).1 (sym q) in absurd (ground arith)
  | inr r ↦ elsewhere-free i k k2 ts tk e p ne (ground arith) r
]

rename_at-IsTidy :
    (i : ℕ) (k k2 : Text) (ts : List Task) (tk : Task)
    → get_elem? ts i ≡ some tk
    → tk.id ≡ k
    → k2 ≢ k
    → id_elsewhere i k2 ts ≡ false
    → IsTidy ts
    → IsTidy (rename_at i k k2 ts)
rename_at-IsTidy i k k2 ts tk e p ne free h =
    let unused = elsewhere-free i k k2 ts tk e p ne free in
    let (new, old) = still_there i k k2 ts tk e p in
    record {
      distinct = distinct-rename_at i k k2 ts free h.distinct;
      closed = λ y m d n.
          let (x, l, c) = In-rename_at i k k2 ts y free m in
          elim c [
            | inl (a, q) ↦
                let x_id = ap (λ (o : Task). o.id) (some-injective x tk (sym a ∙ e)) ∙ p in
                let listed : In d x.deps = rw q at n in
                old d (h.closed x l d listed)
                  (λ r. h.others x l (subst (λ z. In z x.deps) (r ∙ sym x_id) listed))
            | inr (q, b) ↦ elim (In-replace_first k k2 x.deps d (h.once x l) (rw q at n)) [
              | inl r ↦ rw r new
              | inr (r, s) ↦ old d (h.closed x l d r) s
            ]
          ];
      once = λ y m.
          let (x, l, c) = In-rename_at i k k2 ts y free m in
          elim c [
            | inl (a, q) ↦ rw q (h.once x l)
            | inr (q, b) ↦ rw q (
                has_duplicates-replace_first k k2 x.deps (h.once x l)
                  (λ n. unused (h.closed x l k2 n)))
          ];
      others = λ y m n.
          let (x, l, c) = In-rename_at i k k2 ts y free m in
          elim c [
            | inl (a, q) ↦ unused (h.closed x l k2 (rw q at n))
            | inr (q, b) ↦ elim (In-replace_first k k2 x.deps x.id (h.once x l) (rw q at n)) [
              | inl r ↦ b r
              | inr (r, s) ↦ h.others x l r
            ]
          ];
    }

-- When `renameActiveTask` changes the tasks, they are as tidy as before.
pub rename_active-IsTidy :
    (i : ℕ) (k2 : Text) (ts us : List Task) (tk : Task)
    → get_elem? ts i ≡ some tk
    → rename_active i tk.id k2 ts ≡ renamed us
    → IsTidy ts
    → IsTidy us
unfolding rename_active
rename_active-IsTidy i k2 ts us tk e r h =
    let ne : k2 ≢ tk.id = λ p. let t = (text_iff k2 tk.id).1 p in absurd (ground arith) in
    subst IsTidy (ground arith) (rename_at-IsTidy i tk.id k2 ts tk e refl ne (ground arith) h)

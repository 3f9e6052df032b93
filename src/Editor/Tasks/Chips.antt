-- ===== src/Editor/Tasks/Chips.antt =====
-- Changes of the dependencies of a task (internal/web/static/views.js): the chips of the task page.
use poc_cronova_windows.Base.{
  Bool-cases, In, In-cons, List, Text, [], arith, contains, false, here, if_elim, inl, inr,
  not-In-nil, refl, subst, sym, there, text_iff, ◌==◌, ◌∷◌, ◌≡◌, ◌≢◌, ◌⊎◌, ◌∙◌, ap, list_eq, nat_eq,
}
use poc_cronova_windows.Model.{Task, ids}
use poc_cronova_windows.Graph.Cycle.{has_cycle}
use poc_cronova_windows.Editor.Validate.{has_duplicates, named}
use poc_cronova_windows.Editor.Tasks.{change_deps, push, remove_first}
use poc_cronova_windows.Editor.Tasks.Tidy.{
  IsTidy, contains→not_In, has_duplicates-append, not_In→contains,
}
use poc_cronova_windows.Editor.Session.{toggle_chip, toggle_member}
use poc_cronova_windows.Editor.Session.Acyclic.{In-remove_first}

ids-change_deps :
    (f : List Text → List Text) (k : Text) (ts : List Task) → ids (change_deps f k ts) ≡ ids ts
unfolding change_deps
ids-change_deps f k [] = refl
ids-change_deps f k (x ∷ ts) =
    if_elim (λ us. ids us ≡ ids (x ∷ ts)) (x.id == k) _ _ (λ t. refl)
      (λ n. ap (x.id ∷◌) (ids-change_deps f k ts))

In-change_deps :
    (f : List Text → List Text) (k : Text) (ts : List Task) (y : Task)
    → In y (change_deps f k ts)
    → In y ts ⊎ ((x : Task) × In x ts × (x.id ≡ k) × (y ≡ record x { deps = f x.deps }))
unfolding change_deps
In-change_deps f k [] y m = absurd (not-In-nil m)
In-change_deps f k (x ∷ ts) y m = elim (Bool-cases (x.id == k)) [
  | inl t ↦ elim ((In-cons y _ ts).0 (rw t at m)) [
    | inl e ↦ inr (x, here refl, (text_iff x.id k).0 t, e)
    | inr r ↦ inl (there r)
  ]
  | inr n ↦ elim ((In-cons y x _).0 (rw n at m)) [
    | inl e ↦ inl (here e)
    | inr r ↦ elim (In-change_deps f k ts y r) [
      | inl q ↦ inl (there q)
      | inr (z, q, i, e) ↦ inr (z, there q, i, e)
    ]
  ]
]

-- A change of dependencies that adds at most another known task, and no second copy.
change_deps-IsTidy :
    (f : List Text → List Text) (k : Text) (ts : List Task)
    → ((ds : List Text) → has_duplicates ds ≡ false → has_duplicates (f ds) ≡ false)
    → ((ds : List Text) (d : Text) → In d (f ds) → In d ds ⊎ (In d (ids ts) × (d ≢ k)))
    → IsTidy ts
    → IsTidy (change_deps f k ts)
change_deps-IsTidy f k ts once known h = record {
  distinct = rw (ids-change_deps f k ts) h.distinct;
  closed = λ y m d n. rw (ids-change_deps f k ts) (elim (In-change_deps f k ts y m) [
    | inl l ↦ h.closed y l d n
    | inr (x, l, i, e) ↦ elim (known x.deps d (rw e at n)) [
      | inl q ↦ h.closed x l d q
      | inr (q, ne) ↦ q
    ]
  ]);
  once = λ y m. elim (In-change_deps f k ts y m) [
    | inl l ↦ h.once y l
    | inr (x, l, i, e) ↦ rw e (once x.deps (h.once x l))
  ];
  others = λ y m n. elim (In-change_deps f k ts y m) [
    | inl l ↦ h.others y l n
    | inr (x, l, i, e) ↦ elim (known x.deps x.id (rw e at n)) [
      | inl q ↦ h.others x l q
      | inr (q, ne) ↦ ne i
    ]
  ];
}

has_duplicates-remove_first :
    (k : Text) (ds : List Text)
    → has_duplicates ds ≡ false
    → has_duplicates (remove_first k ds) ≡ false
unfolding remove_first has_duplicates
has_duplicates-remove_first k [] h = refl
has_duplicates-remove_first k (x ∷ ds) h = elim (Bool-cases (x == k)) [
  | inl t ↦ rw t (ground arith)
  | inr f ↦
      let fresh : ¬ In x (remove_first k ds) =
        λ m. contains→not_In ds x (ground arith) (In-remove_first k ds x m) in
      rw (f, not_In→contains (remove_first k ds) x fresh)
        (has_duplicates-remove_first k ds (ground arith))
]

has_duplicates-toggle_member :
    (dep : Text) (ds : List Text)
    → has_duplicates ds ≡ false
    → has_duplicates (toggle_member dep ds) ≡ false
unfolding toggle_member
has_duplicates-toggle_member dep ds h =
    if_elim (λ es. has_duplicates es ≡ false) (contains ds dep) _ _
      (λ t. has_duplicates-remove_first dep ds h)
      (λ f. has_duplicates-append ds dep h (contains→not_In ds dep f))

In-toggle_member :
    (dep : Text) (ds : List Text) (d : Text) → In d (toggle_member dep ds) → In d ds ⊎ (d ≡ dep)
unfolding toggle_member
In-toggle_member dep ds d m = elim (Bool-cases (contains ds dep)) [
  | inl t ↦ inl (In-remove_first dep ds d (rw t at m))
  | inr f ↦ In-push ds (rw f at m)
]
  where
    In-push : (es : List Text) → In d (push dep es) → In d es ⊎ (d ≡ dep)
    In-push [] n = elim ((In-cons d dep []).0 n) [ inl e ↦ inr e | inr q ↦ absurd (not-In-nil q) ]
    In-push (e ∷ es) n = elim ((In-cons d e (push dep es)).0 n) [
      | inl p ↦ inl (here p)
      | inr q ↦ elim (In-push es q) [ inl r ↦ inl (there r) | inr p ↦ inr p ]
    ]

pub member-IsTidy :
    (dep k : Text) (ts : List Task)
    → In dep (ids ts)
    → dep ≢ k
    → IsTidy ts
    → IsTidy (change_deps (toggle_member dep) k ts)
member-IsTidy dep k ts l ne =
    change_deps-IsTidy (toggle_member dep) k ts (has_duplicates-toggle_member dep) (λ ds d m.
      elim (In-toggle_member dep ds d m) [
        | inl q ↦ inl q
        | inr e ↦ inr (subst (λ z. In z (ids ts)) (sym e) l, λ p. ne (sym e ∙ p))
      ])

pub toggle_chip-IsTidy :
    (dep k : Text) (ts : List Task)
    → In dep (ids ts)
    → dep ≢ k
    → IsTidy ts
    → IsTidy (toggle_chip dep k ts)
unfolding toggle_chip
toggle_chip-IsTidy dep k ts l ne h =
    let once = member-IsTidy dep k ts l ne h in
    if_elim IsTidy (has_cycle (named (change_deps (toggle_member dep) k ts))) _ _
      (λ t.
        member-IsTidy dep k (change_deps (toggle_member dep) k ts)
          (rw (ids-change_deps (toggle_member dep) k ts) l) ne once)
      (λ f. once)

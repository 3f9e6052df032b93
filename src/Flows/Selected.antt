-- ===== src/Flows/Selected.antt =====
-- Sequences of acts on the selection (internal/web/static/views.js), and the bulk operation behind them.
use poc_cronova_windows.Base.{
  Bool, Bool-cases, In, In-append_cases, In-cons, In→contains, List, Option, Option-cases, Text, [],
  arith, contains, contains→In, false, here, if_elim, inl, inr, all, length, map, none, not,
  not-In-nil, refl, some, subst, sym, there, true, ◌+◌, ◌==◌, ◌∷◌, ◌≡◌, ◌⊎◌, ap, list_eq, nat_eq,
}
use mathlib.Core.Option.{some-injective}
use poc_cronova_windows.Editor.Validate.{has_duplicates}
use poc_cronova_windows.Editor.Tasks.Tidy.{contains→not_In, has_duplicates-append}
use poc_cronova_windows.Editor.Tasks.Edits.{In-filter, has_duplicates-filter}
use poc_cronova_windows.Flows.Bulk.{
  Bulk, Op, Outcome, clear, each, fan_out, goes_on, redraw, run_bulk, set_add, set_delete, tick,
  tick_all,
}

-- Whatever is done on the page to the selection.
pub data Act : Type 0 where
  drawn : List Text → Act
  ticked : Text → Bool → Act
  ticked_all : Bool → Act
  cleared : Act
  ran : Op → Bool → (Text → Option Text) → Act

unfoldable pub do_act : Act → Bulk → Bulk
do_act (drawn ids) b = redraw ids b
do_act (ticked id on) b = tick id on b
do_act (ticked_all on) b = tick_all on b
do_act cleared b = clear b
do_act (ran op confirmed call) b = (run_bulk op confirmed call b).1

unfoldable pub do_all : List Act → Bulk → Bulk
unfolding do_act
do_all [] b = b
do_all (a ∷ as') b = do_all as' (do_act a b)

pub record IsWithin (b : Bulk) : Type 0 where
  pub distinct : has_duplicates b.sel ≡ false
  pub within : (k : Text) → In k b.sel → In k b.rows

set_add-distinct :
    (k : Text) (s : List Text) → has_duplicates s ≡ false → has_duplicates (set_add k s) ≡ false
unfolding set_add
set_add-distinct k s h =
    if_elim (λ u. has_duplicates u ≡ false) (contains s k) _ _ (λ t. h)
      (λ f. has_duplicates-append s k h (contains→not_In s k f))

In-set_add : (k : Text) (s : List Text) (x : Text) → In x (set_add k s) → In x s ⊎ (x ≡ k)
unfolding set_add
In-set_add k s x m = elim (Bool-cases (contains s k)) [
  | inl t ↦ inl (rw t at m)
  | inr f ↦ elim (In-append_cases s (k ∷ []) (rw f at m)) [
    | inl l ↦ inl l
    | inr r ↦ elim ((In-cons x k []).0 r) [ inl e ↦ inr e | inr q ↦ absurd (not-In-nil q) ]
  ]
]

deleted-distinct :
    (k : Text) (s : List Text) → has_duplicates s ≡ false → has_duplicates (set_delete k s) ≡ false
unfolding set_delete
deleted-distinct k s h = has_duplicates-filter (λ x. not (x == k)) s h

In-deleted : (k : Text) (s : List Text) (x : Text) → In x (set_delete k s) → In x s ⊎ (x ≡ k)
unfolding set_delete
In-deleted k s x m = inl (In-filter (λ y. not (y == k)) s m).0

-- One step of a loop over rows keeps the selection within them.
each-IsWithin :
    (f : Text → List Text → List Text) (rows : List Text)
    → ((k : Text) (s : List Text) → has_duplicates s ≡ false → has_duplicates (f k s) ≡ false)
    → ((k : Text) (s : List Text) (x : Text) → In x (f k s) → In x s ⊎ (x ≡ k))
    → (ks : List Text) → ((k : Text) → In k ks → In k rows)
    → (s : List Text) → IsWithin (record { rows = rows; sel = s })
    → IsWithin (record { rows = rows; sel = each f ks s })
unfolding each
each-IsWithin f rows once adds [] sub s h = h
each-IsWithin f rows once adds (k ∷ ks) sub s h =
    each-IsWithin f rows once adds ks (λ x m. sub x (there m)) (f k s)
      (record {
        distinct = once k s h.distinct;
        within = λ x m. elim (adds k s x m) [
          | inl l ↦ h.within x l
          | inr e ↦ subst (λ z. In z rows) (sym e) (sub k (here refl))
        ];
      })

act-IsWithin : (a : Act) (b : Bulk) → IsWithin b → IsWithin (do_act a b)
unfolding do_act redraw tick tick_all clear run_bulk has_duplicates
act-IsWithin (drawn ids) b h = record {
  distinct = has_duplicates-filter (contains ids) b.sel h.distinct;
  within = λ k m. contains→In ids k (In-filter (contains ids) b.sel m).1;
}
act-IsWithin (ticked id on) b h =
    if_elim IsWithin (contains b.rows id) _ _
      (λ t.
        if_elim (λ s. IsWithin (record b { sel = s })) on _ _
          (λ y.
            each-IsWithin set_add b.rows set_add-distinct In-set_add (id ∷ [])
              (λ k m. only id b.rows t k m) b.sel h)
          (λ n.
            each-IsWithin set_delete b.rows deleted-distinct In-deleted (id ∷ [])
              (λ k m. only id b.rows t k m) b.sel h))
      (λ f. h)
  where
    only :
        (id : Text) (rows : List Text)
        → contains rows id ≡ true
        → (k : Text) → In k (id ∷ [])
        → In k rows
    only id rows t k m = elim ((In-cons k id []).0 m) [
      | inl e ↦ subst (λ z. In z rows) (sym e) (contains→In rows id t)
      | inr q ↦ absurd (not-In-nil q)
    ]
act-IsWithin (ticked_all on) b h =
    if_elim (λ s. IsWithin (record b { sel = s })) on _ _
      (λ y. each-IsWithin set_add b.rows set_add-distinct In-set_add b.rows (λ k m. m) b.sel h)
      (λ n. each-IsWithin set_delete b.rows deleted-distinct In-deleted b.rows (λ k m. m) b.sel h)
act-IsWithin cleared b h = record { distinct = refl; within = λ k m. absurd (not-In-nil m) }
act-IsWithin (ran op confirmed call) b h =
    if_elim (λ (r : Option Outcome × Bulk). IsWithin r.1) (goes_on op confirmed) _ _
      (λ t. record { distinct = refl; within = λ k m. absurd (not-In-nil m) }) (λ f. h)

do_all-IsWithin : (as' : List Act) (b : Bulk) → IsWithin b → IsWithin (do_all as' b)
unfolding do_all
do_all-IsWithin [] b h = h
do_all-IsWithin (a ∷ as') b h = do_all-IsWithin as' (do_act a b) (act-IsWithin a b h)

fan_out-calls :
    (op : Op) (call : Text → Option Text) (ids : List Text)
    → ((fan_out op call ids).calls ≡ map (λ id. (op, id)) ids)
      × ((fan_out op call ids).ok + length (fan_out op call ids).fails ≡ length ids)
unfolding fan_out
fan_out-calls op call [] = (refl, refl)
fan_out-calls op call (id ∷ ids) =
    let (c, n) = fan_out-calls op call ids in
    elim (Option-cases (call id)) [
      | inl e ↦ (rw (fan_out, e) (ap ((op, id) ∷◌) c), rw (fan_out, e) (omega (arith, n)))
      | inr (m, e) ↦ (rw (fan_out, e) (ap ((op, id) ∷◌) c), rw (fan_out, e) (omega (arith, n)))
    ]

all-of-In :
    (p : Text → Bool) (xs : List Text) → ((k : Text) → In k xs → p k ≡ true) → all p xs ≡ true
all-of-In p [] h = refl
all-of-In p (x ∷ xs) h = rw (h x (here refl)) (all-of-In p xs (λ k m. h k (there m)))

-- After any actions on a page that opens with nothing selected, a bulk operation that goes on sends
-- one request for each selected id, in the order of selection; these ids are distinct and all of them
-- are rows that are shown; the successes and the failures add up to them, and nothing stays selected.
pub run_bulk-reaches :
    (as' : List Act) (op : Op) (confirmed : Bool) (call : Text → Option Text) (o : Outcome)
    (b : Bulk)
    → b ≡ do_all as' (record { rows = []; sel = [] })
    → (run_bulk op confirmed call b).0 ≡ some o
    → (o.calls ≡ map (λ id. (op, id)) b.sel)
      × (has_duplicates b.sel ≡ false)
      × (all (contains b.rows) b.sel ≡ true)
      × (o.ok + length o.fails ≡ length b.sel)
      × ((run_bulk op confirmed call b).1.sel ≡ [])
unfolding run_bulk has_duplicates clear
run_bulk-reaches as' op confirmed call o b e r =
    let start : IsWithin (record { rows = []; sel = [] }) = record {
      distinct = refl;
      within = λ k m. absurd (not-In-nil m);
    } in
    let h : IsWithin b = rw e (do_all-IsWithin as' _ start) in
    let (c, n) = fan_out-calls op call b.sel in
    elim (Bool-cases (goes_on op confirmed)) [
      | inl t ↦
          let same : fan_out op call b.sel ≡ o = some-injective _ _ (rw t at r) in
          (
            subst (λ (u : Outcome). u.calls ≡ map (λ id. (op, id)) b.sel) same c,
            h.distinct,
            all-of-In (contains b.rows) b.sel (λ k m. In→contains b.rows (h.within k m)),
            subst (λ (u : Outcome). u.ok + length u.fails ≡ length b.sel) same n,
            rw t,
          )
      | inr f ↦ absurd (none-some (rw f at r))
    ]
  where
    none-some : ¬ (none ≡ some o)
    none-some q = cc

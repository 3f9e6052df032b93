-- ===== src/Shell/Jump/Cursor.antt =====
-- The cursor of the jump search (internal/web/static/base.js), and where Enter leads.
use poc_cronova_windows.Base.{
  In, In-cons, List, List-cases, Option, Option-cases, Text, [], arith, get_elem?, here, if_elim,
  includes, inl, inr, length, none, not-In-nil, refl, some, subst, suc, sym, take, there, trim,
  true, zero, ℕ, ◌+◌, ◌-◌, ◌<◌, ◌∷◌, ◌≡◌, ◌≤◌, ◌∙◌, ap,
}
use mathlib.Core.Option.{some-injective}
use native.Mathlib.Nat.{mod-lt}
use poc_cronova_windows.Editor.Validate.{is_empty}
use poc_cronova_windows.Editor.Tasks.Edits.{In-filter}
use poc_cronova_windows.Shell.Jump.{
  Jump, Key, chosen, close_jump, dags_now, down, first_of, input, jump_enter, jump_move, jump_to,
  matches, moved, new_jump, up, update_jump,
}

-- What the user does with the search: typing, moving the cursor, closing.
pub data Act : Type 0 where
  typed : Option (List Text) → Text → Act
  key : Key → Act
  close : Act

unfoldable pub jump_act : (Text → Text) → Act → Jump → Jump
jump_act to_lower (typed overview raw) j = input to_lower overview raw j
jump_act to_lower (key k) j = jump_move k j
jump_act to_lower close j = close_jump j

unfoldable pub jump_acts : (Text → Text) → List Act → Jump → Jump
unfolding jump_act
jump_acts to_lower [] j = j
jump_acts to_lower (a ∷ as') j = jump_acts to_lower as' (jump_act to_lower a j)

module _ (to_lower : Text → Text) where
  -- The items of an open menu match what was typed, and there are at most eight; the cursor stands on
  -- one of them, if there are any.
  record IsAimed (j : Jump) : Type 0 where
    matching :
        (items : List Text)
        → j.menu ≡ some items
        → (x : Text) → In x items
        → In x j.dags × (includes (to_lower x) (to_lower (trim j.text)) ≡ true)
    few : (items : List Text) → j.menu ≡ some items → length items ≤ 8
    aimed :
        (x : Text) (xs : List Text)
        → j.menu ≡ some (x ∷ xs)
        → (i : ℕ) × (j.sel ≡ some i) × (i < length (x ∷ xs))

  In-take : (n : ℕ) (xs : List Text) (x : Text) → In x (take n xs) → In x xs
  In-take zero xs x m = absurd (not-In-nil m)
  In-take (suc n) [] x m = m
  In-take (suc n) (y ∷ xs) x m = elim ((In-cons x y (take n xs)).0 m) [
    | inl e ↦ here e
    | inr r ↦ there (In-take n xs x r)
  ]

  length-take : (n : ℕ) (xs : List Text) → length (take n xs) ≤ n
  length-take zero xs = omega arith
  length-take (suc n) [] = omega arith
  length-take (suc n) (y ∷ xs) = omega (arith, length-take n xs)

  hidden-IsAimed : (j : Jump) → j.menu ≡ none → IsAimed j
  hidden-IsAimed j e = record {
    matching = λ items q. absurd (cc);
    few = λ items q. absurd (cc);
    aimed = λ x xs q. absurd (cc);
  }

  first_of-aimed :
      (found items : List Text) (x : Text) (xs : List Text)
      → some found ≡ some (x ∷ xs)
      → (i : ℕ) × (first_of found ≡ some i) × (i < length (x ∷ xs))
  first_of-aimed found items x xs q = (
    0,
    subst (λ l. first_of l ≡ some 0) (sym (some-injective found (x ∷ xs) q)) refl,
    omega arith,
  )

  update-IsAimed :
      (overview : Option (List Text)) (raw : Text) (j : Jump)
      → j.text ≡ raw
      → IsAimed (update_jump to_lower overview raw j)
  unfolding update_jump matches
  update-IsAimed overview raw j e =
      let q = to_lower (trim raw) in
      let ids = dags_now overview j.dags in
      let found = matches to_lower q ids in
      if_elim IsAimed (is_empty q) _ _ (λ t. hidden-IsAimed _ refl)
        (λ f. record {
          matching = λ items p x m.
              let n = In-take 8 _ x (subst (In x) (sym (some-injective found items p)) m) in
              let (l, i) = In-filter (λ id. includes (to_lower id) q) ids n in
              (l, subst (λ r. includes (to_lower x) (to_lower (trim r)) ≡ true) (sym e) i);
          few =
              λ items p. subst (λ l. length l ≤ 8) (some-injective found items p) (length-take 8 _);
          aimed = λ x xs p. first_of-aimed found found x xs p;
        })

  moved-below : (k : Key) (i n : ℕ) → i < n → moved k (some i) n < n
  unfolding moved
  moved-below down i n h = mod-lt (i + 1 + n) (omega arith)
  moved-below up i n h = mod-lt (i + n - 1) (omega arith)

  move-IsAimed : (k : Key) (j : Jump) → IsAimed j → IsAimed (jump_move k j)
  unfolding jump_move
  move-IsAimed k j h = elim (Option-cases j.menu) [
    | inl e ↦ rw (jump_move, e) h
    | inr (items, e) ↦ elim (List-cases items) [
      | inl n ↦ rw (jump_move, e, n) h
      | inr (x, xs, c) ↦
          let (i, s, b) = h.aimed x xs (e ∙ ap some c) in
          rw (jump_move, e, c)
            (record {
              matching = h.matching;
              few = h.few;
              aimed = λ y ys q.
                  let same : x ∷ xs ≡ y ∷ ys = some-injective _ _ (sym (e ∙ ap some c) ∙ q) in
                  (
                    moved k j.sel (length (x ∷ xs)),
                    refl,
                    subst (λ l. moved k j.sel (length (x ∷ xs)) < length l) same
                        (rw s (moved-below k i _ b)),
                  );
            })
    ]
  ]

  act-IsAimed : (a : Act) (j : Jump) → IsAimed j → IsAimed (jump_act to_lower a j)
  unfolding jump_act input close_jump
  act-IsAimed (typed overview raw) j h =
      update-IsAimed overview raw (record j { text = raw; query = to_lower raw }) refl
  act-IsAimed (key k) j h = move-IsAimed k j h
  act-IsAimed close j h = hidden-IsAimed _ refl

  acts-IsAimed : (as' : List Act) (j : Jump) → IsAimed j → IsAimed (jump_acts to_lower as' j)
  unfolding jump_acts
  acts-IsAimed [] j h = h
  acts-IsAimed (a ∷ as') j h = acts-IsAimed as' (jump_act to_lower a j) (act-IsAimed a j h)

  get-In :
      (xs : List Text) (i : ℕ) → i < length xs → (x : Text) × (get_elem? xs i ≡ some x) × In x xs
  get-In [] i h = absurd (omega arith)
  get-In (x ∷ xs) zero h = (x, refl, here refl)
  get-In (x ∷ xs) (suc i) h = let (y, e, m) = get-In xs i (omega arith) in (y, e, there m)

  -- Whatever was typed and whichever keys were pressed, while the menu has items Enter opens the page
  -- of one of them, which is a known workflow whose id contains what was typed, apart from case and
  -- outer spaces, and closes the menu.
  pub jump_enter-found :
      (as' : List Act) (j : Jump) (x : Text) (xs : List Text)
      → j ≡ jump_acts to_lower as' new_jump
      → j.menu ≡ some (x ∷ xs)
      → (id : Text) × ((jump_enter j).0 ≡ some id)
        × In id (x ∷ xs)
        × In id j.dags
        × (includes (to_lower id) (to_lower (trim j.text)) ≡ true)
        × ((jump_enter j).1.menu ≡ none)
  unfolding jump_enter chosen jump_to close_jump new_jump
  jump_enter-found as' j x xs e o =
      let h : IsAimed j = rw e (acts-IsAimed as' new_jump (hidden-IsAimed new_jump refl)) in
      let (i, s, b) = h.aimed x xs o in
      let (id, g, m) = get-In (x ∷ xs) i b in
      let (known, typed_in) = h.matching (x ∷ xs) o id m in
      let c : chosen j ≡ some id = rw (chosen, o, s) g in
      (id, rw (jump_enter, c), m, known, typed_in, rw (jump_enter, c))

-- ===== src/Diff/Minimal.antt =====
-- The rows of `diffLines` (internal/web/static/views.js) beside the edit scripts of Diff/Lcs.
use poc_cronova_windows.Base.{
  List, Text, [], ap, ap₂, arith, drop, false, length, map, refl, split, split_injective, suc, sym,
  text_iff, zero, ℕ, ◌↔◌, ◌∙◌, ◌∷◌, ◌≡◌, ◌≤◌,
}
use poc_cronova_windows.Diff.{
  add, del, entry, fill, walk, Row, diff_lists, any_change, diff_lines, same,
}
use poc_cronova_windows.Diff.Lcs.{
  lcs, kept, new_lines, old_lines, changes, changes-add-kept, kept-le-lcs,
}
use poc_cronova_windows.Diff.Table.{entry-fill}

old_lines-map_add : (ys : List Text) → old_lines (map add ys) ≡ []
old_lines-map_add [] = refl
old_lines-map_add (y ∷ ys) = old_lines-map_add ys

new_lines-map_add : (ys : List Text) → new_lines (map add ys) ≡ ys
new_lines-map_add [] = refl
new_lines-map_add (y ∷ ys) = ap (y ∷◌) (new_lines-map_add ys)

old_lines-map_del : (xs : List Text) → old_lines (map del xs) ≡ xs
old_lines-map_del [] = refl
old_lines-map_del (x ∷ xs) = ap (x ∷◌) (old_lines-map_del xs)

new_lines-map_del : (xs : List Text) → new_lines (map del xs) ≡ []
new_lines-map_del [] = refl
new_lines-map_del (x ∷ xs) = new_lines-map_del xs

kept-map_add : (ys : List Text) → kept (map add ys) ≡ 0
kept-map_add [] = refl
kept-map_add (y ∷ ys) = kept-map_add ys

kept-map_del : (ys : List Text) → kept (map del ys) ≡ 0
kept-map_del [] = refl
kept-map_del (y ∷ ys) = kept-map_del ys

old_lines-walk :
    (dp : List (List ℕ)) (i j : ℕ) (xs ys : List Text) → old_lines (walk dp i j xs ys) ≡ xs
unfolding walk
old_lines-walk dp i j [] ys = old_lines-map_add ys
old_lines-walk dp i j (x ∷ xs) [] = ap (x ∷◌) (old_lines-map_del xs)
old_lines-walk dp i j (x ∷ xs) (y ∷ ys) = ground (
  arith,
  text_iff x y,
  old_lines-walk dp (suc i) (suc j) xs ys,
  old_lines-walk dp (suc i) j xs (y ∷ ys),
  old_lines-walk dp i (suc j) (x ∷ xs) ys,
)

new_lines-walk :
    (dp : List (List ℕ)) (i j : ℕ) (xs ys : List Text) → new_lines (walk dp i j xs ys) ≡ ys
unfolding walk
new_lines-walk dp i j [] ys = new_lines-map_add ys
new_lines-walk dp i j (x ∷ xs) [] = new_lines-map_del xs
new_lines-walk dp i j (x ∷ xs) (y ∷ ys) = ground (
  arith,
  text_iff x y,
  new_lines-walk dp (suc i) (suc j) xs ys,
  new_lines-walk dp (suc i) j xs (y ∷ ys),
  new_lines-walk dp i (suc j) (x ∷ xs) ys,
)

drop-suc :
    (i : ℕ) (zs : List Text) {x : Text} {xs : List Text} → drop i zs ≡ x ∷ xs → drop (suc i) zs ≡ xs
drop-suc zero [] e = cc
drop-suc zero (z ∷ zs) e = cc
drop-suc (suc i) [] e = cc
drop-suc (suc i) (z ∷ zs) e = drop-suc i zs e

module _ (as' bs' : List Text) where
  -- The walk keeps as many lines as the table says.
  kept-walk :
      (i j : ℕ) (xs ys : List Text)
      → drop i as' ≡ xs
      → drop j bs' ≡ ys
      → kept (walk (fill as' bs') i j xs ys) ≡ lcs xs ys
  unfolding walk lcs
  kept-walk i j [] ys p q = kept-map_add ys
  kept-walk i j (x ∷ xs) [] p q = kept-map_del xs
  kept-walk i j (x ∷ xs) (y ∷ ys) p q =
      let p' = drop-suc i as' p in
      let q' = drop-suc j bs' q in
      let down : entry (fill as' bs') (suc i) j ≡ lcs xs (y ∷ ys) =
        entry-fill as' bs' (suc i) j ∙ ap₂ lcs p' q in
      let right : entry (fill as' bs') i (suc j) ≡ lcs (x ∷ xs) ys =
        entry-fill as' bs' i (suc j) ∙ ap₂ lcs p q' in
      ground (
        arith,
        down,
        right,
        kept-walk (suc i) (suc j) xs ys p' q',
        kept-walk (suc i) j xs (y ∷ ys) p' q,
        kept-walk i (suc j) (x ∷ xs) ys p q',
      )

-- The rows of a diff without "+" are the old lines, without "-" the new lines, and every other list
-- of rows with these two properties marks at least as many lines "-" or "+".
pub diff_lists-minimal :
    (xs ys : List Text)
    → (old_lines (diff_lists xs ys) ≡ xs)
      × (new_lines (diff_lists xs ys) ≡ ys)
      × ((rs : List Row)
          → old_lines rs ≡ xs
          → new_lines rs ≡ ys
          → changes (diff_lists xs ys) ≤ changes rs)
unfolding diff_lists
diff_lists-minimal xs ys = (
  old_lines-walk (fill xs ys) 0 0 xs ys,
  new_lines-walk (fill xs ys) 0 0 xs ys,
  λ rs p q.
      let d = walk (fill xs ys) 0 0 xs ys in
      let p' = old_lines-walk (fill xs ys) 0 0 xs ys in
      let q' = new_lines-walk (fill xs ys) 0 0 xs ys in
      let most : kept rs ≤ lcs xs ys = rw (← p, ← q) (kept-le-lcs rs) in
      omega (
        arith,
        changes-add-kept rs,
        changes-add-kept d,
        kept-walk xs ys 0 0 xs ys refl refl,
        most,
        ap length p,
        ap length q,
        ap length p',
        ap length q',
      ),
)

any_change-eq-false : (rs : List Row) → any_change rs ≡ false → old_lines rs ≡ new_lines rs
unfolding any_change
any_change-eq-false [] h = refl
any_change-eq-false (same s ∷ rs) h = ap (s ∷◌) (any_change-eq-false rs h)
any_change-eq-false (del s ∷ rs) h = cc
any_change-eq-false (add s ∷ rs) h = cc

any_change_of_changes : (rs : List Row) → changes rs ≤ 0 → any_change rs ≡ false
unfolding any_change
any_change_of_changes [] h = refl
any_change_of_changes (same s ∷ rs) h = any_change_of_changes rs h
any_change_of_changes (del s ∷ rs) h = absurd (omega arith)
any_change_of_changes (add s ∷ rs) h = absurd (omega arith)

old_lines-map_same : (xs : List Text) → old_lines (map same xs) ≡ xs
old_lines-map_same [] = refl
old_lines-map_same (x ∷ xs) = ap (x ∷◌) (old_lines-map_same xs)

new_lines-map_same : (xs : List Text) → new_lines (map same xs) ≡ xs
new_lines-map_same [] = refl
new_lines-map_same (x ∷ xs) = ap (x ∷◌) (new_lines-map_same xs)

changes-map_same : (xs : List Text) → changes (map same xs) ≡ 0
changes-map_same [] = refl
changes-map_same (x ∷ xs) = changes-map_same xs

-- The panel says that nothing changed exactly if the saved and the pending text are equal.
pub any_change-diff_lines : (a b : Text) → (any_change (diff_lines a b) ≡ false) ↔ (a ≡ b)
unfolding diff_lines
any_change-diff_lines a b = (equal, unchanged)
  where
    equal : any_change (diff_lists (split b'\n' a) (split b'\n' b)) ≡ false → a ≡ b
    equal h =
        let (old, new, _) = diff_lists-minimal (split b'\n' a) (split b'\n' b) in
        split_injective b'\n' a b (sym old ∙ (any_change-eq-false _ h ∙ new))

    unchanged : a ≡ b → any_change (diff_lists (split b'\n' a) (split b'\n' b)) ≡ false
    unchanged e =
        let xs = split b'\n' a in
        let (_, _, least) = diff_lists-minimal xs (split b'\n' b) in
        any_change_of_changes _ (
          omega (
            arith,
            least (map same xs) (old_lines-map_same xs)
                (new_lines-map_same xs ∙ ap (split b'\n') e),
            changes-map_same xs,
          ))

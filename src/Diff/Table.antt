-- ===== src/Diff/Table.antt =====
-- The table `dp` of `diffLines` (internal/web/static/views.js) beside the recursive specification.
use poc_cronova_windows.Base.{List, Text, [], arith, drop, refl, suc, zero, ℕ, ◌∙◌, ◌∷◌, ◌≡◌}
use poc_cronova_windows.Diff.{get_or, entry, fill, fill_row, first_row, tail, zeros}
use poc_cronova_windows.Diff.Lcs.{lcs}

get_or-tail : (r : List ℕ) (j : ℕ) → get_or (tail r) j ≡ get_or r (suc j)
get_or-tail [] j = refl
get_or-tail (x ∷ r) j = refl

get_or-zeros : (ys : List Text) (j : ℕ) → get_or (zeros ys) j ≡ 0
get_or-zeros [] zero = refl
get_or-zeros [] (suc j) = refl
get_or-zeros (y ∷ ys) zero = refl
get_or-zeros (y ∷ ys) (suc j) = get_or-zeros ys j

pub lcs-nil : (xs : List Text) → lcs xs [] ≡ 0
unfolding lcs
lcs-nil [] = refl
lcs-nil (x ∷ xs) = refl

-- A row of the table, for the lines `xs` of A.
abbrev IsRow : List Text → List Text → List ℕ → Type 0
IsRow xs ys r = (j : ℕ) → get_or r j ≡ lcs xs (drop j ys)

IsRow-fill_row :
    (x : Text) (xs ys : List Text) (below : List ℕ)
    → IsRow xs ys below
    → IsRow (x ∷ xs) ys (fill_row x ys below)
unfolding fill_row lcs
IsRow-fill_row x xs [] below h zero = refl
IsRow-fill_row x xs [] below h (suc j) = refl
IsRow-fill_row x xs (y ∷ ys) below h zero =
    let right = IsRow-fill_row x xs ys (tail below) (λ j. get_or-tail below j ∙ h (suc j)) zero in
    ground (arith, h 0, h 1, right)
IsRow-fill_row x xs (y ∷ ys) below h (suc j) =
    IsRow-fill_row x xs ys (tail below) (λ k. get_or-tail below k ∙ h (suc k)) j

IsRow-first : (xs ys : List Text) → IsRow xs ys (first_row (fill xs ys))
unfolding fill lcs
IsRow-first [] ys j = get_or-zeros ys j
IsRow-first (x ∷ xs) ys j = IsRow-fill_row x xs ys (first_row (fill xs ys)) (IsRow-first xs ys) j

pub entry-fill :
    (xs ys : List Text) (i j : ℕ) → entry (fill xs ys) i j ≡ lcs (drop i xs) (drop j ys)
unfolding fill lcs
entry-fill [] ys zero j = IsRow-first [] ys j
entry-fill [] ys (suc i) j = refl
entry-fill (x ∷ xs) ys zero j = IsRow-first (x ∷ xs) ys j
entry-fill (x ∷ xs) ys (suc i) j = entry-fill xs ys i j

-- ===== src/Diff.antt =====
-- `diffLines` (internal/web/static/views.js): the line diff that the graph editor shows before it
-- saves. The table `dp` is filled from the last line to the first, and the walk over it emits rows.
pub mod Lcs
pub mod Table
pub mod Minimal
use poc_cronova_windows.Base.{
  Bool, List, Text, [], false, if◌then◌else◌, leb, map, max, split, suc, true, zero, ℕ, ◌+◌, ◌==◌,
  ◌∷◌, list_eq, nat_eq,
}

-- A row `{k, s}` of the result, with k = " ", "-" or "+".
pub data Row : Type 0 where
  same del add : Text → Row

abbrev pub get_or : List ℕ → ℕ → ℕ
get_or [] i = 0
get_or (x ∷ xs) zero = x
get_or (x ∷ xs) (suc i) = get_or xs i

abbrev pub tail : List ℕ → List ℕ
tail [] = []
tail (x ∷ xs) = xs

abbrev pub zeros : List Text → List ℕ
zeros [] = 0 ∷ []
zeros (y ∷ ys) = 0 ∷ zeros ys

-- `dp[i]` from `dp[i + 1]`, for the line `x = A[i]`: the inner loop, which goes from the last column
-- to the first.
unfoldable pub fill_row : Text → List Text → List ℕ → List ℕ
fill_row x [] below = 0 ∷ []
fill_row x (y ∷ ys) below =
    let right = fill_row x ys (tail below) in
    (if x == y then get_or below 1 + 1 else max (get_or below 0) (get_or right 0)) ∷ right

abbrev pub first_row : List (List ℕ) → List ℕ
first_row [] = []
first_row (r ∷ rs) = r

-- The outer loop: the rows of `dp` from `i` on, for the lines of A from `i` on.
unfoldable pub fill : List Text → List Text → List (List ℕ)
fill [] ys = zeros ys ∷ []
fill (x ∷ xs) ys = let below = fill xs ys in fill_row x ys (first_row below) ∷ below

abbrev pub row_at : List (List ℕ) → ℕ → List ℕ
row_at [] i = []
row_at (r ∷ rs) zero = r
row_at (r ∷ rs) (suc i) = row_at rs i

-- `dp[i][j]`.
abbrev pub entry : List (List ℕ) → ℕ → ℕ → ℕ
entry dp i j = get_or (row_at dp i) j

-- The three `while` loops. The lists are the lines of A from `i` on and those of B from `j` on.
unfoldable pub walk : List (List ℕ) → ℕ → ℕ → List Text → List Text → List Row
walk dp i j [] ys = map add ys
walk dp i j (x ∷ xs) [] = map del (x ∷ xs)
walk dp i j (x ∷ xs) (y ∷ ys) = elim (x == y) [
  | true ↦ same x ∷ walk dp (suc i) (suc j) xs ys
  | false ↦ elim (leb (entry dp i (suc j)) (entry dp (suc i) j)) [
    | true ↦ del x ∷ walk dp (suc i) j xs (y ∷ ys)
    | false ↦ add y ∷ walk dp i (suc j) (x ∷ xs) ys
  ]
]

unfoldable pub diff_lists : List Text → List Text → List Row
diff_lists xs ys = walk (fill xs ys) 0 0 xs ys

unfoldable pub diff_lines : Text → Text → List Row
diff_lines x y = diff_lists (split b'\n' x) (split b'\n' y)

-- `rows.some((r) => r.k !== " ")` of `loadGraphDiff`, by which the panel says that nothing changed.
unfoldable pub any_change : List Row → Bool
any_change [] = false
any_change (same s ∷ rs) = any_change rs
any_change (del s ∷ rs) = true
any_change (add s ∷ rs) = true

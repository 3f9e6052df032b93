-- ===== src/Diff/Lcs.antt =====
-- What a diff is, apart from the table: an edit script between two lists of lines, and the longest
-- common subsequence that bounds how many lines it can keep.
use poc_cronova_windows.Base.{
  List, Text, [], arith, eq_self, if◌then◌else◌, length, max, refl, suc, text_iff, ℕ, ◌*◌, ◌+◌,
  ◌==◌, ◌∷◌, ◌≡◌, ◌≤◌, list_eq, nat_eq,
}
use poc_cronova_windows.Diff.{Row, add, del, same}

-- The lines that a script says stand in the old and in the new text.
abbrev pub old_lines : List Row → List Text
old_lines [] = []
old_lines (same s ∷ rs) = s ∷ old_lines rs
old_lines (del s ∷ rs) = s ∷ old_lines rs
old_lines (add s ∷ rs) = old_lines rs

abbrev pub new_lines : List Row → List Text
new_lines [] = []
new_lines (same s ∷ rs) = s ∷ new_lines rs
new_lines (del s ∷ rs) = new_lines rs
new_lines (add s ∷ rs) = s ∷ new_lines rs

-- How many rows are marked "-" or "+", and how many are kept.
abbrev pub changes : List Row → ℕ
changes [] = 0
changes (same s ∷ rs) = changes rs
changes (del s ∷ rs) = suc (changes rs)
changes (add s ∷ rs) = suc (changes rs)

abbrev pub kept : List Row → ℕ
kept [] = 0
kept (same s ∷ rs) = suc (kept rs)
kept (del s ∷ rs) = kept rs
kept (add s ∷ rs) = kept rs

-- The length of the longest common subsequence.
unfoldable pub lcs : List Text → List Text → ℕ
lcs [] ys = 0
lcs (x ∷ xs) [] = 0
lcs (x ∷ xs) (y ∷ ys) = if x == y then suc (lcs xs ys) else max (lcs xs (y ∷ ys)) (lcs (x ∷ xs) ys)

pub changes-add-kept :
    (rs : List Row) → changes rs + 2 * kept rs ≡ length (old_lines rs) + length (new_lines rs)
changes-add-kept [] = omega arith
changes-add-kept (same s ∷ rs) = omega (arith, changes-add-kept rs)
changes-add-kept (del s ∷ rs) = omega (arith, changes-add-kept rs)
changes-add-kept (add s ∷ rs) = omega (arith, changes-add-kept rs)

lcs-nil : (xs : List Text) → lcs xs [] ≡ 0
unfolding lcs
lcs-nil [] = refl
lcs-nil (x ∷ xs) = refl

lcs_comm : (xs ys : List Text) → lcs xs ys ≡ lcs ys xs
unfolding lcs
lcs_comm [] [] = refl
lcs_comm [] (y ∷ ys) = refl
lcs_comm (x ∷ xs) [] = refl
lcs_comm (x ∷ xs) (y ∷ ys) =
    ground (
      arith,
      text_iff x y,
      text_iff y x,
      lcs_comm xs ys,
      lcs_comm xs (y ∷ ys),
      lcs_comm (x ∷ xs) ys,
    )

-- A further line on the left loses nothing, and one on the right gains at most one.
lcs-cons :
    (xs ys : List Text)
    → ((x : Text) → lcs xs ys ≤ lcs (x ∷ xs) ys) × ((y : Text) → lcs xs (y ∷ ys) ≤ suc (lcs xs ys))
unfolding lcs
lcs-cons [] [] = (λ x. omega arith, λ y. omega arith)
lcs-cons [] (y ∷ ys) = (λ x. omega arith, λ y'. omega arith)
lcs-cons (x ∷ xs) [] =
    (λ x'. omega arith, λ y'. ground (arith, (lcs-cons xs []).1 y', (lcs-cons xs []).0 x))
lcs-cons (x ∷ xs) (y ∷ ys) = (
  λ x'. ground (arith, (lcs-cons (x ∷ xs) ys).1 y),
  λ y'. ground (arith, (lcs-cons xs (y ∷ ys)).0 x, (lcs-cons xs (y ∷ ys)).1 y'),
)

-- No script keeps more lines than the longest common subsequence has.
pub kept-le-lcs : (rs : List Row) → kept rs ≤ lcs (old_lines rs) (new_lines rs)
unfolding lcs
kept-le-lcs [] = omega arith
kept-le-lcs (same s ∷ rs) = rw (eq_self s) (omega (arith, kept-le-lcs rs))
kept-le-lcs (del s ∷ rs) =
    omega (arith, kept-le-lcs rs, (lcs-cons (old_lines rs) (new_lines rs)).0 s)
kept-le-lcs (add s ∷ rs) = omega (
  arith,
  kept-le-lcs rs,
  (lcs-cons (new_lines rs) (old_lines rs)).0 s,
  lcs_comm (old_lines rs) (new_lines rs),
  lcs_comm (old_lines rs) (s ∷ new_lines rs),
)

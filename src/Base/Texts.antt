-- ===== src/Base/Texts.antt =====
-- Texts as lists of UTF-16 code units, with the operations of `String` that the console uses.
use Prim.Native.Nat.{ℕ, zero, suc, ◌+◌, ◌-◌, ◌*◌, ◌/◌, ◌%◌}
use Prim.Native.Char.{code}
use Prim.Native.String.{String}
use mathlib.Core.Logic.{◌↔◌}
use mathlib.Core.Path.{◌≡◌}
use mathlib.Core.Bool.{Bool, true, false, ◌&&◌, ◌||◌}
use mathlib.Core.List.{List, [], ◌∷◌, ◌++◌, reverse}
use mathlib.Core.Option.{Option, none, some}
use poc_cronova_windows.Base.Tests.{ltb, leb, if◌then◌else◌, ◌==◌, nat_eq, list_eq, list_eqb_iff}
use poc_cronova_windows.Base.Lists.{contains}

abbrev pub Text : Type 0
Text = List ℕ

-- A literal of the source. Every literal used lies in the basic plane, where a code point is one
-- code unit.
abbrev pub codes : String → Text
codes String.[] = []
codes (String.◌∷◌ c s) = code c ∷ codes s

-- The white space and line ends that `trim` and `\s` know.
abbrev spaces : List ℕ
spaces =
    32 ∷ 9 ∷ 10 ∷ 11 ∷ 12 ∷ 13 ∷ 0xa0 ∷ 0x1680 ∷ 0x2028 ∷ 0x2029 ∷ 0x202f ∷ 0x205f ∷ 0x3000 ∷ 0xfeff
    ∷ []

unfoldable pub is_space : ℕ → Bool
is_space c = contains spaces c || (leb 0x2000 c && leb c 0x200a)

unfoldable pub is_digit : ℕ → Bool
is_digit c = leb b'0' c && leb c b'9'

unfoldable pub trim_start : Text → Text
trim_start [] = []
trim_start (c ∷ s) = if is_space c then trim_start s else c ∷ s

unfoldable pub trim : Text → Text
trim s = reverse (trim_start (reverse (trim_start s)))

unfoldable pub starts_with : Text → Text → Bool
starts_with s [] = true
starts_with [] (p ∷ ps) = false
starts_with (c ∷ s) (p ∷ ps) = c == p && starts_with s ps

-- What is left of a text behind a prefix that it has.
unfoldable pub strip_prefix : Text → Text → Option Text
strip_prefix [] s = some s
strip_prefix (p ∷ ps) [] = none
strip_prefix (p ∷ ps) (c ∷ s) = if c == p then strip_prefix ps s else none

-- `split` at a single code unit: the pieces, of which there is always one.
unfoldable pub split_go : ℕ → Text → Text → List Text
split_go d [] piece = reverse piece ∷ []
split_go d (c ∷ s) piece =
    if c == d then reverse piece ∷ split_go d s [] else split_go d s (c ∷ piece)

unfoldable pub split : ℕ → Text → List Text
split d s = split_go d s []

-- `join`.
unfoldable pub join : Text → List Text → Text
join sep [] = []
join sep (x ∷ []) = x
join sep (x ∷ y ∷ r) = x ++ (sep ++ join sep (y ∷ r))

unfoldable pub includes : Text → Text → Bool
includes [] p = starts_with [] p
includes (c ∷ s) p = starts_with (c ∷ s) p || includes s p

-- The decimal digits of a number, with fuel for one digit each round.
unfoldable pub digits_go : ℕ → ℕ → Text → Text
digits_go zero n out = out
digits_go (suc f) n out =
    let rest = digits_go f (n / 10) ((b'0' + n % 10) ∷ out) in
    if ltb n 10 then (b'0' + n % 10) ∷ out else rest

-- `String(n)` of a natural number.
unfoldable pub decimal : ℕ → Text
decimal n = digits_go (suc n) n []

-- The number that a text of digits stands for.
unfoldable pub number_go : ℕ → Text → ℕ
number_go acc [] = acc
number_go acc (c ∷ s) = number_go (acc * 10 + (c - b'0')) s

unfoldable pub number_of_digits : Text → ℕ
number_of_digits s = number_go 0 s

-- The longest run of digits at the head, and the rest: the greedy `\d+`.
unfoldable pub span_digits : Text → Text × Text
span_digits [] = ([], [])
span_digits (c ∷ s) = if is_digit c then (c ∷ (span_digits s).0, (span_digits s).1) else ([], c ∷ s)

pub text_iff : (s t : Text) → ((s == t) ≡ true) ↔ (s ≡ t)
text_iff s t = list_eqb_iff s t

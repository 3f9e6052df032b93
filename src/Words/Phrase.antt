-- ===== src/Words/Phrase.antt =====
-- The entries of the dictionaries of the console (internal/web/static/base.js): a text, or a
-- function of what it speaks of, and the tests that those functions make.
use poc_cronova_windows.Base.{
  Bool, Option, Text, [], all, codes, decimal, false, if◌then◌else◌, is_digit, leb, ltb, none,
  number_of_digits, some, ℕ, ◌%◌, ◌&&◌, ◌==◌, ◌||◌, ◌∷◌, list_eq, nat_eq,
}
use Prim.Native.String.{String}

-- What a call of `t` passes on: nothing, a text or a number.
pub data Value : Type 0 where
  undefined : Value
  text : Text → Value
  count : ℕ → Value

-- A value in a template literal.
unfoldable pub shown : Value → Text
shown undefined = codes "undefined"
shown (text s) = s
shown (count n) = decimal n

-- The number that a comparison reads; a text counts as a number where it is made of digits.
unfoldable pub as_number : Value → Option ℕ
as_number undefined = none
as_number (text []) = some 0
as_number (text (c ∷ s)) = if all is_digit (c ∷ s) then some (number_of_digits (c ∷ s)) else none
as_number (count n) = some n

-- `v > k`, which is false of what is no number.
unfoldable pub above : ℕ → Value → Bool
unfolding as_number
above k v = elim (as_number v) [ some n ↦ ltb k n | none ↦ false ]

-- `v === 1`, which is false of every text.
unfoldable pub is_one : Value → Bool
is_one undefined = false
is_one (text s) = false
is_one (count n) = n == 1

-- `n % 10 >= 2 && n % 10 <= 4 && (n % 100 < 10 || n % 100 >= 20)`.
unfoldable pub is_few : ℕ → Bool
is_few n = leb 2 (n % 10) && (leb (n % 10) 4 && (ltb (n % 100) 10 || leb 20 (n % 100)))

-- `v === 1 ? one : <few of v> ? few : many`.
unfoldable pub polish_plural : Value → Text → Text → Text → Text
unfolding is_one as_number is_few
polish_plural v one few many =
    if is_one v
    then one
    else elim (as_number v) [ some n ↦ if is_few n then few else many | none ↦ many ]

pub data Phrase : Type 0 where
  plain : Text → Phrase
  of_one : (Value → Text) → Phrase
  of_two : (Value → Value → Text) → Phrase

pub record Entry : Type 0 where
  pub key : Text
  pub phrase : Phrase

abbrev pub says : String → String → Entry
says k s = record { key = codes k; phrase = plain (codes s) }

abbrev pub fills : String → (Value → Text) → Entry
fills k f = record { key = codes k; phrase = of_one f }

abbrev pub fills_both : String → (Value → Value → Text) → Entry
fills_both k f = record { key = codes k; phrase = of_two f }

-- ===== src/Base/Decimals.antt =====
-- The decimal digits of a number, read back.
use Prim.Native.Nat.{ℕ, zero, suc, ◌+◌, ◌/◌, ◌%◌, ◌<◌, ◌≤◌}
use mathlib.Core.Path.{◌≡◌, refl, ap, ◌∙◌}
use mathlib.Core.Logic.{inl, inr}
use mathlib.Core.Bool.{true, false}
use mathlib.Core.List.{[], ◌∷◌, ◌++◌}
use native.Mathlib.Omega.{arith}
use poc_cronova_windows.Base.Tests.{Bool-cases, ltb, ltb→lt}
use poc_cronova_windows.Base.Lists.{all}
use poc_cronova_windows.Base.Texts.{
  Text, is_digit, digits_go, decimal, number_go, number_of_digits, span_digits,
}

number_go-digits_go :
    (f n : ℕ) (out : Text) → n < f → number_go 0 (digits_go f n out) ≡ number_go n out
unfolding digits_go number_go
number_go-digits_go zero n out h = absurd (omega arith)
number_go-digits_go (suc f) n out h = elim (Bool-cases (ltb n 10)) [
  | inl t ↦ let small = ltb→lt n 10 t in rw t (ap (λ (k : ℕ). number_go k out) (omega arith))
  | inr e ↦
      let big : 10 ≤ n = ground arith in
      rw e (
        number_go-digits_go f (n / 10) ((b'0' + n % 10) ∷ out) (omega arith)
        ∙ ap (λ (k : ℕ). number_go k out) (omega arith))
]

-- Printing a number in decimal loses nothing.
pub number_of_digits-decimal : (n : ℕ) → number_of_digits (decimal n) ≡ n
unfolding number_of_digits decimal number_go
number_of_digits-decimal n = number_go-digits_go (suc n) n [] (omega arith)

digit_lem : (n : ℕ) → is_digit (b'0' + n % 10) ≡ true
unfolding is_digit
digit_lem n = ground arith

all-digits_go :
    (f n : ℕ) (out : Text) → all is_digit out ≡ true → all is_digit (digits_go f n out) ≡ true
unfolding digits_go
all-digits_go zero n out h = h
all-digits_go (suc f) n out h =
    ground (arith, digit_lem n, all-digits_go f (n / 10) ((b'0' + n % 10) ∷ out))

pub all-decimal : (n : ℕ) → all is_digit (decimal n) ≡ true
unfolding decimal
all-decimal n = all-digits_go (suc n) n [] refl

digits_go-cons :
    (f n : ℕ) (d : ℕ) (out : Text) → (c : ℕ) × (r : Text) × (digits_go f n (d ∷ out) ≡ c ∷ r)
unfolding digits_go
digits_go-cons zero n d out = (d, out, refl)
digits_go-cons (suc f) n d out = elim (Bool-cases (ltb n 10)) [
  | inl t ↦ (b'0' + n % 10, d ∷ out, rw t)
  | inr e ↦ let (c, r, p) = digits_go-cons f (n / 10) (b'0' + n % 10) (d ∷ out) in (c, r, rw (e, p))
]

pub decimal-cons : (n : ℕ) → (c : ℕ) × (r : Text) × (decimal n ≡ c ∷ r)
unfolding decimal digits_go
decimal-cons n = elim (Bool-cases (ltb n 10)) [
  | inl t ↦ (b'0' + n % 10, [], rw t)
  | inr e ↦ let (c, r, p) = digits_go-cons n (n / 10) (b'0' + n % 10) [] in (c, r, rw (e, p))
]

-- The greedy run of digits stops where the digits do.
pub span_digits-append :
    (x : Text) (c : ℕ) (s : Text)
    → all is_digit x ≡ true
    → is_digit c ≡ false
    → span_digits (x ++ c ∷ s) ≡ (x, c ∷ s)
unfolding span_digits
span_digits-append [] c s h e = rw e
span_digits-append (d ∷ x) c s h e =
    let hd : is_digit d ≡ true = ground arith in
    let tl : all is_digit x ≡ true = ground arith in rw (hd, span_digits-append x c s tl e)

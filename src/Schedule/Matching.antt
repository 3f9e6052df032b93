-- ===== src/Schedule/Matching.antt =====
-- The regular expression for `@every` at the strings that `computeSchedule` writes.
use poc_cronova_windows.Base.{
  &&_parts, Text, [], all, all-decimal, ap, arith, codes, decimal, decimal-cons, false, is_digit,
  is_space, refl, some, span_digits-append, strip_prefix, true, ℕ, ◌++◌, ◌∙◌, ◌∷◌, ◌≡◌,
}
use poc_cronova_windows.Schedule.{
  match_every, every_text, last_unit, some_digits, bind, nonempty_run, skip_spaces,
}

-- The units that the form offers.
pub data IsUnit : Text → Type 0 where
  seconds : IsUnit (codes "s")
  minutes : IsUnit (codes "m")
  hours : IsUnit (codes "h")

digit_not_space : (d : ℕ) → is_digit d ≡ true → is_space d ≡ false
unfolding is_digit is_space
digit_not_space d h = ground arith

nonempty_run-decimal : (n : ℕ) (s : Text) → nonempty_run (decimal n, s) ≡ some (decimal n, s)
unfolding nonempty_run
nonempty_run-decimal n s = let (d, r, p) = decimal-cons n in rw p

some_digits-decimal :
    (n c : ℕ) (s : Text)
    → is_digit c ≡ false
    → some_digits (decimal n ++ c ∷ s) ≡ some (decimal n, c ∷ s)
unfolding some_digits
some_digits-decimal n c s e =
    ap nonempty_run (span_digits-append (decimal n) c s (all-decimal n) e)
    ∙ nonempty_run-decimal n (c ∷ s)

-- A number begins with no space.
skip_spaces-decimal : (n : ℕ) (s : Text) → skip_spaces (decimal n ++ s) ≡ decimal n ++ s
unfolding skip_spaces
skip_spaces-decimal n s =
    let (d, r, p) = decimal-cons n in
    let digits : all is_digit (d ∷ r) ≡ true = rw p at (all-decimal n) in
    rw p (rw (not_space d r digits))
  where
    not_space : (d : ℕ) (r : Text) → all is_digit (d ∷ r) ≡ true → is_space d ≡ false
    not_space d r h = digit_not_space d (&&_parts (is_digit d) (all is_digit r) h).0

match_every-head :
    (n c : ℕ)
    → is_digit c ≡ false
    → last_unit (c ∷ []) ≡ some (c ∷ [])
    → match_every (every_text n (c ∷ [])) ≡ some (decimal n, c ∷ [])
unfolding match_every every_text strip_prefix is_space bind
match_every-head n c e l = rw (skip_spaces-decimal n (c ∷ []), some_digits-decimal n c [] e, l)

pub match_every-every_text :
    (n : ℕ) (u : Text) → IsUnit u → match_every (every_text n u) ≡ some (decimal n, u)
unfolding is_digit last_unit
match_every-every_text n _ seconds = match_every-head n b's' refl refl
match_every-every_text n _ minutes = match_every-head n b'm' refl refl
match_every-every_text n _ hours = match_every-head n b'h' refl refl

-- ===== src/Schedule/Daily.antt =====
-- Daily schedules: `wzDailyCron` of the wizard (internal/web/static/builder.js) and `nvSchedGloss`
-- (internal/web/static/base.js), which reads such schedules back for the novice screens.
use poc_cronova_windows.Base.{
  &&_parts, Bool, Bool-cases, List, Option, Option-cases, Text, [], arith, codes, decimal,
  digits_go, false, if◌then◌else◌, inl, inr, is_digit, is_space, list_eqb, ltb, ltb→lt, none,
  number_go, number_of_digits, refl, some, suc, text_iff, trim, trim_start, true, zero, ℕ, ◌&&◌,
  ◌++◌, ◌<◌, ◌==◌, ◌∷◌, ◌≡◌, list_eq, nat_eq,
}
use poc_cronova_windows.Schedule.{some_spaces, bind, match_every, skip_spaces}

-- `(\d{1,2})`: the digits and the rest.
unfoldable pub two_digits : Text → Option (Text × Text)
two_digits [] = none
two_digits (c ∷ []) = if is_digit c then some (c ∷ [], []) else none
two_digits (c ∷ d ∷ r) =
    if is_digit c then if is_digit d then some (c ∷ d ∷ [], r) else some (c ∷ [], d ∷ r) else none

-- A single literal character of an expression.
unfoldable pub expect : ℕ → Text → Option Text
expect k [] = none
expect k (c ∷ s) = if c == k then some s else none

unfoldable pub at_end : {A : Type 0} → A → Text → Option A
at_end x [] = some x
at_end x (c ∷ s) = none

-- `\s+\*`.
unfoldable pub spaced_star : Text → Option Text
unfolding bind some_spaces skip_spaces expect
spaced_star s = bind (some_spaces s) (expect b'*')

-- The match of /^(\d{1,2})\s+(\d{1,2})\s+\*\s+\*\s+\*$/: its two groups.
unfoldable pub match_daily : Text → Option (Text × Text)
unfolding bind two_digits some_spaces skip_spaces spaced_star at_end
match_daily s = bind (two_digits s) (λ p. bind (some_spaces p.1) (λ r. bind (two_digits r) (λ q.
    bind (spaced_star q.1)
      (λ a. bind (spaced_star a) (λ b. bind (spaced_star b) (at_end (p.0, q.0)))))))

-- The match of /^(\d{1,2}):(\d{1,2})$/: its two groups.
unfoldable pub match_clock : Text → Option (Text × Text)
unfolding bind two_digits expect at_end
match_clock s =
    bind (two_digits s)
      (λ p. bind (expect b':' p.1) (λ r. bind (two_digits r) (λ q. at_end (p.0, q.0) q.1)))

unfoldable pub daily_text : Text → Text → Text
daily_text m h =
    decimal (number_of_digits m) ++ (codes " " ++ (decimal (number_of_digits h) ++ codes " * * *"))

-- `wzDailyCron`; what is no time of day is taken as 2:0.
unfoldable pub wz_daily_cron : Text → Text
unfolding match_clock daily_text
wz_daily_cron hm = elim (match_clock hm) [
  | some p ↦ daily_text p.1 p.0
  | none ↦ daily_text (codes "0") (codes "2")
]

-- `padStart(2, "0")`.
unfoldable pub pad_start2 : Text → Text
pad_start2 [] = codes "00"
pad_start2 (c ∷ []) = b'0' ∷ c ∷ []
pad_start2 (c ∷ d ∷ r) = c ∷ d ∷ r

unfoldable pub clock_text : Text → Text → Text
unfolding pad_start2
clock_text h m = pad_start2 h ++ (codes ":" ++ pad_start2 m)

module _ (t : Text → List Text → Text) where
  unfoldable pub gloss_of : Text → Text
  gloss_of s = elim (match_daily s) [
    | some p ↦ t (codes "nv_gloss_daily") (clock_text p.1 p.0 ∷ [])
    | none ↦ elim (match_every s) [
      | some q ↦ t (codes "nv_gloss_every") (q.0 ∷ t (codes "unit_" ++ q.1) [] ∷ [])
      | none ↦ s
    ]
  ]

  unfoldable pub gloss_trimmed : Text → Text
  unfolding gloss_of
  gloss_trimmed [] = t (codes "nv_gloss_manual") []
  gloss_trimmed (c ∷ s) = gloss_of (c ∷ s)

  -- `nvSchedGloss`.
  unfoldable pub nv_sched_gloss : Text → Text
  unfolding gloss_trimmed
  nv_sched_gloss schedule = gloss_trimmed (trim schedule)

-- Whether the groups of a match show a given time.
shows : Text → Option (Text × Text) → Bool
shows hm (some p) = clock_text p.1 p.0 == hm
shows hm none = false

clock_kept : Text → Bool
unfolding shows
clock_kept hm = shows hm (match_daily (trim (wz_daily_cron hm)))

-- A test of each number below a bound, from the bound down.
holds_below : (ℕ → Bool) → ℕ → Bool
holds_below test zero = true
holds_below test (suc k) = holds_below test k && test k

holds_below_sound :
    (test : ℕ → Bool) (k : ℕ) → holds_below test k ≡ true → (i : ℕ) → i < k → test i ≡ true
unfolding holds_below
holds_below_sound test zero hs i below = absurd (omega arith)
holds_below_sound test (suc k) hs i below =
    let (before, last) = &&_parts (holds_below test k) (test k) hs in
    elim (Bool-cases (ltb i k)) [
      | inl t ↦ holds_below_sound test k before i (ltb→lt i k t)
      | inr f ↦ let e : i ≡ k = ground arith in rw e last
    ]

abbrev pub time_of_day : ℕ → ℕ → Text
time_of_day h m = clock_text (decimal h) (decimal m)

clock_table : holds_below (λ h. holds_below (λ m. clock_kept (time_of_day h m)) 60) 24 ≡ true
unfolding holds_below clock_kept wz_daily_cron match_daily trim trim_start is_space is_digit
    clock_text decimal digits_go number_of_digits number_go expect list_eqb
clock_table = refl

gloss_of-shows :
    (t : Text → List Text → Text) (hm s : Text)
    → shows hm (match_daily s) ≡ true
    → gloss_trimmed t s ≡ t (codes "nv_gloss_daily") (hm ∷ [])
unfolding gloss_trimmed shows
gloss_of-shows t hm [] h = unfold match_daily in cc
gloss_of-shows t hm (c ∷ s) h = elim (Option-cases (match_daily (c ∷ s))) [
  | inl n ↦ absurd (none_shows (rw n at h))
  | inr (p, q) ↦
      let same : clock_text p.1 p.0 ≡ hm = (text_iff (clock_text p.1 p.0) hm).0 (rw q at h) in
      rw (q, gloss_of) (rw same)
]
  where
    none_shows : shows hm none ≡ true → ⊥
    none_shows e = cc

-- For every time of day the wizard's cron expression is glossed by that same time, in whatever
-- language.
pub gloss-wz_daily_cron :
    (t : Text → List Text → Text) (h m : ℕ)
    → h < 24
    → m < 60
    → nv_sched_gloss t (wz_daily_cron (time_of_day h m))
      ≡ t (codes "nv_gloss_daily") (time_of_day h m ∷ [])
unfolding nv_sched_gloss clock_kept
gloss-wz_daily_cron t h m p q = gloss_of-shows t (time_of_day h m) _ (
    holds_below_sound (λ k. clock_kept (time_of_day h k)) 60
      (holds_below_sound (λ k. holds_below (λ l. clock_kept (time_of_day k l)) 60) 24 clock_table h
        p)
      m q)

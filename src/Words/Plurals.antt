-- ===== src/Words/Plurals.antt =====
-- The Polish plural forms that the dictionary of the console (internal/web/static/base.js) chooses.
use poc_cronova_windows.Base.{arith, true, ℕ, ◌%◌, ◌/◌, ◌↔◌, ◌≡◌, ◌≢◌, ◌≤◌}
use poc_cronova_windows.Words.Phrase.{is_few}

-- The test for the "few" form accepts the numbers whose last digit is 2, 3 or 4 and whose last but
-- one digit is not 1.
pub is_few_iff : (n : ℕ) → (is_few n ≡ true) ↔ ((2 ≤ n % 10) × ((n % 10 ≤ 4) × (n / 10 % 10 ≢ 1)))
unfolding is_few
is_few_iff n = ground arith

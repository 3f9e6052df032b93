-- ===== src/Samples/Labels.antt =====
-- Tests of the texts of the console (internal/web/static/base.js), and the theorems on them applied.
use poc_cronova_windows.Base.{
  [], codes, contains, decimal, digits_go, if◌then◌else◌, is_digit, list_eqb, none, refl, some,
  span_digits, strip_prefix, true, ◌%◌, ◌++◌, ◌/◌, ◌==◌, ◌↔◌, ◌∷◌, ◌≡◌, ◌≢◌, ◌≤◌, list_eq, nat_eq,
}
use poc_cronova_windows.Words.Phrase.{count, is_few, as_number, is_one, polish_plural, shown}
use poc_cronova_windows.Words.Polish.{polish}
use poc_cronova_windows.Words.English.{english}
use poc_cronova_windows.Words.Labels.{
  t, in_english, in_polish, argument, dict, entry_of, match_minutes, next_label, or_else, spoken,
}
use poc_cronova_windows.Words.Complete.{dict-same_arity, t-own_language, arity_of, gaps, own}
use poc_cronova_windows.Words.Plurals.{is_few_iff}
use poc_cronova_windows.Words.Errors.{refusal_message_cases, refusal_message}

t-plural : t in_polish (codes "bulk_selected") (count 3 ∷ []) ≡ codes "Wybrano 3 przepływy"
unfolding t polish entry_of polish_plural is_one is_few as_number spoken shown list_eqb or_else
    argument dict decimal digits_go
t-plural = refl

next_label-minutes : next_label in_english (codes "in 12m") ≡ codes "in 12m"
unfolding next_label t english entry_of spoken shown list_eqb or_else argument dict match_minutes
    strip_prefix span_digits is_digit
next_label-minutes = refl

dict-same_arity_example :
    arity_of (dict in_polish) (codes "bf_done") ≡ arity_of (dict in_english) (codes "bf_done")
unfolding list_eqb
dict-same_arity_example = dict-same_arity in_polish in_english (codes "bf_done") refl

t-own_language_example :
    t in_english (codes "tpl_etl_m") []
    ≡ own
        (if contains gaps (codes "tpl_etl_m") then in_polish else in_english)
        (codes "tpl_etl_m")
        []
t-own_language_example = t-own_language in_english (codes "tpl_etl_m") []

is_few_iff_example : (is_few 22 ≡ true) ↔ ((2 ≤ 22 % 10) × ((22 % 10 ≤ 4) × (22 / 10 % 10 ≢ 1)))
is_few_iff_example = is_few_iff 22

refusal_message_cases_example : refusal_message in_english (codes "queue_full") (codes "full") ≡ (
    if codes "queue_full" == []
    then codes "full"
    else elim (entry_of (dict in_english) (codes "err_code_" ++ codes "queue_full")) [
      | some p ↦ spoken p []
      | none ↦ codes "full"
    ])
refusal_message_cases_example = refusal_message_cases in_english (codes "queue_full") (codes "full")

-- ===== src/Schedule.antt =====
-- The schedule of a workflow in the editor (internal/web/static/builder.js): the string that the
-- server keeps, the state of the form, and the plain-language glosses.
pub mod Matching
pub mod RoundTrip
pub mod Daily
use poc_cronova_windows.Base.{
  List, Option, Text, [], codes, decimal, if◌then◌else◌, is_space, ltb, none, number_of_digits,
  some, span_digits, strip_prefix, trim, ℕ, ◌++◌, ◌==◌, ◌||◌, ◌∷◌, list_eq, nat_eq,
}

pub data Mode : Type 0 where
  manual every cron : Mode

-- The schedule fields of `dag`. `every_n` is a count: the form gives a number, and every number that
-- is not positive acts as 0.
pub record Sched : Type 0 where
  pub schedule : Text
  pub mode : Mode
  pub every_n : ℕ
  pub unit : Text
  pub cron_text : Text

unfoldable pub bind {ℓ κ} : {A : Type ℓ} {B : Type κ} → Option A → (A → Option B) → Option B
bind none f = none
bind (some x) f = f x

-- `\s*` from here on.
unfoldable pub skip_spaces : Text → Text
skip_spaces [] = []
skip_spaces (c ∷ s) = if is_space c then skip_spaces s else c ∷ s

-- `\s+`.
unfoldable pub some_spaces : Text → Option Text
some_spaces [] = none
some_spaces (c ∷ s) = if is_space c then some (skip_spaces s) else none

-- `(\d+)`, with the digits and the rest.
unfoldable pub nonempty_run : Text × Text → Option (Text × Text)
nonempty_run ([], r) = none
nonempty_run (c ∷ ds, r) = some (c ∷ ds, r)

unfoldable pub some_digits : Text → Option (Text × Text)
unfolding nonempty_run
some_digits s = nonempty_run (span_digits s)

-- `(s|m|h)$`.
unfoldable pub last_unit : Text → Option Text
last_unit [] = none
last_unit (c ∷ s) =
    if (c == b's') || ((c == b'm') || (c == b'h'))
    then elim s [ [] ↦ some (c ∷ []) | d ∷ r ↦ none ]
    else none

-- The match of /^@every\s+(\d+)(s|m|h)$/: its two groups.
unfoldable pub match_every : Text → Option (Text × Text)
unfolding bind some_spaces skip_spaces some_digits last_unit
match_every s = bind (strip_prefix (codes "@every") s) (λ r.
    bind (some_spaces r)
      (λ r'. bind (some_digits r') (λ p. bind (last_unit p.1) (λ u. some (p.0, u)))))

-- `parseScheduleState`.
unfoldable pub parse_schedule_state : Text → Sched
parse_schedule_state [] = record {
  schedule = [];
  mode = manual;
  every_n = 5;
  unit = codes "m";
  cron_text = [];
}
parse_schedule_state (c ∷ s) = elim (match_every (c ∷ s)) [
  | some p ↦ record {
    schedule = c ∷ s;
    mode = every;
    every_n = number_of_digits p.0;
    unit = p.1;
    cron_text = [];
  }
  | none ↦ record {
    schedule = c ∷ s;
    mode = cron;
    every_n = 5;
    unit = codes "m";
    cron_text = c ∷ s;
  }
]

-- `@every ${n}${unit}`.
unfoldable pub every_text : ℕ → Text → Text
every_text n u = codes "@every " ++ (decimal n ++ u)

unfoldable pub schedule_text : Mode → ℕ → Text → Text → Text
schedule_text manual n u c = []
schedule_text every n u c = if ltb 0 n then every_text n u else []
schedule_text cron n u c = trim c

-- `computeSchedule`.
unfoldable pub compute_schedule : Sched → Sched
unfolding schedule_text
compute_schedule d = record d { schedule = schedule_text d.mode d.every_n d.unit d.cron_text }

-- `CRON_PRESETS`.
unfoldable pub cron_presets : List (Text × Text)
cron_presets =
    (codes "cp_min", codes "* * * * *")
    ∷ (codes "cp_hour", codes "0 * * * *")
    ∷ (codes "cp_day", codes "0 0 * * *")
    ∷ (codes "cp_2am", codes "0 2 * * *")
    ∷ (codes "cp_mon", codes "0 0 * * 1")
    ∷ []

-- `CRON_PRESETS.find((x) => x.v === v)`, and its key.
unfoldable pub preset_key : List (Text × Text) → Text → Option Text
preset_key [] v = none
preset_key ((k, w) ∷ ps) v = if w == v then some k else preset_key ps v

-- The translation function `t` is an argument of what shows text.
module _ (t : Text → List Text → Text) where
  -- `schedSentence`, in the order of its tests.
  unfoldable pub sched_sentence : Sched → Text
  sched_sentence d = elim d.mode [
    | manual ↦ []
    | every ↦
        if ltb 0 d.every_n
        then t (codes "sp_every") (decimal d.every_n ∷ t (codes "unit_" ++ d.unit) [] ∷ [])
        else []
    | cron ↦ elim (preset_key cron_presets (trim d.cron_text)) [ some k ↦ t k [] | none ↦ [] ]
  ]

  -- `schedSummary` (internal/web/static/views.js).
  unfoldable pub sched_summary : Sched → Text
  unfolding sched_sentence
  sched_summary d = elim d.mode [
    | manual ↦ t (codes "sub_manual") []
    | every ↦ summary_of d
    | cron ↦ summary_of d
  ]
    where
      summary_of : Sched → Text
      summary_of d = elim d.schedule [
        | [] ↦ t (codes "sub_manual") []
        | c ∷ s ↦ elim (sched_sentence d) [
          | [] ↦ c ∷ s
          | e ∷ es ↦ (e ∷ es) ++ (codes " · " ++ (c ∷ s))
        ]
      ]

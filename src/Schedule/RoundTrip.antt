-- ===== src/Schedule/RoundTrip.antt =====
-- Saving and loading the schedule form (internal/web/static/builder.js): `computeSchedule` and
-- `parseScheduleState`.
use poc_cronova_windows.Base.{
  Text, [], codes, decimal, lt→ltb, none, number_of_digits, number_of_digits-decimal, refl, some,
  trim, ℕ, ◌++◌, ◌<◌, ◌∷◌, ◌≡◌, ◌≢◌,
}
use poc_cronova_windows.Schedule.{
  compute_schedule, Sched, cron, every, every_text, manual, match_every, parse_schedule_state,
  schedule_text,
}
use poc_cronova_windows.Schedule.Matching.{IsUnit, match_every-every_text}

every_text-cons : (n : ℕ) (u : Text) → (c : ℕ) × (s : Text) × (every_text n u ≡ c ∷ s)
unfolding every_text
every_text-cons n u = (b'@', codes "every " ++ (decimal n ++ u), refl)

module _ (n : ℕ) (u : Text) where
  abbrev pub interval : Sched
  interval = record {
    schedule = every_text n u;
    mode = every;
    every_n = n;
    unit = u;
    cron_text = [];
  }

  parse-every_text : IsUnit u → parse_schedule_state (every_text n u) ≡ interval
  unfolding parse_schedule_state
  parse-every_text h =
      let (c, s, e) = every_text-cons n u in
      let m : match_every (c ∷ s) ≡ some (decimal n, u) = rw e at (match_every-every_text n u h) in
      rw e (rw (m, parse_schedule_state) (rw number_of_digits-decimal))

-- The form after loading no schedule, and after loading one that is no interval.
abbrev pub no_schedule : Sched
no_schedule = record { schedule = []; mode = manual; every_n = 5; unit = codes "m"; cron_text = [] }

abbrev pub cron_form : Text → Sched
cron_form s = record { schedule = s; mode = cron; every_n = 5; unit = codes "m"; cron_text = s }

-- The form after loading a schedule that `@every` matches, with these digits and this unit.
abbrev pub interval_form : Text → Text → Text → Sched
interval_form s ds u = record {
  schedule = s;
  mode = every;
  every_n = number_of_digits ds;
  unit = u;
  cron_text = [];
}

parse-interval :
    (s ds u : Text)
    → s ≢ []
    → match_every s ≡ some (ds, u)
    → parse_schedule_state s ≡ interval_form s ds u
unfolding parse_schedule_state
parse-interval [] ds u h m = absurd (h refl)
parse-interval (c ∷ s) ds u h m = rw (m, parse_schedule_state)

parse-cron : (s : Text) → s ≢ [] → match_every s ≡ none → parse_schedule_state s ≡ cron_form s
unfolding parse_schedule_state
parse-cron [] h m = absurd (h refl)
parse-cron (c ∷ s) h m = rw (m, parse_schedule_state)

-- `Reloads d e`: the form `d` is saved, and the form `e` is what a reload shows.
pub data Reloads (d : Sched) : Sched → Type 0 where
  by_hand : d.mode ≡ manual → Reloads d no_schedule
  no_count : d.mode ≡ every → d.every_n ≡ 0 → Reloads d no_schedule
  each : d.mode ≡ every → 0 < d.every_n → IsUnit d.unit → Reloads d (interval d.every_n d.unit)
  no_cron : d.mode ≡ cron → trim d.cron_text ≡ [] → Reloads d no_schedule
  crontab :
      d.mode ≡ cron
      → trim d.cron_text ≢ []
      → match_every (trim d.cron_text) ≡ none
      → Reloads d (cron_form (trim d.cron_text))
  cron_interval :
      {ds u : Text}
      → d.mode ≡ cron
      → trim d.cron_text ≢ []
      → match_every (trim d.cron_text) ≡ some (ds, u)
      → Reloads d (interval_form (trim d.cron_text) ds u)

-- A saved form is shown by a reload as `Reloads` says: no schedule as no schedule; an interval with its
-- count and one of the units that the form offers; a cron expression without the spaces around it,
-- unless it is an interval such as "@every 30s", which is shown as that interval and not in its mode;
-- and an interval with no positive count and a blank cron expression as no schedule.
pub parse-compute :
    {d e : Sched} → Reloads d e → parse_schedule_state (compute_schedule d).schedule ≡ e
unfolding compute_schedule parse_schedule_state
parse-compute {d} (by_hand h) = rw (h, schedule_text)
parse-compute {d} (no_count h z) = rw (h, z, schedule_text)
parse-compute {d} (each h p u) =
    rw (h, schedule_text) (rw (lt→ltb 0 d.every_n p) (parse-every_text d.every_n d.unit u))
parse-compute {d} (no_cron h z) = rw (h, schedule_text) (rw z)
parse-compute {d} (crontab h f m) = rw (h, schedule_text) (parse-cron (trim d.cron_text) f m)
parse-compute {d} (cron_interval {ds} {u} h f m) =
    rw (h, schedule_text) (parse-interval (trim d.cron_text) ds u f m)

-- A schedule as the form writes it: none, an interval, or a trimmed text that is no interval.
pub data IsCanonical : Text → Type 0 where
  nothing : IsCanonical []
  interval_text : {n : ℕ} {u : Text} → 0 < n → IsUnit u → IsCanonical (every_text n u)
  cron_expression : {s : Text} → s ≢ [] → trim s ≡ s → match_every s ≡ none → IsCanonical s

-- Loading such a schedule and saving it with no edit does not change it.
pub compute-parse :
    {s : Text} → IsCanonical s → (compute_schedule (parse_schedule_state s)).schedule ≡ s
unfolding compute_schedule
compute-parse nothing = unfold parse_schedule_state in refl
compute-parse (interval_text {n} {u} p h) = rw (parse-every_text n u h) (rw (lt→ltb 0 n p))
compute-parse (cron_expression {s} f t m) = rw (parse-cron s f m) t

-- ===== src/Samples/Schedules.antt =====
-- Schedules at small inputs.
use poc_cronova_windows.Base.{List, Text, [], arith, codes, decimal, digits_go, refl, ◌≡◌}
use poc_cronova_windows.Schedule.{parse_schedule_state, Sched, compute_schedule, every, every_text}
use poc_cronova_windows.Schedule.Matching.{minutes, seconds}
use poc_cronova_windows.Schedule.RoundTrip.{
  parse-compute, compute-parse, each, interval, interval_text,
}
use poc_cronova_windows.Schedule.Daily.{
  nv_sched_gloss, gloss-wz_daily_cron, time_of_day, wz_daily_cron,
}

abbrev half_hour : Sched
half_hour = record {
  schedule = [];
  mode = every;
  every_n = 30;
  unit = codes "m";
  cron_text = codes "x";
}

compute-half_hour : (compute_schedule half_hour).schedule ≡ codes "@every 30m"
unfolding compute_schedule every_text decimal digits_go
compute-half_hour = refl

parse-compute_example :
    parse_schedule_state (compute_schedule half_hour).schedule ≡ interval 30 (codes "m")
parse-compute_example = parse-compute (each refl (omega arith) minutes)

compute-parse_example :
    (compute_schedule (parse_schedule_state (every_text 15 (codes "s")))).schedule
    ≡ every_text 15 (codes "s")
compute-parse_example = compute-parse (interval_text (omega arith) seconds)

abbrev key_only : Text → List Text → Text
key_only k args = k

gloss-wz_daily_cron_example :
    nv_sched_gloss key_only (wz_daily_cron (time_of_day 8 5)) ≡ codes "nv_gloss_daily"
gloss-wz_daily_cron_example = gloss-wz_daily_cron key_only 8 5 (omega arith) (omega arith)

-- ===== src/Flows/Spark.antt =====
-- The bars of a workflow's latest runs and the labels of durations (internal/web/static/base.js):
-- `sparkline`, `fmtMs` and `secsLabel`. A quotient that the source rounds is rounded exactly here.
pub mod Heights
use poc_cronova_windows.Base.{
  Bool, List, Option, Text, [], codes, decimal, drop, if◌then◌else◌, length, ltb, map, max,
  replicate, suc, zero, ℕ, ◌%◌, ◌&&◌, ◌*◌, ◌++◌, ◌+◌, ◌-◌, ◌/◌, ◌==◌, ◌||◌, ◌∷◌, list_eq, nat_eq,
}
use poc_cronova_windows.Editor.Validate.{is_empty}
use poc_cronova_windows.Flows.{Point}

-- `Math.round(a / b)` for a positive `b`.
abbrev pub rounded : ℕ → ℕ → ℕ
rounded a b = (2 * a + b) / (2 * b)

-- The last fourteen points, with empty ones before them.
abbrev pub no_run : Point
no_run = record { state = codes "noruns"; ms = 0 }

abbrev pub last_points : List Point → List Point
last_points ps = drop (length ps - 14) ps

unfoldable pub padded : List Point → List Point
padded ps = replicate (14 - length (last_points ps)) no_run ++ last_points ps

-- The longest duration, and at least 1.
unfoldable pub longest : List Point → ℕ
longest [] = 1
longest (p ∷ ps) = max p.ms (longest ps)

unfoldable pub max_ms : ℕ → List Point → ℕ
unfolding longest
max_ms scale ps = max scale (longest ps)

-- The height of a bar.
unfoldable pub bar_height : ℕ → Point → ℕ
bar_height max_ms p =
    if is_empty p.state || (p.state == codes "noruns" || p.state == codes "skipped")
    then 6
    else if ltb 0 p.ms
    then 6 + rounded (p.ms * 16) max_ms
    else 15

-- `sparkline`.
unfoldable pub sparkline : List Point → ℕ → List ℕ
unfolding padded max_ms bar_height
sparkline ps scale = map (bar_height (max_ms scale (padded ps))) (padded ps)

-- `fmtMs`.
unfoldable pub fmt_ms : ℕ → Text
fmt_ms zero = codes "—"
fmt_ms (suc n) =
    let ms = suc n in
    let s = rounded ms 1000 in
    if ltb ms 1000
    then decimal ms ++ codes "ms"
    else if ltb s 60
    then decimal s ++ codes "s"
    else decimal (s / 60) ++ (codes "m" ++ (decimal (s % 60) ++ codes "s"))

-- A part that is left out when it is zero.
abbrev pub part : ℕ → Text → Text
part zero unit = []
part (suc n) unit = decimal (suc n) ++ unit

-- `secsLabel`, where `off` is the text for no threshold.
unfoldable pub secs_label : Text → ℕ → Text
secs_label off zero = off
secs_label off (suc n) =
    let sec = suc n in
    if ltb sec 60
    then decimal sec ++ codes "s"
    else if ltb sec 3600
    then decimal (sec / 60) ++ (codes "m" ++ part (sec % 60) (codes "s"))
    else decimal (sec / 3600) ++ (codes "h" ++ part ((sec % 3600) / 60) (codes "m"))

-- ===== src/Flows/Health.antt =====
-- The health bar of the experts, the banner of the novices and the steps for getting started
-- (internal/web/static/views.js): `healthBarHtml`, `renderDagsNovice` and `gettingStartedHtml`.
use poc_cronova_windows.Base.{
  Bool, List, Option, Text, [], any, codes, false, filter, find, if◌then◌else◌, length, ltb, none,
  not, some, true, ℕ, ◌&&◌, ◌-◌, ◌==◌, ◌||◌, ◌∷◌, list_eq, nat_eq,
}
use poc_cronova_windows.Editor.Validate.{is_empty}
use poc_cronova_windows.Flows.{Activity, Overview, Point, Row, is_failed}

-- The workflows that fail, in `healthBarHtml`.
unfoldable pub failing : Overview → List Row
failing o = filter (λ (d : Row). is_failed d.latest_state) o.dags

-- What the bar says besides the first failing workflow.
pub data Others : Type 0 where
  more_fail : ℕ → Others
  rest_ok : ℕ → Others
  alone : Others

-- The bar: all is well, with the newest run that has a time, or a workflow fails, with the failed run
-- that its link opens.
pub data Bar : Type 0 where
  all_ok : Option Activity → Bar
  bad : Row → Option Activity → Others → Bar

unfoldable pub failed_run : Text → List Activity → Option Activity
unfolding is_failed
failed_run k as' = find (λ (a : Activity). a.dag_id == k && is_failed a.state) as'

unfoldable pub others : ℕ → ℕ → Others
others n total =
    if ltb 1 n then more_fail (n - 1) else if ltb n total then rest_ok (total - n) else alone

-- `healthBarHtml`.
unfoldable pub health_bar : Overview → Bar
unfolding failing failed_run others
health_bar o = elim (failing o) [
  | [] ↦
      all_ok
        (find (λ (a : Activity). not (is_empty a.started) || not (is_empty a.finished)) o.activity)
  | f ∷ fs ↦ bad f (failed_run f.dag_id o.activity) (others (length (failing o)) (length o.dags))
]

-- Where the link of the bar goes: to the failed run, or to the workflow's page.
pub data Target : Type 0 where
  run_page : Text → Target
  dag_page : Text → Target

unfoldable pub go_to : Row → Option Activity → Target
go_to f none = dag_page f.dag_id
go_to f (some a) = run_page a.run_id

-- The banner of the novices: how many fail and the first of them, or how many there are.
pub data Banner : Type 0 where
  well : ℕ → Banner
  needs_help : ℕ → Text → Banner

-- The workflows that fail, in `renderDagsNovice`, which filters the list on its own.
unfoldable pub failing_novice : List Row → List Row
unfolding is_failed
failing_novice dags = filter (λ (d : Row). is_failed d.latest_state) dags

unfoldable pub banner : Overview → Banner
unfolding failing_novice
banner o = elim (failing_novice o.dags) [
  | [] ↦ well (length o.dags)
  | f ∷ fs ↦ needs_help (length (failing_novice o.dags)) f.dag_id
]

-- The latest run of a workflow, as the novices' rows show it: the first entry of the feed.
unfoldable pub last_run : Text → List Activity → Option Activity
last_run k as' = find (λ (a : Activity). a.dag_id == k) as'

-- `gettingStartedHtml`: the three steps that are done, unless the box is hidden for good.
pub record Started : Type 0 where
  pub has_dag : Bool
  pub has_run : Bool
  pub has_ok : Bool

unfoldable pub steps_done : List Row → Started
steps_done dags = record {
  has_dag = elim dags [ [] ↦ false | d ∷ ds ↦ true ];
  has_run = any (λ (d : Row). elim d.sparkline [ [] ↦ false | p ∷ ps ↦ true ]) dags;
  has_ok =
      any
        (λ (d : Row).
          any (λ (p : Point). p.state == codes "success") d.sparkline
          || d.latest_state == codes "success")
        dags;
}

-- The box that is shown, and whether "cnv_gs_done" is stored then.
unfoldable pub getting_started : Bool → List Row → Option Started × Bool
unfolding steps_done
getting_started done dags =
    let s = steps_done dags in
    if done || (s.has_dag && (s.has_run && s.has_ok)) then (none, true) else (some s, false)

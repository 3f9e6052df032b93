-- ===== src/Flows.antt =====
-- The list of workflows (internal/web/static/views.js): what /api/overview answers, the rows that are
-- shown, the health bar, and the selection for bulk operations.
pub mod Bulk
pub mod Selected
pub mod Health
pub mod Judged
pub mod Spark
use poc_cronova_windows.Base.{
  Bool, List, Option, Text, [], any, codes, filter, find, if◌then◌else◌, includes, none, not, some,
  true, ℕ, ◌&&◌, ◌==◌, ◌||◌, ◌∷◌, list_eq, nat_eq,
}
use poc_cronova_windows.Editor.Validate.{is_empty}

-- A point of a sparkline: the state of a run and its duration.
pub record Point : Type 0 where
  pub state : Text
  pub ms : ℕ

pub record Row : Type 0 where
  pub dag_id : Text
  pub latest_state : Text
  pub paused : Bool
  pub sparkline : List Point

-- An entry of the activity feed, newest first.
pub record Activity : Type 0 where
  pub dag_id : Text
  pub run_id : Text
  pub state : Text
  pub started : Text
  pub finished : Text

pub record Overview : Type 0 where
  pub total_dags : ℕ
  pub dags : List Row
  pub activity : List Activity

pub data Filter : Type 0 where
  everything running failed paused : Filter

-- A run that failed, or ran out of time.
unfoldable pub is_failed : Text → Bool
is_failed s = s == codes "failed" || s == codes "timed_out"

unfoldable pub in_filter : Filter → Row → Bool
unfolding is_failed
in_filter everything d = true
in_filter running d = d.latest_state == codes "running"
in_filter failed d = is_failed d.latest_state
in_filter paused d = d.paused

-- The rows that `renderDags` shows for a query, which is in lower case.
unfoldable pub shown_rows : (Text → Text) → Text → Filter → List Row → List Row
unfolding in_filter
shown_rows to_lower query f =
    filter (λ (d : Row). (is_empty query || includes (to_lower d.dag_id) query) && in_filter f d)

-- ===== src/Shell/Chrome.antt =====
-- The labels around the pages (internal/web/static/base.js): `setNav`, `syncModeChrome`, `nvTaskLabel`
-- and `relTime`, as keys of the texts.
pub mod Known
use poc_cronova_windows.Base.{
  Bool, List, Option, Text, [], codes, decimal, false, if◌then◌else◌, ltb, none, not, some, true, ℕ,
  ◌++◌, ◌/◌, ◌==◌, ◌∷◌, list_eq, nat_eq,
}
use poc_cronova_windows.Model.{inherited}
use poc_cronova_windows.Shell.Access.{UiMode, expert, novice}

-- A label: the text for a key, a text as it stands, or what every object inherits under a name, which
-- is no text.
pub data Label : Type 0 where
  key : Text → Label
  plain : Text → Label
  inherited_value : Label

abbrev pub by_mode : UiMode → Text → Text → Label
by_mode novice nov ex = key nov
by_mode expert nov ex = key ex

-- The label of `setNav` in the top bar.
unfoldable pub nav_label : UiMode → Text → Option Text → Label
nav_label m nav (some crumb) = plain crumb
nav_label m nav none =
    if nav == codes "pools"
    then plain (codes "Pools")
    else if nav == codes "graph"
    then key (codes "graph_title")
    else if nav == codes "resources"
    then by_mode m (codes "nv_shared") (codes "nav_resources")
    else if nav == codes "ai-providers"
    then by_mode m (codes "nv_ai_providers") (codes "nav_ai_providers")
    else if nav == codes "aiwiki"
    then by_mode m (codes "nv_aiwiki") (codes "nav_aiwiki")
    else if nav == codes "audit"
    then key (codes "nav_audit")
    else if nav == codes "workers"
    then key (codes "nav_workers")
    else if nav == codes "api"
    then key (codes "nav_api")
    else by_mode m (codes "nv_myflows") (codes "nav_dags")

-- The button for a new workflow, in `syncModeChrome`.
unfoldable pub new_dag_label : UiMode → Label
new_dag_label m = by_mode m (codes "nv_newflow") (codes "newdag")

-- `TASK_LABELS` and `nvTaskLabel`. `TASK_LABELS` is a plain object: under the name of an inherited
-- property it has a value too.
unfoldable pub task_labels : List (Text × Text)
task_labels =
    (codes "extract", codes "nv_step_extract")
    ∷ (codes "transform", codes "nv_step_transform")
    ∷ (codes "load", codes "nv_step_load")
    ∷ (codes "fetch", codes "nv_step_fetch")
    ∷ (codes "render", codes "nv_step_render")
    ∷ (codes "step_1", codes "nv_step_1")
    ∷ []

unfoldable pub label_of : List (Text × Text) → Text → Label
label_of [] id = if inherited id then inherited_value else plain id
label_of ((j, k) ∷ r) id = if j == id then key k else label_of r id

unfoldable pub nv_task_label : Text → Label
unfolding task_labels label_of
nv_task_label id = label_of task_labels id

-- `relTime` of a date that many whole seconds ago: the key and its argument, or the day itself.
pub data Ago : Type 0 where
  now : Ago
  ago : Text → Ago
  on_day : Ago

unfoldable pub rel_time : ℕ → Ago
rel_time s =
    if ltb s 5
    then now
    else if ltb s 60
    then ago (decimal s ++ codes "s")
    else if ltb s 3600
    then ago (decimal (s / 60) ++ codes "m")
    else if ltb s 86400
    then ago (decimal (s / 3600) ++ codes "h")
    else on_day

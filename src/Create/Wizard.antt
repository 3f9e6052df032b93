-- ===== src/Create/Wizard.antt =====
-- The wizard of the novices (internal/web/static/builder.js): its templates, its three screens, and
-- the definition that it sends.
pub mod Steps
pub mod Sent
use poc_cronova_windows.Base.{
  Bool, List, Option, Text, [], any, codes, contains, decimal, false, if◌then◌else◌, includes, map,
  max, none, not, some, suc, trim, true, zero, ℕ, ◌&&◌, ◌++◌, ◌-◌, ◌==◌, ◌∷◌, list_eq, nat_eq,
}
use poc_cronova_windows.Model.{Entry, at_least_zero, entry_value}
use poc_cronova_windows.Editor.Validate.{id_ok, is_empty}
use poc_cronova_windows.Schedule.{every_text}
use poc_cronova_windows.Schedule.Daily.{wz_daily_cron}
use poc_cronova_windows.Create.{BuildSpec, BuildTask, build_task}

pub data Template : Type 0 where
  etl report blank : Template

-- A step of a template.
pub record TemplateStep : Type 0 where
  pub id : Text
  pub cmd : Text
  pub deps : List Text

abbrev pub template_step : Text → Text → List Text → TemplateStep
template_step id cmd deps = record { id = id; cmd = cmd; deps = deps }

-- `NV_TEMPLATES`.
unfoldable pub def_name : Template → Text
def_name etl = codes "my_daily_etl"
def_name report = codes "daily_report"
def_name blank = codes "my_first_flow"

unfoldable pub daily_of : Template → Option Text
daily_of report = some (codes "08:00")
daily_of _ = none

unfoldable pub template_steps : Template → List TemplateStep
template_steps etl =
    template_step (codes "extract") (codes "Start-Sleep 1; Write-Output extract") []
    ∷ template_step (codes "transform") (codes "Start-Sleep 1; Write-Output transform")
        (codes "extract" ∷ [])
    ∷ template_step (codes "load") (codes "Start-Sleep 1; Write-Output load run={{ run_id }}")
        (codes "transform" ∷ [])
    ∷ []
template_steps report =
    template_step (codes "fetch") (codes "Start-Sleep 1; Write-Output fetch data") []
    ∷ template_step (codes "render") (codes "Start-Sleep 1; Write-Output render report")
        (codes "fetch" ∷ [])
    ∷ []
template_steps blank = template_step (codes "step_1") (codes "Write-Output hello cronova") [] ∷ []

pub data SchedMode : Type 0 where
  daily interval manual : SchedMode

-- What the error line shows: nothing, the text for a key, or a message of the server.
pub data Note : Type 0 where
  quiet : Note
  told : Text → Note
  server : Text → Note

-- `W`.
pub record Wizard : Type 0 where
  pub step : ℕ
  pub tpl : Template
  pub name : Text
  pub name_touched : Bool
  pub cmd_edits : List (Text × Text)
  pub sched_mode : SchedMode
  pub daily_time : Text
  pub interval_n : ℕ
  pub existing : Option (List Text)
  pub err : Note

-- The state that `showWizard` starts from.
unfoldable pub new_wizard : Wizard
unfolding def_name
new_wizard = record {
  step = 1;
  tpl = etl;
  name = def_name etl;
  name_touched = false;
  cmd_edits = [];
  sched_mode = daily;
  daily_time = codes "02:00";
  interval_n = 30;
  existing = none;
  err = quiet;
}

-- `W.cmdEdits[id] ?? cmd`. The newest edit of an id stands first.
unfoldable pub edit_of : List (Text × Text) → Text → Text → Text
edit_of [] id cmd = cmd
edit_of ((j, v) ∷ es) id cmd = if j == id then v else edit_of es id cmd

-- `wzSteps`, without the numbers.
unfoldable pub wz_steps : Wizard → List TemplateStep
unfolding template_steps edit_of
wz_steps w =
    map (λ (s : TemplateStep). record s { cmd = edit_of w.cmd_edits s.id s.cmd })
      (template_steps w.tpl)

abbrev pub known_name : Wizard → Text → Bool
known_name w name = elim w.existing [ none ↦ false | some xs ↦ contains xs name ]

-- `wzValidate`: the key of the first error.
unfoldable pub wz_validate : Wizard → Note
unfolding wz_steps
wz_validate w =
    if not (id_ok (trim w.name))
    then told (codes "err_dagid")
    else if known_name w (trim w.name)
    then told (codes "nd_dagid_dup")
    else if any (λ (s : TemplateStep). is_empty (trim s.cmd)) (wz_steps w)
    then told (codes "err_emptycmd")
    else quiet

abbrev pub is_quiet : Note → Bool
is_quiet quiet = true
is_quiet (told k) = false
is_quiet (server m) = false

-- `wz-next` on the second screen, and on the first.
unfoldable pub advance : Note → Wizard → Wizard
advance quiet w = record w { err = quiet; step = suc w.step }
advance (told k) w = record w { err = told k }
advance (server m) w = record w { err = server m }

unfoldable pub press_next : Wizard → Wizard
unfolding advance wz_validate
press_next w = advance (if w.step == 2 then wz_validate w else quiet) w

-- `wz-prev`; `wz-back` does the same behind the first screen, and leaves the wizard on it.
unfoldable pub press_prev : Wizard → Wizard
press_prev w = record w { err = quiet; step = w.step - 1 }

unfoldable pub press_back : Wizard → Wizard
press_back w = record w { err = quiet; step = if w.step == 1 then 1 else w.step - 1 }

-- The tests `W.tpl !== key`, for the three keys.
unfoldable pub same_template : Template → Template → Bool
same_template etl etl = true
same_template report report = true
same_template blank blank = true
same_template _ _ = false

unfoldable pub seed_time : Option Text → Wizard → Wizard
seed_time none w = w
seed_time (some hm) w = record w { sched_mode = daily; daily_time = hm }

unfoldable pub pick_template : Template → Wizard → Wizard
unfolding same_template seed_time daily_of def_name
pick_template key w =
    if same_template w.tpl key
    then w
    else seed_time (daily_of key) (record w {
      tpl = key;
      cmd_edits = [];
      name = if w.name_touched then w.name else def_name key;
    })

-- `wz-name`.
unfoldable pub type_name : Text → Wizard → Wizard
type_name s w =
    let name = trim s in
    record w {
      name = name;
      name_touched = true;
      err =
          if not (is_empty name) && not (id_ok name)
          then told (codes "err_dagid")
          else (if not (is_empty name) && known_name w name
              then told (codes "nd_dagid_dup")
              else quiet);
    }

unfoldable pub type_cmd : Text → Text → Wizard → Wizard
type_cmd id s w = record w { cmd_edits = (id, s) ∷ w.cmd_edits }

-- `wz-datevar`: the date is put behind the first command, once.
unfoldable pub insert_date : Wizard → Wizard
unfolding wz_steps type_cmd
insert_date w = elim (wz_steps w) [
  | [] ↦ w
  | s ∷ rest ↦
      if includes s.cmd (codes "logical_date")
      then w
      else type_cmd s.id (s.cmd ++ codes " --date {{ logical_date }}") w
]

unfoldable pub pick_sched : SchedMode → Wizard → Wizard
pick_sched m w = record w { sched_mode = m }

-- `wz-time`.
unfoldable pub type_time : Text → Wizard → Wizard
type_time hm w = record w {
  sched_mode = daily;
  daily_time = if is_empty hm then w.daily_time else hm;
}

-- `wz-int`: `Math.max(1, +iv.value || 1)`.
unfoldable pub type_interval : Entry → Wizard → Wizard
type_interval x w = record w {
  sched_mode = interval;
  interval_n = max 1 (at_least_zero (entry_value x));
}

-- The answer of /api/dags, or its failure.
unfoldable pub existing_loaded : List Text → Wizard → Wizard
existing_loaded xs w = record w { existing = some xs }

-- The schedule that `createAndRunWizard` sends.
unfoldable pub wz_schedule : Wizard → Text
unfolding every_text wz_daily_cron
wz_schedule w = elim w.sched_mode [
  | daily ↦ wz_daily_cron w.daily_time
  | interval ↦ every_text (max 1 w.interval_n) (codes "m")
  | manual ↦ []
]

unfoldable pub wz_spec : Wizard → BuildSpec
unfolding wz_schedule
wz_spec w = record {
  dag_id = trim w.name;
  schedule = wz_schedule w;
  start_date = [];
  catchup = false;
  max_active_runs = 1;
  default_retries = 2;
  trigger_after = [];
  tasks =
      map (λ (s : TemplateStep). build_task s.id (codes "powershell") s.cmd s.deps) (wz_steps w);
}

-- What `createAndRunWizard` has done when it returns: it showed an error, or created the workflow
-- and went to its first run, or, where that could not be started, to its page.
pub data Created : Type 0 where
  rejected : Wizard → Created
  running : BuildSpec → Text → Created
  listed : BuildSpec → Text → Created

-- The answers to the two requests: an error's message on the left.
pub data Reply (A : Type 0) : Type 0 where
  failed : Text → Reply A
  answered : A → Reply A

unfoldable pub create_as : Note → Reply (Unit {0}) → Reply Text → Wizard → Created
unfolding wz_spec
create_as quiet (failed m) run w = rejected (record w { err = server m })
create_as quiet (answered _) (failed m) w = listed (wz_spec w) (trim w.name)
create_as quiet (answered _) (answered run_id) w = running (wz_spec w) run_id
create_as (told k) built run w = rejected (record w { err = told k })
create_as (server m) built run w = rejected (record w { err = server m })

-- `createAndRunWizard`.
unfoldable pub create_and_run : Reply (Unit {0}) → Reply Text → Wizard → Created
unfolding create_as
create_and_run built run w = create_as (wz_validate w) built run w

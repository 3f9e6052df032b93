-- ===== src/Create/Wizard/Sent.antt =====
-- The definition that the wizard sends (internal/web/static/builder.js) beside the validation of the
-- editor.
use poc_cronova_windows.Base.{
  none, ap, ◌∙◌, List, Option, Text, [], any, arith, codes, false, is_space, list_eqb, map, some,
  trim, trim_start, true, ◌≡◌, list_eq, nat_eq,
}
use poc_cronova_windows.Model.{Task, by_id, deps_of, inherited, known}
use poc_cronova_windows.Graph.Cycle.{has_cycle, is_undefined, starts, visit, visit_all, visit_tasks}
use poc_cronova_windows.Editor.{Editor}
use poc_cronova_windows.Editor.Validate.{
  bad_url, blank_text, has_duplicates, id_ok, is_alnum, is_empty, is_id_part, lacks_command,
  lacks_conn, lacks_subdag, lacks_url, validate_dag,
}
use poc_cronova_windows.Create.{BuildSpec, as_task, build_task}
use poc_cronova_windows.Create.Wizard.{
  Created, Note, Reply, Template, TemplateStep, Wizard, blank, create_and_run, create_as, edit_of,
  etl, known_name, listed, quiet, rejected, report, running, template_steps, wz_spec, wz_steps,
  wz_validate,
}
use poc_cronova_windows.Create.Wizard.Steps.{wz_validate-eq-quiet}

-- The tasks of a template with its commands edited.
edited_steps : List (Text × Text) → Template → List TemplateStep
unfolding edit_of
edited_steps es tpl =
    map (λ (s : TemplateStep). record s { cmd = edit_of es s.id s.cmd }) (template_steps tpl)

tasks_of : List TemplateStep → List Task
tasks_of steps =
    map as_task
      (map (λ (s : TemplateStep). build_task s.id (codes "powershell") s.cmd s.deps) steps)

template_valid :
    (es : List (Text × Text)) (tpl : Template) (d : Editor)
    → d.tasks ≡ tasks_of (edited_steps es tpl)
    → d.dag.notify_url ≡ []
    → any (λ (s : TemplateStep). is_empty (trim s.cmd)) (edited_steps es tpl) ≡ false
    → validate_dag d ≡ []
unfolding edited_steps tasks_of template_steps validate_dag id_ok is_alnum is_id_part has_duplicates
    lacks_command lacks_url lacks_conn lacks_subdag bad_url blank_text has_cycle visit_tasks visit
    visit_all known deps_of by_id starts is_undefined inherited trim trim_start is_space list_eqb
template_valid es etl d e u h = rw (e, u, h)
template_valid es report d e u h = rw (e, u, h)
template_valid es blank d e u h = rw (e, u, h)

-- The definition that was sent, if one was.
abbrev pub sent : Created → Option BuildSpec
sent (rejected w) = none
sent (running spec run_id) = some spec
sent (listed spec name) = some spec

create_as-sent :
    (n : Note) (built : Reply (Unit {0})) (run : Reply Text) (w : Wizard) (spec : BuildSpec)
    → sent (create_as n built run w) ≡ some spec
    → (n ≡ quiet) × (spec ≡ wz_spec w)
unfolding create_as
create_as-sent n built run w spec h = ground arith

-- When the wizard has sent a definition `spec`, an editor that holds its tasks and no notification
-- URL finds no error in them, and the workflow's name is an id that is none of those known to exist.
pub create_and_run-valid :
    (built : Reply (Unit {0})) (run : Reply Text) (w : Wizard) (spec : BuildSpec) (d : Editor)
    → sent (create_and_run built run w) ≡ some spec
    → d.tasks ≡ map as_task spec.tasks
    → d.dag.notify_url ≡ []
    → (validate_dag d ≡ []) × (id_ok spec.dag_id ≡ true) × (known_name w spec.dag_id ≡ false)
unfolding create_and_run wz_spec wz_steps edited_steps tasks_of
create_and_run-valid built run w spec d h e u =
    let (q, s) = create_as-sent (wz_validate w) built run w spec h in
    let (filled, fresh) = wz_validate-eq-quiet w q in
    (
      template_valid w.cmd_edits w.tpl d (e ∙ ap (λ (b : BuildSpec). map as_task b.tasks) s) u
          filled.full,
      rw s filled.named,
      rw s fresh,
    )

-- ===== src/Create/Wizard/Steps.antt =====
-- The screens of the wizard (internal/web/static/builder.js): which controls each has, and the
-- invariant of the screens.
use poc_cronova_windows.Base.{
  Bool-cases, List, List-cases, Text, any, codes, if◌then◌else◌, includes, ◌++◌, arith, false, inl,
  inr, refl, trim, true, ◌<◌, ◌==◌, ◌≡◌, ◌≤◌, nat_eq, nat_eqb_iff,
}
use poc_cronova_windows.Model.{Entry}
use poc_cronova_windows.Editor.Validate.{id_ok, is_empty}
use poc_cronova_windows.Create.Wizard.{
  Note, Reply, SchedMode, Template, TemplateStep, Wizard, advance, create_and_run, create_as,
  existing_loaded, insert_date, known_name, new_wizard, pick_sched, pick_template, press_back,
  press_next, press_prev, quiet, rejected, server, told, type_cmd, type_interval, type_name,
  type_time, wz_steps, wz_validate,
}

-- A use of a control that the screen has, or an answer that arrives.
pub data Step : Wizard → Wizard → Type 0 where
  next : {w : Wizard} → w.step < 3 → Step w (press_next w)
  prev : {w : Wizard} → 1 < w.step → Step w (press_prev w)
  back : {w : Wizard} → Step w (press_back w)
  card : {w : Wizard} (key : Template) → w.step ≡ 1 → Step w (pick_template key w)
  name : {w : Wizard} (s : Text) → w.step ≡ 2 → Step w (type_name s w)
  command : {w : Wizard} (id s : Text) → w.step ≡ 2 → Step w (type_cmd id s w)
  date : {w : Wizard} → w.step ≡ 2 → Step w (insert_date w)
  sched : {w : Wizard} (m : SchedMode) → w.step ≡ 3 → Step w (pick_sched m w)
  time : {w : Wizard} (hm : Text) → w.step ≡ 3 → Step w (type_time hm w)
  minutes : {w : Wizard} (x : Entry) → w.step ≡ 3 → Step w (type_interval x w)
  loaded : {w : Wizard} (xs : List Text) → Step w (existing_loaded xs w)
  create :
      {w v : Wizard} (built : Reply (Unit {0})) (run : Reply Text)
      → w.step ≡ 3
      → create_and_run built run w ≡ rejected v
      → Step w v

pub data Steps (w : Wizard) : Wizard → Type 0 where
  done : Steps w w
  after : {u v : Wizard} → Steps w u → Step u v → Steps w v

-- The name is an id and no command is blank.
pub record IsFilled (w : Wizard) : Type 0 where
  pub named : id_ok (trim w.name) ≡ true
  pub full : any (λ (s : TemplateStep). is_empty (trim s.cmd)) (wz_steps w) ≡ false

pub record IsSound (w : Wizard) : Type 0 where
  pub screen : (1 ≤ w.step) × (w.step ≤ 3)
  pub filled : w.step ≡ 3 → IsFilled w

pub wz_validate-eq-quiet :
    (w : Wizard) → wz_validate w ≡ quiet → IsFilled w × (known_name w (trim w.name) ≡ false)
unfolding wz_validate
wz_validate-eq-quiet w h = (record { named = ground arith; full = ground arith }, ground arith)

-- Only the error line, the list of names and the schedule differ: the screen stays sound.
same_form :
    (w v : Wizard)
    → v.step ≡ w.step
    → v.name ≡ w.name
    → wz_steps v ≡ wz_steps w
    → IsSound w
    → IsSound v
same_form w v s n c h = record {
  screen = ground (arith, h.screen);
  filled =
      λ e. let f = h.filled (ground arith) in record { named = rw n f.named; full = rw c f.full };
}

-- On the first two screens nothing is asked of the form.
early : (w : Wizard) → 1 ≤ w.step → w.step ≤ 2 → IsSound w
early w h k = record { screen = (h, omega arith); filled = λ e. absurd (omega arith) }

advance-IsSound :
    (n : Note) (w : Wizard)
    → w.step < 3
    → (w.step ≡ 2 → n ≡ quiet → IsFilled w)
    → IsSound w
    → IsSound (advance n w)
unfolding advance wz_steps
advance-IsSound quiet w h f v = record {
  screen = (omega arith, omega arith);
  filled = λ e. let g = f (omega arith) refl in record { named = g.named; full = g.full };
}
advance-IsSound (told k) w h f v = same_form w _ refl refl refl v
advance-IsSound (server m) w h f v = same_form w _ refl refl refl v

press_next-IsSound : {w : Wizard} → w.step < 3 → IsSound w → IsSound (press_next w)
unfolding press_next
press_next-IsSound {w} h v =
    advance-IsSound _ w h
      (λ two q. (wz_validate-eq-quiet w (rw ((nat_eqb_iff w.step 2).1 two) at q)).0) v

create-IsSound :
    (n : Note) (built : Reply (Unit {0})) (run : Reply Text) (w v : Wizard)
    → create_as n built run w ≡ rejected v
    → IsSound w
    → IsSound v
unfolding create_as wz_steps
create-IsSound n built run w v e h = same_form w v (ground arith) (ground arith) (ground arith) h

insert_date-step : (w : Wizard) → (insert_date w).step ≡ w.step
unfolding insert_date
insert_date-step w = elim (List-cases (wz_steps w)) [
  | inl e ↦ rw (e, insert_date)
  | inr (s, rest, e) ↦ rw (e, insert_date) (dated s)
]
  where
    dated :
        (s : TemplateStep)
        → (if includes s.cmd (codes "logical_date")
            then w
            else type_cmd s.id (s.cmd ++ codes " --date {{ logical_date }}") w).step
          ≡ w.step
    dated s = ground arith

pick_template-step : (key : Template) (w : Wizard) → (pick_template key w).step ≡ w.step
unfolding pick_template
pick_template-step key w = ground arith

Step-IsSound : {w v : Wizard} → Step w v → IsSound w → IsSound v
unfolding press_prev press_back type_name type_cmd pick_sched type_time type_interval
    existing_loaded wz_steps create_and_run
Step-IsSound (next h) v = press_next-IsSound h v
Step-IsSound (prev {w} h) v = early _ (omega arith) (omega (arith, v.screen))
Step-IsSound (back {w}) v = elim (Bool-cases (w.step == 1)) [
  | inl e ↦ early _ (ground arith) (ground arith)
  | inr e ↦ early _ (ground (arith, v.screen)) (ground (arith, v.screen))
]
Step-IsSound (card {w} key e) v =
    let s = pick_template-step key w in early _ (omega (arith, s)) (omega (arith, s))
Step-IsSound (name s e) v = early _ (omega arith) (omega arith)
Step-IsSound (command id s e) v = early _ (omega arith) (omega arith)
Step-IsSound (date {w} e) v =
    let s = insert_date-step w in early _ (omega (arith, s)) (omega (arith, s))
Step-IsSound (sched {w} m e) v = same_form w _ refl refl refl v
Step-IsSound (time {w} hm e) v = same_form w _ refl refl refl v
Step-IsSound (minutes {w} x e) v = same_form w _ refl refl refl v
Step-IsSound (loaded {w} xs) v = same_form w _ refl refl refl v
Step-IsSound (create {w} {v = u} built run three e) v = create-IsSound _ built run w u e v

new_wizard-IsSound : IsSound new_wizard
unfolding new_wizard
new_wizard-IsSound = early new_wizard (omega arith) (omega arith)

Steps-IsSound : {w v : Wizard} → Steps w v → IsSound w → IsSound v
Steps-IsSound done h = h
Steps-IsSound (after s t) h = Step-IsSound t (Steps-IsSound s h)

-- However the wizard is used from its start, once it has come as far as the third screen it shows
-- that screen and no further one, its name is an id and no command is blank.
pub reached-IsFilled :
    {w : Wizard}
    → Steps new_wizard w
    → 3 ≤ w.step
    → (w.step ≡ 3)
      × (id_ok (trim w.name) ≡ true)
      × (any (λ (s : TemplateStep). is_empty (trim s.cmd)) (wz_steps w) ≡ false)
reached-IsFilled {w} s far =
    let h = Steps-IsSound s new_wizard-IsSound in
    let three : w.step ≡ 3 = omega (arith, h.screen) in
    let f = h.filled three in (three, f.named, f.full)

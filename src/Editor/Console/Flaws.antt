-- ===== src/Editor/Console/Flaws.antt =====
-- Runs of the save protocol (internal/web/static/views.js) that depart from its comments or lose an edit.
use poc_cronova_windows.Base.{
  List-cases, Text, [], ap, arith, eq_self, false, if_false, if_true, if◌then◌else◌, inl, inr,
  length, refl, suc, true, ℕ, ◌++◌, ◌==◌, ◌∙◌, ◌∷◌, ◌≡◌, list_eq, nat_eq,
}
use poc_cronova_windows.Editor.{Editor}
use poc_cronova_windows.Editor.Validate.{validate_dag}
use poc_cronova_windows.Editor.Spec.{dag_spec_from, DagSpec}
use poc_cronova_windows.Editor.Console.{
  Console, stored, saving, saved, answer, fire, flush_save, reflect_save_state, save_dag, with_hash,
  with_schedule, finish_save, reflect_errors, send_save, settle_answer, begin_delete, end_delete,
  send_delete, settle, schedule_save,
}
use poc_cronova_windows.Editor.Console.Progress.{Lives, save_dag_accepted}
use poc_cronova_windows.Editor.Console.Safety.{IsSound}

-- Neither the schedule nor the hash plays a part in the validation.
validate-with_hash :
    (h : Text) (d : Editor) → validate_dag (with_hash h (with_schedule d)) ≡ validate_dag d
unfolding validate_dag
validate-with_hash [] d = refl
validate-with_hash (c ∷ h) d = refl

-- A console whose debounced save has run and was stored.
abbrev pub saved_once : Text → Console → Console
saved_once h c = answer (stored h) (fire c)

-- What a stored save leaves, when nothing else was going on.
abbrev pub after_save : Text → Console → Console
after_save h c = record c {
  ed = with_hash h (with_schedule c.ed);
  armed = false;
  seq = suc c.seq;
  inflight = false;
  indicator = if suc c.seq == suc c.seq then saved else c.indicator;
  wire = [];
}

fire_idle :
    (c : Console) → Lives c → c.inflight ≡ false → fire c ≡ send_save (record c { armed = false })
unfolding fire flush_save
fire_idle c l i =
    if_false c.deleting _ _ l.0 ∙ if_false c.inflight _ _ i ∙ if_true c.present _ _ l.1

answer_only :
    (h : Text) (c : Console) (r : ℕ × DagSpec)
    → c.wire ≡ r ∷ []
    → c.pending ≡ false
    → c.present ≡ true
    → answer (stored h) c ≡ record c {
      ed = with_hash h c.ed;
      inflight = false;
      indicator = if r.0 == c.seq then saved else c.indicator;
      wire = [];
    }
unfolding answer settle_answer finish_save
answer_only h c r e p l =
    simp (e, answer)
      (if_false c.pending _ _ p
        ∙ ap
            (λ (d : Editor). record c {
              ed = d;
              inflight = false;
              indicator = if r.0 == c.seq then saved else c.indicator;
              wire = [];
            })
            (if_true c.present _ _ l))

saved_once-eq :
    (h : Text) (c : Console)
    → Lives c
    → c.inflight ≡ false
    → c.pending ≡ false
    → c.wire ≡ []
    → saved_once h c ≡ after_save h c
unfolding send_save
saved_once-eq h c l i p w =
    ap (answer (stored h)) (fire_idle c l i)
    ∙ answer_only h (send_save (record c { armed = false }))
        (suc c.seq, dag_spec_from (with_schedule c.ed))
        (ap (λ x. x ++ ((suc c.seq, dag_spec_from (with_schedule c.ed)) ∷ [])) w) p l.1

-- After a debounced save has run and was stored, nothing is armed, in flight or on the way and the
-- indicator says "saved"; but the next redraw of a valid model says "saving" again, since
-- `saveTimer` still holds the id of the timer that has fired.
pub redraw_shows_saving :
    (h : Text) {c : Console}
    → IsSound c
    → Lives c
    → c.armed ≡ true
    → c.inflight ≡ false
    → validate_dag c.ed ≡ []
    → ((saved_once h c).armed ≡ false)
      × ((saved_once h c).inflight ≡ false)
      × ((saved_once h c).wire ≡ [])
      × ((saved_once h c).indicator ≡ saved)
      × ((reflect_save_state (saved_once h c)).indicator ≡ saving)
redraw_shows_saving h {c} sound l a i ok =
    let p : c.pending ≡ false = ground (arith, sound.waits) in
    let w : c.wire ≡ [] = elim (List-cases c.wire) [
      | inl e ↦ e
      | inr (r, rest, e) ↦ absurd (ground (arith, sound.one_save, ap length e))
    ] in
    rw (saved_once-eq h c l i p w)
      (refl, refl, refl, rw (eq_self (suc c.seq)), shown (sound.armed_set a))
  where
    shown : c.timer_set ≡ true → (reflect_save_state (after_save h c)).indicator ≡ saving
    shown t =
        unfold reflect_save_state reflect_errors in
        (rw (l.1, validate-with_hash h c.ed, ok, reflect_errors) (rw t))

-- A model that became invalid after a valid edit armed the timer is sent all the same: whatever the
-- model `d` is by then, its definition goes out unvalidated.
pub fire_sends_unvalidated :
    (c : Console)
    → Lives c
    → c.inflight ≡ false
    → c.wire ≡ []
    → validate_dag c.ed ≡ []
    → (d : Editor)
    → (fire (record (save_dag c) { ed = d })).wire
      ≡ (suc c.seq, dag_spec_from (with_schedule d)) ∷ []
unfolding fire flush_save
fire_sends_unvalidated c l i w ok d =
    let (on, armed, same, idle, out) = save_dag_accepted c l ok in
    rw (on.0, on.1, idle ∙ i, same, out ∙ w)

-- A deletion that the server refuses drops an accepted edit: the debounced save of `saveDag` is
-- cleared when the deletion begins, and afterwards no save was sent, none is armed and none waits.
pub refused_delete_drops_save :
    (c : Console)
    → IsSound c
    → Lives c
    → c.inflight ≡ false
    → validate_dag c.ed ≡ []
    → let d = end_delete (send_delete (begin_delete (save_dag c))) in
      (d.seq ≡ c.seq)
      × (d.armed ≡ false)
      × (d.pending ≡ false)
      × (d.wire ≡ [])
      × (d.ed ≡ settle c.ed)
unfolding end_delete send_delete begin_delete
refused_delete_drops_save c sound l i ok =
    let (_, _, same, _, out) = save_dag_accepted c l ok in
    let w : c.wire ≡ [] = elim (List-cases c.wire) [
      | inl e ↦ e
      | inr (r, rest, e) ↦ absurd (ground (arith, sound.one_save, ap length e))
    ] in
    (same, refl, refl, out ∙ w, ed-save_dag)
  where
    ed-save_dag : (save_dag c).ed ≡ settle c.ed
    ed-save_dag =
        unfold save_dag schedule_save in
        (ap (λ (d : Console). d.ed)
          (if_false c.deleting _ _ l.0
            ∙ if_true c.present _ _ l.1
            ∙ ap (λ es. schedule_save es c) ok))

-- ===== src/Editor/Console/Safety.antt =====
-- Invariants of the save protocol (internal/web/static/views.js).
use poc_cronova_windows.Base.{
  List, List-cases, [], ap, arith, false, if_elim, if◌then◌else◌, inl, inr, length, length-append,
  refl, suc, true, ℕ, ◌∷◌, ◌≡◌, ◌≤◌,
}
use poc_cronova_windows.Editor.Validate.{validate_dag}
use poc_cronova_windows.Editor.Spec.{dag_spec_from, DagSpec}
use poc_cronova_windows.Editor.Console.{
  Console, fire, flush_pending, flush_save, reflect_save_state, save_dag, with_schedule, Answer,
  answer, finish_save, begin_delete, end_delete, lose_dag, open_dag, refused, send_delete,
  settle_answer, stored,
}
use poc_cronova_windows.Editor.Console.Events.{
  IsFresh, Step, Steps, send_removal, done, drain, edit, lose, next, redraw, remove, removed,
  reopen, respond, save, timer,
}

-- What holds whatever the order of events.
pub record IsSound (c : Console) : Type 0 where
  pub one_save : length c.wire ≤ (if c.inflight then 1 else 0)
  pub waits : c.pending ≡ true → c.inflight ≡ true
  pub armed_set : c.armed ≡ true → c.timer_set ≡ true
  pub quiet : c.deleting ≡ true → (c.armed ≡ false) × (c.pending ≡ false)

-- `flushSave` asks only this of the state that it is called in.
flush_save-IsSound : {c : Console} → IsSound c → IsSound (flush_save c)
unfolding flush_save
flush_save-IsSound {c} h =
    ground (arith, length-append c.wire ((suc c.seq, dag_spec_from (with_schedule c.ed)) ∷ []))

fire-IsSound : {c : Console} → IsSound c → IsSound (fire c)
unfolding fire
fire-IsSound {c} h = flush_save-IsSound {c = record c { armed = false }} (record {
  one_save = h.one_save;
  waits = h.waits;
  armed_set = λ e. cc;
  quiet = λ e. (refl, (h.quiet e).1);
})

flush_pending-IsSound : {c : Console} → IsSound c → IsSound (flush_pending c)
unfolding flush_pending
flush_pending-IsSound {c} h =
    if_elim IsSound c.timer_set _ c
      (λ t. flush_save-IsSound {c = record c { armed = false; timer_set = false }} (record {
        one_save = h.one_save;
        waits = h.waits;
        armed_set = λ e. cc;
        quiet = λ e. (refl, (h.quiet e).1);
      }))
      (λ f. h)

save_dag-IsSound : {c : Console} → IsSound c → IsSound (save_dag c)
unfolding save_dag
save_dag-IsSound {c} h = elim (List-cases (validate_dag c.ed)) [
  | inl e ↦ ground arith
  | inr (x, r, e) ↦ ground arith
]

reflect-IsSound : {c : Console} → IsSound c → IsSound (reflect_save_state c)
unfolding reflect_save_state
reflect-IsSound {c} h = elim (List-cases (validate_dag c.ed)) [
  | inl e ↦ ground arith
  | inr (x, r, e) ↦ ground arith
]

finish_save-IsSound :
    (c : Console)
    → IsSound (record c { inflight = false; pending = false })
    → IsSound (finish_save c)
unfolding finish_save
finish_save-IsSound c h =
    if_elim IsSound c.pending _ _
      (λ t. flush_save-IsSound {c = record c { inflight = false; pending = false }} h)
      (λ f. record {
        one_save = h.one_save;
        waits = λ e. cc;
        armed_set = h.armed_set;
        quiet = λ e. ((h.quiet e).0, f);
      })

answered-IsSound :
    (a : Answer) (c : Console) (r : ℕ × DagSpec) (rest : List (ℕ × DagSpec))
    → c.wire ≡ r ∷ rest
    → IsSound c
    → IsSound (finish_save (settle_answer a r.0 (record c { wire = rest })))
unfolding settle_answer
answered-IsSound (stored m) c r rest e h = finish_save-IsSound _ (record {
  one_save = last_one;
  waits = λ p. cc;
  armed_set = h.armed_set;
  quiet = λ p. ((h.quiet p).0, refl);
})
  where
    last_one : length rest ≤ 0
    last_one = ground (arith, h.one_save, ap length e)
answered-IsSound (refused m) c r rest e h = finish_save-IsSound _ (record {
  one_save = last_one;
  waits = λ p. cc;
  armed_set = h.armed_set;
  quiet = λ p. ((h.quiet p).0, refl);
})
  where
    last_one : length rest ≤ 0
    last_one = ground (arith, h.one_save, ap length e)

answer-IsSound : (a : Answer) {c : Console} → IsSound c → IsSound (answer a c)
unfolding answer
answer-IsSound a {c} h = elim (List-cases c.wire) [
  | inl e ↦ simp (e, answer) h
  | inr (r, rest, e) ↦ simp (e, answer) (answered-IsSound a c r rest e h)
]

pub Step-IsSound : {c d : Console} → Step c d → IsSound c → IsSound d
unfolding begin_delete send_delete end_delete lose_dag open_dag
Step-IsSound (edit d) h = record {
  one_save = h.one_save;
  waits = h.waits;
  armed_set = h.armed_set;
  quiet = h.quiet;
}
Step-IsSound save h = save_dag-IsSound h
Step-IsSound (timer e) h = fire-IsSound h
Step-IsSound (respond a) h = answer-IsSound a h
Step-IsSound drain h = flush_pending-IsSound h
Step-IsSound redraw h = reflect-IsSound h
Step-IsSound remove h = record {
  one_save = h.one_save;
  waits = λ p. cc;
  armed_set = λ p. cc;
  quiet = λ p. (refl, refl);
}
Step-IsSound lose h = record {
  one_save = h.one_save;
  waits = h.waits;
  armed_set = h.armed_set;
  quiet = h.quiet;
}
Step-IsSound (reopen d) h = record {
  one_save = h.one_save;
  waits = h.waits;
  armed_set = h.armed_set;
  quiet = h.quiet;
}
Step-IsSound (send_removal e f) h = record {
  one_save = h.one_save;
  waits = h.waits;
  armed_set = h.armed_set;
  quiet = h.quiet;
}
Step-IsSound (removed e) h = record {
  one_save = h.one_save;
  waits = h.waits;
  armed_set = h.armed_set;
  quiet = λ p. cc;
}

pub IsFresh-IsSound : {c : Console} → IsFresh c → IsSound c
IsFresh-IsSound {c} h = record {
  one_save = ground (arith, h.idle, ap length h.idle.1);
  waits = λ p. absurd (ground (arith, h.quiet));
  armed_set = λ p. absurd (ground (arith, h.quiet));
  quiet = λ p. absurd (ground (arith, h.kept));
}

pub Steps-IsSound : {c d : Console} → Steps c d → IsSound c → IsSound d
Steps-IsSound done h = h
Steps-IsSound (next s t) h = Step-IsSound t (Steps-IsSound s h)

-- From a freshly opened page, after any events in any order, overlapping deletions and the loss of
-- the workflow included: at most one save is on the way and only while `saveInflight` is set, a
-- further save waits only behind one in flight, and while `deleting` is set no timer is armed and no
-- further save waits.
pub at_most_one_save :
    {c d : Console}
    → IsFresh c
    → Steps c d
    → (length d.wire ≤ (if d.inflight then 1 else 0))
      × (d.pending ≡ true → d.inflight ≡ true)
      × (d.deleting ≡ true → (d.armed ≡ false) × (d.pending ≡ false))
at_most_one_save fresh s =
    let h = Steps-IsSound s (IsFresh-IsSound fresh) in (h.one_save, h.waits, h.quiet)

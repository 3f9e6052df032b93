-- ===== src/Editor/Console/Stuck.antt =====
-- The save protocol (internal/web/static/views.js) when the workflow that is edited is lost before the
-- timer of an accepted edit fires.
use poc_cronova_windows.Base.{
  List-cases, [], ap, arith, false, if_elim, inl, inr, refl, suc, true, ℕ, ◌∙◌, ◌≡◌,
}
use poc_cronova_windows.Editor.Validate.{validate_dag}
use poc_cronova_windows.Editor.Console.{
  Console, answer, begin_delete, end_delete, fire, flush_pending, flush_save, lose_dag, open_dag,
  reflect_save_state, save_dag, send_delete,
}
use poc_cronova_windows.Editor.Console.Events.{
  Step, Steps, done, drain, edit, lose, next, redraw, remove, removed, reopen, respond, save,
  send_removal, timer,
}
use poc_cronova_windows.Editor.Console.Progress.{Lives, save_dag_accepted}

-- A save counts as in flight, though none is on the way, and `n` saves were begun.
record IsStuck (n : ℕ) (c : Console) : Type 0 where
  inflight : c.inflight ≡ true
  wire : c.wire ≡ []
  seq : c.seq ≡ n

flush_save-IsStuck : (n : ℕ) (c : Console) → IsStuck n c → IsStuck n (flush_save c)
unfolding flush_save
flush_save-IsStuck n c h = ground (arith, h.inflight, h.wire, h.seq)

save_dag-IsStuck : (n : ℕ) (c : Console) → IsStuck n c → IsStuck n (save_dag c)
unfolding save_dag
save_dag-IsStuck n c h = elim (List-cases (validate_dag c.ed)) [
  | inl e ↦ ground (arith, h.inflight, h.wire, h.seq)
  | inr (x, r, e) ↦ ground (arith, h.inflight, h.wire, h.seq)
]

reflect-IsStuck : (n : ℕ) (c : Console) → IsStuck n c → IsStuck n (reflect_save_state c)
unfolding reflect_save_state
reflect-IsStuck n c h = elim (List-cases (validate_dag c.ed)) [
  | inl e ↦ ground (arith, h.inflight, h.wire, h.seq)
  | inr (x, r, e) ↦ ground (arith, h.inflight, h.wire, h.seq)
]

Step-IsStuck : (n : ℕ) {c d : Console} → Step c d → IsStuck n c → IsStuck n d
unfolding fire flush_pending answer begin_delete send_delete end_delete lose_dag open_dag
Step-IsStuck n (edit d) h = record { inflight = h.inflight; wire = h.wire; seq = h.seq }
Step-IsStuck n {c} save h = save_dag-IsStuck n c h
Step-IsStuck n {c} (timer e) h =
    flush_save-IsStuck n (record c { armed = false })
      (record { inflight = h.inflight; wire = h.wire; seq = h.seq })
Step-IsStuck n {c} (respond a) h = rw (answer, h.wire) h
Step-IsStuck n {c} drain h =
    if_elim (IsStuck n) c.timer_set _ c
      (λ t.
        flush_save-IsStuck n (record c { armed = false; timer_set = false })
          (record { inflight = h.inflight; wire = h.wire; seq = h.seq }))
      (λ f. h)
Step-IsStuck n {c} redraw h = reflect-IsStuck n c h
Step-IsStuck n lose h = record { inflight = h.inflight; wire = h.wire; seq = h.seq }
Step-IsStuck n (reopen d) h = record { inflight = h.inflight; wire = h.wire; seq = h.seq }
Step-IsStuck n remove h = record { inflight = h.inflight; wire = h.wire; seq = h.seq }
Step-IsStuck n (send_removal e f) h = record { inflight = h.inflight; wire = h.wire; seq = h.seq }
Step-IsStuck n (removed e) h = record { inflight = h.inflight; wire = h.wire; seq = h.seq }

Steps-IsStuck : (n : ℕ) {c d : Console} → Steps c d → IsStuck n c → IsStuck n d
Steps-IsStuck n done h = h
Steps-IsStuck n (next s t) h = Step-IsStuck n t (Steps-IsStuck n s h)

-- The timer that fires without a workflow.
fire-IsStuck :
    (c : Console)
    → c.deleting ≡ false
    → c.inflight ≡ false
    → c.wire ≡ []
    → IsStuck (suc c.seq) (fire (lose_dag c))
unfolding fire flush_save lose_dag
fire-IsStuck c l i w = rw (l, i) (record { inflight = refl; wire = w; seq = refl })

-- When `saveDag` accepts an edit with no save on the way, `showDag` sets `D` to null and the timer
-- fires then, no save is sent any more: whatever happens afterwards, another workflow that is opened
-- included, a save counts as in flight, none is on the way, and the number of saves does not grow.
pub lost_dag_blocks_saves :
    (c : Console) {d : Console}
    → Lives c
    → c.inflight ≡ false
    → c.wire ≡ []
    → validate_dag c.ed ≡ []
    → Steps (fire (lose_dag (save_dag c))) d
    → (d.inflight ≡ true) × (d.wire ≡ []) × (d.seq ≡ suc c.seq)
lost_dag_blocks_saves c l i w ok s =
    let (on, armed, same, idle, out) = save_dag_accepted c l ok in
    let h =
      Steps-IsStuck (suc (save_dag c).seq) s
        (fire-IsStuck (save_dag c) on.0 (idle ∙ i) (out ∙ w)) in
    (h.inflight, h.wire, h.seq ∙ ap suc same)

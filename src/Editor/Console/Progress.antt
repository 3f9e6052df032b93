-- ===== src/Editor/Console/Progress.antt =====
-- The saves that follow an accepted edit (internal/web/static/views.js), while the workflow is open.
use poc_cronova_windows.Base.{
  List-cases, [], arith, false, if_elim, inl, inr, true, ℕ, ◌<◌, ◌≡◌, ◌≤◌, ◌⊎◌,
}
use poc_cronova_windows.Editor.Console.{
  Console, Answer, finish_save, flush_save, refused, settle_answer, stored, answer, begin_delete,
  end_delete, fire, flush_pending, lose_dag, open_dag, reflect_save_state, save_dag, send_delete,
}
use poc_cronova_windows.Editor.Console.Events.{
  Step, drain, edit, lose, redraw, remove, removed, reopen, respond, save, send_removal, timer,
}
use poc_cronova_windows.Editor.Validate.{validate_dag}
use poc_cronova_windows.Editor.Console.Safety.{IsSound, Step-IsSound}

-- More than `n` saves were sent, or one is still to come.
abbrev pub WillSend : ℕ → Console → Type 0
WillSend n c = (n < c.seq) ⊎ (c.armed ≡ true) ⊎ (c.pending ≡ true)

-- The workflow is there, and no deletion is going on.
abbrev pub Lives : Console → Type 0
Lives c = (c.deleting ≡ false) × (c.present ≡ true)

-- The events that leave `D` the same object.
abbrev pub Stays : {c d : Console} → Step c d → Type 0
Stays lose = ⊥
Stays (reopen d) = ⊥
Stays _ = Unit

-- Events in which no deletion is begun and the workflow is neither lost nor replaced.
pub data Calm (c : Console) : Console → Type 0 where
  none_yet : Calm c c
  after : {d e : Console} → Calm c d → (s : Step d e) → Stays s → Lives e → Calm c e

flush_save-sends : (n : ℕ) (c : Console) → Lives c → n ≤ c.seq → WillSend n (flush_save c)
unfolding flush_save
flush_save-sends n c l h = ground arith

seq-flush_save : (c : Console) → c.seq ≤ (flush_save c).seq
unfolding flush_save
seq-flush_save c = ground arith

finish_save-WillSend :
    (n : ℕ) (c : Console)
    → Lives c
    → n ≤ c.seq
    → (c.pending ≡ true) ⊎ ((n < c.seq) ⊎ (c.armed ≡ true))
    → WillSend n (finish_save c)
unfolding finish_save flush_save
finish_save-WillSend n c l m h = ground arith

settled-WillSend :
    (a : Answer) (n k : ℕ) (c : Console)
    → Lives c
    → n ≤ c.seq
    → WillSend n c
    → WillSend n (finish_save (settle_answer a k c))
unfolding settle_answer
settled-WillSend (stored m) n k c l b h = finish_save-WillSend n _ l b (ground arith)
settled-WillSend (refused m) n k c l b h = finish_save-WillSend n _ l b (ground arith)

pub record Promise (n : ℕ) (c : Console) : Type 0 where
  pub bound : n ≤ c.seq
  pub will : WillSend n c

finish_save-le : (n : ℕ) (c : Console) → n ≤ c.seq → n ≤ (finish_save c).seq
unfolding finish_save flush_save
finish_save-le n c b = ground arith

settled-Promise :
    (a : Answer) (n k : ℕ) (c : Console)
    → Lives c
    → Promise n c
    → Promise n (finish_save (settle_answer a k c))
settled-Promise a n k c l h = record {
  bound = bound_of a;
  will = settled-WillSend a n k c l h.bound h.will;
}
  where
    bound_of : (b : Answer) → n ≤ (finish_save (settle_answer b k c)).seq
    bound_of (stored m) = unfold settle_answer in (finish_save-le n _ h.bound)
    bound_of (refused m) = unfold settle_answer in (finish_save-le n _ h.bound)

answer-Promise : (a : Answer) (n : ℕ) (c : Console) → Lives c → Promise n c → Promise n (answer a c)
unfolding answer
answer-Promise a n c l h = elim (List-cases c.wire) [
  | inl e ↦ simp (e, answer) h
  | inr (r, rest, e) ↦
      simp (e, answer)
        (settled-Promise a n r.0 (record c { wire = rest }) l
          (record { bound = h.bound; will = h.will }))
]

flush_save-Promise : (n : ℕ) (c : Console) → Lives c → n ≤ c.seq → Promise n (flush_save c)
flush_save-Promise n c l b = record {
  bound = omega (arith, seq-flush_save c, b);
  will = flush_save-sends n c l b;
}

save_dag-Promise : (n : ℕ) (c : Console) → Promise n c → Promise n (save_dag c)
unfolding save_dag
save_dag-Promise n c h = elim (List-cases (validate_dag c.ed)) [
  | inl e ↦ record { bound = ground arith; will = ground arith }
  | inr (x, r, e) ↦ record { bound = ground arith; will = ground arith }
]

reflect-Promise : (n : ℕ) (c : Console) → Promise n c → Promise n (reflect_save_state c)
unfolding reflect_save_state
reflect-Promise n c h = elim (List-cases (validate_dag c.ed)) [
  | inl e ↦ record { bound = ground arith; will = ground arith }
  | inr (x, r, e) ↦ record { bound = ground arith; will = ground arith }
]

drain-Promise :
    (n : ℕ) (c : Console) → IsSound c → Lives c → Promise n c → Promise n (flush_pending c)
unfolding flush_pending
drain-Promise n c sound l h =
    if_elim (Promise n) c.timer_set _ c
      (λ t. flush_save-Promise n (record c { armed = false; timer_set = false }) l h.bound) (λ f. h)

Step-Promise :
    (n : ℕ) {c d : Console} → Step c d → IsSound c → Lives c → Lives d → Promise n c → Promise n d
unfolding fire begin_delete send_delete end_delete lose_dag open_dag
Step-Promise n (edit d) sound l m h = record { bound = h.bound; will = h.will }
Step-Promise n {c} save sound l m h = save_dag-Promise n c h
Step-Promise n {c} (timer e) sound l m h =
    flush_save-Promise n (record c { armed = false }) l h.bound
Step-Promise n {c} (respond a) sound l m h = answer-Promise a n c l h
Step-Promise n {c} drain sound l m h = drain-Promise n c sound l h
Step-Promise n {c} redraw sound l m h = reflect-Promise n c h
Step-Promise n lose sound l m h = record { bound = h.bound; will = h.will }
Step-Promise n (reopen d) sound l m h = record { bound = h.bound; will = h.will }
Step-Promise n remove sound l m h = absurd (ground arith)
Step-Promise n (send_removal e f) sound l m h = record { bound = h.bound; will = h.will }
Step-Promise n (removed e) sound l m h = record { bound = h.bound; will = h.will }

Calm-Promise :
    (n : ℕ) {c d : Console}
    → Calm c d
    → IsSound c
    → Lives c
    → Promise n c
    → IsSound d × Lives d × Promise n d
Calm-Promise n none_yet sound l h = (sound, l, h)
Calm-Promise n (after p st k m) sound l h =
    let (s, now, q) = Calm-Promise n p sound l h in
    (Step-IsSound st s, m, Step-Promise n st s now m q)

-- What an accepted `saveDag` leaves.
pub save_dag_accepted :
    (c : Console)
    → Lives c
    → validate_dag c.ed ≡ []
    → Lives (save_dag c)
      × ((save_dag c).armed ≡ true)
      × ((save_dag c).seq ≡ c.seq)
      × ((save_dag c).inflight ≡ c.inflight)
      × ((save_dag c).wire ≡ c.wire)
unfolding save_dag
save_dag_accepted c l ok =
    ((ground arith, ground arith), ground arith, ground arith, ground arith, ground arith)

-- When `saveDag` accepts an edit, and later no deletion is begun and `D` is neither set to null nor
-- replaced by another workflow, then whatever else happens, as soon as no timer is armed and no further
-- save waits, another save was sent after the edit.
pub accepted_edit_sent :
    {c d : Console}
    → IsSound c
    → Lives c
    → validate_dag c.ed ≡ []
    → Calm (save_dag c) d
    → d.armed ≡ false
    → d.pending ≡ false
    → c.seq < d.seq
accepted_edit_sent {c} {d} sound l ok calm quiet idle =
    let (on, armed, same, _, _) = save_dag_accepted c l ok in
    let start : Promise c.seq (save_dag c) = record {
      bound = omega (arith, same);
      will = inr (inl armed);
    } in
    let (s, k, h) = Calm-Promise c.seq calm (Step-IsSound save sound) on start in
    ground (arith, h.will)

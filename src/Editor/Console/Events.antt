-- ===== src/Editor/Console/Events.antt =====
-- The events that drive the save protocol (internal/web/static/views.js), in any order.
use poc_cronova_windows.Base.{[], false, true, ◌<◌, ◌≡◌, ◌≤◌}
use poc_cronova_windows.Editor.{Editor}
use poc_cronova_windows.Editor.Console.{
  Console, Answer, answer, begin_delete, end_delete, fire, flush_pending, lose_dag, open_dag,
  reflect_save_state, save_dag, send_delete,
}

-- One event. The editor's model is changed freely, and a deletion may begin while another one runs.
pub data Step : Console → Console → Type 0 where
  edit : {c : Console} (d : Editor) → Step c (record c { ed = d })
  save : {c : Console} → Step c (save_dag c)
  timer : {c : Console} → c.armed ≡ true → Step c (fire c)
  respond : {c : Console} (a : Answer) → Step c (answer a c)
  drain : {c : Console} → Step c (flush_pending c)
  redraw : {c : Console} → Step c (reflect_save_state c)
  lose : {c : Console} → Step c (lose_dag c)
  reopen : {c : Console} (d : Editor) → Step c (open_dag d c)
  remove : {c : Console} → Step c (begin_delete c)
  send_removal :
      {c : Console} → c.removals_sent < c.removals → c.inflight ≡ false → Step c (send_delete c)
  removed : {c : Console} → 0 < c.removals_sent → Step c (end_delete c)

pub data Steps (c : Console) : Console → Type 0 where
  done : Steps c c
  next : {d e : Console} → Steps c d → Step d e → Steps c e

-- No deletion begins while another one runs.
abbrev pub OneRemoval : {c d : Console} → Steps c d → Type 0
OneRemoval done = Unit
OneRemoval (next {d} {e} s t) = OneRemoval s × (e.removals ≤ 1)

-- The page as it is opened: nothing scheduled, nothing sent.
pub record IsFresh (c : Console) : Type 0 where
  pub quiet : (c.armed ≡ false) × (c.timer_set ≡ false) × (c.pending ≡ false)
  pub idle : (c.inflight ≡ false) × (c.wire ≡ [])
  pub kept : (c.deleting ≡ false) × (c.removals ≡ 0) × (c.removals_sent ≡ 0)

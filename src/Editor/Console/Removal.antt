-- ===== src/Editor/Console/Removal.antt =====
-- A deletion and the saves (internal/web/static/views.js).
use poc_cronova_windows.Base.{
  List-cases, [], ap, arith, false, if_elim, inl, inr, length, refl, true, ℕ, ◌<◌, ◌≡◌, ◌≤◌,
}
use poc_cronova_windows.Editor.Validate.{validate_dag}
use poc_cronova_windows.Editor.Console.{
  Console, Answer, answer, stored, refused, begin_delete, end_delete, finish_save, settle_answer,
  fire, flush_pending, flush_save, lose_dag, open_dag, reflect_save_state, save_dag, send_delete,
}
use poc_cronova_windows.Editor.Console.Events.{
  IsFresh, OneRemoval, Step, Steps, done, drain, edit, lose, next, redraw, remove, removed, reopen,
  respond, save, send_removal, timer,
}
use poc_cronova_windows.Editor.Console.Safety.{IsFresh-IsSound, IsSound, Step-IsSound}

-- While no deletion begins beside another one: a deletion that runs blocks the saves, and its request
-- is out only when no save is.
record IsAlone (c : Console) : Type 0 where
  few : (c.removals ≤ 1) × (c.removals_sent ≤ c.removals)
  blocks : 0 < c.removals → c.deleting ≡ true
  apart : 0 < c.removals_sent → c.inflight ≡ false

-- What an event leaves alone when it is no step of a deletion.
record Keeps (c d : Console) : Type 0 where
  count : d.removals ≡ c.removals
  sent : d.removals_sent ≡ c.removals_sent
  flag : d.deleting ≡ c.deleting
  idle : c.deleting ≡ true → c.inflight ≡ false → d.inflight ≡ false

Keeps-IsAlone : {c d : Console} → Keeps c d → IsAlone c → IsAlone d
Keeps-IsAlone {c} {d} k h = record {
  few = ground (arith, k.count, k.sent, h.few);
  blocks = λ p. ground (arith, k.count, k.flag, h.blocks);
  apart = λ p. ground (arith, k.count, k.sent, k.idle, h.few, h.blocks, h.apart);
}

flush_save-Keeps : (c : Console) → Keeps c (flush_save c)
unfolding flush_save
flush_save-Keeps c = record {
  count = ground arith;
  sent = ground arith;
  flag = ground arith;
  idle = λ p q. ground arith;
}

save_dag-Keeps : (c : Console) → Keeps c (save_dag c)
unfolding save_dag
save_dag-Keeps c = elim (List-cases (validate_dag c.ed)) [
  | inl e ↦ record {
    count = ground arith;
    sent = ground arith;
    flag = ground arith;
    idle = λ p q. ground arith;
  }
  | inr (x, r, e) ↦ record {
    count = ground arith;
    sent = ground arith;
    flag = ground arith;
    idle = λ p q. ground arith;
  }
]

reflect-Keeps : (c : Console) → Keeps c (reflect_save_state c)
unfolding reflect_save_state
reflect-Keeps c = elim (List-cases (validate_dag c.ed)) [
  | inl e ↦ record {
    count = ground arith;
    sent = ground arith;
    flag = ground arith;
    idle = λ p q. ground arith;
  }
  | inr (x, r, e) ↦ record {
    count = ground arith;
    sent = ground arith;
    flag = ground arith;
    idle = λ p q. ground arith;
  }
]

settled-Keeps : (a : Answer) (n : ℕ) (c : Console) → Keeps c (finish_save (settle_answer a n c))
unfolding settle_answer finish_save flush_save
settled-Keeps (stored m) n c = record {
  count = ground arith;
  sent = ground arith;
  flag = ground arith;
  idle = λ p q. ground arith;
}
settled-Keeps (refused m) n c = record {
  count = ground arith;
  sent = ground arith;
  flag = ground arith;
  idle = λ p q. ground arith;
}

answer-Keeps : (a : Answer) (c : Console) → Keeps c (answer a c)
unfolding answer
answer-Keeps a c = elim (List-cases c.wire) [
  | inl e ↦ simp (e, answer) (record { count = refl; sent = refl; flag = refl; idle = λ p q. q })
  | inr (r, rest, e) ↦
      simp (e, answer)
        (let k = settled-Keeps a r.0 (record c { wire = rest }) in
          record { count = k.count; sent = k.sent; flag = k.flag; idle = k.idle })
]

fire-Keeps : (c : Console) → Keeps c (fire c)
unfolding fire
fire-Keeps c =
    let k = flush_save-Keeps (record c { armed = false }) in
    record { count = k.count; sent = k.sent; flag = k.flag; idle = k.idle }

flush_pending-Keeps : (c : Console) → Keeps c (flush_pending c)
unfolding flush_pending
flush_pending-Keeps c =
    if_elim (Keeps c) c.timer_set _ c
      (λ t.
        let k = flush_save-Keeps (record c { armed = false; timer_set = false }) in
        record { count = k.count; sent = k.sent; flag = k.flag; idle = k.idle })
      (λ f. record { count = refl; sent = refl; flag = refl; idle = λ p q. q })

Step-IsAlone : {c d : Console} → Step c d → d.removals ≤ 1 → IsAlone c → IsAlone d
unfolding begin_delete send_delete end_delete lose_dag open_dag
Step-IsAlone (edit d) b h = record { few = h.few; blocks = h.blocks; apart = h.apart }
Step-IsAlone {c} save b h = Keeps-IsAlone (save_dag-Keeps c) h
Step-IsAlone {c} (timer e) b h = Keeps-IsAlone (fire-Keeps c) h
Step-IsAlone {c} (respond a) b h = Keeps-IsAlone (answer-Keeps a c) h
Step-IsAlone {c} drain b h = Keeps-IsAlone (flush_pending-Keeps c) h
Step-IsAlone {c} redraw b h = Keeps-IsAlone (reflect-Keeps c) h
Step-IsAlone lose b h = record { few = h.few; blocks = h.blocks; apart = h.apart }
Step-IsAlone (reopen d) b h = record { few = h.few; blocks = h.blocks; apart = h.apart }
Step-IsAlone remove b h = record {
  few = ground (arith, h.few);
  blocks = λ p. refl;
  apart = λ p. ground (arith, h.few);
}
Step-IsAlone (send_removal e f) b h = record {
  few = ground (arith, h.few);
  blocks = h.blocks;
  apart = λ p. f;
}
Step-IsAlone (removed e) b h = record {
  few = ground (arith, h.few);
  blocks = λ p. absurd (ground (arith, h.few));
  apart = λ p. absurd (ground (arith, h.few));
}

both : {c d : Console} → IsFresh c → (s : Steps c d) → OneRemoval s → IsSound d × IsAlone d
both {c} fresh done one = (
  IsFresh-IsSound fresh,
  record {
    few = ground (arith, fresh.kept);
    blocks = λ p. absurd (ground (arith, fresh.kept));
    apart = λ p. absurd (ground (arith, fresh.kept));
  },
)
both fresh (next s t) one =
    let (sound, alone) = both fresh s one.0 in (Step-IsSound t sound, Step-IsAlone t one.1 alone)

-- From a freshly opened page, after any events in any order in which no deletion begins while another
-- one runs: while the request of the deletion is out, no save is on the way, no timer is armed and no
-- further save waits.
pub no_save_beside_removal :
    {c d : Console}
    → IsFresh c
    → (s : Steps c d) → OneRemoval s
    → 0 < d.removals_sent
    → (d.wire ≡ []) × (d.armed ≡ false) × (d.pending ≡ false)
no_save_beside_removal {d = d} fresh s one out =
    let (sound, alone) = both fresh s one in
    let gone : d.deleting ≡ true = alone.blocks (ground (arith, alone.few)) in
    let idle = alone.apart out in
    let quiet = sound.quiet gone in
    (
      elim (List-cases d.wire) [
        | inl w ↦ w
        | inr (r, rest, w) ↦ absurd (ground (arith, sound.one_save, ap length w))
      ],
      quiet.0,
      quiet.1,
    )

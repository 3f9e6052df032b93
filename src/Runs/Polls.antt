-- ===== src/Runs/Polls.antt =====
-- Sequences of events on the page of a run (internal/web/static/views.js): its intervals and late
-- answers.
use poc_cronova_windows.Base.{
  Bool, Bool-cases, List, Option, Option-cases, Text, [], arith, false, filter, get_elem?, if_elim,
  inl, inr, length, none, refl, some, suc, subst, true, zero, ℕ, ◌+◌, ◌<◌, ◌==◌, ◌∷◌, ◌≡◌, ◌≤◌,
  list_eq, nat_eq,
}
use mathlib.Core.Option.{some-injective}
use poc_cronova_windows.Runs.{
  RunPage, Watch, arrive, clear_poll, end_poll, fail, is_wanted, leave, no_page, polled, remove_at,
  show_run, tick,
}

-- What can happen to the page.
pub data Event : Type 0 where
  shown : Text → Event
  arrived : ℕ → Bool → Event
  failed : ℕ → Event
  left : Event
  ticked : ℕ → Event
  answered : ℕ → Bool → Event

unfoldable pub happen : Event → RunPage → RunPage
happen (shown k) p = show_run k p
happen (arrived n live) p = arrive n live p
happen (failed n) p = fail n p
happen left p = leave p
happen (ticked n) p = tick n p
happen (answered n live) p = polled n live p

unfoldable pub happen_all : List Event → RunPage → RunPage
unfolding happen
happen_all [] p = p
happen_all (e ∷ es) p = happen_all es (happen e p)

-- How many watches have a generation.
abbrev count : ℕ → List Watch → ℕ
count g ws = length (filter (λ (w : Watch). w.gen == g) ws)

count-remove_at : (g n : ℕ) (ws : List Watch) → count g (remove_at n ws) ≤ count g ws
unfolding remove_at
count-remove_at g n [] = omega arith
count-remove_at g zero (w ∷ ws) = ground arith
count-remove_at g (suc n) (w ∷ ws) = ground (arith, count-remove_at g n ws)

-- What is taken away is counted once.
count-taken :
    (g n : ℕ) (ws : List Watch) (w : Watch)
    → get_elem? ws n ≡ some w
    → count g (remove_at n ws) + count g (w ∷ []) ≤ count g ws
unfolding remove_at
count-taken g n [] w h = cc
count-taken g zero (x ∷ ws) w h =
    subst (λ (z : Watch). count g ws + count g (z ∷ []) ≤ count g (x ∷ ws)) (some-injective x w h)
      (ground arith)
count-taken g (suc n) (x ∷ ws) w h = ground (arith, count-taken g n ws w h)

count-clear_poll : (g : ℕ) (o : Option ℕ) (ws : List Watch) → count g (clear_poll o ws) ≤ count g ws
unfolding clear_poll
count-clear_poll g none ws = omega arith
count-clear_poll g (some k) [] = omega arith
count-clear_poll g (some k) (w ∷ ws) = ground (arith, count-clear_poll g (some k) ws)

-- Each generation belongs to one call or one interval, and none is newer than `runPollGen`.
record IsSingle (p : RunPage) : Type 0 where
  single : (g : ℕ) → count g p.opening + count g p.polls ≤ 1
  old : (g : ℕ) → p.gen < g → count g p.opening + count g p.polls ≡ 0

-- Fewer calls and intervals of the same generation.
fewer :
    (p q : RunPage)
    → q.gen ≡ p.gen
    → ((g : ℕ) → count g q.opening + count g q.polls ≤ count g p.opening + count g p.polls)
    → IsSingle p
    → IsSingle q
fewer p q e l h = record {
  single = λ g. omega (arith, l g, h.single g);
  old = λ g b. let z = h.old g (omega arith) in omega (arith, l g, z);
}

shown-IsSingle : (k : Text) (p : RunPage) → IsSingle p → IsSingle (show_run k p)
unfolding show_run
shown-IsSingle k p h = record {
  single = λ g.
      let c = count-clear_poll g p.run_poll p.polls in
      elim (Bool-cases (suc p.gen == g)) [
        | inl t ↦ let z = h.old g (ground arith) in rw t (omega (arith, c, z))
        | inr f ↦ rw f (omega (arith, c, h.single g))
      ];
  old = λ g b.
      let c = count-clear_poll g p.run_poll p.polls in
      let z = h.old g (omega arith) in
      let f : (suc p.gen == g) ≡ false = ground arith in rw f (omega (arith, c, z));
}

arrived-IsSingle : (n : ℕ) (live : Bool) (p : RunPage) → IsSingle p → IsSingle (arrive n live p)
unfolding arrive
arrived-IsSingle n live p h = elim (Option-cases (get_elem? p.opening n)) [
  | inl e ↦ rw (arrive, e) h
  | inr (w, e) ↦
      rw (arrive, e)
        (if_elim IsSingle live _ _
          (λ t. fewer p _ refl (λ g. let c = count-taken g n p.opening w e in more g w c) h)
          (λ f. fewer p _ refl (λ g. let c = count-remove_at g n p.opening in omega (arith, c)) h))
]
  where
    more :
        (g : ℕ) (w : Watch)
        → count g (remove_at n p.opening) + count g (w ∷ []) ≤ count g p.opening
        → count g (remove_at n p.opening) + count g (w ∷ p.polls)
          ≤ count g p.opening + count g p.polls
    more g w c = ground arith

end_poll-IsSingle : (n : ℕ) (p : RunPage) → IsSingle p → IsSingle (end_poll n p)
end_poll-IsSingle n p h =
    fewer p _ refl (λ g. let c = count-remove_at g n p.polls in omega (arith, c)) h

same-IsSingle :
    (p q : RunPage)
    → q.gen ≡ p.gen
    → q.opening ≡ p.opening
    → q.polls ≡ p.polls
    → IsSingle p
    → IsSingle q
same-IsSingle p q a b c h = fewer p q a (λ g. rw (b, c) (omega arith)) h

happen-IsSingle : (e : Event) (p : RunPage) → IsSingle p → IsSingle (happen e p)
unfolding happen fail leave tick polled
happen-IsSingle (shown k) p h = shown-IsSingle k p h
happen-IsSingle (arrived n live) p h = arrived-IsSingle n live p h
happen-IsSingle (failed n) p h =
    fewer p _ refl (λ g. let c = count-remove_at g n p.opening in omega (arith, c)) h
happen-IsSingle left p h = same-IsSingle p _ refl refl refl h
happen-IsSingle (ticked n) p h = elim (Option-cases (get_elem? p.polls n)) [
  | inl e ↦ rw (tick, e) h
  | inr (w, e) ↦
      rw (tick, e) (if_elim IsSingle (is_wanted p w) _ _ (λ t. h) (λ f. end_poll-IsSingle n p h))
]
happen-IsSingle (answered n live) p h = elim (Option-cases (get_elem? p.polls n)) [
  | inl e ↦ rw (polled, e) h
  | inr (w, e) ↦
      rw (polled, e)
        (if_elim IsSingle (is_wanted p w) _ _
          (λ t.
            if_elim IsSingle live _ _ (λ a. same-IsSingle p _ refl refl refl h)
              (λ b.
                end_poll-IsSingle n (record p { drawn = some w.run })
                  (same-IsSingle p _ refl refl refl h)))
          (λ f. end_poll-IsSingle n p h))
]

happen_all-IsSingle : (es : List Event) (p : RunPage) → IsSingle p → IsSingle (happen_all es p)
unfolding happen_all
happen_all-IsSingle [] p h = h
happen_all-IsSingle (e ∷ es) p h = happen_all-IsSingle es (happen e p) (happen-IsSingle e p h)

wanted-count : (p : RunPage) (ws : List Watch) → length (filter (is_wanted p) ws) ≤ count p.gen ws
unfolding is_wanted
wanted-count p [] = omega arith
wanted-count p (w ∷ ws) = ground (arith, wanted-count p ws)

-- However runs are opened, left and polled, at most one of the intervals passes its guard: every
-- other one ends at its next tick.
pub one_poll :
    (es : List Event) (p : RunPage)
    → p ≡ happen_all es no_page
    → length (filter (is_wanted p) p.polls) ≤ 1
unfolding no_page
one_poll es p e =
    let start : IsSingle no_page = record { single = λ g. omega arith; old = λ g b. omega arith } in
    let h : IsSingle p = rw e (happen_all-IsSingle es no_page start) in
    omega (arith, wanted-count p p.polls, h.single p.gen)

-- When the data of the run that was opened first arrive behind those of the second one, the page of
-- the second one draws the first.
pub late_run_drawn :
    (a b : Text) (live : Bool) (p : RunPage)
    → let q = arrive 0 false (arrive 0 live (show_run b (show_run a p))) in
      (q.current ≡ b) × (q.drawn ≡ some a)
unfolding arrive show_run remove_at
late_run_drawn a b true p = (refl, refl)
late_run_drawn a b false p = (refl, refl)

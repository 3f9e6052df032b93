-- ===== src/Shell/Dialogs/Answered.antt =====
-- What answers the dialog (internal/web/static/base.js).
use poc_cronova_windows.Base.{
  In, List, Option, Option-cases, [], false, here, inl, inr, refl, some, there, true, ℕ, ◌∷◌, ◌≡◌,
  ◌⊎◌, ◌∙◌, ap, sym,
}
use mathlib.Core.Option.{some-injective}
use poc_cronova_windows.Shell.Dialogs.{
  Input, beside, cancel, confirm_dialog, confirms, enter, escape, inside, listening, other_key,
  press, resolved, settled_by, step, steps,
}

resolved-injective : {A : Type 0} {a b : A} → resolved a ≡ resolved b → a ≡ b
resolved-injective e = cc

module _ {A : Type 0} (answer : Input → Option A) where
  steps-resolved : (is' : List Input) (a : A) → steps answer is' (resolved a) ≡ resolved a
  unfolding steps step
  steps-resolved [] a = refl
  steps-resolved (i ∷ is') a = steps-resolved is' a

  -- A dialog is resolved by some input.
  steps-In :
      (is' : List Input) (a : A)
      → steps answer is' listening ≡ resolved a
      → (i : Input) × In i is' × (answer i ≡ some a)
  unfolding steps step settled_by
  steps-In [] a e = absurd (no e)
    where
      no : ¬ (listening ≡ resolved a)
      no q = cc
  steps-In (i ∷ is') a e = elim (Option-cases (answer i)) [
    | inl n ↦ let (j, m, q) = steps-In is' a (rw (steps, step, n) at e) in (j, there m, q)
    | inr (b, s) ↦
        let r : resolved b ≡ resolved a = sym (steps-resolved is' b) ∙ (rw (steps, step, s) at e) in
        (i, here refl, s ∙ ap some (resolved-injective r))
  ]

false≢true : ¬ (false ≡ true)
false≢true e = cc

given :
    (i : Input) (is' : List Input)
    → In i is'
    → confirms i ≡ some true
    → (In enter is') ⊎ ((n : ℕ) × In (press n) is')
unfolding confirms
given enter is' m q = inl m
given (press n) is' m q = inr (n, m)
given escape is' m q = absurd (false≢true (some-injective false true q))
given beside is' m q = absurd (false≢true (some-injective false true q))
given cancel is' m q = absurd (false≢true (some-injective false true q))
given other_key is' m q = cc
given inside is' m q = cc

-- A confirmation is only given by the Enter key, wherever the focus is, or by a press of the button
-- that confirms, and what follows does not change it.
pub confirm_dialog-true :
    (is' later : List Input)
    → confirm_dialog is' ≡ resolved true
    → ((In enter is') ⊎ ((n : ℕ) × In (press n) is'))
      × (steps confirms later (confirm_dialog is') ≡ resolved true)
unfolding confirm_dialog
confirm_dialog-true is' later e =
    let (i, m, q) = steps-In confirms is' true e in
    (given i is' m q, ap (steps confirms later) e ∙ steps-resolved confirms later true)

-- ===== src/Base/Splits.antt =====
-- `split` at a code unit and `join` with it.
use mathlib.Core.Path.{◌≡◌, refl, sym, ap, ◌∙◌}
use mathlib.Core.Logic.{◌≢◌, inl, inr}
use mathlib.Core.List.{List, [], ◌∷◌, ◌++◌, reverse, reverse-cons, append_assoc, append-nil}
use Prim.Native.Nat.{ℕ}
use poc_cronova_windows.Base.Tests.{◌==◌, nat_eq, Bool-cases, nat_eqb_iff}
use poc_cronova_windows.Base.Lists.{In, here, there}
use poc_cronova_windows.Base.Texts.{Text, split, split_go, join}

-- `split` never gives the empty array.
split_go-cons :
    (d : ℕ) (s piece : Text) → (x : Text) × (r : List Text) × (split_go d s piece ≡ x ∷ r)
unfolding split_go
split_go-cons d [] piece = (reverse piece, [], refl)
split_go-cons d (c ∷ s) piece = elim (Bool-cases (c == d)) [
  | inl t ↦ (reverse piece, split_go d s [], rw t)
  | inr f ↦ let (x, r, e) = split_go-cons d s (c ∷ piece) in (x, r, rw (f, e))
]

join-split_go : (d : ℕ) (s piece : Text) → join (d ∷ []) (split_go d s piece) ≡ reverse piece ++ s
unfolding split_go join
join-split_go d [] piece = sym (append-nil (reverse piece))
join-split_go d (c ∷ s) piece = elim (Bool-cases (c == d)) [
  | inl t ↦
      let (x, r, e) = split_go-cons d s [] in
      let same : c ≡ d = (nat_eqb_iff c d).0 t in
      let rest : join (d ∷ []) (x ∷ r) ≡ s = ap (join (d ∷ [])) (sym e) ∙ join-split_go d s [] in
      rw (t, e, rest, same)
  | inr f ↦
      rw f (
        join-split_go d s (c ∷ piece) ∙ (rw reverse-cons (append_assoc (reverse piece) (c ∷ []) s)))
]

-- Joining the pieces of a text gives the text back, so `split` loses nothing.
pub join-split : (d : ℕ) (s : Text) → join (d ∷ []) (split d s) ≡ s
unfolding split
join-split d s = join-split_go d s []

pub split_injective : (d : ℕ) (s t : Text) → split d s ≡ split d t → s ≡ t
split_injective d s t e = sym (join-split d s) ∙ (ap (join (d ∷ [])) e ∙ join-split d t)

-- A piece with no separator in it, and what follows the separator behind it.
split_go-free :
    (d : ℕ) (x s piece : Text)
    → ((c : ℕ) → In c x → c ≢ d)
    → split_go d (x ++ d ∷ s) piece ≡ (reverse piece ++ x) ∷ split_go d s []
unfolding split_go
split_go-free d [] s piece free = rw ((nat_eqb_iff d d).1 refl, append-nil)
split_go-free d (c ∷ x) s piece free = elim (Bool-cases (c == d)) [
  | inl t ↦ absurd (free c (here refl) ((nat_eqb_iff c d).0 t))
  | inr f ↦ rw f (
      split_go-free d x s (c ∷ piece) (λ k m. free k (there m))
      ∙ ap (λ z. z ∷ split_go d s []) (rw reverse-cons (append_assoc (reverse piece) (c ∷ []) x)))
]

split_go-last :
    (d : ℕ) (x piece : Text)
    → ((c : ℕ) → In c x → c ≢ d)
    → split_go d x piece ≡ (reverse piece ++ x) ∷ []
unfolding split_go
split_go-last d [] piece free = rw append-nil
split_go-last d (c ∷ x) piece free = elim (Bool-cases (c == d)) [
  | inl t ↦ absurd (free c (here refl) ((nat_eqb_iff c d).0 t))
  | inr f ↦ rw f (
      split_go-last d x (c ∷ piece) (λ k m. free k (there m))
      ∙ ap (λ z. z ∷ []) (rw reverse-cons (append_assoc (reverse piece) (c ∷ []) x)))
]

-- Splitting what was joined gives the pieces back, if none holds the separator.
pub split-join :
    (d : ℕ) (x : Text) (r : List Text)
    → ((y : Text) → In y (x ∷ r) → (c : ℕ) → In c y → c ≢ d)
    → split d (join (d ∷ []) (x ∷ r)) ≡ x ∷ r
unfolding split join
split-join d x [] free = split_go-last d x [] (free x (here refl))
split-join d x (y ∷ r) free =
    split_go-free d x (join (d ∷ []) (y ∷ r)) [] (free x (here refl))
    ∙ ap (x ∷◌) (split-join d y r (λ z m. free z (there m)))

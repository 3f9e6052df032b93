-- ===== src/Graph/Cycle/Colors.antt =====
-- What a visit of `hasCycle` (internal/web/static/views.js) does to the colours.
use poc_cronova_windows.Base.{
  Bool-cases, List, Text, [], arith, inl, inr, refl, suc, text_iff, true, zero, ℕ, ◌∷◌, ◌≡◌, ◌⊎◌,
}
use poc_cronova_windows.Model.{Task, known, deps_of}
use poc_cronova_windows.Graph.Cycle.{Color, unset, gray, black, Search, paint, visit_all, visit}

pub record Keeps (s t : Search) : Type 0 where
  pub gray_to : (x : Text) → s.color x ≡ gray → t.color x ≡ gray
  pub gray_from : (x : Text) → t.color x ≡ gray → s.color x ≡ gray
  pub black_to : (x : Text) → s.color x ≡ black → t.color x ≡ black
  pub seen : s.cyc ≡ true → t.cyc ≡ true

pub Keeps-refl : (s : Search) → Keeps s s
Keeps-refl s = record {
  gray_to = λ x h. h;
  gray_from = λ x h. h;
  black_to = λ x h. h;
  seen = λ h. h;
}

pub Keeps-trans : {s t u : Search} → Keeps s t → Keeps t u → Keeps s u
Keeps-trans h k = record {
  gray_to = λ x e. k.gray_to x (h.gray_to x e);
  gray_from = λ x e. h.gray_from x (k.gray_from x e);
  black_to = λ x e. k.black_to x (h.black_to x e);
  seen = λ e. k.seen (h.seen e);
}

pub Keeps-visit_all :
    (f : Text → Search → Search) (ts : List Task)
    → ((d : Text) (s : Search) → Keeps s (f d s))
    → (ds : List Text) (s : Search) → Keeps s (visit_all f ts ds s)
unfolding visit_all
Keeps-visit_all f ts keep [] s = Keeps-refl s
Keeps-visit_all f ts keep (d ∷ ds) s = elim (Bool-cases (known ts d)) [
  | inl t ↦ rw t (Keeps-trans (keep d s) (Keeps-visit_all f ts keep ds (f d s)))
  | inr e ↦ rw e (Keeps-visit_all f ts keep ds s)
]

-- A visit paints an uncoloured id 1, and 2 at its end.
pub Keeps-paint :
    (s t : Search) (k : Text)
    → s.color k ≡ unset
    → Keeps (paint s k gray) t
    → Keeps s (paint t k black)
Keeps-paint s t k e h = record {
  gray_to = λ x g. ground (arith, h.gray_to x, text_iff x k);
  gray_from = λ x g. ground (arith, h.gray_from x, text_iff x k);
  black_to = λ x g. ground (arith, h.black_to x, text_iff x k);
  seen = λ g. h.seen g;
}

pub Color-cases : (c : Color) → (c ≡ unset) ⊎ (c ≡ gray) ⊎ (c ≡ black)
Color-cases unset = inl refl
Color-cases gray = inr (inl refl)
Color-cases black = inr (inr refl)

Keeps-cyc : (s : Search) → Keeps s (record s { cyc = true })
Keeps-cyc s = record {
  gray_to = λ x h. h;
  gray_from = λ x h. h;
  black_to = λ x h. h;
  seen = λ h. refl;
}

pub Keeps-visit : (n : ℕ) (ts : List Task) (k : Text) (s : Search) → Keeps s (visit n ts k s)
unfolding visit
Keeps-visit zero ts k s = Keeps-refl s
Keeps-visit (suc n) ts k s = elim (Color-cases (s.color k)) [
  | inl e ↦
      rw (e, visit)
        (Keeps-paint s _ k e
          (Keeps-visit_all (visit n ts) ts (Keeps-visit n ts) (deps_of ts k) (paint s k gray)))
  | inr (inl e) ↦ rw (e, visit) (Keeps-cyc s)
  | inr (inr e) ↦ rw (e, visit) (Keeps-refl s)
]

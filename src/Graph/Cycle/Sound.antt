-- ===== src/Graph/Cycle/Sound.antt =====
-- The colours of `hasCycle` (internal/web/static/views.js) when it answers true.
use poc_cronova_windows.Base.{
  Bool-cases, In, List, Text, [], arith, false, here, inl, inr, length, refl, suc, text_iff, there,
  true, zero, ℕ, ◌==◌, ◌∷◌, ◌≡◌, ◌≢◌, ◌⊎◌, list_eq, nat_eq,
}
use poc_cronova_windows.Model.{Task, ids, known, deps_of, inherited}
use poc_cronova_windows.Graph.Walks.{Edge, Reach, go, Walk, one, then_edge, stay}
use poc_cronova_windows.Graph.Cycle.{
  gray, Search, paint, visit_all, visit, has_cycle, is_undefined, start, starts, visit_tasks,
}
use poc_cronova_windows.Graph.Cycle.Colors.{Keeps-visit, Color-cases}

-- An id that `hasCycle` starts from: the nonempty id of a task that no plain object inherits.
pub record IsRoot (ts : List Task) (r : Text) : Type 0 where
  pub listed : In r (ids ts)
  pub nonempty : r ≢ []
  pub own : inherited r ≡ false

-- A cycle that can be reached from a root.
abbrev pub Found : List Task → Type 0
Found ts = (r : Text) × IsRoot ts r × (v : Text) × Reach ts r v × Walk ts v v

module _ (ts : List Task) (r : Text) (root : IsRoot ts r) where
  -- Every id on the stack leads to `k`, and what was reported so far is true.
  pub record Inv (k : Text) (s : Search) : Type 0 where
    pub stack : (g : Text) → s.color g ≡ gray → Walk ts g k
    pub told : s.cyc ≡ true → Found ts

  told_all :
      (n : ℕ)
      → ((d : Text) (s : Search) → Reach ts r d → Inv d s → (visit n ts d s).cyc ≡ true → Found ts)
      → (k : Text) → Reach ts r k
      → (ds : List Text) → ((d : Text) → In d ds → In d (deps_of ts k))
      → (s : Search) → ((g : Text) → s.color g ≡ gray → (g ≡ k) ⊎ Walk ts g k)
      → (s.cyc ≡ true → Found ts)
      → (visit_all (visit n ts) ts ds s).cyc ≡ true
      → Found ts
  unfolding visit_all
  told_all n ih k rk [] sub s stack told h = told h
  told_all n ih k rk (d ∷ ds) sub s stack told h = elim (Bool-cases (known ts d)) [
    | inl t ↦
        let e : Edge ts k d = (sub d (here refl), t) in
        let inv : Inv d s = record {
          stack = λ g c. elim (stack g c) [ inl p ↦ rw p (one e) | inr w ↦ then_edge w e ];
          told = told;
        } in
        let keeps = Keeps-visit n ts d s in
        told_all n ih k rk ds (λ x m. sub x (there m)) (visit n ts d s)
          (λ g c. stack g (keeps.gray_from g c)) (ih d s (go rk e) inv) (rw (t, visit_all) at h)
    | inr f ↦ told_all n ih k rk ds (λ x m. sub x (there m)) s stack told (rw (f, visit_all) at h)
  ]

  pub told_visit :
      (n : ℕ) (k : Text) (s : Search)
      → Reach ts r k
      → Inv k s
      → (visit n ts k s).cyc ≡ true
      → Found ts
  unfolding visit
  told_visit zero k s rk inv h = inv.told h
  told_visit (suc n) k s rk inv h = elim (Color-cases (s.color k)) [
    | inl e ↦
        told_all n (told_visit n) k rk (deps_of ts k) (λ d m. m) (paint s k gray)
          (λ g c. elim (Bool-cases (g == k)) [
            | inl t ↦ inl ((text_iff g k).0 t)
            | inr f ↦ inr (inv.stack g (rw f at c))
          ])
          inv.told (rw (e, visit) at h)
    | inr (inl e) ↦ (r, root, k, rk, inv.stack k e)
    | inr (inr e) ↦ inv.told (rw (e, visit) at h)
  ]

-- What `starts` tests.
pub starts-own : (s : Search) (k : Text) → starts s k ≡ true → (k ≢ []) × (inherited k ≡ false)
unfolding starts is_undefined
starts-own s [] h = cc
starts-own s (c ∷ k) h = (λ e. cc, ground arith)

pub told_tasks :
    (n : ℕ) (ts rest : List Task)
    → ((k : Text) → In k (ids rest) → In k (ids ts))
    → (s : Search) → ((g : Text) → s.color g ≢ gray)
    → (s.cyc ≡ true → Found ts)
    → (visit_tasks n ts rest s).cyc ≡ true
    → Found ts
unfolding visit_tasks
told_tasks n ts [] sub s clear told h = told h
told_tasks n ts (tk ∷ rest) sub s clear told h = elim (Bool-cases (starts s tk.id)) [
  | inl t ↦
      let (full, own) = starts-own s tk.id t in
      let root : IsRoot ts tk.id = record {
        listed = sub tk.id (here refl);
        nonempty = full;
        own = own;
      } in
      let keeps = Keeps-visit n ts tk.id s in
      told_tasks n ts rest (λ k m. sub k (there m)) (visit n ts tk.id s)
        (λ g e. clear g (keeps.gray_from g e))
        (told_visit ts tk.id root n tk.id s stay
          (record { stack = λ g e. absurd (clear g e); told = told }))
        (rw (t, visit_tasks) at h)
  | inr f ↦ told_tasks n ts rest (λ k m. sub k (there m)) s clear told (rw (f, visit_tasks) at h)
]

pub has_cycle_sound : (ts : List Task) → has_cycle ts ≡ true → Found ts
unfolding has_cycle
has_cycle_sound ts h = told_tasks (suc (length ts)) ts ts (λ k m. m) start (λ g e. cc) (λ e. cc) h

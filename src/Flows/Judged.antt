-- ===== src/Flows/Judged.antt =====
-- What the health bar names and links to (internal/web/static/views.js).
use poc_cronova_windows.Base.{
  Bool, Bool-cases, In, List, List-cases, Option, [], arith, find, here, inl, inr, none, refl, some,
  subst, sym, there, text_iff, true, ◌&&◌, ◌==◌, ◌∷◌, ◌≡◌, ◌⊎◌, list_eq, nat_eq,
}
use mathlib.Core.Option.{some-injective}
use poc_cronova_windows.Editor.Tasks.Edits.{In-filter}
use poc_cronova_windows.Flows.{Activity, Overview, Row, is_failed}
use poc_cronova_windows.Flows.Health.{
  Others, all_ok, bad, dag_page, failed_run, failing, go_to, health_bar, run_page,
}

module _ {ℓ} {A : Type ℓ} where
  find-In : (p : A → Bool) (xs : List A) (a : A) → find p xs ≡ some a → In a xs × (p a ≡ true)
  find-In p [] a h = cc
  find-In p (x ∷ xs) a h = elim (Bool-cases (p x)) [
    | inl t ↦
        let e : a ≡ x = sym (some-injective x a (rw t at h)) in
        (here e, subst (λ z. p z ≡ true) (sym e) t)
    | inr f ↦ let (m, t) = find-In p xs a (rw f at h) in (there m, t)
  ]

-- The workflow that the bar names is one of the overview and has failed; a link to a run goes to a
-- failed run of that workflow.
pub health_bar-bad :
    (o : Overview) (f : Row) (run : Option Activity) (rest : Others)
    → health_bar o ≡ bad f run rest
    → In f o.dags
      × (is_failed f.latest_state ≡ true)
      × ((go_to f run ≡ dag_page f.dag_id)
          ⊎ ((a : Activity) × In a o.activity
              × (go_to f run ≡ run_page a.run_id)
              × (a.dag_id ≡ f.dag_id)
              × (is_failed a.state ≡ true)))
unfolding health_bar go_to failed_run failing
health_bar-bad o f run rest h = elim (List-cases (failing o)) [
  | inl e ↦ absurd (ok-bad (rw (health_bar, e) at h))
  | inr (g, gs, e) ↦
      let (same, runs) = bad-injective (rw (health_bar, e) at h) in
      let found : In f (failing o) = rw (e, same) (here refl) in
      let (m, t) = In-filter (λ (d : Row). is_failed d.latest_state) o.dags found in
      (m, t, link run (rw same at runs))
]
  where
    ok-bad : {a : Option Activity} → ¬ (all_ok a ≡ bad f run rest)
    ok-bad q = cc

    bad-injective :
        {g : Row} {r : Option Activity} {k : Others}
        → bad g r k ≡ bad f run rest
        → (g ≡ f) × (r ≡ run)
    bad-injective q = (cc, cc)

    link :
        (r : Option Activity)
        → failed_run f.dag_id o.activity ≡ r
        → (go_to f r ≡ dag_page f.dag_id)
          ⊎ ((a : Activity) × In a o.activity
              × (go_to f r ≡ run_page a.run_id)
              × (a.dag_id ≡ f.dag_id)
              × (is_failed a.state ≡ true))
    link none e = inl refl
    link (some a) e =
        let (m, t) =
          find-In (λ (x : Activity). x.dag_id == f.dag_id && is_failed x.state) o.activity a e in
        inr (a, m, refl, (text_iff a.dag_id f.dag_id).0 (ground arith), ground arith)

-- ===== src/Editor/Tasks/Steps.antt =====
-- The step that `nvAddStep` adds (internal/web/static/views.js).
use poc_cronova_windows.Base.{
  In, In-append_cases, List, Text, [], ap, false, filter, inl, inr, not, refl, sym, subst, there,
  Bool-cases, ◌∷◌, ◌≡◌, list_eq, nat_eq,
}
use poc_cronova_windows.Model.{Task, ids}
use poc_cronova_windows.Graph.Topo.{left_over, placed, topo_order}
use poc_cronova_windows.Graph.Topo.Placed.{placed-IsGood}
use poc_cronova_windows.Editor.Validate.{has_duplicates, is_empty, named}
use poc_cronova_windows.Editor.Tasks.{new_step_id, nv_add_step, step_deps}
use poc_cronova_windows.Editor.Tasks.Fresh.{In→has_id, new_step_id-free}
use poc_cronova_windows.Editor.Tasks.Tidy.{IsTidy, In-map, In-map_of, append-IsTidy}
use poc_cronova_windows.Editor.Tasks.Edits.{In-filter, has_duplicates-filter}

ids-named : (ts : List Task) → ids (named ts) ≡ filter (λ j. not (is_empty j)) (ids ts)
ids-named [] = refl
ids-named (x ∷ ts) = elim (Bool-cases (is_empty x.id)) [
  | inl t ↦ rw t (ids-named ts)
  | inr f ↦ rw f (ap (x.id ∷◌) (ids-named ts))
]

-- The order of the steps holds tasks of the list only.
In-topo_order :
    (ts : List Task) → has_duplicates (ids ts) ≡ false → (x : Task) → In x (topo_order ts) → In x ts
unfolding topo_order left_over
In-topo_order ts distinct x m = elim (In-append_cases (placed ts).out _ m) [
  | inl l ↦ (placed-IsGood ts distinct).listed x l
  | inr r ↦ (In-filter _ ts r).0
]

In-step_deps : (us : List Task) (d : Text) → In d (step_deps us) → In d (ids us)
unfolding step_deps
In-step_deps [] d m = m
In-step_deps (x ∷ []) d m = m
In-step_deps (x ∷ y ∷ us) d m = there (In-step_deps (y ∷ us) d m)

has_duplicates-step_deps : (us : List Task) → has_duplicates (step_deps us) ≡ false
unfolding step_deps has_duplicates
has_duplicates-step_deps [] = refl
has_duplicates-step_deps (x ∷ []) = refl
has_duplicates-step_deps (x ∷ y ∷ us) = has_duplicates-step_deps (y ∷ us)

pub nv_add_step-IsTidy :
    (ts : List Task) → IsTidy ts → IsTidy (nv_add_step (topo_order (named ts)) ts)
unfolding nv_add_step
nv_add_step-IsTidy ts h =
    let distinct : has_duplicates (ids (named ts)) ≡ false =
      rw (ids-named ts) (has_duplicates-filter _ (ids ts) h.distinct) in
    append-IsTidy ts _ h
      (λ m. let t = In→has_id (new_step_id ts) ts m in let f = new_step_id-free ts in cc)
      (λ d m.
        let (x, n, e) =
          In-ids (topo_order (named ts)) d (In-step_deps (topo_order (named ts)) d m) in
        let l = (In-filter _ ts (In-topo_order (named ts) distinct x n)).0 in
        subst (λ z. In z (ids ts)) (sym e) (In-map (λ (u : Task). u.id) ts l))
      (has_duplicates-step_deps (topo_order (named ts)))
  where
    In-ids : (us : List Task) (d : Text) → In d (ids us) → (x : Task) × In x us × (d ≡ x.id)
    In-ids us d n = In-map_of (λ (u : Task). u.id) us n

-- ===== src/Shell/Route/There.antt =====
-- The route behind the hash of a page (internal/web/static/base.js).
use poc_cronova_windows.Base.{
  In, In-cons, In→contains, List, Text, [], ap, codes, contains, false, filter, inl, inr, join,
  list_eqb, map, none, not, not-In-nil, refl, some, split-join, subst, true, ℕ, ◌∙◌, ◌∷◌, ◌≡◌, ◌≢◌,
  list_eq, nat_eq,
}
use poc_cronova_windows.Editor.Validate.{is_empty}
use poc_cronova_windows.Shell.Route.{
  Route, ai_providers, api, apply_route, audit, dag, dags, detail_of, graph, hash_of, page_of,
  pools, resources, route_of_segments, run, segments, task, without_hash, wizard, workers,
}

-- The pages that the console shows: ids are not empty, and a tab in a hash is one of two.
pub data IsShown : Route → Type 0 where
  a_dags : IsShown dags
  a_wizard : IsShown wizard
  a_pools : IsShown pools
  a_resources : IsShown resources
  a_graph : IsShown graph
  an_audit : IsShown audit
  a_workers : IsShown workers
  an_api : IsShown api
  an_ai_providers : IsShown ai_providers
  a_run : {id : Text} → id ≢ [] → IsShown (run id)
  a_dag : {id : Text} → id ≢ [] → IsShown (dag id none)
  a_structure : {id : Text} → id ≢ [] → IsShown (dag id (some (codes "structure")))
  a_settings : {id : Text} → id ≢ [] → IsShown (dag id (some (codes "settings")))
  a_task : {id k : Text} → id ≢ [] → k ≢ [] → IsShown (task id k)

absent : (s : Text) (d : ℕ) → contains s d ≡ false → (c : ℕ) → In c s → c ≢ d
absent s d f c m e =
    let t : contains s d ≡ true = subst (λ z. contains s z ≡ true) e (In→contains s m) in cc

full : (s : Text) → s ≢ [] → is_empty s ≡ false
full [] n = absurd (n refl)
full (c ∷ s) n = refl

-- `decode` is the inverse of `encode` and leaves a text without "%" as it is, and `encode` leaves no
-- "/" in a text.
module _ (encode decode : Text → Text) (decode-encode : (s : Text) → decode (encode s) ≡ s)
    (decode-plain : (s : Text) → contains s b'%' ≡ false → decode s ≡ s)
    (encode-free : (s : Text) (c : ℕ) → In c (encode s) → c ≢ b'/') where
  pieces :
      (x : Text) (r : List Text)
      → ((y : Text) → In y (x ∷ r) → (c : ℕ) → In c y → c ≢ b'/')
      → segments decode (b'#' ∷ b'/' ∷ join (codes "/") (x ∷ r))
        ≡ filter (λ s. not (is_empty s)) (map decode (x ∷ r))
  unfolding segments without_hash
  pieces x r free =
      ap (λ (l : List Text). filter (λ s. not (is_empty s)) (map decode l))
        (split-join b'/' x r free)

  two :
      (a id : Text)
      → contains a b'/' ≡ false
      → contains a b'%' ≡ false
      → is_empty a ≡ false
      → id ≢ []
      → segments decode (b'#' ∷ b'/' ∷ join (codes "/") (a ∷ encode id ∷ [])) ≡ a ∷ id ∷ []
  two a id s p n f =
      pieces a (encode id ∷ []) (λ y m. elim ((In-cons y a _).0 m) [
        | inl e ↦ rw e (absent a b'/' s)
        | inr r ↦ elim ((In-cons y (encode id) []).0 r) [
          | inl e ↦ rw e (encode-free id)
          | inr q ↦ absurd (not-In-nil q)
        ]
      ])
      ∙ rw (decode-plain a p, decode-encode id, n, full id f)

  three :
      (a id b : Text)
      → contains a b'/' ≡ false
      → contains a b'%' ≡ false
      → is_empty a ≡ false
      → id ≢ []
      → contains b b'/' ≡ false
      → contains b b'%' ≡ false
      → is_empty b ≡ false
      → segments decode (b'#' ∷ b'/' ∷ join (codes "/") (a ∷ encode id ∷ b ∷ [])) ≡ a ∷ id ∷ b ∷ []
  three a id b s p n f s' p' n' =
      pieces a (encode id ∷ b ∷ []) (λ y m. elim ((In-cons y a _).0 m) [
        | inl e ↦ rw e (absent a b'/' s)
        | inr r ↦ elim ((In-cons y (encode id) _).0 r) [
          | inl e ↦ rw e (encode-free id)
          | inr q ↦ elim ((In-cons y b []).0 q) [
            | inl e ↦ rw e (absent b b'/' s')
            | inr u ↦ absurd (not-In-nil u)
          ]
        ]
      ])
      ∙ rw (decode-plain a p, decode-encode id, decode-plain b p', n, n', full id f)

  four :
      (a id b k : Text)
      → contains a b'/' ≡ false
      → contains a b'%' ≡ false
      → is_empty a ≡ false
      → id ≢ []
      → contains b b'/' ≡ false
      → contains b b'%' ≡ false
      → is_empty b ≡ false
      → k ≢ []
      → segments decode (b'#' ∷ b'/' ∷ join (codes "/") (a ∷ encode id ∷ b ∷ encode k ∷ []))
        ≡ a ∷ id ∷ b ∷ k ∷ []
  four a id b k s p n f s' p' n' f' =
      pieces a (encode id ∷ b ∷ encode k ∷ []) (λ y m. elim ((In-cons y a _).0 m) [
        | inl e ↦ rw e (absent a b'/' s)
        | inr r ↦ elim ((In-cons y (encode id) _).0 r) [
          | inl e ↦ rw e (encode-free id)
          | inr q ↦ elim ((In-cons y b _).0 q) [
            | inl e ↦ rw e (absent b b'/' s')
            | inr u ↦ elim ((In-cons y (encode k) []).0 u) [
              | inl e ↦ rw e (encode-free k)
              | inr v ↦ absurd (not-In-nil v)
            ]
          ]
        ]
      ])
      ∙ rw (
        decode-plain a p,
        decode-encode id,
        decode-plain b p',
        decode-encode k,
        n,
        n',
        full id f,
        full k f',
      )

  one :
      (a : Text)
      → contains a b'/' ≡ false
      → contains a b'%' ≡ false
      → is_empty a ≡ false
      → segments decode (b'#' ∷ b'/' ∷ a) ≡ a ∷ []
  unfolding join
  one a s p n =
      pieces a [] (λ y m. elim ((In-cons y a []).0 m) [
        | inl e ↦ rw e (absent a b'/' s)
        | inr q ↦ absurd (not-In-nil q)
      ])
      ∙ rw (decode-plain a p, n)

  -- The hash that a page sets leads back to that page.
  pub apply_route-hash_of : (r : Route) → IsShown r → apply_route decode (hash_of encode r) ≡ r
  unfolding apply_route hash_of route_of_segments page_of detail_of join list_eqb
  apply_route-hash_of r a_dags = ap route_of_segments (one (codes "dags") refl refl refl)
  apply_route-hash_of r a_wizard = ap route_of_segments (one (codes "new") refl refl refl)
  apply_route-hash_of r a_pools = ap route_of_segments (one (codes "pools") refl refl refl)
  apply_route-hash_of r a_resources = ap route_of_segments (one (codes "resources") refl refl refl)
  apply_route-hash_of r a_graph = ap route_of_segments (one (codes "graph") refl refl refl)
  apply_route-hash_of r an_audit = ap route_of_segments (one (codes "audit") refl refl refl)
  apply_route-hash_of r a_workers = ap route_of_segments (one (codes "workers") refl refl refl)
  apply_route-hash_of r an_api = ap route_of_segments (one (codes "api") refl refl refl)
  apply_route-hash_of r an_ai_providers =
      ap route_of_segments (one (codes "ai-providers") refl refl refl)
  apply_route-hash_of r (a_run {id} f) =
      ap route_of_segments (two (codes "run") id refl refl refl f)
  apply_route-hash_of r (a_dag {id} f) =
      ap route_of_segments (two (codes "dag") id refl refl refl f)
  apply_route-hash_of r (a_structure {id} f) =
      ap route_of_segments
        (three (codes "dag") id (codes "structure") refl refl refl f refl refl refl)
  apply_route-hash_of r (a_settings {id} f) =
      ap route_of_segments
        (three (codes "dag") id (codes "settings") refl refl refl f refl refl refl)
  apply_route-hash_of r (a_task {id} {k} f g) =
      ap route_of_segments
        (four (codes "dag") id (codes "task") k refl refl refl f refl refl refl g)

-- ===== src/Shell/Route.antt =====
-- The routes of the console (internal/web/static/base.js, with the hashes that views.js and builder.js
-- set): `applyRoute` and `setHash`. `encodeURIComponent`, `decodeURIComponent` and the form in which the
-- browser keeps a hash are arguments.
pub mod There
pub mod Moves
use poc_cronova_windows.Base.{
  Bool, List, Option, Text, [], codes, false, filter, if◌then◌else◌, map, none, not, some, split,
  suc, true, ℕ, ◌&&◌, ◌++◌, ◌-◌, ◌==◌, ◌||◌, ◌∷◌, list_eq, nat_eq,
}
use poc_cronova_windows.Editor.Validate.{is_empty}

pub data Route : Type 0 where
  dags wizard pools resources graph audit workers api ai_providers : Route
  run : Text → Route
  dag : Text → Option Text → Route
  task : Text → Text → Route

-- `location.hash.replace(/^#\/?/, "")`.
unfoldable pub without_hash : Text → Text
without_hash [] = []
without_hash (c ∷ []) = if c == b'#' then [] else c ∷ []
without_hash (c ∷ d ∷ s) = if c == b'#' then (if d == b'/' then s else d ∷ s) else c ∷ d ∷ s

unfoldable pub segments : (Text → Text) → Text → List Text
unfolding without_hash
segments decode hash = filter (λ s. not (is_empty s)) (map decode (split b'/' (without_hash hash)))

-- The pages that the first segment alone decides.
unfoldable pub page_of : Text → Option Route
page_of s =
    if s == codes "dags"
    then some dags
    else if s == codes "new"
    then some wizard
    else if s == codes "pools"
    then some pools
    else if s == codes "resources"
    then some resources
    else if s == codes "graph"
    then some graph
    else if s == codes "audit"
    then some audit
    else if s == codes "workers"
    then some workers
    else if s == codes "api"
    then some api
    else if s == codes "ai-providers"
    then some ai_providers
    else none

-- What is left of `applyRoute`.
unfoldable pub detail_of : Text → List Text → Route
detail_of s [] = dags
detail_of s (x ∷ []) =
    if s == codes "run" then run x else if s == codes "dag" then dag x none else dags
detail_of s (x ∷ y ∷ []) =
    if s == codes "run" then run x else if s == codes "dag" then dag x (some y) else dags
detail_of s (x ∷ y ∷ z ∷ r) =
    if s == codes "run"
    then run x
    else if s == codes "dag"
    then (if y == codes "task" then task x z else dag x (some y))
    else dags

unfoldable pub route_of_segments : List Text → Route
unfolding page_of detail_of
route_of_segments [] = dags
route_of_segments (s ∷ r) = elim (page_of s) [ some p ↦ p | none ↦ detail_of s r ]

-- `applyRoute`.
unfoldable pub apply_route : (Text → Text) → Text → Route
unfolding route_of_segments segments
apply_route decode hash = route_of_segments (segments decode hash)

-- The hashes that the pages set when they are shown.
unfoldable pub hash_of : (Text → Text) → Route → Text
hash_of encode dags = codes "#/dags"
hash_of encode wizard = codes "#/new"
hash_of encode pools = codes "#/pools"
hash_of encode resources = codes "#/resources"
hash_of encode graph = codes "#/graph"
hash_of encode audit = codes "#/audit"
hash_of encode workers = codes "#/workers"
hash_of encode api = codes "#/api"
hash_of encode ai_providers = codes "#/ai-providers"
hash_of encode (run id) = codes "#/run/" ++ encode id
hash_of encode (dag id none) = codes "#/dag/" ++ encode id
hash_of encode (dag id (some tab)) = codes "#/dag/" ++ (encode id ++ (codes "/" ++ tab))
hash_of encode (task id k) = codes "#/dag/" ++ (encode id ++ (codes "/task/" ++ encode k))

-- The location: its hash, whether the next "hashchange" is suppressed, and the events that wait.
pub record Location : Type 0 where
  pub hash : Text
  pub suppress : Bool
  pub queued : ℕ

-- The browser keeps a hash in its own form (`keep`, an argument), and queues no event when the form is
-- that of the current hash.
module _ (keep : Text → Text) where
  -- `location.hash = h`, or a link to `h`.
  unfoldable pub go_to_hash : Text → Location → Location
  go_to_hash h l = if l.hash == keep h then l else record l { hash = keep h; queued = suc l.queued }

  -- `setHash`: an entry that is replaced queues no event; for a new one the next event is to be
  -- suppressed.
  unfoldable pub set_hash : Text → Bool → Location → Location
  unfolding go_to_hash
  set_hash h replace l =
      if l.hash == h
      then l
      else (if replace
          then record l { hash = keep h }
          else go_to_hash h (record l { suppress = true }))

  -- The user goes to another entry: a link, the address bar, Back or Forward.
  unfoldable pub follow : Text → Location → Location
  unfolding go_to_hash
  follow h l = go_to_hash h l

-- The handler of "hashchange": the location behind it, and whether it applies the route.
unfoldable pub on_hashchange : Location → Location × Bool
on_hashchange l =
    if l.suppress
    then (record l { suppress = false; queued = l.queued - 1 }, false)
    else (record l { queued = l.queued - 1 }, true)

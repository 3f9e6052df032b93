-- ===== src/Shell/Route/Moves.antt =====
-- Navigation by the pages and by the user (internal/web/static/base.js):
-- the suppression of "hashchange".
use poc_cronova_windows.Base.{
  Bool, Bool-cases, Text, arith, false, if_elim, inl, inr, text_iff, true, ◌<◌, ◌==◌, ◌≡◌, ◌≢◌,
  ≢→eq, list_eq, nat_eq,
}
use poc_cronova_windows.Shell.Route.{Location, follow, go_to_hash, on_hashchange, set_hash}

module _ (keep : Text → Text) where
  -- What changes the location: the pages, with hashes that the browser keeps as they are, the user, and
  -- the events that are delivered.
  pub data Move : Location → Location → Type 0 where
    set :
        {l : Location} (h : Text) (replace : Bool) → keep h ≡ h → Move l (set_hash keep h replace l)
    go : {l : Location} (h : Text) → Move l (follow keep h l)
    event : {l : Location} → 0 < l.queued → Move l (on_hashchange l).0

  pub data Moves (l : Location) : Location → Type 0 where
    done : Moves l l
    next : {m n : Location} → Moves l m → Move m n → Moves l n

-- A suppression is about an event that waits.
abbrev IsAwaited : Location → Type 0
IsAwaited l = l.suppress ≡ true → 0 < l.queued

module _ (keep : Text → Text) where
  Move-IsAwaited : {l m : Location} → Move keep l m → IsAwaited l → IsAwaited m
  unfolding set_hash go_to_hash follow on_hashchange
  Move-IsAwaited (set {l} h replace k) a =
      if_elim IsAwaited (l.hash == h) _ _ (λ t. a)
        (λ f.
          if_elim IsAwaited replace _ _ (λ t. a)
            (λ q.
              if_elim IsAwaited (l.hash == keep h) _ _
                (λ t. let same : (l.hash == h) ≡ true = rw k at t in absurd (cc))
                (λ n e. omega arith)))
  Move-IsAwaited (go {l} h) a =
      if_elim IsAwaited (l.hash == keep h) _ _ (λ t. a) (λ f e. omega arith)
  Move-IsAwaited (event {l} q) a = elim (Bool-cases l.suppress) [
    | inl t ↦ rw (on_hashchange, t) (λ e. absurd (cc))
    | inr f ↦ rw (on_hashchange, f) (λ e. absurd (cc))
  ]

  Moves-IsAwaited : {l m : Location} → Moves keep l m → IsAwaited l → IsAwaited m
  Moves-IsAwaited done a = a
  Moves-IsAwaited (next ms m) a = Move-IsAwaited m (Moves-IsAwaited ms a)

  -- However the user has navigated from the start, and the pages with hashes that the browser keeps as
  -- they are: once no event waits, a navigation of the user to another hash applies its route.
  pub follow-routes :
      (h start : Text) {l : Location}
      → Moves keep (record { hash = start; suppress = false; queued = 0 }) l
      → l.queued ≡ 0
      → l.hash ≢ keep h
      → (on_hashchange (follow keep h l)).1 ≡ true
  unfolding on_hashchange follow go_to_hash
  follow-routes h start {l} ms q ne =
      let a = Moves-IsAwaited ms (λ e. absurd (cc)) in
      let other : (l.hash == keep h) ≡ false = ≢→eq l.hash (keep h) ne in
      elim (Bool-cases l.suppress) [
        | inl t ↦ let b = a t in absurd (omega arith)
        | inr f ↦ rw (follow, go_to_hash, other, on_hashchange, f)
      ]

  -- A page that sets a hash which the browser keeps in the form of the current one, though it is not
  -- written so, changes nothing else but leaves a suppression without an event: the next navigation of
  -- the user to another hash, and only that one, applies no route.
  pub set_hash-swallows :
      (h g : Text) (l : Location)
      → l.queued ≡ 0
      → l.hash ≢ h
      → l.hash ≡ keep h
      → l.hash ≢ keep g
      → (set_hash keep h false l ≡ record l { suppress = true })
        × ((on_hashchange (follow keep g (set_hash keep h false l))).1 ≡ false)
        × ((on_hashchange (follow keep g (set_hash keep h false l))).0
            ≡ record { hash = keep g; suppress = false; queued = 0 })
  unfolding on_hashchange follow go_to_hash set_hash
  set_hash-swallows h g l q ne same other =
      let n : (l.hash == h) ≡ false = ≢→eq l.hash h ne in
      let s : (l.hash == keep h) ≡ true = (text_iff l.hash (keep h)).1 same in
      let o : (l.hash == keep g) ≡ false = ≢→eq l.hash (keep g) other in
      let set : set_hash keep h false l ≡ record l { suppress = true } =
        rw (set_hash, n, go_to_hash, s) in
      (set, rw (set, follow, go_to_hash, o), rw (set, follow, go_to_hash, o) (rw q))

-- ===== src/Shell/Access/Gate.antt =====
-- Who is known while the app runs, and how long a choice of the mode lasts
-- (internal/web/static/base.js).
use poc_cronova_windows.Base.{
  Bool-cases, Option, Option-cases, arith, codes, if_elim, if◌then◌else◌, inl, inr, none, not, refl,
  some, sym, true, ℕ, ◌==◌, ◌||◌, ◌≡◌, ◌≢◌, ◌-◌, ◌∙◌, ◌<◌, list_eq, nat_eq,
}
use poc_cronova_windows.Editor.Validate.{is_empty}
use poc_cronova_windows.Shell.Access.{
  Answer, Login, LoginError, expert, form, inferred, infer_mode, is_over, novice, implicit_admin,
  Shell, UiMode, User, chip_of, closed, do_logout, expire, go_on, init_auth, loaded, login_answered,
  me_answered, ok, refused, render_user_chip, resolve_mode, same_mode, set_mode, show_login,
  start_app, with_error,
}

-- What happens to the page: an answer arrives to a sign-in, to a request for the user or to one for
-- the overview; the user signs out; a request finds the session over; the mode is switched.
pub data Event : Shell → Shell → Type 0 where
  signed_in : {s : Shell} (login : Answer (Unit {0})) → Event s (login_answered login s)
  asked : {s : Shell} (me : Answer User) → 0 < s.asking → Event s (me_answered me s)
  chosen : {s : Shell} (overview : Answer ℕ) → 0 < s.choosing → Event s (start_app overview s)
  signed_out : {s : Shell} → Event s (do_logout s)
  expired : {s : Shell} → Event s (expire s)
  switched : {s : Shell} (m : UiMode) → Event s (set_mode m s)

pub data Events (s : Shell) : Shell → Type 0 where
  done : Events s s
  next : {t u : Shell} → Events s t → Event t u → Events s u

-- Once the app runs there is a mode. Where no form is shown there is a user, or a request for one
-- waits.
record IsGuarded (s : Shell) : Type 0 where
  moded : s.started ≡ true → (m : UiMode) × (s.mode ≡ some m)
  known : s.login ≡ closed → s.asking ≡ 0 → (u : User) × (s.user ≡ some u)

render_user_chip-same :
    (s : Shell)
    → ((render_user_chip s).user ≡ s.user)
      × ((render_user_chip s).started ≡ s.started)
      × ((render_user_chip s).mode ≡ s.mode)
      × ((render_user_chip s).login ≡ s.login)
unfolding render_user_chip chip_of
render_user_chip-same s = elim (Option-cases s.user) [
  | inl e ↦ (
    rw (render_user_chip, e) e,
    rw (render_user_chip, e),
    rw (render_user_chip, e),
    rw (render_user_chip, e),
  )
  | inr (u, e) ↦ elim (Bool-cases (not u.auth || is_empty u.username)) [
    | inl t ↦ (
      rw (render_user_chip, e, chip_of, t) e,
      rw (render_user_chip, e, chip_of, t),
      rw (render_user_chip, e, chip_of, t),
      rw (render_user_chip, e, chip_of, t),
    )
    | inr t ↦ (
      rw (render_user_chip, e, chip_of, t) e,
      rw (render_user_chip, e, chip_of, t),
      rw (render_user_chip, e, chip_of, t),
      rw (render_user_chip, e, chip_of, t),
    )
  ]
]

expire-IsGuarded : (s : Shell) → IsGuarded s → IsGuarded (expire s)
unfolding expire show_login
expire-IsGuarded s h = elim (Option-cases s.user) [
  | inl e ↦ rw (expire, e) h
  | inr (u, e) ↦ rw (expire, e) (record { moded = h.moded; known = λ q. absurd (cc) })
]

-- A mode is set, and nothing else changes.
with_mode-IsGuarded :
    (m : UiMode) (s : Shell) → IsGuarded s → IsGuarded (record s { mode = some m })
with_mode-IsGuarded m s h = record { moded = λ _. (m, refl); known = h.known }

infer_mode-IsGuarded :
    (overview : Answer ℕ) (s : Shell) → IsGuarded s → IsGuarded (infer_mode overview s)
unfolding infer_mode
infer_mode-IsGuarded overview s h =
    if_elim (λ (t : Shell). IsGuarded (record t { mode = some (inferred overview) }))
      (is_over overview) _ _
      (λ t. with_mode-IsGuarded (inferred overview) (expire s) (expire-IsGuarded s h))
      (λ f. with_mode-IsGuarded (inferred overview) s h)

resolve_mode-some :
    (overview : Answer ℕ) (s : Shell) → (m : UiMode) × ((resolve_mode overview s).mode ≡ some m)
unfolding resolve_mode infer_mode
resolve_mode-some overview s = elim (Option-cases s.stored) [
  | inl e ↦ (inferred overview, rw (resolve_mode, e))
  | inr (m, e) ↦ (m, rw (resolve_mode, e))
]

resolve_mode-IsGuarded :
    (overview : Answer ℕ) (s : Shell) → IsGuarded s → IsGuarded (resolve_mode overview s)
unfolding resolve_mode
resolve_mode-IsGuarded overview s h = elim (Option-cases s.stored) [
  | inl e ↦ rw (resolve_mode, e) (infer_mode-IsGuarded overview s h)
  | inr (m, e) ↦ rw (resolve_mode, e) (with_mode-IsGuarded m s h)
]

start_app-IsGuarded :
    (overview : Answer ℕ) (s : Shell) → IsGuarded s → IsGuarded (start_app overview s)
unfolding start_app
start_app-IsGuarded overview s h =
    let t : Shell = record s { choosing = s.choosing - 1 } in
    let r = resolve_mode-IsGuarded overview t (record { moded = h.moded; known = h.known }) in
    record { moded = λ _. resolve_mode-some overview t; known = r.known }

-- An answer about the user: there is a user from now on, or the form is shown.
init_auth-IsGuarded :
    (me : Answer User) (s : Shell)
    → (s.started ≡ true → (m : UiMode) × (s.mode ≡ some m))
    → IsGuarded (go_on (init_auth me s))
unfolding go_on init_auth show_login
init_auth-IsGuarded (ok u) s h =
    let t : Shell = record s {
      user = some u;
      body_role = if is_empty u.role then codes "admin" else u.role;
    } in
    let (user, run, mode, login) = render_user_chip-same t in
    record { moded = λ p. let (m, e) = h (sym run ∙ p) in (m, mode ∙ e); known = λ _ _. (u, user) }
init_auth-IsGuarded (refused status m) s h = elim (Bool-cases (status == 401)) [
  | inl t ↦ rw t (record { moded = h; known = λ q. absurd (cc) })
  | inr f ↦ rw f (record { moded = h; known = λ _ _. (implicit_admin, refl) })
]

with_error-closed : (e : LoginError) (l : Login) → with_error e l ≡ closed → l ≡ closed
with_error-closed e closed h = refl
with_error-closed e (form x m) h = cc

Event-IsGuarded : {s t : Shell} → Event s t → IsGuarded s → IsGuarded t
unfolding login_answered me_answered do_logout show_login set_mode
Event-IsGuarded (signed_in {s} (ok x)) h = record {
  moded = h.moded;
  known = λ _ q. absurd (omega arith);
}
Event-IsGuarded (signed_in {s} (refused status m)) h = record {
  moded = h.moded;
  known = λ q. h.known (with_error-closed _ s.login q);
}
Event-IsGuarded (asked {s} me p) h =
    init_auth-IsGuarded me (record s { asking = s.asking - 1 }) h.moded
Event-IsGuarded (chosen {s} overview p) h = start_app-IsGuarded overview s h
Event-IsGuarded signed_out h = record { moded = h.moded; known = λ q. absurd (cc) }
Event-IsGuarded (expired {s}) h = expire-IsGuarded s h
Event-IsGuarded (switched {s} m) h =
    if_elim IsGuarded (same_mode m s.mode) _ _ (λ t. h)
      (λ f.
        with_mode-IsGuarded m (record s { stored = some m })
          (record { moded = h.moded; known = h.known }))

Events-IsGuarded : {s t : Shell} → Events s t → IsGuarded s → IsGuarded t
Events-IsGuarded done h = h
Events-IsGuarded (next es e) h = Event-IsGuarded e (Events-IsGuarded es h)

-- Whatever happens from the loading of the page on, once the app runs a mode is known, and where no
-- form is shown and no request for the user waits, a user is known too.
pub guarded :
    (st : Option UiMode) {s : Shell}
    → Events (loaded st) s
    → s.started ≡ true
    → ((m : UiMode) × (s.mode ≡ some m))
      × (s.login ≡ closed → s.asking ≡ 0 → (u : User) × (s.user ≡ some u))
unfolding loaded
guarded st es b =
    let start : IsGuarded (loaded st) = record {
      moded = λ q. absurd (cc);
      known = λ _ q. absurd (omega arith);
    } in
    let h = Events-IsGuarded es start in (h.moded b, h.known)

same : (m : UiMode) (o : Option UiMode) → same_mode m o ≡ true → o ≡ some m
unfolding same_mode
same novice (some novice) h = refl
same expert (some expert) h = refl
same novice (some expert) h = cc
same expert (some novice) h = cc
same novice none h = cc
same expert none h = cc

-- The choice of another mode is kept: when the page is loaded again, it has that mode, whatever the
-- server answers.
pub resolve_mode-set_mode :
    (m : UiMode) (s : Shell) (overview : Answer ℕ)
    → s.mode ≢ some m
    → (resolve_mode overview (loaded (set_mode m s).stored)).mode ≡ some m
unfolding resolve_mode infer_mode set_mode same_mode loaded
resolve_mode-set_mode novice s overview ne = elim (Bool-cases (same_mode novice s.mode)) [
  | inl t ↦ absurd (ne (same novice s.mode t))
  | inr f ↦ rw (set_mode, f)
]
resolve_mode-set_mode expert s overview ne = elim (Bool-cases (same_mode expert s.mode)) [
  | inl t ↦ absurd (ne (same expert s.mode t))
  | inr f ↦ rw (set_mode, f)
]

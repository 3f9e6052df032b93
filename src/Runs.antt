-- ===== src/Runs.antt =====
-- The page of a run and its polls (internal/web/static/views.js): `showRun`, `startRunPoll` and their
-- counterparts for the novices, `showRunNovice` and `startNovRunPoll`, which share `runPollGen`.
pub mod Polls
use poc_cronova_windows.Base.{
  Bool, List, Option, Text, [], false, filter, get_elem?, if◌then◌else◌, none, not, some, suc, true,
  zero, ℕ, ◌&&◌, ◌==◌, ◌∷◌, list_eq, nat_eq,
}

-- A call of `showRun` that waits for its data, or an interval: the run and the generation.
pub record Watch : Type 0 where
  pub run : Text
  pub gen : ℕ

-- `view === "run"`, `currentRun`, `runPollGen`, the generation of the interval in `runPoll`, the calls
-- that wait, the intervals that are set, and the run whose data is drawn.
pub record RunPage : Type 0 where
  pub view_run : Bool
  pub current : Text
  pub gen : ℕ
  pub run_poll : Option ℕ
  pub opening : List Watch
  pub polls : List Watch
  pub drawn : Option Text

unfoldable pub no_page : RunPage
no_page = record {
  view_run = false;
  current = [];
  gen = 0;
  run_poll = none;
  opening = [];
  polls = [];
  drawn = none;
}

unfoldable pub remove_at : ℕ → List Watch → List Watch
remove_at n [] = []
remove_at zero (w ∷ ws) = ws
remove_at (suc n) (w ∷ ws) = w ∷ remove_at n ws

-- `clearInterval(runPoll)`.
unfoldable pub clear_poll : Option ℕ → List Watch → List Watch
clear_poll none ws = ws
clear_poll (some g) ws = filter (λ (w : Watch). not (w.gen == g)) ws

-- `showRun` up to its first wait.
unfoldable pub show_run : Text → RunPage → RunPage
unfolding clear_poll
show_run k p = record p {
  view_run = true;
  current = k;
  gen = suc p.gen;
  opening = record { run = k; gen = suc p.gen } ∷ p.opening;
  polls = clear_poll p.run_poll p.polls;
}

-- The rest of `showRun` when the data of the n-th waiting call have arrived, which are those of the run
-- and of its workflow; a live run is polled. Nothing
-- is asked about the page before it is drawn.
abbrev pub drawn_by : Watch → Bool → RunPage → RunPage
drawn_by w live p =
    if live
    then record p { drawn = some w.run; polls = w ∷ p.polls; run_poll = some w.gen }
    else record p { drawn = some w.run }

unfoldable pub arrive : ℕ → Bool → RunPage → RunPage
unfolding remove_at
arrive n live p = elim (get_elem? p.opening n) [
  | none ↦ p
  | some w ↦ drawn_by w live (record p { opening = remove_at n p.opening })
]

-- The data could not be fetched: the page shows the error.
unfoldable pub fail : ℕ → RunPage → RunPage
unfolding remove_at
fail n p = record p { opening = remove_at n p.opening; drawn = none }

-- Another page is shown.
unfoldable pub leave : RunPage → RunPage
leave p = record p { view_run = false; drawn = none }

-- The guard of an interval, before its request and behind it.
unfoldable pub is_wanted : RunPage → Watch → Bool
is_wanted p w = w.gen == p.gen && (p.view_run && w.run == p.current)

-- The n-th interval ticks: it ends or sends its request.
abbrev pub end_poll : ℕ → RunPage → RunPage
end_poll n p = record p { polls = remove_at n p.polls }

unfoldable pub tick : ℕ → RunPage → RunPage
unfolding is_wanted remove_at
tick n p = elim (get_elem? p.polls n) [
  | none ↦ p
  | some w ↦ if is_wanted p w then p else end_poll n p
]

-- Its answer arrives; the interval of a run that is over ends.
unfoldable pub polled : ℕ → Bool → RunPage → RunPage
unfolding is_wanted remove_at
polled n live p = elim (get_elem? p.polls n) [
  | none ↦ p
  | some w ↦
      if is_wanted p w
      then (if live
          then record p { drawn = some w.run }
          else end_poll n (record p { drawn = some w.run }))
      else end_poll n p
]

-- ===== src/Samples/Watches.antt =====
-- The theorems on the page of a run applied at small inputs.
use poc_cronova_windows.Base.{
  List, [], codes, false, filter, length, refl, some, true, ◌∷◌, ◌≡◌, ◌≤◌,
}
use poc_cronova_windows.Runs.{arrive, is_wanted, no_page, show_run}
use poc_cronova_windows.Runs.Polls.{
  Event, answered, arrived, happen_all, late_run_drawn, one_poll, shown, ticked,
}

abbrev events : List Event
events =
    shown (codes "r1")
    ∷ shown (codes "r2")
    ∷ arrived 0 true
    ∷ arrived 0 true
    ∷ ticked 0
    ∷ answered 0 true
    ∷ []

one_poll_example :
    length (filter (is_wanted (happen_all events no_page)) (happen_all events no_page).polls) ≤ 1
one_poll_example = one_poll events (happen_all events no_page) refl

late_run_drawn_example :
    let q =
      arrive 0 false (arrive 0 true (show_run (codes "r2") (show_run (codes "r1") no_page))) in
    (q.current ≡ codes "r2") × (q.drawn ≡ some (codes "r1"))
late_run_drawn_example = late_run_drawn (codes "r1") (codes "r2") true no_page

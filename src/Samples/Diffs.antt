-- ===== src/Samples/Diffs.antt =====
-- The line diff at small texts.
use poc_cronova_windows.Base.{
  List, Text, [], codes, false, list_eqb, refl, ◌↔◌, ◌∷◌, ◌≡◌, ◌≤◌, list_eq, nat_eq,
}
use poc_cronova_windows.Diff.{
  Row, diff_lists, diff_lines, any_change, add, del, fill, fill_row, same, walk,
}
use poc_cronova_windows.Diff.Lcs.{old_lines, changes, new_lines}
use poc_cronova_windows.Diff.Minimal.{diff_lists-minimal, any_change-diff_lines}

abbrev before : List Text
before = codes "a" ∷ codes "b" ∷ codes "c" ∷ []

abbrev after : List Text
after = codes "a" ∷ codes "c" ∷ codes "d" ∷ []

diff-before :
    diff_lists before after
    ≡ same (codes "a") ∷ del (codes "b") ∷ same (codes "c") ∷ add (codes "d") ∷ []
unfolding diff_lists walk fill fill_row list_eqb
diff-before = refl

diff_lists-minimal_example :
    (old_lines (diff_lists before after) ≡ before)
    × (new_lines (diff_lists before after) ≡ after)
    × ((rs : List Row)
        → old_lines rs ≡ before
        → new_lines rs ≡ after
        → changes (diff_lists before after) ≤ changes rs)
diff_lists-minimal_example = diff_lists-minimal before after

any_change-diff_lines_example :
    (any_change (diff_lines (codes "a") (codes "b")) ≡ false) ↔ (codes "a" ≡ codes "b")
any_change-diff_lines_example = any_change-diff_lines (codes "a") (codes "b")

-- ===== src/Words/Polish.antt =====
-- `DICT.pl` (internal/web/static/base.js) as its parts, in the order of the source.
pub mod Part1
pub mod Part2
pub mod Part3
pub mod Part4
pub mod Part5
pub mod Part6
pub mod Part7
pub mod Part8
use poc_cronova_windows.Base.{List, ◌++◌}
use poc_cronova_windows.Words.Phrase.{Entry}
use poc_cronova_windows.Words.Polish.Part1.{polish_1}
use poc_cronova_windows.Words.Polish.Part2.{polish_2}
use poc_cronova_windows.Words.Polish.Part3.{polish_3}
use poc_cronova_windows.Words.Polish.Part4.{polish_4}
use poc_cronova_windows.Words.Polish.Part5.{polish_5}
use poc_cronova_windows.Words.Polish.Part6.{polish_6}
use poc_cronova_windows.Words.Polish.Part7.{polish_7}
use poc_cronova_windows.Words.Polish.Part8.{polish_8}

unfoldable pub polish : List Entry
unfolding polish_1 polish_2 polish_3 polish_4 polish_5 polish_6 polish_7 polish_8
polish =
    polish_1
    ++ (polish_2
        ++ (polish_3 ++ (polish_4 ++ (polish_5 ++ (polish_6 ++ (polish_7 ++ (polish_8)))))))

-- ===== src/Words/English.antt =====
-- `DICT.en` (internal/web/static/base.js) as its parts, in the order of the source.
pub mod Part1
pub mod Part2
pub mod Part3
pub mod Part4
pub mod Part5
pub mod Part6
pub mod Part7
pub mod Part8
use poc_cronova_windows.Base.{List, ◌++◌}
use poc_cronova_windows.Words.Phrase.{Entry}
use poc_cronova_windows.Words.English.Part1.{english_1}
use poc_cronova_windows.Words.English.Part2.{english_2}
use poc_cronova_windows.Words.English.Part3.{english_3}
use poc_cronova_windows.Words.English.Part4.{english_4}
use poc_cronova_windows.Words.English.Part5.{english_5}
use poc_cronova_windows.Words.English.Part6.{english_6}
use poc_cronova_windows.Words.English.Part7.{english_7}
use poc_cronova_windows.Words.English.Part8.{english_8}

unfoldable pub english : List Entry
unfolding english_1 english_2 english_3 english_4 english_5 english_6 english_7 english_8
english =
    english_1
    ++ (english_2
        ++ (english_3 ++ (english_4 ++ (english_5 ++ (english_6 ++ (english_7 ++ (english_8)))))))

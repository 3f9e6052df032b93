-- ===== src/Words/Labels.antt =====
-- The functions that look up the texts of the console (internal/web/static/base.js): `t`,
-- `stateLabel`, `typeLabel`, `nextLabel`, `descLabel`. A key is taken to be none of the names that
-- every object inherits.
use poc_cronova_windows.Base.{
  List, Option, Text, [], codes, if◌then◌else◌, none, not, some, span_digits, strip_prefix, suc,
  zero, ℕ, ◌&&◌, ◌==◌, ◌∷◌, list_eq, nat_eq,
}
use poc_cronova_windows.Words.Phrase.{Entry, Phrase, Value, of_one, of_two, plain, text, undefined}
use poc_cronova_windows.Words.Polish.{polish}
use poc_cronova_windows.Words.English.{english}

-- `lang`.
pub data Language : Type 0 where
  in_polish : Language
  in_english : Language

-- A property of an object literal without repeated keys.
unfoldable pub entry_of : List Entry → Text → Option Phrase
entry_of [] k = none
entry_of (e ∷ es) k = if e.key == k then some e.phrase else entry_of es k

-- `a ?? b`.
unfoldable pub or_else {ℓ} : {A : Type ℓ} → Option A → Option A → Option A
or_else (some a) b = some a
or_else none b = b

-- The i-th argument of a call.
unfoldable pub argument : ℕ → List Value → Value
argument i [] = undefined
argument zero (v ∷ vs) = v
argument (suc i) (v ∷ vs) = argument i vs

-- `typeof v === "function" ? v(...a) : v`.
unfoldable pub spoken : Phrase → List Value → Text
unfolding argument
spoken (plain s) vs = s
spoken (of_one f) vs = f (argument 0 vs)
spoken (of_two f) vs = f (argument 0 vs) (argument 1 vs)

unfoldable pub dict : Language → List Entry
dict in_polish = polish
dict in_english = english

unfoldable pub t : Language → Text → List Value → Text
unfolding entry_of or_else dict spoken
t l k vs =
    let found = or_else (entry_of (dict l) k) (or_else (entry_of polish k) (entry_of english k)) in
    elim found [ some p ↦ spoken p vs | none ↦ k ]

-- `STATE` and `TYPEL`.
unfoldable pub states_pl : List (Text × Text)
states_pl =
    (codes "success", codes "sukces")
    ∷ (codes "failed", codes "błąd")
    ∷ (codes "running", codes "trwa")
    ∷ (codes "queued", codes "w kolejce")
    ∷ (codes "scheduled", codes "zaplanowane")
    ∷ (codes "up_for_retry", codes "ponawianie")
    ∷ (codes "upstream_failed", codes "błąd nadrzędnego")
    ∷ (codes "skipped", codes "pominięte")
    ∷ (codes "cancelled", codes "anulowane")
    ∷ (codes "timed_out", codes "przekroczono czas")
    ∷ (codes "", codes "brak uruchomień")
    ∷ (codes "none", codes "brak uruchomień")
    ∷ []

unfoldable pub states_en : List (Text × Text)
states_en =
    (codes "success", codes "success")
    ∷ (codes "failed", codes "failed")
    ∷ (codes "running", codes "running")
    ∷ (codes "queued", codes "queued")
    ∷ (codes "scheduled", codes "scheduled")
    ∷ (codes "up_for_retry", codes "retrying")
    ∷ (codes "upstream_failed", codes "upstream failed")
    ∷ (codes "skipped", codes "skipped")
    ∷ (codes "cancelled", codes "cancelled")
    ∷ (codes "timed_out", codes "timed out")
    ∷ (codes "", codes "no runs")
    ∷ (codes "none", codes "no runs")
    ∷ []

unfoldable pub types_pl : List (Text × Text)
types_pl =
    (codes "schedule", codes "zaplanowane")
    ∷ (codes "manual", codes "ręczne")
    ∷ (codes "dependency", codes "zależność")
    ∷ (codes "event", codes "zdarzenie")
    ∷ (codes "backfill", codes "uzupełnienie")
    ∷ (codes "subdag", codes "podprzepływ")
    ∷ []

unfoldable pub types_en : List (Text × Text)
types_en =
    (codes "schedule", codes "scheduled")
    ∷ (codes "manual", codes "manual")
    ∷ (codes "dependency", codes "dependency")
    ∷ (codes "event", codes "event")
    ∷ (codes "backfill", codes "backfill")
    ∷ (codes "subdag", codes "sub-workflow")
    ∷ []

-- A property of one of the label tables.
unfoldable pub label_of : List (Text × Text) → Text → Option Text
label_of [] k = none
label_of (e ∷ es) k = if e.0 == k then some e.1 else label_of es k

unfoldable pub label_in : Language → List (Text × Text) → List (Text × Text) → Text → Text
unfolding label_of or_else
label_in l in_pl in_en s =
    let own : Option Text = elim l [
      | in_polish ↦ label_of in_pl s
      | in_english ↦ label_of in_en s
    ] in
    elim (or_else own (or_else (label_of in_pl s) (label_of in_en s))) [ some v ↦ v | none ↦ s ]

unfoldable pub state_label : Language → Text → Text
unfolding label_in states_pl states_en
state_label l = label_in l states_pl states_en

unfoldable pub type_label : Language → Text → Text
unfolding label_in types_pl types_en
type_label l = label_in l types_pl types_en

-- `/^in (\d+)m$/.exec(s)`, as the digits.
unfoldable pub match_minutes : Text → Option Text
match_minutes s = elim (strip_prefix (codes "in ") s) [
  | none ↦ none
  | some rest ↦
      let (digits, after) = span_digits rest in
      if not (digits == []) && after == codes "m" then some digits else none
]

unfoldable pub next_label : Language → Text → Text
unfolding t match_minutes
next_label l s =
    if s == codes "paused"
    then t l (codes "nx_paused") []
    else if s == codes "due"
    then t l (codes "nx_due") []
    else elim (match_minutes s) [ some m ↦ t l (codes "nx_in") (text m ∷ []) | none ↦ s ]

unfoldable pub desc_label : Language → Text → Text
unfolding t
desc_label l d = if d == codes "manual trigger" then t l (codes "manual_trigger") [] else d

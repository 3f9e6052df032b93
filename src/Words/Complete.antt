-- ===== src/Words/Complete.antt =====
-- The two dictionaries of the console (internal/web/static/base.js) beside each other: keys and arities.
use poc_cronova_windows.Base.{
  &&_parts, Bool, Bool-cases, List, Option, Option-cases, Text, [], ap, codes, contains, false,
  if◌then◌else◌, inl, inr, list_eqb, nat_eqb, nat_eqb_iff, none, refl, some, subst, sym, text_iff,
  true, ℕ, ◌&&◌, ◌==◌, ◌||◌, ◌∙◌, ◌∷◌, ◌≡◌, list_eq, nat_eq,
}
use poc_cronova_windows.Words.Phrase.{Entry, Phrase, of_one, of_two, plain, Value}
use poc_cronova_windows.Words.Polish.{polish}
use poc_cronova_windows.Words.English.{english}
use poc_cronova_windows.Words.Labels.{
  entry_of, Language, dict, in_english, in_polish, or_else, spoken, t,
}

unfoldable has_key : List Entry → Text → Bool
has_key [] k = false
has_key (e ∷ es) k = e.key == k || has_key es k

-- The number of arguments that a phrase takes.
unfoldable pub arity : Phrase → ℕ
arity (plain s) = 0
arity (of_one f) = 1
arity (of_two f) = 2

-- Whether two dictionaries list the same keys in the same order and with the same numbers of
-- arguments, but for the `gaps` of the second.
unfoldable aligned : List Text → List Entry → List Entry → Bool
unfolding arity
aligned gaps [] [] = true
aligned gaps [] (f ∷ fs) = false
aligned gaps (e ∷ es) [] = contains gaps e.key && aligned gaps es []
aligned gaps (e ∷ es) (f ∷ fs) =
    let skip = aligned gaps es (f ∷ fs) in
    let both = aligned gaps es fs in
    if contains gaps e.key
    then skip
    else e.key == f.key && (nat_eqb (arity e.phrase) (arity f.phrase) && both)

-- The keys that only the Polish dictionary has.
abbrev pub gaps : List Text
gaps = codes "tpl_etl_m" ∷ codes "tpl_report_m" ∷ []

polish-english-aligned : aligned gaps polish english ≡ true
unfolding aligned polish english list_eqb
polish-english-aligned = refl

abbrev pub arity_of : List Entry → Text → Option ℕ
arity_of es k = elim (entry_of es k) [ none ↦ none | some p ↦ some (arity p) ]

aligned-step :
    (g : List Text) (e f : Entry) (es fs : List Entry)
    → aligned g (e ∷ es) (f ∷ fs) ≡ true
    → contains g e.key ≡ false
    → ((e.key ≡ f.key) × (arity e.phrase ≡ arity f.phrase)) × (aligned g es fs ≡ true)
unfolding aligned arity
aligned-step g e f es fs a keep =
    let (same, rest) = &&_parts (e.key == f.key) _ (rw keep at a) in
    let (args, tail) = &&_parts (nat_eqb (arity e.phrase) (arity f.phrase)) _ rest in
    (((text_iff e.key f.key).0 same, (nat_eqb_iff _ _).0 args), tail)

aligned-none :
    (g : List Text) (k : Text) (es fs : List Entry)
    → aligned g es fs ≡ true
    → contains g k ≡ true
    → entry_of fs k ≡ none
unfolding aligned entry_of
aligned-none g k [] [] a c = refl
aligned-none g k [] (f ∷ fs) a c = cc
aligned-none g k (e ∷ es) [] a c = refl
aligned-none g k (e ∷ es) (f ∷ fs) a c = elim (Bool-cases (contains g e.key)) [
  | inl skip ↦ aligned-none g k es (f ∷ fs) (rw skip at a) c
  | inr keep ↦
      let (same, tail) = aligned-step g e f es fs a keep in
      elim (Bool-cases (f.key == k)) [
        | inl hit ↦ let p = same.0 ∙ (text_iff f.key k).0 hit in absurd (cc (ap (contains g) p))
        | inr miss ↦ rw miss (aligned-none g k es fs tail c)
      ]
]

aligned-arity :
    (g : List Text) (k : Text) (es fs : List Entry)
    → aligned g es fs ≡ true
    → contains g k ≡ false
    → arity_of es k ≡ arity_of fs k
unfolding aligned entry_of arity
aligned-arity g k [] [] a c = refl
aligned-arity g k [] (f ∷ fs) a c = cc
aligned-arity g k (e ∷ es) [] a c = elim (Bool-cases (e.key == k)) [
  | inl hit ↦
      let p = (text_iff e.key k).0 hit in
      absurd (cc (ap (contains g) p, (&&_parts (contains g e.key) (aligned g es []) a).0))
  | inr miss ↦
      rw (arity_of, miss)
        (aligned-arity g k es [] (&&_parts (contains g e.key) (aligned g es []) a).1 c)
]
aligned-arity g k (e ∷ es) (f ∷ fs) a c = elim (Bool-cases (contains g e.key)) [
  | inl skip ↦ elim (Bool-cases (e.key == k)) [
    | inl hit ↦ absurd (cc (ap (contains g) ((text_iff e.key k).0 hit)))
    | inr miss ↦ rw (arity_of, miss) (aligned-arity g k es (f ∷ fs) (rw skip at a) c)
  ]
  | inr keep ↦
      let (same, tail) = aligned-step g e f es fs a keep in
      let names : (e.key == k) ≡ (f.key == k) = ap (λ j. j == k) same.0 in
      elim (Bool-cases (f.key == k)) [
        | inl hit ↦ rw (arity_of, names, hit) (ap some same.1)
        | inr miss ↦ rw (arity_of, names, miss) (aligned-arity g k es fs tail c)
      ]
]

-- In both languages `t` finds an entry for the same keys, with the same number of arguments, but for
-- the keys `gaps`.
pub dict-same_arity :
    (l m : Language) (k : Text)
    → contains gaps k ≡ false
    → arity_of (dict l) k ≡ arity_of (dict m) k
unfolding dict
dict-same_arity in_polish in_polish k c = refl
dict-same_arity in_english in_english k c = refl
dict-same_arity in_polish in_english k c =
    aligned-arity gaps k polish english polish-english-aligned c
dict-same_arity in_english in_polish k c =
    sym (aligned-arity gaps k polish english polish-english-aligned c)

-- The phrase of one language, or the key itself.
abbrev pub own : Language → Text → List Value → Text
own l k vs = elim (entry_of (dict l) k) [ some p ↦ spoken p vs | none ↦ k ]

-- Where two dictionaries agree on the arguments, they know the same keys.
none-transfer :
    (es fs : List Entry) (k : Text)
    → arity_of es k ≡ arity_of fs k
    → entry_of es k ≡ none
    → entry_of fs k ≡ none
none-transfer es fs k a n = elim (Option-cases (entry_of fs k)) [
  | inl m ↦ m
  | inr (p, m) ↦ absurd (let e = rw (arity_of, n, m) at a in cc)
]

or_else-first :
    (a b c : Option Phrase)
    → (a ≡ none → b ≡ none)
    → (a ≡ none → c ≡ none)
    → or_else a (or_else b c) ≡ a
unfolding or_else
or_else-first (some p) b c h g = refl
or_else-first none b c h g = rw (h refl, g refl)

polish-english-none : (k : Text) → entry_of polish k ≡ none → entry_of english k ≡ none
unfolding dict
polish-english-none k n = elim (Bool-cases (contains gaps k)) [
  | inl c ↦ aligned-none gaps k polish english polish-english-aligned c
  | inr c ↦ none-transfer polish english k (dict-same_arity in_polish in_english k c) n
]

english-polish-none :
    (k : Text) → contains gaps k ≡ false → entry_of english k ≡ none → entry_of polish k ≡ none
unfolding dict
english-polish-none k c = none-transfer english polish k (dict-same_arity in_english in_polish k c)

or_else-second : (a : Option Phrase) → or_else none (or_else a none) ≡ a
unfolding or_else
or_else-second none = refl
or_else-second (some p) = refl

in_polish_lem :
    (k : Text)
    → or_else (entry_of polish k) (or_else (entry_of polish k) (entry_of english k))
      ≡ entry_of polish k
in_polish_lem k =
    or_else-first (entry_of polish k) (entry_of polish k) (entry_of english k) (λ n. n)
      (polish-english-none k)

-- What `t` shows, once it is known which entry it takes.
heard :
    (l : Language) (k : Text) (vs : List Value) (o : Option Phrase)
    → or_else (entry_of (dict l) k) (or_else (entry_of polish k) (entry_of english k)) ≡ o
    → t l k vs ≡ (elim o [ some p ↦ spoken p vs | none ↦ k ])
unfolding t
heard l k vs o e =
    ap (λ (u : Option Phrase). elim u as (λ _. Text) [ some p ↦ spoken p vs | none ↦ k ]) e

resolved :
    (l : Language) (k : Text) (vs : List Value) (b : Bool)
    → contains gaps k ≡ b
    → t l k vs ≡ own (if b then in_polish else l) k vs
unfolding t dict
resolved in_polish k vs true c = heard in_polish k vs (entry_of polish k) (in_polish_lem k)
resolved in_polish k vs false c = heard in_polish k vs (entry_of polish k) (in_polish_lem k)
resolved in_english k vs true c =
    let n = aligned-none gaps k polish english polish-english-aligned c in
    let first = or_else-second (entry_of polish k) in
    heard in_english k vs (entry_of polish k)
      (subst (λ o. or_else o (or_else (entry_of polish k) o) ≡ entry_of polish k) (sym n) first)
resolved in_english k vs false c = heard in_english k vs (entry_of english k) (
    or_else-first (entry_of english k) (entry_of polish k) (entry_of english k)
      (english-polish-none k c) (λ n. n))

-- `t` never shows a text of the other language, but for the keys `gaps`, which are shown in Polish; a
-- key that its language does not know is shown as it stands.
pub t-own_language :
    (l : Language) (k : Text) (vs : List Value)
    → t l k vs ≡ own (if contains gaps k then in_polish else l) k vs
t-own_language l k vs = resolved l k vs (contains gaps k) refl

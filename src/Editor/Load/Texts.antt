-- ===== src/Editor/Load/Texts.antt =====
-- The texts of the form for an HTTP task (internal/web/static/views.js): its header lines and its list
-- of statuses.
use poc_cronova_windows.Base.{
  Bool, In, In-append_cases, In-cons, List, Text, [], all, all-decimal, ap, append-nil, arith,
  codes, decimal, decimal-cons, false, here, inl, inr, is_digit, is_space, append_assoc, join, leb,
  map, not-In-nil, number_of_digits-decimal, refl, reverse, some, span_digits, split, split-join,
  subst, sym, there, trim, trim_start, true, ℕ, ◌&&◌, ◌++◌, ◌==◌, ◌∙◌, ◌∷◌, ◌≡◌, ◌≢◌, ◌≤◌, ≢→eq,
  split_go, list_eq, nat_eq,
}
use mathlib.Core.List.{reverse-cons, reverse-reverse}
use poc_cronova_windows.Editor.Validate.{has_duplicates}
use poc_cronova_windows.Editor.Tasks.Tidy.{In-map_of, contains→not_In}
use poc_cronova_windows.Editor.Spec.{
  cut_colon, digits_value, header_line, header_lines, parse_header_lines, parse_int,
  parse_status_list, put_key, set_key, status_list,
}
use poc_cronova_windows.Editor.Load.{header_text, headers_text, statuses_text}

-- A text that is not changed by `trim`.
abbrev pub IsTrimmed : Text → Type 0
IsTrimmed s = trim s ≡ s

trim-space : (s : Text) → trim (32 ∷ s) ≡ trim s
unfolding trim trim_start is_space
trim-space s = refl

trim_start-free : (s : Text) → ((c : ℕ) → In c s → is_space c ≡ false) → trim_start s ≡ s
unfolding trim_start
trim_start-free [] h = refl
trim_start-free (c ∷ s) h = rw (h c (here refl))

In-reverse : (s : Text) (c : ℕ) → In c (reverse s) → In c s
In-reverse [] c m = m
In-reverse (x ∷ s) c m = elim (In-append_cases (reverse s) (x ∷ []) (rw reverse-cons at m)) [
  | inl l ↦ there (In-reverse s c l)
  | inr r ↦ elim ((In-cons c x []).0 r) [ inl e ↦ here e | inr q ↦ absurd (not-In-nil q) ]
]

trim-free : (s : Text) → ((c : ℕ) → In c s → is_space c ≡ false) → IsTrimmed s
unfolding trim
trim-free s h =
    rw (trim_start-free s h)
      (rw (trim_start-free (reverse s) (λ c m. h c (In-reverse s c m))) (reverse-reverse s))

all-In : (p : ℕ → Bool) (s : Text) → all p s ≡ true → (c : ℕ) → In c s → p c ≡ true
all-In p [] h c m = absurd (not-In-nil m)
all-In p (x ∷ s) h c m = elim ((In-cons c x s).0 m) [
  | inl e ↦ subst (λ z. p z ≡ true) (sym e) (ground arith)
  | inr r ↦ all-In p s (ground arith) c r
]

digit-not_space : (c : ℕ) → is_digit c ≡ true → is_space c ≡ false
unfolding is_digit is_space
digit-not_space c h = ground arith

digit-not_comma : (c : ℕ) → is_digit c ≡ true → c ≢ b','
unfolding is_digit
digit-not_comma c h e = ground arith

span_digits-all : (s : Text) → all is_digit s ≡ true → (span_digits s).0 ≡ s
unfolding span_digits
span_digits-all [] h = refl
span_digits-all (c ∷ s) h =
    let t : is_digit c ≡ true = ground arith in rw t (ap (c ∷◌) (span_digits-all s (ground arith)))

trim-decimal : (n : ℕ) → trim (decimal n) ≡ decimal n
trim-decimal n =
    trim-free (decimal n)
      (λ c m. digit-not_space c (all-In is_digit (decimal n) (all-decimal n) c m))

parse_int-decimal : (n : ℕ) → parse_int (decimal n) ≡ some n
unfolding parse_int digits_value is_digit
parse_int-decimal n =
    let (c, r, e) = decimal-cons n in
    let digits : all is_digit (c ∷ r) ≡ true = rw e at (all-decimal n) in
    let plus : (c == b'+') ≡ false = not_plus c (ground arith) in
    rw (e, plus, parse_int, span_digits-all (c ∷ r) digits)
      (ap some (rw e at (number_of_digits-decimal n)))
  where
    not_plus : (c : ℕ) → is_digit c ≡ true → (c == b'+') ≡ false
    not_plus c h = ground arith

-- Joining with a comma and a space is joining by commas texts that begin with a space.
spaced : List Text → List Text
spaced = map (32 ∷◌)

join-spaced :
    (x : Text) (xs : List Text) → join (codes ", ") (x ∷ xs) ≡ join (codes ",") (x ∷ spaced xs)
unfolding join spaced
join-spaced x [] = refl
join-spaced x (y ∷ xs) =
    ap (λ z. x ++ (b',' ∷ 32 ∷ z)) (join-spaced y xs) ∙ ap (λ z. x ++ (b',' ∷ z)) (behind y xs)
  where
    behind :
        (y : Text) (xs : List Text)
        → 32 ∷ join (codes ",") (y ∷ spaced xs) ≡ join (codes ",") ((32 ∷ y) ∷ spaced xs)
    behind y [] = refl
    behind y (z ∷ xs) = refl

-- Each piece is a status, with a space before it or not.
status_list-decimals :
    (ns : List ℕ)
    → ((n : ℕ) → In n ns → (100 ≤ n) × (n ≤ 599))
    → status_list (spaced (map decimal ns)) ≡ ns
unfolding status_list spaced
status_list-decimals [] h = refl
status_list-decimals (n ∷ ns) h =
    let (low, high) = h n (here refl) in
    let range : (leb 100 n && leb n 599) ≡ true = ground arith in
    let piece : parse_int (trim (32 ∷ decimal n)) ≡ some n =
      ap parse_int (trim-space (decimal n) ∙ trim-decimal n) ∙ parse_int-decimal n in
    rw (status_list, piece, range) (ap (n ∷◌) (status_list-decimals ns (λ k m. h k (there m))))

pieces-free :
    (ns : List ℕ) (y : Text) → In y (spaced (map decimal ns)) → (c : ℕ) → In c y → c ≢ b','
unfolding spaced
pieces-free [] y m c i = absurd (not-In-nil m)
pieces-free (n ∷ ns) y m c i = elim ((In-cons y _ _).0 m) [
  | inr r ↦ pieces-free ns y r c i
  | inl e ↦ elim ((In-cons c 32 (decimal n)).0 (subst (In c) e i)) [
    | inl q ↦ λ p. omega arith
    | inr q ↦ digit-not_comma c (all-In is_digit (decimal n) (all-decimal n) c q)
  ]
]

-- A list of statuses from 100 to 599 is read back from the text of the form.
pub parse_status_list-statuses_text :
    (ns : List ℕ)
    → ((n : ℕ) → In n ns → (100 ≤ n) × (n ≤ 599))
    → parse_status_list (statuses_text ns) ≡ ns
unfolding parse_status_list statuses_text status_list split split_go parse_int trim trim_start join
parse_status_list-statuses_text [] h = refl
parse_status_list-statuses_text (n ∷ ns) h =
    let (low, high) = h n (here refl) in
    let range : (leb 100 n && leb n 599) ≡ true = ground arith in
    let piece : parse_int (trim (decimal n)) ≡ some n =
      ap parse_int (trim-decimal n) ∙ parse_int-decimal n in
    let cut = split-join b',' (decimal n) (spaced (map decimal ns)) (λ y m c i.
      elim ((In-cons y _ _).0 m) [
        | inl e ↦
            digit-not_comma c (all-In is_digit (decimal n) (all-decimal n) c (subst (In c) e i))
        | inr r ↦ pieces-free ns y r c i
      ]) in
    ap (λ z. status_list (split b',' z)) (join-spaced (decimal n) (map decimal ns))
    ∙ (ap status_list cut
        ∙ rw (status_list, piece, range)
            (ap (n ∷◌) (status_list-decimals ns (λ k m. h k (there m)))))

-- A header that fits on a line of the form: the key is not empty and has no colon, and neither the key
-- nor the value has line ends or outer spaces.
pub record IsHeader (h : Text × Text) : Type 0 where
  pub key : (h.0 ≢ []) × IsTrimmed h.0
  pub own : h.0 ≢ codes "__proto__"
  pub value : IsTrimmed h.1
  pub no_colon : (c : ℕ) → In c h.0 → c ≢ b':'
  pub one_line : (c : ℕ) → In c (header_text h) → c ≢ b'\n'

cut_colon-header :
    (k v : Text)
    → ((c : ℕ) → In c k → c ≢ b':')
    → cut_colon (k ++ (codes ": " ++ v)) ≡ some (k, 32 ∷ v)
unfolding cut_colon
cut_colon-header [] v h = refl
cut_colon-header (c ∷ k) v h =
    let f : (c == b':') ≡ false = ≢→eq c b':' (h c (here refl)) in
    rw (cut_colon-header k v (λ d m. h d (there m)), f)

put_key-new :
    (k v : Text) (h : List (Text × Text))
    → ((p : Text × Text) → In p h → p.0 ≢ k)
    → put_key k v h ≡ h ++ ((k, v) ∷ [])
unfolding put_key
put_key-new k v [] n = refl
put_key-new k v ((j, w) ∷ h) n =
    let f : (j == k) ≡ false = ≢→eq j k (n (j, w) (here refl)) in
    rw f (ap ((j, w) ∷◌) (put_key-new k v h (λ p m. n p (there m))))

header_line-header :
    (k v : Text) (acc : List (Text × Text))
    → IsHeader (k, v)
    → ((p : Text × Text) → In p acc → p.0 ≢ k)
    → header_line (header_text (k, v)) acc ≡ acc ++ ((k, v) ∷ [])
unfolding header_line header_text set_key
header_line-header [] v acc h n = absurd (h.key.0 refl)
header_line-header (c ∷ s) v acc h n =
    let cut = cut_colon-header (c ∷ s) v h.no_colon in
    let key = h.key.1 in
    let value : trim (32 ∷ v) ≡ v = trim-space v ∙ h.value in
    let own : ((c ∷ s) == codes "__proto__") ≡ false = ≢→eq (c ∷ s) (codes "__proto__") h.own in
    rw (header_line, cut, key, value, set_key, own) (put_key-new (c ∷ s) v acc n)

-- The keys of the headers.
abbrev pub keys : List (Text × Text) → List Text
keys = map (λ (p : Text × Text). p.0)

header_lines-headers :
    (hs acc : List (Text × Text))
    → ((h : Text × Text) → In h hs → IsHeader h)
    → has_duplicates (keys hs) ≡ false
    → ((p : Text × Text) → In p acc → ¬ In p.0 (keys hs))
    → header_lines (map header_text hs) acc ≡ acc ++ hs
unfolding header_lines has_duplicates
header_lines-headers [] acc good once apart = sym (append-nil acc)
header_lines-headers ((k, v) ∷ hs) acc good once apart =
    let first =
      header_line-header k v acc (good (k, v) (here refl)) (λ p m e. apart p m (here e)) in
    let later =
      header_lines-headers hs (acc ++ ((k, v) ∷ [])) (λ h m. good h (there m)) (ground arith)
        (λ p m i. elim (In-append_cases acc ((k, v) ∷ []) m) [
          | inl l ↦ apart p l (there i)
          | inr r ↦ elim ((In-cons p (k, v) []).0 r) [
            | inl e ↦
                contains→not_In (keys hs) k (ground arith)
                  (subst (λ (z : Text × Text). In z.0 (keys hs)) e i)
            | inr q ↦ not-In-nil q
          ]
        ]) in
    ap (header_lines (map header_text hs)) first ∙ (later ∙ append_assoc acc ((k, v) ∷ []) hs)

-- Headers with distinct keys are read back from the lines of the form when each key is not empty, is
-- not "__proto__" and has no colon, and neither the keys nor the values have line ends or outer spaces.
pub parse_header_lines-headers_text :
    (hs : List (Text × Text))
    → ((h : Text × Text) → In h hs → IsHeader h)
    → has_duplicates (keys hs) ≡ false
    → parse_header_lines (headers_text hs) ≡ hs
unfolding parse_header_lines headers_text header_lines header_line cut_colon split split_go join
parse_header_lines-headers_text [] good once = refl
parse_header_lines-headers_text (h ∷ hs) good once =
    ap (λ (ls : List Text). header_lines ls [])
      (split-join b'\n' (header_text h) (map header_text hs) (λ y m c i.
        let (g, l, e) = In-map_of header_text (h ∷ hs) m in
        (good g l).one_line c (subst (In c) e i)))
    ∙ header_lines-headers (h ∷ hs) [] good once (λ p m. absurd (not-In-nil m))

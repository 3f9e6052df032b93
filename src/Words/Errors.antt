-- ===== src/Words/Errors.antt =====
-- The failures of `api` (internal/web/static/base.js): the message that the console shows for a
-- refused request, and when the session counts as expired.
use poc_cronova_windows.Base.{
  &&_parts, Bool, Bool-cases, List, Option, Option-cases, Text, [], all, arith, codes, eq_self,
  false, if◌then◌else◌, inl, inr, list_eqb, nat_eqb, none, not, refl, some, starts_with, subst, sym,
  text_iff, true, ℕ, ◌&&◌, ◌++◌, ◌==◌, ◌||◌, ◌∷◌, ◌≡◌, list_eq, nat_eq,
}
use poc_cronova_windows.Words.Phrase.{Entry, Phrase, shown}
use poc_cronova_windows.Words.Polish.{polish}
use poc_cronova_windows.Words.English.{english}
use poc_cronova_windows.Words.Labels.{t, spoken, Language, dict, entry_of, in_english, in_polish}
use poc_cronova_windows.Words.Complete.{t-own_language, own}

-- A reply with `!r.ok`: its status, and its body where that is JSON, whose fields are empty texts
-- where they are missing.
pub record Refusal : Type 0 where
  pub status : ℕ
  pub status_text : Text
  pub body : Option (Text × Text)

-- The error that `api` throws, and whether it asks to sign in again.
pub record Failure : Type 0 where
  pub message : Text
  pub status : ℕ
  pub code : Text
  pub signs_out : Bool

-- The code's text in the dictionary, or else the server's.
unfoldable pub refusal_message : Language → Text → Text → Text
unfolding t
refusal_message l code m =
    let key = codes "err_code_" ++ code in
    let loc = t l key [] in if code == [] then m else if loc == key then m else loc

unfoldable pub api_failure : Language → Bool → Text → Refusal → Failure
unfolding refusal_message
api_failure l signed_in path r =
    let error : Text = elim r.body [ some b ↦ b.0 | none ↦ [] ] in
    let code : Text = elim r.body [ some b ↦ b.1 | none ↦ [] ] in
    let m = if error == [] then r.status_text else error in
    record {
      message = refusal_message l code m;
      status = r.status;
      code = code;
      signs_out =
          nat_eqb r.status 401
          && (signed_in
              && (not (starts_with path (codes "/api/login"))
                  && not (starts_with path (codes "/api/me"))));
    }

-- No text for an error code is its own key.
unfoldable says_more : Entry → Bool
unfolding spoken
says_more e = not (starts_with e.key (codes "err_code_")) || not (spoken e.phrase [] == e.key)

dict-says_more : (l : Language) → all says_more (dict l) ≡ true
unfolding dict says_more polish english list_eqb shown starts_with
dict-says_more in_polish = refl
dict-says_more in_english = refl

second_fails : (a b : Bool) → (not a || not b) ≡ true → a ≡ true → b ≡ false
second_fails a b h g = ground arith

spoken-not_key :
    (es : List Entry) (k : Text) (p : Phrase)
    → all says_more es ≡ true
    → starts_with k (codes "err_code_") ≡ true
    → entry_of es k ≡ some p
    → (spoken p [] == k) ≡ false
unfolding says_more entry_of
spoken-not_key [] k p h b e = cc
spoken-not_key (x ∷ es) k p h b e =
    let (one, rest) = &&_parts (says_more x) (all says_more es) h in
    elim (Bool-cases (x.key == k)) [
      | inl hit ↦
          let q = (text_iff x.key k).0 hit in
          let same : x.phrase ≡ p = cc (rw hit at e) in
          subst (λ j. (spoken p [] == j) ≡ false) q
            (let begins = subst (λ j. starts_with j (codes "err_code_") ≡ true) (sym q) b in
              let differs =
                second_fails (starts_with x.key (codes "err_code_")) (spoken x.phrase [] == x.key)
                  one begins in
              subst (λ u. (spoken u [] == x.key) ≡ false) same differs)
      | inr miss ↦ spoken-not_key es k p rest b (rw miss at e)
    ]

err_code_prefix : (code : Text) → starts_with (codes "err_code_" ++ code) (codes "err_code_") ≡ true
unfolding starts_with
err_code_prefix code = refl

-- The dictionaries have the keys of error codes in both languages.
t-own_error :
    (l : Language) (code : Text) → let k = codes "err_code_" ++ code in t l k [] ≡ own l k []
unfolding list_eqb
t-own_error l code = t-own_language l (codes "err_code_" ++ code) []

-- The message of a refusal is the text for its code in the language of the console, and for a code
-- that the dictionary does not know, or none, the text `m` of the server.
pub refusal_message_cases :
    (l : Language) (code m : Text)
    → refusal_message l code m ≡ (
        if code == [] then m else elim (entry_of (dict l) (codes "err_code_" ++ code)) [
          | some p ↦ spoken p []
          | none ↦ m
        ])
unfolding refusal_message
refusal_message_cases l code m =
    let k = codes "err_code_" ++ code in
    let shown_as = t-own_error l code in
    elim (Option-cases (entry_of (dict l) k)) [
      | inl n ↦ elim (Bool-cases (code == [])) [
        | inl empty ↦ rw empty
        | inr full ↦
            let as_key = rw (own, n) at shown_as in rw (refusal_message, full, n, as_key, eq_self k)
      ]
      | inr (p, e) ↦
          let differs = spoken-not_key (dict l) k p (dict-says_more l) (err_code_prefix code) e in
          elim (Bool-cases (code == [])) [
            | inl empty ↦ rw empty
            | inr full ↦
                let as_text = rw (own, e) at shown_as in
                rw (refusal_message, full, e, as_text, differs)
          ]
    ]

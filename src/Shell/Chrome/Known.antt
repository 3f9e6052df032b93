-- ===== src/Shell/Chrome/Known.antt =====
-- The labels of the page (internal/web/static/base.js) beside the two dictionaries.
use poc_cronova_windows.Base.{
  all, arith, contains, subst, sym, text_iff, Bool, Bool-cases, List, Option, Text, [], codes,
  false, if_elim, inl, inr, none, refl, some, true, ◌&&◌, ◌==◌, ◌∷◌, ◌≡◌, list_eq, list_eqb, nat_eq,
}
use poc_cronova_windows.Model.{inherited}
use poc_cronova_windows.Words.Labels.{entry_of}
use poc_cronova_windows.Words.Phrase.{Entry}
use poc_cronova_windows.Words.Polish.{polish}
use poc_cronova_windows.Words.English.{english}
use poc_cronova_windows.Shell.Access.{UiMode, expert, novice}
use poc_cronova_windows.Shell.Chrome.{
  Label, by_mode, inherited_value, key, label_of, nav_label, new_dag_label, nv_task_label, plain,
  task_labels,
}

-- Whether a label has its text, without arguments, in both languages.
unfoldable pub has_text : List Entry → Text → Bool
unfolding entry_of
has_text es k = elim (entry_of es k) [ none ↦ false | some p ↦ true ]

unfoldable pub is_readable : Label → Bool
unfolding has_text
is_readable (plain s) = true
is_readable inherited_value = false
is_readable (key k) = has_text polish k && has_text english k

-- The keys of the labels in the top bar.
abbrev label_keys : List Text
label_keys =
    codes "graph_title"
    ∷ codes "nv_shared"
    ∷ codes "nav_resources"
    ∷ codes "nv_ai_providers"
    ∷ codes "nav_ai_providers"
    ∷ codes "nv_aiwiki"
    ∷ codes "nav_aiwiki"
    ∷ codes "nav_audit"
    ∷ codes "nav_workers"
    ∷ codes "nav_api"
    ∷ codes "nv_myflows"
    ∷ codes "nav_dags"
    ∷ codes "nv_newflow"
    ∷ codes "newdag"
    ∷ codes "nv_step_extract"
    ∷ codes "nv_step_transform"
    ∷ codes "nv_step_load"
    ∷ codes "nv_step_fetch"
    ∷ codes "nv_step_render"
    ∷ codes "nv_step_1"
    ∷ []

abbrev HaveTexts : List Text → Type 0
HaveTexts [] = Unit
HaveTexts (k ∷ ks) = (is_readable (key k) ≡ true) × HaveTexts ks

keys-HaveTexts : HaveTexts label_keys
unfolding is_readable has_text entry_of polish english list_eqb
keys-HaveTexts = (
  refl,
  (
    refl,
    (
      refl,
      (
        refl,
        (
          refl,
          (
            refl,
            (
              refl,
              (
                refl,
                (
                  refl,
                  (
                    refl,
                    (
                      refl,
                      (refl, (refl, (refl, (refl, (refl, (refl, (refl, (refl, (refl, tt))))))))),
                    ),
                  ),
                ),
              ),
            ),
          ),
        ),
      ),
    ),
  ),
)

one-HaveTexts :
    (ks : List Text) → HaveTexts ks → (k : Text) → contains ks k ≡ true → is_readable (key k) ≡ true
one-HaveTexts [] h k c = cc
one-HaveTexts (j ∷ ks) h k c = elim (Bool-cases (k == j)) [
  | inl t ↦ subst (λ z. is_readable (key z) ≡ true) (sym ((text_iff k j).0 t)) h.0
  | inr f ↦ one-HaveTexts ks h.1 k (rw f at c)
]

listed : (k : Text) → contains label_keys k ≡ true → is_readable (key k) ≡ true
listed = one-HaveTexts label_keys keys-HaveTexts

readable-by_mode :
    (m : UiMode) (nov ex : Text)
    → contains label_keys nov ≡ true
    → contains label_keys ex ≡ true
    → is_readable (by_mode m nov ex) ≡ true
readable-by_mode novice nov ex a b = listed nov a
readable-by_mode expert nov ex a b = listed ex b

abbrev Readable : Label → Type 0
Readable l = is_readable l ≡ true

readable-nav_label :
    (m : UiMode) (nav : Text) (crumb : Option Text) → is_readable (nav_label m nav crumb) ≡ true
unfolding nav_label is_readable list_eqb
readable-nav_label m nav (some crumb) = refl
readable-nav_label m nav none =
    if_elim Readable (nav == codes "pools") _ _ (λ t. refl)
      (λ f.
        if_elim Readable (nav == codes "graph") _ _ (λ t. listed (codes "graph_title") refl)
          (λ f.
            if_elim Readable (nav == codes "resources") _ _
              (λ t. readable-by_mode m (codes "nv_shared") (codes "nav_resources") refl refl)
              (λ f.
                if_elim Readable (nav == codes "ai-providers") _ _
                  (λ t.
                    readable-by_mode m (codes "nv_ai_providers") (codes "nav_ai_providers") refl
                      refl)
                  (λ f.
                    if_elim Readable (nav == codes "aiwiki") _ _
                      (λ t. readable-by_mode m (codes "nv_aiwiki") (codes "nav_aiwiki") refl refl)
                      (λ f.
                        if_elim Readable (nav == codes "audit") _ _
                          (λ t. listed (codes "nav_audit") refl)
                          (λ f.
                            if_elim Readable (nav == codes "workers") _ _
                              (λ t. listed (codes "nav_workers") refl)
                              (λ f.
                                if_elim Readable (nav == codes "api") _ _
                                  (λ t. listed (codes "nav_api") refl)
                                  (λ f.
                                    readable-by_mode m (codes "nv_myflows") (codes "nav_dags") refl
                                      refl))))))))

-- A label from a table whose keys have texts.
readable-label_of :
    (r : List (Text × Text)) (id : Text)
    → all (λ (p : Text × Text). contains label_keys p.1) r ≡ true
    → inherited id ≡ false
    → is_readable (label_of r id) ≡ true
unfolding label_of is_readable
readable-label_of [] id h n = rw n
readable-label_of ((j, k) ∷ r) id h n = elim (Bool-cases (j == id)) [
  | inl t ↦ rw (label_of, t) (listed k (ground arith))
  | inr f ↦ rw (label_of, f) (readable-label_of r id (ground arith) n)
]

-- The label of the top bar for any page and mode, that of the button for a new workflow, and that of
-- a task whose id is no name that every object inherits, are texts as they stand, or have a text in both
-- languages.
pub labels-readable :
    (m : UiMode) (nav : Text) (crumb : Option Text) (id : Text)
    → inherited id ≡ false
    → (is_readable (nav_label m nav crumb) ≡ true)
      × (is_readable (new_dag_label m) ≡ true)
      × (is_readable (nv_task_label id) ≡ true)
unfolding new_dag_label nv_task_label task_labels list_eqb
labels-readable m nav crumb id h = (
  readable-nav_label m nav crumb,
  readable-by_mode m (codes "nv_newflow") (codes "newdag") refl refl,
  readable-label_of task_labels id refl h,
)

-- ===== src/Policy/Reasons.antt =====
-- internal/policy/policy.go: the reasons of the loop, and how hasBlockingReason reads them.
use gmail_visibility_manager.Base.{
  List, [], ◌∷◌, ◌++◌, ◌≡◌, refl, ap, Bool, true, false, ◌&&◌, ◌||◌, not, some, arith, All,
  Option-cases, Bool-cases, inl, inr, map,
}
use gmail_visibility_manager.Text.{Text, text, ◌==◌, has_prefix, contains, trim_space}
use gmail_visibility_manager.Text.Search.{contains-append_left, contains-append_right}
use gmail_visibility_manager.Dict.{lookup}
use gmail_visibility_manager.Std.{Std}
use gmail_visibility_manager.Config.{Config, normalize_label, allowed_label_set}
use gmail_visibility_manager.Config.Labels.{
  is_allowed, is_sensitive, IsSpelling, allowed_label_set-IsSpelling, allowed_label_set-IsCanonical,
  lookup-allowed_label_set, lookup-sensitive_label_set,
}
use gmail_visibility_manager.Policy.{
  has_blocking_reason, is_blocking_text, judge_label, judge_labels, not_allowlisted,
  is_sensitive_text, includes_visibility,
}

has_blocking_reason-append :
    (xs ys : List Text)
    → has_blocking_reason (xs ++ ys) ≡ (has_blocking_reason xs || has_blocking_reason ys)
unfolding has_blocking_reason
has_blocking_reason-append [] ys = refl
has_blocking_reason-append (x ∷ xs) ys = ground (arith, has_blocking_reason-append xs ys)

pub includes_visibility_blocks : has_blocking_reason (includes_visibility ∷ []) ≡ true
unfolding has_blocking_reason text contains has_prefix
includes_visibility_blocks = refl

module _ ⦃std : Std⦄ where
  not_allowlisted_blocks : (label : Text) → has_blocking_reason (not_allowlisted label ∷ []) ≡ true
  unfolding has_blocking_reason text
  not_allowlisted_blocks label = ground (
    arith,
    contains-append_left (text "classification label ") _ (text "not allowlisted")
        (contains-append_left (std.quote label) _ _ ending),
  )
    where
      ending : contains (text " is not allowlisted") (text "not allowlisted") ≡ true
      ending = unfold text contains has_prefix in refl

  -- the policy's own condition on a label: allowed, and not the visibility label
  abbrev pub is_admitted : Config → Text → Bool
  is_admitted cfg label =
      is_allowed cfg (normalize_label label)
      && not (normalize_label label == normalize_label cfg.visibility_label)

  module _ (cfg : Config) where
    -- An admitted label keeps its key and gives a reason only if it is sensitive.
    record IsJudged (label : Text) : Type 0 where
      canonical : Text
      labels : (judge_label cfg label).labels ≡ canonical ∷ []
      same_key : normalize_label canonical ≡ normalize_label label
      trimmed : trim_space canonical ≡ canonical
      spelling : IsSpelling cfg.allowed_classification_labels canonical
      reasons : has_blocking_reason (judge_label cfg label).reasons ≡ (
          is_sensitive cfg (normalize_label label)
          && has_blocking_reason (is_sensitive_text canonical ∷ []))

    admitted-IsJudged : (label : Text) → is_admitted cfg label ≡ true → IsJudged label
    unfolding judge_label has_blocking_reason
    admitted-IsJudged label h =
        let key = normalize_label label in
        elim (Option-cases (lookup (allowed_label_set cfg) key)) [
          | inl missing ↦ absurd (ground (arith, lookup-allowed_label_set cfg key))
          | inr (c, found) ↦
              let canon = allowed_label_set-IsCanonical cfg key c found in
              record {
                canonical = c;
                labels = ground arith;
                same_key = canon.1;
                trimmed = canon.0;
                spelling = allowed_label_set-IsSpelling cfg key c found;
                reasons = ground (arith, lookup-sensitive_label_set cfg key);
              }
        ]

    -- A label that is not admitted gives a blocking reason and no canonical label.
    refused :
        (label : Text)
        → is_admitted cfg label ≡ false
        → (has_blocking_reason (judge_label cfg label).reasons ≡ true)
          × ((judge_label cfg label).labels ≡ [])
    unfolding judge_label
    refused label h = ground (
      arith,
      lookup-allowed_label_set cfg (normalize_label label),
      includes_visibility_blocks,
      not_allowlisted_blocks label,
    )

    pub reasons_without_block :
        (labels : List Text)
        → has_blocking_reason (judge_labels cfg labels).reasons ≡ false
        → All (λ l. is_admitted cfg l ≡ true) labels
    unfolding judge_labels
    reasons_without_block [] h = tt
    reasons_without_block (label ∷ labels) h =
        let split =
          has_blocking_reason-append (judge_label cfg label).reasons
            (judge_labels cfg labels).reasons in
        elim (Bool-cases (is_admitted cfg label)) [
          | inl admitted ↦ (admitted, reasons_without_block labels (ground (arith, split)))
          | inr out ↦ absurd (ground (arith, split, refused label out))
        ]

    -- no sensitive label whose reason the search for blocking words would take for another
    abbrev pub IsQuiet : Text → Type 0
    IsQuiet label =
        (canonical : Text)
        → lookup (allowed_label_set cfg) (normalize_label label) ≡ some canonical
        → is_sensitive cfg (normalize_label label) ≡ true
        → is_blocking_text (is_sensitive_text canonical) ≡ false

    pub reasons_of_admitted :
        (labels : List Text)
        → All (λ l. is_admitted cfg l ≡ true) labels
        → All IsQuiet labels
        → has_blocking_reason (judge_labels cfg labels).reasons ≡ false
    unfolding judge_labels has_blocking_reason
    reasons_of_admitted [] _ _ = refl
    reasons_of_admitted (label ∷ labels) (a, as') (q, qs) =
        let key = normalize_label label in
        let split =
          has_blocking_reason-append (judge_label cfg label).reasons
            (judge_labels cfg labels).reasons in
        elim (Option-cases (lookup (allowed_label_set cfg) key)) [
          | inl missing ↦ absurd (ground (arith, lookup-allowed_label_set cfg key))
          | inr (c, found) ↦
              unfold judge_label in
              ground (
                arith,
                split,
                q c found,
                lookup-sensitive_label_set cfg key,
                reasons_of_admitted labels as' qs,
              )
        ]

    -- the canonical labels are the admitted labels, one for one
    pub labels_of_admitted :
        (labels : List Text)
        → All (λ l. is_admitted cfg l ≡ true) labels
        → map normalize_label (judge_labels cfg labels).labels ≡ map normalize_label labels
    unfolding judge_labels
    labels_of_admitted [] _ = refl
    labels_of_admitted (label ∷ labels) (a, as') =
        let j = admitted-IsJudged label a in
        rw (j.labels, j.same_key) (ap (◌∷◌ (normalize_label label)) (labels_of_admitted labels as'))

    -- and each is spelled as the configuration spells it
    pub IsSpelling-of_admitted :
        (labels : List Text)
        → All (λ l. is_admitted cfg l ≡ true) labels
        → All (IsSpelling cfg.allowed_classification_labels) (judge_labels cfg labels).labels
    unfolding judge_labels
    IsSpelling-of_admitted [] _ = tt
    IsSpelling-of_admitted (label ∷ labels) (a, as') =
        let j = admitted-IsJudged label a in
        rw j.labels (j.spelling, IsSpelling-of_admitted labels as')

    quoted_blocks :
        (canonical : Text)
        → contains (std.quote canonical) (text "visibility label") ≡ true
        → has_blocking_reason (is_sensitive_text canonical ∷ []) ≡ true
    unfolding has_blocking_reason text
    quoted_blocks canonical words = ground (
      arith,
      contains-append_left (text "classification label ") _ (text "visibility label")
          (contains-append_right (std.quote canonical) (text " is sensitive") _ words),
    )

    pub reasons_of_quoted :
        (label canonical : Text)
        → is_admitted cfg label ≡ true
        → lookup (allowed_label_set cfg) (normalize_label label) ≡ some canonical
        → is_sensitive cfg (normalize_label label) ≡ true
        → contains (std.quote canonical) (text "visibility label") ≡ true
        → has_blocking_reason (judge_labels cfg (label ∷ [])).reasons ≡ true
    unfolding judge_labels
    reasons_of_quoted label canonical admitted found sensitive words = ground (
      arith,
      quoted_blocks canonical words,
      lookup-sensitive_label_set cfg (normalize_label label),
    )

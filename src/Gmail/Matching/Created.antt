-- ===== src/Gmail/Matching/Created.antt =====
-- internal/gmail/gmail.go: the client recognises the filters that it creates.
use gmail_visibility_manager.Base.{List, [], ◌∷◌, ◌≡◌, true, false, some, is_empty, All}
use gmail_visibility_manager.Text.{Text, ==_refl, trim_space}
use gmail_visibility_manager.Sort.{sort_strings, sort_by}
use gmail_visibility_manager.Std.{Std, StdLaws}
use gmail_visibility_manager.Gmail.Senders.{normalized_exact_senders, format_exact_sender_group}
use gmail_visibility_manager.Gmail.Terms.RoundTrip.{is_term, parse-format_exact_sender_group}
use gmail_visibility_manager.Gmail.Api.{sender_filter}
use gmail_visibility_manager.Gmail.Matching.{
  exact_sender_terms_from_filter, filter_matches, normalized_sorted, has_other_criteria,
  has_other_action, terms_of_parts, filter_parts_match,
}

normalized_sorted-single :
    (id : Text)
    → is_empty (trim_space id) ≡ false
    → normalized_sorted (id ∷ []) ≡ trim_space id ∷ []
unfolding normalized_sorted sort_strings sort_by
normalized_sorted-single id h = rw h

module _ ⦃std : Std⦄ (laws : StdLaws std) where
  -- The filter that CreateManagedVisibilityGroupFilter creates is read back by
  -- exactSenderTermsFromFilter as the normal form of its senders, if the label id is not blank, there
  -- is a sender, none of the senders holds white space and none begins with a parenthesis.
  pub exact_sender_terms_from_filter-sender_filter :
      (senders : List Text) (label_id : Text)
      → is_empty (trim_space label_id) ≡ false
      → is_empty (normalized_exact_senders senders) ≡ false
      → All (λ e. is_term e ≡ true) (normalized_exact_senders senders)
      → exact_sender_terms_from_filter
          (some (sender_filter (format_exact_sender_group senders) label_id))
          label_id
        ≡ some (normalized_exact_senders senders)
  unfolding exact_sender_terms_from_filter sender_filter terms_of_parts has_other_criteria
      has_other_action trim_space
  exact_sender_terms_from_filter-sender_filter senders label_id h some_sender terms =
      rw (normalized_sorted-single label_id h, ==_refl (trim_space label_id))
        (parse-format_exact_sender_group laws senders some_sender terms)

  -- The filter that CreateManagedLabelFilter creates for a sender and a label id that is not blank is
  -- one that filterMatches accepts for them.
  pub filter_matches-sender_filter :
      (from label_id : Text)
      → is_empty (trim_space label_id) ≡ false
      → filter_matches (some (sender_filter from label_id)) from (label_id ∷ []) ≡ true
  unfolding filter_matches sender_filter filter_parts_match has_other_criteria has_other_action
      trim_space
  filter_matches-sender_filter from label_id h =
      rw (normalized_sorted-single label_id h, ==_refl, laws.equal_fold_refl)

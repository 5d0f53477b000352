-- ===== src/Gmail/Matching.antt =====
-- internal/gmail/gmail.go: which filters of the account are those that the client manages.
pub mod Created
use gmail_visibility_manager.Base.{
  ℤ, ℕ, pos, length, List, [], ◌∷◌, ◌++◌, Bool, true, false, ◌&&◌, ◌||◌, not, eqb, is_empty, Option,
  none, some, if◌then◌else◌,
}
use gmail_visibility_manager.Text.{Text, text, ◌==◌, trim_space}
use gmail_visibility_manager.Config.{is_blank}
use gmail_visibility_manager.Result.{ok, err}
use gmail_visibility_manager.Sort.{sort_strings}
use gmail_visibility_manager.Std.{Std}
use gmail_visibility_manager.Request.{normalize_email}
use gmail_visibility_manager.Gmail.Senders.{is_member}
use gmail_visibility_manager.Gmail.Terms.{parse_exact_sender_terms, exact_sender_signature}
use gmail_visibility_manager.Gmail.Api.{Filter, Criteria, Action}

-- a filter that names exact senders and adds one label, with its signature
pub record ExactSenderFilter : Type 0 where
  pub id : Text
  pub terms : List Text
  pub signature : Text

abbrev is_zero : ℤ → Bool
is_zero (pos n) = eqb n 0
is_zero _ = false

unfoldable pub compact_strings : List Text → List Text
compact_strings [] = []
compact_strings (value ∷ values) =
    let rest = compact_strings values in
    if is_empty (trim_space value) then rest else trim_space value ∷ rest

unfoldable pub normalized_sorted : List Text → List Text
unfolding compact_strings
normalized_sorted values = sort_strings (compact_strings values)

-- the criteria hold something besides `from`
unfoldable pub has_other_criteria : Criteria → Bool
has_other_criteria c =
    not (is_blank c.query)
    || not (is_blank c.negated_query)
    || not (is_blank c.to)
    || not (is_blank c.subject)
    || c.has_attachment
    || c.exclude_chats
    || not (is_zero c.size)
    || not (is_blank c.size_comparison)

-- the action does something besides adding labels
unfoldable pub has_other_action : Action → Bool
has_other_action a = not (is_blank a.forward) || not (is_empty a.remove_label_ids)

-- `len(actual) == 1 && actual[0] == label`
abbrev pub is_only : Text → List Text → Bool
is_only label (id ∷ []) = id == label
is_only label _ = false

-- the last tests of filterMatches
abbrev pub same_single : List Text → List Text → Bool
same_single actual (id ∷ []) = is_only id actual
same_single actual _ = false

module _ ⦃std : Std⦄ where
  unfoldable pub filter_parts_match : Criteria → Action → Text → List Text → Bool
  unfolding has_other_criteria has_other_action normalized_sorted
  filter_parts_match c a from add_label_ids =
      std.equal_fold (trim_space c.from) (trim_space from)
      && not (has_other_criteria c)
      && not (has_other_action a)
      && same_single (normalized_sorted a.add_label_ids) (normalized_sorted add_label_ids)

  unfoldable pub filter_matches : Option Filter → Text → List Text → Bool
  unfolding filter_parts_match
  filter_matches none from add_label_ids = false
  filter_matches (some filter) from add_label_ids = elim filter.criteria [
    | none ↦ false
    | some c ↦ elim filter.action [
      | none ↦ false
      | some a ↦ filter_parts_match c a from add_label_ids
    ]
  ]

  unfoldable pub find_matching_filter : List (Option Filter) → Text → List Text → Option Filter
  unfolding filter_matches
  find_matching_filter [] from ids = none
  find_matching_filter (filter ∷ filters) from ids =
      if filter_matches filter from ids then filter else find_matching_filter filters from ids

  -- exactSenderTermsFromFilter where neither pointer is nil
  unfoldable pub terms_of_parts : Criteria → Action → Text → Option (List Text)
  unfolding has_other_criteria has_other_action normalized_sorted
  terms_of_parts c a label_id =
      if has_other_criteria c
        || has_other_action a
        || not (is_only (trim_space label_id) (normalized_sorted a.add_label_ids))
      then none
      else parse_exact_sender_terms c.from

  unfoldable pub exact_sender_terms_from_filter : Option Filter → Text → Option (List Text)
  unfolding terms_of_parts
  exact_sender_terms_from_filter none label_id = none
  exact_sender_terms_from_filter (some filter) label_id = elim filter.criteria [
    | none ↦ none
    | some c ↦ elim filter.action [ none ↦ none | some a ↦ terms_of_parts c a label_id ]
  ]

  -- the trimmed id of a filter, blank for nil
  abbrev pub filter_id : Option Filter → Text
  filter_id none = []
  filter_id (some filter) = trim_space filter.id

  unfoldable pub exact_sender_visibility_filters :
      List (Option Filter) → Text → List ExactSenderFilter
  unfolding exact_sender_terms_from_filter
  exact_sender_visibility_filters [] label_id = []
  exact_sender_visibility_filters (filter ∷ filters) label_id =
      let rest = exact_sender_visibility_filters filters label_id in
      let id = filter_id filter in
      if is_empty id then rest else elim (exact_sender_terms_from_filter filter label_id) [
        | none ↦ rest
        | some terms ↦
            record { id = id; terms = terms; signature = exact_sender_signature terms } ∷ rest
      ]

  -- the last lines of visibilityFilterMatchesExactSender
  unfoldable pub visibility_filter_matches_exact_sender : Option Filter → Text → Text → Bool
  unfolding exact_sender_terms_from_filter
  visibility_filter_matches_exact_sender filter from label_id =
      elim (exact_sender_terms_from_filter filter label_id) [
        | none ↦ false
        | some terms ↦ elim (normalize_email from) [
          | err _ ↦ false
          | ok want ↦ is_member want terms
        ]
      ]

  unfoldable pub find_matching_visibility_filter :
      List (Option Filter) → Text → Text → Option Filter
  unfolding visibility_filter_matches_exact_sender
  find_matching_visibility_filter [] from label_id = none
  find_matching_visibility_filter (filter ∷ filters) from label_id =
      if visibility_filter_matches_exact_sender filter from label_id
      then filter
      else find_matching_visibility_filter filters from label_id

unfoldable pub find_filter_by_id : List (Option Filter) → Text → Option Filter
find_filter_by_id [] id = none
find_filter_by_id (none ∷ filters) id = find_filter_by_id filters id
find_filter_by_id (some filter ∷ filters) id =
    if trim_space filter.id == trim_space id then some filter else find_filter_by_id filters id

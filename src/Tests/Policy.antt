-- ===== src/Tests/Policy.antt =====
-- internal/policy at concrete inputs.
use gmail_visibility_manager.Base.{arith, [], ◌∷◌, ◌≡◌, refl, inl, inr}
use gmail_visibility_manager.Text.{
  Text, text, ◌==◌, trim_space, contains_any, has_rune, text_lt, has_prefix, contains, len,
  count_rune, cut_rune,
}
use gmail_visibility_manager.Result.{ok}
use gmail_visibility_manager.Dict.{lookup, insert, values}
use gmail_visibility_manager.Dict.Keyed.{has_key}
use gmail_visibility_manager.Sort.{sort_by}
use gmail_visibility_manager.Std.{rune_lower}
use gmail_visibility_manager.Std.Ascii.{ascii_std}
use gmail_visibility_manager.Request.{
  VisibilityRequest, normalize_basic, normalize_email, normalize_labels,
}
use gmail_visibility_manager.Config.{
  Config, normalize_label, allowed_label_set, sensitive_label_set, add_labels,
}
use gmail_visibility_manager.Policy.{Verdict, evaluate, has_blocking_reason}
use gmail_visibility_manager.Policy.Verdicts.{
  Asks, evaluate-Asks, evaluate_asks_of_admitted, evaluate_blocks, evaluate_blocks_quoted,
}
use gmail_visibility_manager.Tests.Samples.{sample_config, sample_request}

normalize_basic-sample : normalize_basic sample_request ≡ ok sample_request
unfolding normalize_basic normalize_email normalize_labels text trim_space len contains_any contains
    count_rune cut_rune has_prefix has_rune rune_lower insert ◌==◌ values sort_by text_lt
normalize_basic-sample = refl

evaluate-sample : (evaluate sample_config sample_request).verdict ≡ Verdict.needs_human_approval
unfolding evaluate has_blocking_reason normalize_basic normalize_email normalize_labels text
    trim_space len contains_any contains count_rune cut_rune has_prefix has_rune rune_lower insert
    ◌==◌ values sort_by text_lt normalize_label add_labels lookup allowed_label_set
    sensitive_label_set
evaluate-sample = refl

evaluate-Asks_example : (n : VisibilityRequest) × Asks sample_config sample_request n
evaluate-Asks_example = evaluate-Asks sample_config sample_request evaluate-sample

evaluate_asks_of_admitted_example :
    (evaluate sample_config sample_request).verdict ≡ Verdict.needs_human_approval
unfolding has_key normalize_label text trim_space rune_lower ◌==◌
evaluate_asks_of_admitted_example =
    evaluate_asks_of_admitted sample_config sample_request sample_request normalize_basic-sample
      refl (refl, tt) ((λ canonical found sensitive. absurd (ground arith)), tt)

-- the visibility label itself is asked for
abbrev bad_request : VisibilityRequest
bad_request = record sample_request { classification_labels = text "donna" ∷ [] }

normalize_basic-bad : normalize_basic bad_request ≡ ok bad_request
unfolding normalize_basic normalize_email normalize_labels text trim_space len contains_any contains
    count_rune cut_rune has_prefix has_rune rune_lower insert ◌==◌ values sort_by text_lt
normalize_basic-bad = refl

evaluate_blocks_example : (evaluate sample_config bad_request).verdict ≡ Verdict.blocked
unfolding has_key normalize_label text trim_space rune_lower ◌==◌
evaluate_blocks_example =
    evaluate_blocks sample_config bad_request (inr (bad_request, normalize_basic-bad, inl refl))

-- a sensitive label whose text holds the words of a blocking reason
abbrev words : Text
words = text "visibility label"

abbrev words_config : Config
words_config = record sample_config {
  allowed_classification_labels = words ∷ [];
  sensitive_classification_labels = words ∷ [];
}

abbrev words_request : VisibilityRequest
words_request = record sample_request { classification_labels = words ∷ [] }

normalize_basic-words : normalize_basic words_request ≡ ok words_request
unfolding normalize_basic normalize_email normalize_labels text trim_space len contains_any contains
    count_rune cut_rune has_prefix has_rune rune_lower insert ◌==◌ values sort_by text_lt
normalize_basic-words = refl

evaluate_blocks_quoted_example : (evaluate words_config words_request).verdict ≡ Verdict.blocked
unfolding has_key allowed_label_set add_labels insert lookup normalize_label text trim_space
    rune_lower ◌==◌ contains has_prefix
evaluate_blocks_quoted_example =
    evaluate_blocks_quoted words_config words_request words_request words words
      normalize_basic-words refl refl refl refl refl

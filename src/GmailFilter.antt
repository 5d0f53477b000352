-- ===== src/GmailFilter.antt =====
-- internal/gmailfilter/filter.go: the filter that enforces one grant.
pub mod Labels
use gmail_visibility_manager.Base.{List, [], ◌∷◌, Bool, true, false, if◌then◌else◌}
use gmail_visibility_manager.Text.{Text, ◌==◌, text_lt}
use gmail_visibility_manager.Dict.{Dict, insert, values}
use gmail_visibility_manager.Sort.Less.{sort_less}
use gmail_visibility_manager.Std.{Std}
use gmail_visibility_manager.Config.{normalize_label}

pub record Spec : Type 0 where
  pub from : Text
  pub add_labels : List Text

module _ ⦃std : Std⦄ where
  -- the loop that fills `seen`
  unfoldable pub collect_spec : List Text → Dict Text → Dict Text
  collect_spec [] seen = seen
  collect_spec (label ∷ labels) seen =
      collect_spec labels (insert seen (normalize_label label) label)

  -- the comparison of sort.Slice: the visibility label first
  unfoldable pub label_less : Text → Text → Text → Bool
  label_less visibility_label a b =
      if normalize_label a == normalize_label visibility_label
      then true
      else if normalize_label b == normalize_label visibility_label
      then false
      else text_lt (normalize_label a) (normalize_label b)

  unfoldable pub compile_grant : Text → Text → List Text → Spec
  unfolding collect_spec label_less
  compile_grant email visibility_label classification_labels = record {
    from = email;
    add_labels =
        sort_less (label_less visibility_label)
          (values (collect_spec (visibility_label ∷ classification_labels) []));
  }

-- ===== src/Policy.antt =====
-- internal/policy/policy.go: the trusted verdict on one untrusted request.
pub mod Reasons
pub mod Verdicts
use gmail_visibility_manager.Base.{
  List, [], ◌∷◌, ◌++◌, Bool, true, false, ◌&&◌, ◌||◌, is_empty, if◌then◌else◌, Option, none, some,
}
use gmail_visibility_manager.Text.{Text, text, ◌==◌, contains}
use gmail_visibility_manager.Result.{Result, ok, err}
use gmail_visibility_manager.Sort.{sort_by}
use gmail_visibility_manager.Dict.{Dict, lookup, is_some}
use gmail_visibility_manager.Std.{Std}
use gmail_visibility_manager.Request.{
  VisibilityRequest, normalize_basic, action_create_visibility_grant, action_update_grant_labels,
}
use gmail_visibility_manager.Config.{
  Config, normalize_label, allowed_label_set, sensitive_label_set,
}

pub data Verdict : Type 0 where
  auto_safe needs_human_approval blocked : Verdict

pub record Evaluation : Type 0 where
  pub verdict : Verdict
  pub approval_required : Bool
  pub reasons : List Text
  pub request : VisibilityRequest

abbrev pub includes_visibility : Text
includes_visibility = text "classification labels must not include the Donna visibility label"

abbrev pub unsupported_action : Text
unsupported_action = text "unsupported action"

abbrev pub creates_grant : Text
creates_grant = text "creates or confirms Donna-readable visibility for one sender"

abbrev pub changes_labels : Text
changes_labels = text "changes trusted classification labels for an existing Donna-visible sender"

-- the words that hasBlockingReason looks for
abbrev pub is_blocking_text : Text → Bool
is_blocking_text reason =
    contains reason (text "not allowlisted") || contains reason (text "visibility label")

unfoldable pub has_blocking_reason : List Text → Bool
has_blocking_reason [] = false
has_blocking_reason (reason ∷ reasons) =
    if is_empty reason
    then has_blocking_reason reasons
    else is_blocking_text reason || has_blocking_reason reasons

-- what the loop appends to `reasons` and to `canonicalLabels`
pub record Judgement : Type 0 where
  pub reasons : List Text
  pub labels : List Text

module _ ⦃std : Std⦄ where
  abbrev pub not_allowlisted : Text → Text
  not_allowlisted label =
      text "classification label " ++ (std.quote label ++ text " is not allowlisted")

  abbrev pub is_sensitive_text : Text → Text
  is_sensitive_text canonical =
      text "classification label " ++ (std.quote canonical ++ text " is sensitive")

  -- one round of the loop over the labels
  unfoldable pub judge_label : Config → Text → Judgement
  judge_label cfg label =
      let key = normalize_label label in
      if key == normalize_label cfg.visibility_label
      then record { reasons = includes_visibility ∷ []; labels = [] }
      else elim (lookup (allowed_label_set cfg) key) [
        | none ↦ record { reasons = not_allowlisted label ∷ []; labels = [] }
        | some canonical ↦ record {
          reasons =
              if is_some (lookup (sensitive_label_set cfg) key)
              then is_sensitive_text canonical ∷ []
              else [];
          labels = canonical ∷ [];
        }
      ]

  unfoldable pub judge_labels : Config → List Text → Judgement
  unfolding judge_label
  judge_labels cfg [] = record { reasons = []; labels = [] }
  judge_labels cfg (label ∷ labels) =
      let first = judge_label cfg label in
      let rest = judge_labels cfg labels in
      record { reasons = first.reasons ++ rest.reasons; labels = first.labels ++ rest.labels }

  -- Evaluate behind the normal form and the loop
  unfoldable pub conclude : VisibilityRequest → List Text → Evaluation
  unfolding has_blocking_reason
  conclude normalized reasons =
      if has_blocking_reason reasons
      then record {
        verdict = blocked;
        approval_required = false;
        reasons = reasons;
        request = normalized;
      }
      else if normalized.action == action_create_visibility_grant
      then record {
        verdict = needs_human_approval;
        approval_required = true;
        reasons = reasons ++ creates_grant ∷ [];
        request = normalized;
      }
      else if normalized.action == action_update_grant_labels
      then record {
        verdict = needs_human_approval;
        approval_required = true;
        reasons = reasons ++ changes_labels ∷ [];
        request = normalized;
      }
      else record {
        verdict = blocked;
        approval_required = false;
        reasons = reasons ++ unsupported_action ∷ [];
        request = normalized;
      }

  abbrev pub with_labels : VisibilityRequest → List Text → VisibilityRequest
  with_labels r labels = record r { classification_labels = labels }

  unfoldable pub evaluate : Config → VisibilityRequest → Evaluation
  unfolding conclude judge_labels
  evaluate cfg req = elim (normalize_basic req) [
    | err e ↦ record {
      verdict = blocked;
      approval_required = false;
      reasons = e ∷ [];
      request = req;
    }
    | ok normalized ↦
        let judged = judge_labels cfg normalized.classification_labels in
        conclude (with_labels normalized (sort_by normalize_label judged.labels)) judged.reasons
  ]

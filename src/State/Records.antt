-- ===== src/State/Records.antt =====
-- internal/state/state.go: the records, the rows that hold them, and the scanners between the two.
pub mod RoundTrip
use gmail_visibility_manager.Base.{
  ℕ, List, [], ◌∷◌, Bool, true, false, not, is_empty, eqb, if◌then◌else◌,
}
use gmail_visibility_manager.Text.{Text, text, trim_space}
use gmail_visibility_manager.Result.{Result, ok, err, ◌>>=◌}
use gmail_visibility_manager.Std.{Std}
use gmail_visibility_manager.Policy.{Verdict}

pub data Status : Type 0 where
  pending blocked denied approved applied : Status

pub record RequestRecord : Type 0 where
  pub request_id : Text
  pub request_hash : Text
  pub schema_version : Text
  pub created_at : Text
  pub received_at : Text
  pub requested_by : Text
  pub action : Text
  pub email : Text
  pub classification_labels : List Text
  pub rationale : Text
  pub status : Status
  pub policy_verdict : Verdict
  pub policy_reasons : List Text
  pub approval_required : Bool
  pub decided_by : Text
  pub decision_reason : Text
  pub decided_at : Text
  pub applied_at : Text

pub record GrantRecord : Type 0 where
  pub email : Text
  pub visibility_label : Text
  pub classification_labels : List Text
  pub status : Text
  pub created_from_request_id : Text
  pub requested_by : Text
  pub rationale : Text
  pub approved_by : Text
  pub approved_at : Text
  pub created_at : Text
  pub updated_at : Text
  pub gmail_filter_id : Text

-- a row of the table `requests`, in the order of its columns
pub record RequestRow : Type 0 where
  pub request_id : Text
  pub request_hash : Text
  pub schema_version : Text
  pub created_at : Text
  pub received_at : Text
  pub requested_by : Text
  pub action : Text
  pub email : Text
  pub classification_labels_json : Text
  pub rationale : Text
  pub status : Status
  pub policy_verdict : Verdict
  pub policy_reasons_json : Text
  pub approval_required : ℕ
  pub decided_by : Text
  pub decision_reason : Text
  pub decided_at : Text
  pub applied_at : Text

-- a row of the table `grants`
pub record GrantRow : Type 0 where
  pub email : Text
  pub visibility_label : Text
  pub classification_labels_json : Text
  pub status : Text
  pub created_from_request_id : Text
  pub requested_by : Text
  pub rationale : Text
  pub approved_by : Text
  pub approved_at : Text
  pub created_at : Text
  pub updated_at : Text
  pub gmail_filter_id : Text

abbrev pub status_active : Text
status_active = text "active"

abbrev pub is_pending : Status → Bool
is_pending pending = true
is_pending _ = false

abbrev pub is_approved : Status → Bool
is_approved approved = true
is_approved _ = false

abbrev pub is_applied : Status → Bool
is_applied applied = true
is_applied _ = false

-- the text of a status, as messages show it
abbrev pub status_text : Status → Text
status_text pending = text "pending"
status_text blocked = text "blocked"
status_text denied = text "denied"
status_text approved = text "approved"
status_text applied = text "applied"

unfoldable pub bool_int : Bool → ℕ
bool_int true = 1
bool_int false = 0

module _ ⦃std : Std⦄ where
  -- a nil slice and an empty one are one list here
  unfoldable pub marshal_string_slice : List Text → Result Text
  marshal_string_slice values = std.marshal_strings values

  unfoldable pub unmarshal_string_slice : Text → Result (List Text)
  unmarshal_string_slice body =
      if is_empty (trim_space body) then ok [] else std.unmarshal_strings body

  -- scanRequest on a row that is there
  unfoldable pub scan_request : RequestRow → Result RequestRecord
  scan_request row = do
    labels ← unmarshal_string_slice row.classification_labels_json
    reasons ← unmarshal_string_slice row.policy_reasons_json
    ok (record {
      request_id = row.request_id;
      request_hash = row.request_hash;
      schema_version = row.schema_version;
      created_at = row.created_at;
      received_at = row.received_at;
      requested_by = row.requested_by;
      action = row.action;
      email = row.email;
      classification_labels = labels;
      rationale = row.rationale;
      status = row.status;
      policy_verdict = row.policy_verdict;
      policy_reasons = reasons;
      approval_required = not (eqb row.approval_required 0);
      decided_by = row.decided_by;
      decision_reason = row.decision_reason;
      decided_at = row.decided_at;
      applied_at = row.applied_at;
    })

  -- scanGrant on a row that is there
  unfoldable pub scan_grant : GrantRow → Result GrantRecord
  scan_grant row = do
    labels ← unmarshal_string_slice row.classification_labels_json
    ok (record {
      email = row.email;
      visibility_label = row.visibility_label;
      classification_labels = labels;
      status = row.status;
      created_from_request_id = row.created_from_request_id;
      requested_by = row.requested_by;
      rationale = row.rationale;
      approved_by = row.approved_by;
      approved_at = row.approved_at;
      created_at = row.created_at;
      updated_at = row.updated_at;
      gmail_filter_id = row.gmail_filter_id;
    })

  unfoldable pub scan_requests : List RequestRow → Result (List RequestRecord)
  scan_requests [] = ok []
  scan_requests (row ∷ rows) = do
    first ← scan_request row
    rest ← scan_requests rows
    ok (first ∷ rest)

  unfoldable pub scan_grants : List GrantRow → Result (List GrantRecord)
  scan_grants [] = ok []
  scan_grants (row ∷ rows) = do first ← scan_grant row; rest ← scan_grants rows; ok (first ∷ rest)

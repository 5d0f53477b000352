-- ===== src/Tests/Enforcement.antt =====
-- An approval over the client of internal/gmail, at concrete inputs.
use gmail_visibility_manager.Base.{List, [], ◌∷◌}
use gmail_visibility_manager.Text.{Text, text}
use gmail_visibility_manager.Std.Ascii.{ascii_std}
use gmail_visibility_manager.Policy.{Verdict}
use gmail_visibility_manager.State.Records.{Status, GrantRecord}
use gmail_visibility_manager.State.Calls.{empty_db}
use gmail_visibility_manager.State.Operations
use gmail_visibility_manager.State.Operations.{mark_found}
use gmail_visibility_manager.Manager.{World}
use gmail_visibility_manager.Manager.Approve
use gmail_visibility_manager.Tests.Samples.{sample_host}

-- one pending request
abbrev pending_world : World
pending_world = record {
  db = record empty_db {
    requests =
        record {
          request_id = text "r-1";
          request_hash = [];
          schema_version = text "1.0";
          created_at = [];
          received_at = [];
          requested_by = text "donna";
          action = text "create_visibility_grant";
          email = text "a@b.c";
          classification_labels_json = text "[";
          rationale = [];
          status = Status.pending;
          policy_verdict = Verdict.needs_human_approval;
          policy_reasons_json = text "[";
          approval_required = 1;
          decided_by = [];
          decision_reason = [];
          decided_at = [];
          applied_at = [];
        }
        ∷ [];
  };
  log = [];
  gmail_calls = 0;
}

abbrev granted : List GrantRecord
granted =
    record {
      email = text "a@b.c";
      visibility_label = text "Donna";
      classification_labels = [];
      status = text "active";
      created_from_request_id = text "r-1";
      requested_by = text "donna";
      rationale = [];
      approved_by = text "boss";
      approved_at = text "2024-01-01T00:00:00Z";
      created_at = text "2024-01-01T00:00:00Z";
      updated_at = text "2024-01-01T00:00:00Z";
      gmail_filter_id = [];
    }
    ∷ []

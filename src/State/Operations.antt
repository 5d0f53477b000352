-- ===== src/State/Operations.antt =====
-- internal/state/state.go: the methods of Store.
pub mod Lists
pub mod Approve
use gmail_visibility_manager.Base.{
  List, [], ◌∷◌, ◌++◌, Bool, true, false, ◌&&◌, not, is_empty, if◌then◌else◌,
}
use gmail_visibility_manager.Text.{Text, text, ◌==◌, trim_space}
use gmail_visibility_manager.Result.{Result, ok, err, reject_if}
use gmail_visibility_manager.Exec.{Exec, pure, lift, wrap, ◌>>=◌, ◌>>◌}
use gmail_visibility_manager.Std.{Std}
use gmail_visibility_manager.Request.{
  VisibilityRequest, normalize_email, hash, action_update_grant_labels,
}
use gmail_visibility_manager.Policy.{Verdict, Evaluation}
use gmail_visibility_manager.State.Records.{
  Status, RequestRecord, GrantRecord, RequestRow, GrantRow, status_active, is_pending, is_approved,
  is_applied, status_text, bool_int, marshal_string_slice,
}
use gmail_visibility_manager.State.Tables.{
  update_request, set_approved, set_denied, set_applied, upsert_grant, set_filter_id,
}
use gmail_visibility_manager.State.Calls.{
  Host, Db, call, now, new_request_id, write_requests, write_grants, insert_request, transaction,
  get_request, grant_exists, select_grant,
}

abbrev pub is_blocked : Verdict → Bool
is_blocked Verdict.blocked = true
is_blocked _ = false

-- `if strings.TrimSpace(value) == "" { value = … }`
abbrev pub fill : ⦃host : Host⦄ → Text → Exec Db Text → Exec Db Text
fill value otherwise = if is_empty (trim_space value) then otherwise else pure value

module _ ⦃std : Std⦄ ⦃host : Host⦄ where
  -- the row that Submit inserts
  abbrev pub submitted_row : Evaluation → VisibilityRequest → Text → Text → Text → Text → RequestRow
  submitted_row eval req request_hash labels_json reasons_json received_at = record {
    request_id = req.request_id;
    request_hash = request_hash;
    schema_version = req.schema_version;
    created_at = req.created_at;
    received_at = received_at;
    requested_by = req.requested_by;
    action = req.action;
    email = req.email;
    classification_labels_json = labels_json;
    rationale = req.rationale;
    status = if is_blocked eval.verdict then Status.blocked else Status.pending;
    policy_verdict = eval.verdict;
    policy_reasons_json = reasons_json;
    approval_required = bool_int eval.approval_required;
    decided_by = [];
    decision_reason = [];
    decided_at = [];
    applied_at = [];
  }

  -- the record that Submit returns
  abbrev pub submitted_record : Evaluation → VisibilityRequest → Text → Text → RequestRecord
  submitted_record eval req request_hash received_at = record {
    request_id = req.request_id;
    request_hash = request_hash;
    schema_version = req.schema_version;
    created_at = req.created_at;
    received_at = received_at;
    requested_by = req.requested_by;
    action = req.action;
    email = req.email;
    classification_labels = req.classification_labels;
    rationale = req.rationale;
    status = if is_blocked eval.verdict then Status.blocked else Status.pending;
    policy_verdict = eval.verdict;
    policy_reasons = eval.reasons;
    approval_required = eval.approval_required;
    decided_by = [];
    decision_reason = [];
    decided_at = [];
    applied_at = [];
  }

  -- Submit from the hash on, with the id and the creation time filled in
  unfoldable pub submit_filled : Evaluation → VisibilityRequest → Text → Exec Db RequestRecord
  submit_filled eval req received_at = do
    request_hash ← lift (hash req)
    labels_json ← lift (marshal_string_slice req.classification_labels)
    reasons_json ← lift (marshal_string_slice eval.reasons)
    wrap (text "insert request: ")
        (insert_request (submitted_row eval req request_hash labels_json reasons_json received_at))
    pure (submitted_record eval req request_hash received_at)

  unfoldable pub submit : Evaluation → Exec Db RequestRecord
  submit eval = do
    request_id ← fill eval.request.request_id new_request_id
    received_at ← now
    created_at ← fill eval.request.created_at (pure received_at)
    submit_filled eval (record eval.request { request_id = request_id; created_at = created_at })
        received_at

  abbrev pub not_pending : Text → Status → Text
  not_pending request_id status =
      text "request "
      ++ (request_id ++ (text " is " ++ (status_text status ++ text ", not pending")))

  unfoldable pub lookup_grant : Text → Exec Db GrantRecord
  lookup_grant email = do normalized ← lift (normalize_email email); select_grant normalized

  -- the row that Approve inserts, or that overwrites an older grant
  abbrev pub granted_row : RequestRecord → Text → Text → Text → Text → GrantRow
  granted_row req approver visibility_label labels_json approved_at = record {
    email = req.email;
    visibility_label = visibility_label;
    classification_labels_json = labels_json;
    status = status_active;
    created_from_request_id = req.request_id;
    requested_by = req.requested_by;
    rationale = req.rationale;
    approved_by = approver;
    approved_at = approved_at;
    created_at = approved_at;
    updated_at = approved_at;
    gmail_filter_id = [];
  }

  -- an update of labels needs a grant that is there
  unfoldable pub check_update : RequestRecord → Exec Db (Unit {0})
  check_update req =
      if req.action == action_update_grant_labels
      then (do
        exists ← grant_exists req.email
        lift (
            reject_if (not exists)
              (text "cannot update labels: grant for " ++ (req.email ++ text " does not exist"))))
      else pure tt

  -- the body of the transaction of Approve
  unfoldable pub approve_tx : Text → Text → Text → Exec Db (RequestRecord × Text)
  unfolding check_update
  approve_tx request_id approver visibility_label = do
    req ← get_request request_id
    lift (reject_if (not (is_pending req.status)) (not_pending request_id req.status))
    check_update req
    decided_at ← now
    labels_json ← lift (marshal_string_slice req.classification_labels)
    wrap (text "upsert grant: ") call
    write_grants (upsert_grant (granted_row req approver visibility_label labels_json decided_at))
    wrap (text "update request approval: ") call
    write_requests (λ rows. update_request (set_approved approver decided_at) rows request_id)
    pure (req, decided_at)

  -- behind the first two lines, which trim the arguments
  unfoldable pub approve_trimmed : Text → Text → Text → Exec Db (RequestRecord × GrantRecord)
  approve_trimmed request_id approver visibility_label = do
    lift (reject_if (is_empty request_id) (text "request id is required"))
    lift (reject_if (is_empty approver) (text "approver is required"))
    found ← transaction (approve_tx request_id approver visibility_label)
    grant ← lookup_grant found.0.email
    pure (
      record (found.0) {
        status = Status.approved;
        decided_by = approver;
        decided_at = found.1;
        applied_at = [];
      },
      grant,
    )

  unfoldable pub approve : Text → Text → Text → Exec Db (RequestRecord × GrantRecord)
  approve request_id approver visibility_label =
      approve_trimmed (trim_space request_id) (trim_space approver) visibility_label

  -- the lines of MarkRequestApplied for a request that was read
  unfoldable pub mark_found : Text → RequestRecord → Exec Db RequestRecord
  mark_found request_id req = if is_applied req.status then pure req else do
    lift (
        reject_if (not (is_approved req.status)) (
          text "request "
          ++ (request_id ++ (text " is " ++ (status_text req.status ++ text ", not approved")))))
    applied_at ← now
    wrap (text "mark request applied: ") call
    write_requests (λ rows. update_request (set_applied applied_at) rows request_id)
    pure (record req { status = Status.applied; applied_at = applied_at })

  unfoldable pub mark_request_applied : Text → Exec Db RequestRecord
  unfolding mark_found
  mark_request_applied id = do
    let request_id = trim_space id
    lift (reject_if (is_empty request_id) (text "request id is required"))
    req ← get_request request_id
    mark_found request_id req

  -- the body of the transaction of Deny
  unfoldable pub deny_tx : Text → Text → Text → Exec Db RequestRecord
  deny_tx request_id actor reason = do
    req ← get_request request_id
    lift (reject_if (not (is_pending req.status)) (not_pending request_id req.status))
    decided_at ← now
    wrap (text "update request denial: ") call
    write_requests (λ rows. update_request (set_denied actor reason decided_at) rows request_id)
    pure (record req {
      status = Status.denied;
      decided_by = actor;
      decision_reason = reason;
      decided_at = decided_at;
    })

  unfoldable pub deny : Text → Text → Text → Exec Db RequestRecord
  deny id by reason = do
    let request_id = trim_space id
    let actor = trim_space by
    lift (reject_if (is_empty request_id) (text "request id is required"))
    lift (reject_if (is_empty actor) (text "actor is required"))
    transaction (deny_tx request_id actor (trim_space reason))

  unfoldable pub set_grant_filter_id : Text → Text → Exec Db (Unit {0})
  set_grant_filter_id email filter_id = do
    normalized ← lift (normalize_email email)
    updated_at ← now
    wrap (text "update grant filter id: ") call
    write_grants (set_filter_id (trim_space filter_id) updated_at normalized)

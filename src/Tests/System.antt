-- ===== src/Tests/System.antt =====
-- internal/manager and internal/daemon at concrete inputs.
use gmail_visibility_manager.Base.{
  Option, List, [], ◌∷◌, ◌≡◌, refl, true, false, none, some, is_empty,
}
use gmail_visibility_manager.Text.{
  join, text, ◌==◌, trim_space, contains_any, has_rune, text_lt, has_prefix, contains, len,
  count_rune, cut_rune,
}
use gmail_visibility_manager.Result.{ok}
use gmail_visibility_manager.Dict.{insert, values, lookup}
use gmail_visibility_manager.Sort.{sort_by}
use gmail_visibility_manager.Sort.Less.{sort_less}
use gmail_visibility_manager.Std.{rune_lower}
use gmail_visibility_manager.Std.Ascii.{ascii_std, ascii_laws}
use gmail_visibility_manager.Request.{
  normalize_email, hash, normalize_basic, normalize_labels, parse_strict, validate_basic,
}
use gmail_visibility_manager.Config.{
  normalize_label, allowed_label_set, sensitive_label_set, add_labels, gmail_configured,
}
use gmail_visibility_manager.Policy.{evaluate, has_blocking_reason}
use gmail_visibility_manager.State.Records.{
  RequestRecord, GrantRecord, Status, GrantRow, bool_int, marshal_string_slice,
  unmarshal_string_slice, scan_request, scan_grant, scan_grants,
}
use gmail_visibility_manager.State.Tables.{
  find_request, find_grant, update_request, set_approved, set_applied, upsert_grant, set_filter_id,
}
use gmail_visibility_manager.State.Calls.{
  call, now, insert_request, get_request, transaction, select_grant,
}
use gmail_visibility_manager.State.Operations
use gmail_visibility_manager.State.Operations.{
  submit_filled, approve_trimmed, approve_tx, mark_request_applied, lookup_grant, check_update,
  set_grant_filter_id,
}
use gmail_visibility_manager.State.Operations.Lists.{list_grants}
use gmail_visibility_manager.Manager
use gmail_visibility_manager.Manager.{record_grant_filter_ids, find_reconcile_result}
use gmail_visibility_manager.Manager.Approve
use gmail_visibility_manager.Manager.Approve.{enforce, finish_approval}
use gmail_visibility_manager.Manager.Marking.{NoneApplied}
use gmail_visibility_manager.Manager.Enforcing.{
  Enforced, approve-NoneApplied_on_error, approve-IsEnforced,
}
use gmail_visibility_manager.Rpc.Envelope.{validate_request, new_success, new_error}
use gmail_visibility_manager.Rpc.Framing.{read_frame}
use gmail_visibility_manager.Daemon.Serve.{Served, handle_conn, dispatch, dispatch_submit}
use gmail_visibility_manager.Daemon.Serve.Intake.{Intake, handle_conn-Intake}
use gmail_visibility_manager.Daemon.Serve.Admission.{IsAdmitted, handle_conn-IsAdmitted}
use gmail_visibility_manager.Discord.{Message, admits, on_message}
use gmail_visibility_manager.Text.Fields.{fields}
use gmail_visibility_manager.Dict.Keyed.{has_key}
use gmail_visibility_manager.System.{Event, connects, receives, start, run_event, run_events}
use gmail_visibility_manager.System.Safety.{connections_keep_grants, run_events-IsJustified}
use gmail_visibility_manager.Tests.Samples.{
  sample_bot, sample_message, sample_os, sample_host, sample_gmail, sample_config, sample_stream,
  sample_decoders,
}

abbrev served : Served
served = (handle_conn sample_decoders sample_config true (some (ok 1001)) sample_stream start).1

handle_conn-Intake_example :
    Intake sample_decoders sample_config true sample_stream start.world.db served.world.db
handle_conn-Intake_example =
    handle_conn-Intake sample_decoders sample_config true (some (ok 1001)) sample_stream start

handle_conn-sample :
    (handle_conn sample_decoders sample_config true
      (some (ok 1001))
      sample_stream
      start).0.succeeded
    ≡ true
unfolding handle_conn dispatch dispatch_submit read_frame validate_request new_success new_error
    parse_strict validate_basic normalize_basic normalize_email normalize_labels hash Manager.submit
    Approve.approve evaluate has_blocking_reason normalize_label allowed_label_set
    sensitive_label_set add_labels gmail_configured lookup text trim_space len contains_any contains
    count_rune cut_rune has_prefix has_rune rune_lower insert ◌==◌ values sort_by sort_less text_lt
    Operations.submit Operations.approve submit_filled insert_request now call marshal_string_slice
    bool_int approve_trimmed approve_tx get_request transaction scan_request unmarshal_string_slice
    lookup_grant select_grant scan_grant scan_grants set_approved set_applied check_update
    upsert_grant update_request find_request find_grant enforce finish_approval
    record_grant_filter_ids find_reconcile_result list_grants set_grant_filter_id set_filter_id
    mark_request_applied run_events run_event
handle_conn-sample = refl

handle_conn-stranger :
    (handle_conn sample_decoders sample_config true
      (some (ok 1002))
      sample_stream
      start).0.succeeded
    ≡ false
unfolding handle_conn new_error
handle_conn-stranger = refl

handle_conn-IsAdmitted_example :
    IsAdmitted sample_decoders sample_config true
      (some (ok 1001))
      sample_stream
      (handle_conn sample_decoders sample_config true (some (ok 1001)) sample_stream start).0.id
handle_conn-IsAdmitted_example =
    handle_conn-IsAdmitted sample_decoders sample_config true (some (ok 1001)) sample_stream start
      handle_conn-sample

-- a message by somebody who is not listed
abbrev stranger : Option Message
stranger = sample_message (text "9") (text "!gvm approve r-1")

connections_keep_grants_example :
    (run_events sample_decoders sample_config true sample_bot
      (connects (some (ok 1001)) sample_stream ∷ receives stranger ∷ [])
      start).world.db.grants
    ≡ []
unfolding admits has_key text trim_space ◌==◌
connections_keep_grants_example =
    connections_keep_grants sample_decoders sample_config true sample_bot
      (connects (some (ok 1001)) sample_stream ∷ receives stranger ∷ []) start (refl, (refl, tt))

approve-failed :
    (Approve.approve sample_config (text "none") (text "boss") start.world).0.error
    ≡ some (text "request not found")
unfolding handle_conn dispatch dispatch_submit read_frame validate_request new_success new_error
    parse_strict validate_basic normalize_basic normalize_email normalize_labels hash Manager.submit
    Approve.approve evaluate has_blocking_reason normalize_label allowed_label_set
    sensitive_label_set add_labels gmail_configured lookup text trim_space len contains_any contains
    count_rune cut_rune has_prefix has_rune rune_lower insert ◌==◌ values sort_by sort_less text_lt
    Operations.submit Operations.approve submit_filled insert_request now call marshal_string_slice
    bool_int approve_trimmed approve_tx get_request transaction scan_request unmarshal_string_slice
    lookup_grant select_grant scan_grant scan_grants set_approved set_applied check_update
    upsert_grant update_request find_request find_grant enforce finish_approval
    record_grant_filter_ids find_reconcile_result list_grants set_grant_filter_id set_filter_id
    mark_request_applied run_events run_event
approve-failed = refl

approve-NoneApplied_on_error_example :
    NoneApplied start.world.db
      (Approve.approve sample_config (text "none") (text "boss") start.world).1.db
approve-NoneApplied_on_error_example =
    approve-NoneApplied_on_error sample_config (text "none") (text "boss")
      (text "request not found") start.world approve-failed

approve-sample :
    (Approve.approve sample_config (text "r-1") (text "boss") served.world).0.error ≡ none
unfolding handle_conn dispatch dispatch_submit read_frame validate_request new_success new_error
    parse_strict validate_basic normalize_basic normalize_email normalize_labels hash Manager.submit
    Approve.approve evaluate has_blocking_reason normalize_label allowed_label_set
    sensitive_label_set add_labels gmail_configured lookup text trim_space len contains_any contains
    count_rune cut_rune has_prefix has_rune rune_lower insert ◌==◌ values sort_by sort_less text_lt
    Operations.submit Operations.approve submit_filled insert_request now call marshal_string_slice
    bool_int approve_trimmed approve_tx get_request transaction scan_request unmarshal_string_slice
    lookup_grant select_grant scan_grant scan_grants set_approved set_applied check_update
    upsert_grant update_request find_request find_grant enforce finish_approval
    record_grant_filter_ids find_reconcile_result list_grants set_grant_filter_id set_filter_id
    mark_request_applied run_events run_event
approve-sample = refl

approve-IsEnforced_example :
    (decided : RequestRecord) × (grant : GrantRecord) × (req : RequestRecord) × ((Operations.approve
        (text "r-1")
        (text "boss")
        (text "Donna")
        served.world.db).0
      ≡ ok (decided, grant))
    × ((Approve.approve sample_config (text "r-1") (text "boss") served.world).0.request ≡ some req)
    × (req.status ≡ Status.applied)
    × (gmail_configured sample_config ≡ true
        → Enforced
            (Operations.approve (text "r-1") (text "boss") (text "Donna") served.world.db).1
            grant
            (Approve.approve sample_config (text "r-1") (text "boss") served.world).0.reconciled)
approve-IsEnforced_example =
    approve-IsEnforced sample_config (text "r-1") (text "boss") served.world approve-sample

abbrev events : List Event
events =
    connects (some (ok 1001)) sample_stream
    ∷ receives (sample_message (text "7") (text "!gvm approve r-1"))
    ∷ []

found_grant :
    (grant : GrantRow) × (find_grant
        (run_events sample_decoders sample_config true sample_bot events start).world.db.grants
        (text "a@b.com")
      ≡ some grant)
unfolding handle_conn dispatch dispatch_submit read_frame validate_request new_success new_error
    parse_strict validate_basic normalize_basic normalize_email normalize_labels hash Manager.submit
    Approve.approve evaluate has_blocking_reason normalize_label allowed_label_set
    sensitive_label_set add_labels gmail_configured lookup text trim_space len contains_any contains
    count_rune cut_rune has_prefix has_rune rune_lower insert ◌==◌ values sort_by sort_less text_lt
    Operations.submit Operations.approve submit_filled insert_request now call marshal_string_slice
    bool_int approve_trimmed approve_tx get_request transaction scan_request unmarshal_string_slice
    lookup_grant select_grant scan_grant scan_grants set_approved set_applied check_update
    upsert_grant update_request find_request find_grant enforce finish_approval
    record_grant_filter_ids find_reconcile_result list_grants set_grant_filter_id set_filter_id
    mark_request_applied run_events run_event on_message has_key fields join
found_grant = (_, refl)

run_events-IsJustified_example : is_empty found_grant.0.approved_by ≡ false
run_events-IsJustified_example =
    (run_events-IsJustified sample_decoders sample_config true sample_bot ascii_laws events
      (text "a@b.com") found_grant.0 found_grant.1).1

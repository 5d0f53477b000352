-- ===== src/Tests/State.antt =====
-- internal/state at concrete inputs.
use gmail_visibility_manager.Base.{pos, List, [], ◌∷◌, ◌++◌, ◌≡◌, refl, true, false, some, is_empty}
use gmail_visibility_manager.Text.{
  text, ◌==◌, trim_space, contains_any, has_rune, text_lt, has_prefix, contains, len, count_rune,
  cut_rune,
}
use gmail_visibility_manager.Result.{ok}
use gmail_visibility_manager.Dict.{insert, values}
use gmail_visibility_manager.Sort.{sort_by}
use gmail_visibility_manager.Sort.Less.{sort_less}
use gmail_visibility_manager.Std.{rune_lower}
use gmail_visibility_manager.Std.Ascii.{ascii_std, ascii_laws}
use gmail_visibility_manager.Request.{normalize_email, hash, normalize_basic, normalize_labels}
use gmail_visibility_manager.Policy.{Verdict, Evaluation}
use gmail_visibility_manager.State.Records.{
  RequestRecord, RequestRow, scan_requests, GrantRow, bool_int, marshal_string_slice,
  unmarshal_string_slice, scan_request, scan_grant,
}
use gmail_visibility_manager.State.Tables.{
  find_request, find_grant, update_request, set_approved, set_applied, upsert_grant,
}
use gmail_visibility_manager.State.Calls.{
  empty_db, now, insert_request, get_request, transaction, select_grant,
}
use gmail_visibility_manager.State.Operations.{
  submit, submit_filled, approve, approve_trimmed, approve_tx, mark_request_applied, lookup_grant,
  check_update,
}
use gmail_visibility_manager.State.Operations.Lists.{list_pending, list_recent}
use gmail_visibility_manager.State.Change.{Change}
use gmail_visibility_manager.State.History.{
  Method, run_method, run_methods, Ever, run_method-Change, run_methods-Ever, grant_has_approval,
}
use gmail_visibility_manager.Tests.Samples.{sample_host, sample_request}

abbrev eval : Evaluation
eval = record {
  verdict = Verdict.needs_human_approval;
  approval_required = true;
  reasons = text "creates" ∷ [];
  request = sample_request;
}

abbrev submission : List Method
submission = Method.submits eval ∷ []

abbrev decision : List Method
decision =
    Method.approves (text " r-1") (text "boss") (text "Donna") ∷ Method.marks (text "r-1") ∷ []

found_request :
    (row : RequestRow) × (find_request (run_methods submission empty_db).requests (text "r-1")
      ≡ some row)
unfolding run_methods submit submit_filled insert_request now find_request text trim_space ◌==◌ hash
    normalize_basic normalize_email contains_any contains count_rune rune_lower cut_rune
    normalize_labels len marshal_string_slice has_rune has_prefix insert values sort_by text_lt
    bool_int
found_request = (_, refl)

found_grant :
    (grant : GrantRow) × (find_grant
        (run_methods (submission ++ decision) empty_db).grants
        (text "a@b.com")
      ≡ some grant)
unfolding run_methods submit submit_filled approve approve_trimmed approve_tx get_request
    insert_request now find_request find_grant upsert_grant update_request text trim_space ◌==◌ hash
    normalize_basic normalize_email contains_any contains count_rune rune_lower cut_rune
    normalize_labels len marshal_string_slice has_rune has_prefix insert values sort_by text_lt
    bool_int set_approved mark_request_applied transaction scan_request unmarshal_string_slice
    lookup_grant select_grant scan_grant set_applied check_update
found_grant = (_, refl)

run_method-Change_example : Change empty_db (run_method (Method.submits eval) empty_db)
run_method-Change_example = run_method-Change (Method.submits eval) empty_db

run_methods-Ever_example :
    (row : RequestRow) × (find_request
        (run_methods decision (run_methods submission empty_db)).requests
        (text "r-1")
      ≡ some row)
    × Ever found_request.0 row
run_methods-Ever_example =
    run_methods-Ever decision (run_methods submission empty_db) (text "r-1") found_request.0
      found_request.1

grant_has_approval_example : is_empty found_grant.0.approved_by ≡ false
grant_has_approval_example =
    (grant_has_approval ascii_laws (submission ++ decision) (text "a@b.com") found_grant.0
      found_grant.1).1

found_pending :
    (rs : List RequestRecord) × ((list_pending (run_methods submission empty_db)).0 ≡ ok rs)
unfolding run_methods submit submit_filled insert_request now find_request text trim_space ◌==◌ hash
    normalize_basic normalize_email contains_any contains count_rune rune_lower cut_rune
    normalize_labels len marshal_string_slice has_rune has_prefix insert values sort_by text_lt
    bool_int list_pending scan_requests scan_request unmarshal_string_slice sort_less
found_pending = (_, refl)

found_recent :
    (rs : List RequestRecord) × ((list_recent (pos 5) (run_methods submission empty_db)).0 ≡ ok rs)
unfolding run_methods submit submit_filled insert_request now find_request text trim_space ◌==◌ hash
    normalize_basic normalize_email contains_any contains count_rune rune_lower cut_rune
    normalize_labels len marshal_string_slice has_rune has_prefix insert values sort_by text_lt
    bool_int list_recent scan_requests scan_request unmarshal_string_slice sort_less
found_recent = (_, refl)

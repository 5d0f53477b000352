-- ===== src/Manager/Approve.antt =====
-- internal/manager/manager.go: Approve, from the decision to the mark on the request.
use gmail_visibility_manager.Base.{
  List, [], ◌∷◌, ◌++◌, true, is_empty, if◌then◌else◌, Option, none, some,
}
use gmail_visibility_manager.Text.{Text, text}
use gmail_visibility_manager.Result.{ok, err}
use gmail_visibility_manager.Std.{Std}
use gmail_visibility_manager.Config.{Config, gmail_configured}
use gmail_visibility_manager.State.Records.{RequestRecord, GrantRecord, status_text}
use gmail_visibility_manager.State.Calls.{Host}
use gmail_visibility_manager.State.Operations
use gmail_visibility_manager.State.Operations.{mark_request_applied, set_grant_filter_id}
use gmail_visibility_manager.State.Operations.Lists.{list_grants}
use gmail_visibility_manager.Gmail.{Gmail, ReconcileOptions, ReconcileResult}
use gmail_visibility_manager.Manager.{
  enforcement, failure, World, on_store, append, next_gmail, find_reconcile_result,
  record_grant_filter_ids,
}

-- what Approve returns: Go's four results, of which a failure may leave some out
pub record Approval : Type 0 where
  pub request : Option RequestRecord
  pub grant : Option GrantRecord
  pub reconciled : Option ReconcileResult
  pub error : Option Text

-- what the enforcement in Gmail came to; a failure has a cause, which is audited, and a message
pub record Enforcement : Type 0 where
  pub grant : GrantRecord
  pub reconciled : Option ReconcileResult
  pub failed : Option (Text × Text)

abbrev pub backfill_of : GrantRecord → ReconcileOptions
backfill_of grant = record {
  apply = true;
  backfill_historical = true;
  backfill_historical_emails = grant.email ∷ [];
}

-- the grant with the filter id of its result
abbrev pub with_filter : GrantRecord → Option ReconcileResult → GrantRecord
with_filter grant none = grant
with_filter grant (some result) =
    if is_empty result.gmail_filter_id
    then grant
    else record grant { gmail_filter_id = result.gmail_filter_id }

-- Approve's lines behind the record of the filter ids
abbrev pub judge_results : GrantRecord → Option ReconcileResult → Option Text → Enforcement
judge_results grant found (some e) = record {
  grant = grant;
  reconciled = found;
  failed = some (e, text "approval recorded, but Gmail reconciliation failed: " ++ e);
}
judge_results grant none none =
    let e =
      text "approval recorded, but Gmail reconciliation returned no result for " ++ grant.email in
    record { grant = grant; reconciled = none; failed = some (e, e) }
judge_results grant (some result) none = record {
  grant = grant;
  reconciled = some result;
  failed = none;
}

module _ ⦃std : Std⦄ ⦃host : Host⦄ ⦃gmail : Gmail⦄ where
  -- Approve's lines from ReconcileGrants on
  unfoldable pub enforce_grants : GrantRecord → List GrantRecord → World → Enforcement × World
  unfolding find_reconcile_result record_grant_filter_ids
  enforce_grants grant grants w =
      let (results, problem) = gmail.reconcile w.gmail_calls grants (backfill_of grant) in
      let found = find_reconcile_result results grant.email in
      let (recorded, w') = on_store (record_grant_filter_ids results) (next_gmail w) in
      elim recorded [
        | err e ↦ (
          record {
            grant = grant;
            reconciled = found;
            failed =
                some (
                  e,
                  text "approval reconciled Gmail, but recording Gmail filter IDs failed: " ++ e,
                );
          },
          w',
        )
        | ok _ ↦ (judge_results (with_filter grant found) found problem, w')
      ]

  -- the block of Approve under GmailConfigured
  unfoldable pub enforce : Config → GrantRecord → World → Enforcement × World
  unfolding enforce_grants
  enforce cfg grant w =
      if gmail_configured cfg
      then elim (gmail.connect w.gmail_calls) [
        | some e ↦ (
          record {
            grant = grant;
            reconciled = none;
            failed = some (e, text "approval recorded, but open Gmail failed: " ++ e);
          },
          next_gmail w,
        )
        | none ↦
            let (listed, w') = on_store list_grants (next_gmail w) in
            elim listed [
              | err e ↦ (
                record {
                  grant = grant;
                  reconciled = none;
                  failed = some (
                    e,
                    text "approval recorded, but loading grants for Gmail reconciliation failed: "
                        ++ e,
                  );
                },
                w',
              )
              | ok grants ↦ enforce_grants grant grants w'
            ]
      ]
      else (record { grant = grant; reconciled = none; failed = none }, w)

  -- auditApprovalFailure, and the return behind it
  abbrev pub fail_approval :
      RequestRecord → Enforcement → Text → Text → Text → World → Approval × World
  fail_approval req e actor cause message w = (
    record {
      request = some req;
      grant = some e.grant;
      reconciled = e.reconciled;
      error = some message;
    },
    append
        (record {
          event = text "request_approved_enforcement_failed";
          request_id = req.request_id;
          request_hash = req.request_hash;
          actor = actor;
          status = status_text req.status;
          details =
              failure e.grant.email e.grant.visibility_label e.grant.classification_labels cause
                e.reconciled;
        })
        w,
  )

  -- Approve's lines behind the enforcement
  unfoldable pub finish_approval : RequestRecord → Enforcement → Text → World → Approval × World
  finish_approval req e actor w =
      let (marked, w') = on_store (mark_request_applied req.request_id) w in
      elim marked [
        | err cause ↦
            fail_approval req e actor cause
              (text "approval enforcement succeeded, but marking request applied failed: " ++ cause)
              w'
        | ok applied ↦ (
          record {
            request = some applied;
            grant = some e.grant;
            reconciled = e.reconciled;
            error = none;
          },
          append
              (record {
                event = text "request_approved_applied";
                request_id = applied.request_id;
                request_hash = applied.request_hash;
                actor = actor;
                status = status_text applied.status;
                details =
                    enforcement e.grant.email e.grant.visibility_label e.grant.classification_labels
                      e.reconciled;
              })
              w',
        )
      ]

  unfoldable pub approve : Config → Text → Text → World → Approval × World
  unfolding enforce finish_approval
  approve cfg request_id actor w =
      let (decided, w') = on_store (Operations.approve request_id actor cfg.visibility_label) w in
      elim decided [
        | err e ↦ (record { request = none; grant = none; reconciled = none; error = some e }, w')
        | ok (req, grant) ↦
            let (e, w'') = enforce cfg grant w' in
            elim e.failed [
              | some (cause, message) ↦ fail_approval req e actor cause message w''
              | none ↦ finish_approval req e actor w''
            ]
      ]

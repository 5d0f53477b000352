-- ===== src/Manager.antt =====
-- internal/manager/manager.go: policy, store, audit log and Gmail together.
pub mod Approve
pub mod Reconcile
pub mod Changes
pub mod Marking
pub mod Enforcing
use gmail_visibility_manager.Base.{
  ℕ, suc, List, [], ◌∷◌, ◌++◌, Bool, true, false, ◌&&◌, ◌||◌, not, is_empty, if◌then◌else◌, Option,
  none, some,
}
use gmail_visibility_manager.Text.{Text, text, ◌==◌, trim_space}
use gmail_visibility_manager.Result.{Result, ok, err}
use gmail_visibility_manager.Exec.{Exec, pure, ◌>>=◌, ◌>>◌}
use gmail_visibility_manager.Std.{Std}
use gmail_visibility_manager.Request.{VisibilityRequest, normalize_email}
use gmail_visibility_manager.Config.{Config, gmail_configured}
use gmail_visibility_manager.Policy.{Verdict, evaluate}
use gmail_visibility_manager.State.Records.{RequestRecord, GrantRecord, status_text}
use gmail_visibility_manager.State.Calls.{Host, Db}
use gmail_visibility_manager.State.Operations
use gmail_visibility_manager.State.Operations.{mark_request_applied, set_grant_filter_id}
use gmail_visibility_manager.State.Operations.Lists.{list_grants}
use gmail_visibility_manager.Gmail.{Gmail, ReconcileOptions, ReconcileResult}

-- the maps that the manager gives the audit log
pub data Details : Type 0 where
  submission :
      (policy_verdict : Verdict) (approval_required : Bool) (email : Text)
      (labels reasons : List Text)
      → Details
  enforcement :
      (email visibility_label : Text) (classification : List Text)
      (gmail_reconcile : Option ReconcileResult)
      → Details
  failure :
      (email visibility_label : Text) (classification : List Text) (cause : Text)
      (gmail_reconcile : Option ReconcileResult)
      → Details
  denial : (reason email : Text) → Details
  reconciliation : (apply : Bool) (results : List ReconcileResult) → Details

-- an audit event without its time, which the logger adds
pub record AuditRecord : Type 0 where
  pub event : Text
  pub request_id : Text
  pub request_hash : Text
  pub actor : Text
  pub status : Text
  pub details : Details

pub record World : Type 0 where
  pub db : Db
  -- what was handed to the logger, whose errors the manager ignores
  pub log : List AuditRecord
  pub gmail_calls : ℕ

abbrev pub on_store : {A : Type 0} → Exec Db A → Exec World A
on_store m w = let (r, db) = m w.db in (r, record w { db = db })

abbrev pub append : AuditRecord → World → World
append event w = record w { log = w.log ++ event ∷ [] }

abbrev pub audit : AuditRecord → Exec World (Unit {0})
audit event w = (ok tt, append event w)

abbrev pub next_gmail : World → World
next_gmail w = record w { gmail_calls = suc w.gmail_calls }

module _ ⦃std : Std⦄ where
  -- whether a result has the normalized address of the caller
  abbrev pub is_result_for : Text → ReconcileResult → Bool
  is_result_for normalized result = elim (normalize_email result.email) [
    | ok email ↦ email == normalized
    | err _ ↦ false
  ]

  unfoldable pub first_result : Text → List ReconcileResult → Option ReconcileResult
  first_result normalized [] = none
  first_result normalized (result ∷ results) =
      if is_result_for normalized result then some result else first_result normalized results

  unfoldable pub find_reconcile_result : List ReconcileResult → Text → Option ReconcileResult
  unfolding first_result
  find_reconcile_result results email = elim (normalize_email email) [
    | err _ ↦ none
    | ok normalized ↦ first_result normalized results
  ]

module _ ⦃std : Std⦄ ⦃host : Host⦄ where
  unfoldable pub submit : Config → VisibilityRequest → Exec World RequestRecord
  submit cfg req = do
    record' ← on_store (Operations.submit (evaluate cfg req))
    audit (record {
      event = text "request_submitted";
      request_id = record'.request_id;
      request_hash = record'.request_hash;
      actor = record'.requested_by;
      status = status_text record'.status;
      details =
          submission record'.policy_verdict record'.approval_required record'.email
            record'.classification_labels record'.policy_reasons;
    })
    pure record'

  unfoldable pub deny : Text → Text → Text → Exec World RequestRecord
  deny request_id actor reason = do
    req ← on_store (Operations.deny request_id actor reason)
    audit (record {
      event = text "request_denied";
      request_id = req.request_id;
      request_hash = req.request_hash;
      actor = actor;
      status = status_text req.status;
      details = denial reason req.email;
    })
    pure req

  unfoldable pub record_grant_filter_ids : List ReconcileResult → Exec Db (Unit {0})
  record_grant_filter_ids [] = pure tt
  record_grant_filter_ids (result ∷ results) =
      if is_empty (trim_space result.gmail_filter_id) || not result.changed
      then record_grant_filter_ids results
      else (do
        set_grant_filter_id result.email result.gmail_filter_id
        record_grant_filter_ids results)

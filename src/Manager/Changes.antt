-- ===== src/Manager/Changes.antt =====
-- internal/manager/manager.go: what the manager does to the store.
pub mod Reconcile
use gmail_visibility_manager.Base.{
  List, [], ◌∷◌, Bool, ◌&&◌, ◌||◌, not, is_empty, arith, Bool-cases, Option-cases, Option, inl, inr,
  if◌then◌else◌,
}
use gmail_visibility_manager.Text.{Text, trim_space}
use gmail_visibility_manager.Result.{ok, Result-cases}
use gmail_visibility_manager.Exec.{Exec, lift, pure, ◌>>=◌}
use gmail_visibility_manager.Std.{Std}
use gmail_visibility_manager.Os.{Os}
use gmail_visibility_manager.Config.{Config, gmail_configured, validate_gmail}
use gmail_visibility_manager.Policy.{evaluate}
use gmail_visibility_manager.Request.{VisibilityRequest}
use gmail_visibility_manager.State.Records.{RequestRecord, GrantRecord}
use gmail_visibility_manager.State.Calls.{Host, Db, call, get_request}
use gmail_visibility_manager.State.Calls.Rollback.{SameTables}
use gmail_visibility_manager.State.Operations
use gmail_visibility_manager.State.Operations.{mark_request_applied, set_grant_filter_id}
use gmail_visibility_manager.State.Operations.Lists.{list_grants}
use gmail_visibility_manager.State.Change.{nothing}
use gmail_visibility_manager.State.Change.Submits.{submit-Change}
use gmail_visibility_manager.State.Change.Methods.{
  approve-Change, deny-Change, mark_request_applied-Change, set_grant_filter_id-Change,
}
use gmail_visibility_manager.State.Changes.{
  Changes, done, and_then, one, same_tables, Changes-trans,
}
use gmail_visibility_manager.Gmail.{Gmail, ReconcileResult}
use gmail_visibility_manager.Manager
use gmail_visibility_manager.Manager.{World, record_grant_filter_ids, next_gmail, on_store}
use gmail_visibility_manager.Manager.Approve
use gmail_visibility_manager.Manager.Approve.{
  Enforcement, enforce, enforce_grants, finish_approval, backfill_of,
}
use gmail_visibility_manager.Manager.Reconcile.{
  mark_enforced, is_enforced, backfill_emails, prepare_reconcile, finish_reconcile, reconcile_all,
  options_of, connect,
}

module _ ⦃std : Std⦄ ⦃host : Host⦄ where
  pub tables-list_grants : (db : Db) → SameTables db (list_grants db).1
  unfolding list_grants call
  tables-list_grants db = ground arith

  pub tables-get_request : (id : Text) (db : Db) → SameTables db (get_request id db).1
  unfolding get_request call
  tables-get_request id db = ground arith

  pub record_grant_filter_ids-Changes :
      (results : List ReconcileResult) (db : Db) → Changes db (record_grant_filter_ids results db).1
  unfolding record_grant_filter_ids
  record_grant_filter_ids-Changes [] db = done
  record_grant_filter_ids-Changes (r ∷ rs) db =
      elim (Bool-cases (is_empty (trim_space r.gmail_filter_id) || not r.changed)) [
        | inl skip ↦ rw skip (record_grant_filter_ids-Changes rs db)
        | inr keep ↦
            let c = set_grant_filter_id-Change r.email r.gmail_filter_id db in
            elim (Result-cases (set_grant_filter_id r.email r.gmail_filter_id db).0) [
              | inr (e, p) ↦ rw (keep, p) (one c)
              | inl (u, p) ↦
                  rw (keep, p)
                    (and_then c (
                      record_grant_filter_ids-Changes rs
                        (set_grant_filter_id r.email r.gmail_filter_id db).1))
            ]
      ]

  pub mark_enforced-Changes :
      (apply : Bool) (results : List ReconcileResult) (grants : List GrantRecord) (db : Db)
      → Changes db (mark_enforced apply results grants db).1
  unfolding mark_enforced
  mark_enforced-Changes apply results [] db = done
  mark_enforced-Changes apply results (g ∷ gs) db =
      elim (Bool-cases (is_enforced apply results g)) [
        | inr skip ↦ rw skip (mark_enforced-Changes apply results gs db)
        | inl mark ↦
            let id = g.created_from_request_id in
            let c = mark_request_applied-Change id db in
            elim (Result-cases (mark_request_applied id db).0) [
              | inr (e, p) ↦ rw (mark, p) (one c)
              | inl (u, p) ↦
                  rw (mark, p)
                    (and_then c
                      (mark_enforced-Changes apply results gs (mark_request_applied id db).1))
            ]
      ]

  pub backfill_emails-Changes :
      (grants : List GrantRecord) (db : Db) → Changes db (backfill_emails grants db).1
  unfolding backfill_emails
  backfill_emails-Changes [] db = done
  backfill_emails-Changes (g ∷ gs) db = elim (Bool-cases (is_empty g.created_from_request_id)) [
    | inl none' ↦ rw none' (backfill_emails-Changes gs db)
    | inr id ↦
        let t = tables-get_request g.created_from_request_id db in
        let db' = (get_request g.created_from_request_id db).1 in
        elim (Result-cases (get_request g.created_from_request_id db).0) [
          | inr (e, p) ↦ rw (id, p) (same_tables t)
          | inl (req, p) ↦ elim (Result-cases (backfill_emails gs db').0) [
            | inr (e, q) ↦ rw (id, p, q) (and_then (nothing t) (backfill_emails-Changes gs db'))
            | inl (rest, q) ↦ rw (id, p, q) (and_then (nothing t) (backfill_emails-Changes gs db'))
          ]
        ]
  ]

  pub submit-Changes :
      (cfg : Config) (req : VisibilityRequest) (w : World)
      → Changes w.db (Manager.submit cfg req w).1.db
  unfolding Manager.submit
  submit-Changes cfg req w =
      let c = submit-Change (evaluate cfg req) w.db in
      elim (Result-cases (Operations.submit (evaluate cfg req) w.db).0) [
        | inl (r, p) ↦ rw p (one c)
        | inr (e, p) ↦ rw p (one c)
      ]

  pub deny-Changes :
      (id actor reason : Text) (w : World) → Changes w.db (Manager.deny id actor reason w).1.db
  unfolding Manager.deny
  deny-Changes id actor reason w =
      let c = deny-Change id actor reason w.db in
      elim (Result-cases (Operations.deny id actor reason w.db).0) [
        | inl (r, p) ↦ rw p (one c)
        | inr (e, p) ↦ rw p (one c)
      ]

module _ ⦃std : Std⦄ ⦃host : Host⦄ ⦃gmail : Gmail⦄ where
  enforce_grants-Changes :
      (grant : GrantRecord) (grants : List GrantRecord) (w : World)
      → Changes w.db (enforce_grants grant grants w).1.db
  unfolding enforce_grants
  enforce_grants-Changes grant grants w =
      let results = (gmail.reconcile w.gmail_calls grants (backfill_of grant)).0 in
      let c = record_grant_filter_ids-Changes results w.db in
      elim (Result-cases (record_grant_filter_ids results w.db).0) [
        | inl (r, p) ↦ rw (p, enforce_grants) c
        | inr (e, p) ↦ rw (p, enforce_grants) c
      ]

  enforce-Changes :
      (cfg : Config) (grant : GrantRecord) (w : World) → Changes w.db (enforce cfg grant w).1.db
  unfolding enforce
  enforce-Changes cfg grant w = elim (Bool-cases (gmail_configured cfg)) [
    | inr off ↦ rw off done
    | inl on ↦ elim (Option-cases (gmail.connect w.gmail_calls)) [
      | inr (e, p) ↦ rw (on, p) done
      | inl p ↦
          let t = tables-list_grants w.db in
          elim (Result-cases (list_grants w.db).0) [
            | inr (e, q) ↦ rw (on, p, q) (same_tables t)
            | inl (grants, q) ↦
                rw (on, p, q)
                  (and_then (nothing t) (
                    enforce_grants-Changes grant grants
                      (record (next_gmail w) { db = (list_grants w.db).1 })))
          ]
    ]
  ]

  finish_approval-Changes :
      (req : RequestRecord) (e : Enforcement) (actor : Text) (w : World)
      → Changes w.db (finish_approval req e actor w).1.db
  unfolding finish_approval
  finish_approval-Changes req e actor w =
      let c = mark_request_applied-Change req.request_id w.db in
      elim (Result-cases (mark_request_applied req.request_id w.db).0) [
        | inl (r, p) ↦ rw (p, finish_approval) (one c)
        | inr (e, p) ↦ rw (p, finish_approval) (one c)
      ]

  pub approve-Changes :
      (cfg : Config) (id actor : Text) (w : World)
      → Changes w.db (Approve.approve cfg id actor w).1.db
  unfolding Approve.approve
  approve-Changes cfg id actor w =
      let c = approve-Change id actor cfg.visibility_label w.db in
      let (decided, db) = Operations.approve id actor cfg.visibility_label w.db in
      let w' = record w { db = db } in
      elim (Result-cases (Operations.approve id actor cfg.visibility_label w.db).0) [
        | inr (e, p) ↦ rw (p, Approve.approve) (one c)
        | inl (found, p) ↦
            let (e, w'') = enforce cfg found.1 w' in
            elim (Option-cases (enforce cfg found.1 w').0.failed) [
              | inr (f, q) ↦
                  rw (p, q, Approve.approve) (and_then c (enforce-Changes cfg found.1 w'))
              | inl q ↦
                  rw (p, q, Approve.approve)
                    (and_then c (
                      Changes-trans (enforce-Changes cfg found.1 w')
                        (finish_approval-Changes found.0 e actor w'')))
            ]
      ]

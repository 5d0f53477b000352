-- ===== src/Manager/Enforcing.antt =====
-- internal/manager/manager.go: Approve and its enforcement in Gmail.
use gmail_visibility_manager.Base.{
  List, ◌≡◌, refl, ap, ◌∙◌, true, none, some, Option, arith, Bool-cases, Option-cases, inl, inr,
}
use gmail_visibility_manager.Text.{Text}
use gmail_visibility_manager.Result.{ok, Result-cases}
use gmail_visibility_manager.Std.{Std}
use gmail_visibility_manager.Config.{Config, gmail_configured}
use gmail_visibility_manager.State.Records.{Status, RequestRecord, GrantRecord}
use gmail_visibility_manager.State.Calls.{Host, Db}
use gmail_visibility_manager.State.Operations
use gmail_visibility_manager.State.Operations.{
  mark_request_applied, mark_found, set_grant_filter_id,
}
use gmail_visibility_manager.State.Operations.Lists.{list_grants}
use gmail_visibility_manager.Gmail.{Gmail, ReconcileResult}
use gmail_visibility_manager.Manager
use gmail_visibility_manager.Manager.{
  World, record_grant_filter_ids, next_gmail, find_reconcile_result,
}
use gmail_visibility_manager.Manager.Approve
use gmail_visibility_manager.Manager.Approve.{
  Enforcement, enforce, enforce_grants, finish_approval, backfill_of, judge_results, with_filter,
}
use gmail_visibility_manager.Manager.Changes.{tables-list_grants}
use gmail_visibility_manager.Manager.Marking.{
  NoneApplied, approve-NoneApplied, mark_request_applied-applied, mark_request_applied-failed,
  requests-record_grant_filter_ids,
}

-- Gmail was asked for the grants of the store, answered without an error, and had a result for the
-- address of the grant, which Approve returns.
pub record Enforced ⦃std : Std⦄ ⦃host : Host⦄ ⦃gmail : Gmail⦄ (db : Db) (grant : GrantRecord)
    (reconciled : Option ReconcileResult) : Type 0 where
  pub call_number : Manager.ℕ
  pub grants : List GrantRecord
  pub listed : (list_grants db).0 ≡ ok grants
  pub results : List ReconcileResult
  pub answered : gmail.reconcile call_number grants (backfill_of grant) ≡ (results, none)
  pub found : ReconcileResult
  pub is_result : find_reconcile_result results grant.email ≡ some found
  pub is_returned : reconciled ≡ some found

module _ ⦃std : Std⦄ ⦃host : Host⦄ ⦃gmail : Gmail⦄ where
  requests-enforce_grants :
      (grant : GrantRecord) (grants : List GrantRecord) (w : World)
      → (enforce_grants grant grants w).1.db.requests ≡ w.db.requests
  unfolding enforce_grants
  requests-enforce_grants grant grants w =
      let results = (gmail.reconcile w.gmail_calls grants (backfill_of grant)).0 in
      let c = requests-record_grant_filter_ids results w.db in
      elim (Result-cases (record_grant_filter_ids results w.db).0) [
        | inl (r, p) ↦ rw (p, enforce_grants) c
        | inr (e, p) ↦ rw (p, enforce_grants) c
      ]

  requests-enforce :
      (cfg : Config) (grant : GrantRecord) (w : World)
      → (enforce cfg grant w).1.db.requests ≡ w.db.requests
  unfolding enforce
  requests-enforce cfg grant w = elim (Bool-cases (gmail_configured cfg)) [
    | inr off ↦ rw off refl
    | inl on ↦ elim (Option-cases (gmail.connect w.gmail_calls)) [
      | inr (e, p) ↦ rw (on, p) refl
      | inl p ↦
          let t = tables-list_grants w.db in
          elim (Result-cases (list_grants w.db).0) [
            | inr (e, q) ↦ rw (on, p, q) t.requests
            | inl (grants, q) ↦
                rw (on, p, q)
                  (requests-enforce_grants grant grants
                      (record (next_gmail w) { db = (list_grants w.db).1 })
                    ∙ t.requests)
          ]
    ]
  ]

  judge_results-passes :
      (grant : GrantRecord) (found : Option ReconcileResult) (problem : Option Text)
      → (judge_results grant found problem).failed ≡ none
      → (problem ≡ none)
        × (r : ReconcileResult) × (found ≡ some r)
        × ((judge_results grant found problem).reconciled ≡ some r)
  judge_results-passes grant found (some e) h = absurd (ground (arith, h))
  judge_results-passes grant none none h = absurd (ground (arith, h))
  judge_results-passes grant (some r) none h = (refl, r, refl, refl)

  enforce_grants-Enforced :
      (db : Db) (grant : GrantRecord) (grants : List GrantRecord) (w : World)
      → (list_grants db).0 ≡ ok grants
      → (enforce_grants grant grants w).0.failed ≡ none
      → Enforced db grant (enforce_grants grant grants w).0.reconciled
  unfolding enforce_grants
  enforce_grants-Enforced db grant grants w listed h =
      let answer = gmail.reconcile w.gmail_calls grants (backfill_of grant) in
      let found = find_reconcile_result answer.0 grant.email in
      elim (Result-cases (record_grant_filter_ids answer.0 w.db).0) [
        | inr (e, p) ↦ absurd (ground (arith, h))
        | inl (u, p) ↦
            let passes : (judge_results (with_filter grant found) found answer.1).failed ≡ none =
              rw (p, enforce_grants) at h in
            let (no_error, r, is_r, back) =
              judge_results-passes (with_filter grant found) found answer.1 passes in
            record {
              call_number = w.gmail_calls;
              grants = grants;
              listed = listed;
              results = answer.0;
              answered = ap (λ x. (answer.0, x)) no_error;
              found = r;
              is_result = is_r;
              is_returned = rw (p, enforce_grants) back;
            }
      ]

  enforce-Enforced :
      (cfg : Config) (grant : GrantRecord) (w : World)
      → (enforce cfg grant w).0.failed ≡ none
      → gmail_configured cfg ≡ true
      → Enforced w.db grant (enforce cfg grant w).0.reconciled
  unfolding enforce
  enforce-Enforced cfg grant w h on = elim (Option-cases (gmail.connect w.gmail_calls)) [
    | inr (e, p) ↦ absurd (ground (arith, h, on))
    | inl p ↦ elim (Result-cases (list_grants w.db).0) [
      | inr (e, q) ↦ absurd (ground (arith, h, on))
      | inl (grants, q) ↦
          rw (on, p, q, enforce)
            (enforce_grants-Enforced w.db grant grants
              (record (next_gmail w) { db = (list_grants w.db).1 }) q (rw (on, p, q, enforce) at h))
    ]
  ]

  finish_approval-failed :
      (req : RequestRecord) (e : Enforcement) (actor message : Text) (w : World)
      → (finish_approval req e actor w).0.error ≡ some message
      → (finish_approval req e actor w).1.db.requests ≡ w.db.requests
  unfolding finish_approval
  finish_approval-failed req e actor message w h =
      elim (Result-cases (mark_request_applied req.request_id w.db).0) [
        | inl (r, p) ↦ absurd (ground (arith, h))
        | inr (x, p) ↦ rw (p, finish_approval) (mark_request_applied-failed req.request_id w.db x p)
      ]

  -- An approval that returns an error, whichever step of it failed, has marked no request as applied:
  -- each request that is applied in the store afterwards was so before.
  pub approve-NoneApplied_on_error :
      (cfg : Config) (id actor e : Text) (w : World)
      → (Approve.approve cfg id actor w).0.error ≡ some e
      → NoneApplied w.db (Approve.approve cfg id actor w).1.db
  unfolding Approve.approve
  approve-NoneApplied_on_error cfg id actor e w h =
      let none_yet = approve-NoneApplied id actor cfg.visibility_label w.db in
      let decided = Operations.approve id actor cfg.visibility_label w.db in
      let w' = record w { db = decided.1 } in
      elim (Result-cases decided.0) [
        | inr (x, p) ↦ rw (p, Approve.approve) none_yet
        | inl (found, p) ↦
            let same = requests-enforce cfg found.1 w' in
            let w'' = (enforce cfg found.1 w').1 in
            elim (Option-cases (enforce cfg found.1 w').0.failed) [
              | inr (f, q) ↦
                  rw (p, q, Approve.approve) (λ k row g s. none_yet k row (rw (← same) g) s)
              | inl q ↦
                  let kept =
                    finish_approval-failed found.0 (enforce cfg found.1 w').0 actor e w''
                      (rw (p, q, Approve.approve) at h) in
                  rw (p, q, Approve.approve) (λ k row g s. none_yet k row (rw (← same, ← kept) g) s)
            ]
      ]

  finish_approval-reconciled :
      (req : RequestRecord) (e : Enforcement) (actor : Text) (w : World)
      → (finish_approval req e actor w).0.reconciled ≡ e.reconciled
  unfolding finish_approval
  finish_approval-reconciled req e actor w =
      elim (Result-cases (mark_request_applied req.request_id w.db).0) [
        | inr (x, p) ↦ rw (p, finish_approval) refl
        | inl (r, p) ↦ rw (p, finish_approval) refl
      ]

  finish_approval-applied :
      (req : RequestRecord) (e : Enforcement) (actor : Text) (w : World)
      → (finish_approval req e actor w).0.error ≡ none
      → (r : RequestRecord) × ((finish_approval req e actor w).0.request ≡ some r)
        × (r.status ≡ Status.applied)
  unfolding finish_approval
  finish_approval-applied req e actor w h =
      elim (Result-cases (mark_request_applied req.request_id w.db).0) [
        | inr (x, p) ↦ absurd (ground (arith, h))
        | inl (r, p) ↦
            (r, rw (p, finish_approval) refl, mark_request_applied-applied req.request_id r w.db p)
      ]

  -- An approval that returns no error has recorded the decision with its grant and returns the request
  -- as applied; where Gmail is configured, Gmail was asked to apply the store's grants and to backfill
  -- the grant's address, answered without an error, and had a result for that address, which the
  -- approval returns.
  pub approve-IsEnforced :
      (cfg : Config) (id actor : Text) (w : World)
      → (Approve.approve cfg id actor w).0.error ≡ none
      → (decided : RequestRecord) × (grant : GrantRecord) × (req : RequestRecord)
        × ((Operations.approve id actor cfg.visibility_label w.db).0 ≡ ok (decided, grant))
        × ((Approve.approve cfg id actor w).0.request ≡ some req)
        × (req.status ≡ Status.applied)
        × (gmail_configured cfg ≡ true
            → Enforced
                (Operations.approve id actor cfg.visibility_label w.db).1
                grant
                (Approve.approve cfg id actor w).0.reconciled)
  unfolding Approve.approve
  approve-IsEnforced cfg id actor w h =
      let decided = Operations.approve id actor cfg.visibility_label w.db in
      let w' = record w { db = decided.1 } in
      elim (Result-cases decided.0) [
        | inr (x, p) ↦ absurd (ground (arith, h))
        | inl ((req, grant), p) ↦
            let tried = enforce cfg grant w' in
            elim (Option-cases tried.0.failed) [
              | inr (f, q) ↦ absurd (ground (arith, h))
              | inl q ↦
                  let (r, same, applied) =
                    finish_approval-applied req tried.0 actor tried.1
                      (rw (p, q, Approve.approve) at h) in
                  (
                    req,
                    grant,
                    r,
                    p,
                    rw (p, q, Approve.approve) same,
                    applied,
                    rw (p, q, Approve.approve)
                        (λ on.
                          rw (finish_approval-reconciled req tried.0 actor tried.1)
                            (enforce-Enforced cfg grant w' q on)),
                  )
            ]
      ]

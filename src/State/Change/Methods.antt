-- ===== src/State/Change/Methods.antt =====
-- internal/state/state.go: the methods of Store as changes of the abstract store.
use mathlib.Core.Path.{subst}
use gmail_visibility_manager.Base.{
  ◌≡◌, ◌⊎◌, refl, ◌∙◌, false, is_empty, some, arith, Option-cases, Bool-cases, inl, inr,
}
use gmail_visibility_manager.Text.{Text, text, trim_space}
use gmail_visibility_manager.Text.Trim.{trim_space_idem}
use gmail_visibility_manager.Result.{ok, err, Result-cases}
use gmail_visibility_manager.Exec.{◌>>=◌}
use gmail_visibility_manager.Std.{Std}
use gmail_visibility_manager.Request.{normalize_email}
use gmail_visibility_manager.State.Records.{RequestRecord, RequestRow, scan_request, is_approved}
use gmail_visibility_manager.State.Tables.{find_request}
use gmail_visibility_manager.State.Calls.{Host, Db, next_call, call, now, get_request, transaction}
use gmail_visibility_manager.State.Calls.Rollback.{SameTables, transaction-cases}
use gmail_visibility_manager.State.Operations.{
  approve, deny, deny_tx, mark_request_applied, mark_found, set_grant_filter_id,
}
use gmail_visibility_manager.State.Operations.Approve.{
  Approves-tables, approve_trimmed-cases, scan_request-status,
}
use gmail_visibility_manager.State.Change.{
  Change, nothing, submitted, approved, denied, applied, filtered,
}

module _ ⦃std : Std⦄ ⦃host : Host⦄ where
  pub approve-Change :
      (id approver label : Text) (db : Db) → Change db (approve id approver label db).1
  unfolding approve
  approve-Change id approver label db =
      elim (approve_trimmed-cases (trim_space id) (trim_space approver) label db
        (trim_space_idem id)) [
          | inl same ↦ nothing same
          | inr done ↦ approved (trim_space id) (trim_space approver) label done
        ]

  pub set_grant_filter_id-Change :
      (email filter_id : Text) (db : Db) → Change db (set_grant_filter_id email filter_id db).1
  unfolding set_grant_filter_id now call
  set_grant_filter_id-Change email filter_id db = elim (Result-cases (normalize_email email)) [
    | inr (_, p) ↦ nothing (ground arith)
    | inl (e, p) ↦ elim (Option-cases (host.fault (next_call db).calls)) [
      | inr (_, f) ↦ nothing (ground arith)
      | inl f ↦
          filtered (trim_space filter_id) (host.clock db.calls) e (ground arith) (ground arith)
    ]
  ]

  mark_found-Change :
      (id : Text) (db : Db) (row : RequestRow) (req : RequestRecord)
      → find_request db.requests id ≡ some row
      → req.status ≡ row.status
      → Change db (mark_found id req db).1
  unfolding mark_found now call
  mark_found-Change id db row req p s = elim (Option-cases (host.fault (next_call db).calls)) [
    | inr (_, f) ↦ nothing (ground arith)
    | inl f ↦ elim (Bool-cases (is_approved row.status)) [
      | inr n ↦ nothing (ground arith)
      | inl y ↦ applied id (host.clock db.calls) row p (ground arith) (ground arith) (ground arith)
    ]
  ]

  -- get_request reads and changes no table
  get_request-cases :
      (id : Text) (db : Db)
      → SameTables db (get_request id db).1
        × (((e : Text) × ((get_request id db).0 ≡ err e))
            ⊎ ((row : RequestRow) × (req : RequestRecord) × (find_request db.requests
                    (trim_space id)
                  ≡ some row)
                × (scan_request row ≡ ok req)
                × ((get_request id db).0 ≡ ok req)))
  unfolding get_request call
  get_request-cases id db = (
    ground arith,
    elim (Option-cases (host.fault db.calls)) [
      | inr (e, f) ↦ inl (e, ground arith)
      | inl f ↦ elim (Option-cases (find_request db.requests (trim_space id))) [
        | inl p ↦ inl (text "request not found", ground arith)
        | inr (row, p) ↦ elim (Result-cases (scan_request row)) [
          | inr (e, q) ↦ inl (e, ground arith)
          | inl (req, q) ↦ inr (row, req, p, q, ground arith)
        ]
      ]
    ],
  )

  -- a change between steps that kept the tables
  Change-between : (a b c d : Db) → SameTables a b → Change b c → SameTables c d → Change a d
  Change-between a b c d s (nothing t) e = nothing (record {
    requests = e.requests ∙ (t.requests ∙ s.requests);
    grants = e.grants ∙ (t.grants ∙ s.grants);
  })
  Change-between a b c d s (submitted row fresh new rs gs) e =
      submitted row fresh (rw (← s.requests) new) (rw (← s.requests) (e.requests ∙ rs))
        (e.grants ∙ (gs ∙ s.grants))
  Change-between a b c d s (approved id approver label x) e = approved id approver label (record {
    req = x.req;
    decided_at = x.decided_at;
    effect = Approves-tables id approver label a b c d x.req x.decided_at s x.effect e;
    named = x.named;
  })
  Change-between a b c d s (denied id actor reason at row found p n rs gs) e =
      denied id actor reason at row (rw (← s.requests) found) p n
        (rw (← s.requests) (e.requests ∙ rs)) (e.grants ∙ (gs ∙ s.grants))
  Change-between a b c d s (applied id at row found p rs gs) e =
      applied id at row (rw (← s.requests) found) p (rw (← s.requests) (e.requests ∙ rs))
        (e.grants ∙ (gs ∙ s.grants))
  Change-between a b c d s (filtered f at email rs gs) e =
      filtered f at email (e.requests ∙ (rs ∙ s.requests)) (rw (← s.grants) (e.grants ∙ gs))

  mark_trimmed-Change :
      (id : Text) (db : Db)
      → trim_space id ≡ id
      → Change db ((do req ← get_request id; mark_found id req) db).1
  mark_trimmed-Change id db t =
      let (same, cases) = get_request-cases id db in
      elim cases [
        | inl (e, p) ↦ nothing (ground (arith, same))
        | inr (row, req, found, scanned, p) ↦
            let db' = (get_request id db).1 in
            let c =
              mark_found-Change id db' row req (ground (arith, same))
                (scan_request-status row req scanned) in
            subst (Change db) (ground arith) (
              Change-between db db' (mark_found id req db').1 (mark_found id req db').1 same c
                (record { requests = refl; grants = refl }))
      ]

  pub mark_request_applied-Change : (id : Text) (db : Db) → Change db (mark_request_applied id db).1
  unfolding mark_request_applied
  mark_request_applied-Change id db = elim (Bool-cases (is_empty (trim_space id))) [
    | inl e ↦ nothing (ground arith)
    | inr e ↦
        subst (Change db) (ground arith)
          (mark_trimmed-Change (trim_space id) db (trim_space_idem id))
  ]

  deny_tx-Change :
      (id actor reason : Text) (db : Db) (req : RequestRecord)
      → trim_space id ≡ id
      → is_empty actor ≡ false
      → (deny_tx id actor reason db).0 ≡ ok req
      → Change db (deny_tx id actor reason db).1
  unfolding deny_tx now call
  deny_tx-Change id actor reason db req t n h =
      let (same, cases) = get_request-cases id db in
      elim cases [
        | inl (e, p) ↦ absurd (ground arith)
        | inr (row, r, found, scanned, p) ↦
            let at = host.clock (get_request id db).1.calls in
            denied id actor reason at row (ground arith)
              (ground (arith, scan_request-status row r scanned)) n (ground (arith, same))
              (ground (arith, same))
      ]

  pub deny-Change : (id actor reason : Text) (db : Db) → Change db (deny id actor reason db).1
  unfolding deny
  deny-Change id actor reason db = elim (Bool-cases (is_empty (trim_space id))) [
    | inl e ↦ nothing (ground arith)
    | inr e ↦ elim (Bool-cases (is_empty (trim_space actor))) [
      | inl f ↦ nothing (ground arith)
      | inr f ↦
          let body = deny_tx (trim_space id) (trim_space actor) (trim_space reason) in
          elim (transaction-cases body db) [
            | inl (x, failed, same) ↦ nothing (ground (arith, same))
            | inr (req, done, ran, same) ↦
                let start : SameTables db (next_call db) = record {
                  requests = refl;
                  grants = refl;
                } in
                let c =
                  deny_tx-Change (trim_space id) (trim_space actor) (trim_space reason)
                    (next_call db) req (trim_space_idem id) f ran in
                subst (Change db) (ground arith)
                  (Change-between db (next_call db) _ (transaction body db).1 start c same)
          ]
    ]
  ]

-- ===== src/State/Operations/Approve.antt =====
-- internal/state/state.go: the effect of Approve on the tables.
use mathlib.Core.Path.{subst}
use gmail_visibility_manager.Base.{
  [], ◌≡◌, ◌⊎◌, refl, sym, ap, ◌∙◌, true, false, is_empty, some, arith, Option-cases, Bool-cases,
  inl, inr,
}
use gmail_visibility_manager.Text.{Text, ==_iff, trim_space}
use gmail_visibility_manager.Result.{ok, Result-cases}
use gmail_visibility_manager.Exec.{Exec, pure, ◌>>=◌}
use gmail_visibility_manager.Std.{Std}
use gmail_visibility_manager.Request.{action_update_grant_labels}
use gmail_visibility_manager.State.Records.{
  Status, RequestRecord, GrantRecord, RequestRow, scan_request, marshal_string_slice,
}
use gmail_visibility_manager.State.Tables.{
  find_request, update_request, set_approved, upsert_grant, has_active_grant,
}
use gmail_visibility_manager.State.Calls.{
  Host, Db, next_call, call, now, get_request, grant_exists, select_grant, transaction,
}
use gmail_visibility_manager.State.Calls.Rollback.{SameTables, transaction-cases}
use gmail_visibility_manager.State.Operations.{
  approve_tx, approve_trimmed, granted_row, lookup_grant,
}

module _ ⦃std : Std⦄ ⦃host : Host⦄ where
  pub record Approves (id approver label : Text) (db : Db) (req : RequestRecord) (at : Text)
      (db' : Db) : Type 0 where
    pub row : RequestRow
    pub found : find_request db.requests id ≡ some row
    pub pending : row.status ≡ Status.pending
    pub scanned : scan_request row ≡ ok req
    pub labels_json : Text
    pub marshalled : marshal_string_slice req.classification_labels ≡ ok labels_json
    pub updates :
        req.action ≡ action_update_grant_labels → has_active_grant db.grants req.email ≡ true
    pub requests : db'.requests ≡ update_request (set_approved approver at) db.requests id
    pub grants : db'.grants ≡ upsert_grant (granted_row req approver label labels_json at) db.grants

  pub scan_request-status :
      (row : RequestRow) (r : RequestRecord) → scan_request row ≡ ok r → r.status ≡ row.status
  unfolding scan_request
  scan_request-status row r h = ground arith

  approve_tx-Approves :
      (id approver label : Text) (db : Db) (req : RequestRecord) (at : Text)
      → trim_space id ≡ id
      → (approve_tx id approver label db).0 ≡ ok (req, at)
      → Approves id approver label db req at (approve_tx id approver label db).1
  unfolding approve_tx get_request call now grant_exists
  approve_tx-Approves id approver label db req at t h =
      elim (Option-cases (find_request db.requests id)) [
        | inl p ↦ absurd (ground arith)
        | inr (row, p) ↦ elim (Result-cases (scan_request row)) [
          | inr (_, q) ↦ absurd (ground arith)
          | inl (r, q) ↦ elim (Result-cases (marshal_string_slice r.classification_labels)) [
            | inr (_, m) ↦ absurd (ground arith)
            | inl (json, m) ↦
                let same : r ≡ req = ground arith in
                record {
                  row = row;
                  found = p;
                  pending = ground (arith, scan_request-status row r q);
                  scanned = q ∙ ap ok same;
                  labels_json = json;
                  marshalled = rw (← same) m;
                  updates = λ e. ground (arith, ==_iff req.action action_update_grant_labels);
                  requests = ground arith;
                  grants = ground arith;
                }
          ]
        ]
      ]

  pub tables-lookup_grant : (email : Text) (db : Db) → SameTables db (lookup_grant email db).1
  unfolding lookup_grant select_grant call
  tables-lookup_grant email db = ground arith

  -- the lines of Approve behind the transaction
  abbrev finish : Text → RequestRecord × Text → Exec Db (RequestRecord × GrantRecord)
  finish approver found = do
    grant ← lookup_grant found.0.email
    pure (
      record (found.0) {
        status = Status.approved;
        decided_by = approver;
        decided_at = found.1;
        applied_at = [];
      },
      grant,
    )

  tables-finish :
      (approver : Text) (found : RequestRecord × Text) (db : Db)
      → SameTables db (finish approver found db).1
  tables-finish approver found db = ground (arith, tables-lookup_grant found.0.email db)

  -- what the whole of Approve did to the tables
  pub record Approved (id approver label : Text) (before after : Db) : Type 0 where
    pub req : RequestRecord
    pub decided_at : Text
    pub effect : Approves id approver label before req decided_at after
    pub named : is_empty approver ≡ false

  pub Approves-tables :
      (id approver label : Text) (x db a b : Db) (req : RequestRecord) (at : Text)
      → SameTables x db
      → Approves id approver label db req at a
      → SameTables a b
      → Approves id approver label x req at b
  Approves-tables id approver label x db a b req at r e s = record {
    row = e.row;
    found = rw (← r.requests) e.found;
    pending = e.pending;
    scanned = e.scanned;
    labels_json = e.labels_json;
    marshalled = e.marshalled;
    updates = λ u. rw (← r.grants) (e.updates u);
    requests = rw (← r.requests) (s.requests ∙ e.requests);
    grants = rw (← r.grants) (s.grants ∙ e.grants);
  }

  pub approve_trimmed-cases :
      (id approver label : Text) (db : Db)
      → trim_space id ≡ id
      → SameTables db (approve_trimmed id approver label db).1
        ⊎ Approved id approver label db (approve_trimmed id approver label db).1
  unfolding approve_trimmed
  approve_trimmed-cases id approver label db t = elim (Bool-cases (is_empty id)) [
    | inl e ↦ inl (ground arith)
    | inr e ↦ elim (Bool-cases (is_empty approver)) [
      | inl f ↦ inl (ground arith)
      | inr f ↦
          let body = approve_tx id approver label in
          elim (transaction-cases body db) [
            | inl (x, failed, same) ↦ inl (ground (arith, same))
            | inr ((req, at), done, ran, same) ↦
                let db' = (transaction body db).1 in
                let start : SameTables db (next_call db) = record {
                  requests = refl;
                  grants = refl;
                } in
                let in_tx = approve_tx-Approves id approver label (next_call db) req at t ran in
                let in_db = Approves-tables id approver label db _ _ db' req at start in_tx same in
                let end = tables-finish approver (req, at) db' in
                let whole =
                  Approves-tables id approver label db db db' _ req at
                    (record { requests = refl; grants = refl }) in_db end in
                let e : (approve_trimmed id approver label db).1
                    ≡ (finish approver (req, at) db').1 =
                  ground arith in
                inr (record {
                  req = req;
                  decided_at = at;
                  effect = subst (Approves id approver label db req at) (sym e) whole;
                  named = f;
                })
          ]
    ]
  ]

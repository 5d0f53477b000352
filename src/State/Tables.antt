-- ===== src/State/Tables.antt =====
-- internal/state/state.go: the SQL statements, as functions of the two tables. A table is the list of
-- its rows in the order of insertion; its primary key is the request's id or the grant's email.
pub mod Laws
use gmail_visibility_manager.Base.{
  ℕ, zero, suc, List, [], ◌∷◌, ◌++◌, Bool, true, false, ◌&&◌, ◌||◌, Option, none, some,
  if◌then◌else◌,
}
use gmail_visibility_manager.Text.{Text, text, ◌==◌}
use gmail_visibility_manager.State.Records.{
  Status, pending, RequestRow, GrantRow, status_active, is_pending, is_approved,
}

-- SELECT … FROM requests WHERE request_id = ?
unfoldable pub find_request : List RequestRow → Text → Option RequestRow
find_request [] id = none
find_request (row ∷ rows) id = if row.request_id == id then some row else find_request rows id

-- SELECT … FROM grants WHERE email = ?
unfoldable pub find_grant : List GrantRow → Text → Option GrantRow
find_grant [] email = none
find_grant (row ∷ rows) email = if row.email == email then some row else find_grant rows email

-- UPDATE requests SET … WHERE request_id = ?
unfoldable pub update_request : (RequestRow → RequestRow) → List RequestRow → Text → List RequestRow
update_request change [] id = []
update_request change (row ∷ rows) id =
    (if row.request_id == id then change row else row) ∷ update_request change rows id

-- what the UPDATE of Approve writes
unfoldable pub set_approved : Text → Text → RequestRow → RequestRow
set_approved approver now row = record row {
  status = Status.approved;
  decided_by = approver;
  decided_at = now;
  applied_at = [];
}

-- what the UPDATE of Deny writes
unfoldable pub set_denied : Text → Text → Text → RequestRow → RequestRow
set_denied actor reason now row = record row {
  status = Status.denied;
  decided_by = actor;
  decision_reason = reason;
  decided_at = now;
}

-- what the UPDATE of MarkRequestApplied writes, AND status = 'approved' included
unfoldable pub set_applied : Text → RequestRow → RequestRow
set_applied now row =
    if is_approved row.status then record row { status = Status.applied; applied_at = now } else row

-- INSERT INTO grants … ON CONFLICT(email) DO UPDATE: an old row keeps its creation time and filter id
unfoldable pub overwrite_grant : GrantRow → GrantRow → GrantRow
overwrite_grant excluded row = record row {
  visibility_label = excluded.visibility_label;
  classification_labels_json = excluded.classification_labels_json;
  status = status_active;
  created_from_request_id = excluded.created_from_request_id;
  requested_by = excluded.requested_by;
  rationale = excluded.rationale;
  approved_by = excluded.approved_by;
  approved_at = excluded.approved_at;
  updated_at = excluded.updated_at;
}

unfoldable pub upsert_grant : GrantRow → List GrantRow → List GrantRow
unfolding overwrite_grant
upsert_grant new [] = new ∷ []
upsert_grant new (row ∷ rows) =
    if row.email == new.email then overwrite_grant new row ∷ rows else row ∷ upsert_grant new rows

-- UPDATE grants SET gmail_filter_id = ?, updated_at = ? WHERE email = ? AND status = 'active'
unfoldable pub set_filter_id : Text → Text → Text → List GrantRow → List GrantRow
set_filter_id filter_id now email [] = []
set_filter_id filter_id now email (row ∷ rows) =
    (if row.email == email && row.status == status_active
      then record row { gmail_filter_id = filter_id; updated_at = now }
      else row)
    ∷ set_filter_id filter_id now email rows

-- SELECT COUNT(1) FROM grants WHERE email = ? AND status = 'active', compared with 0
unfoldable pub has_active_grant : List GrantRow → Text → Bool
has_active_grant [] email = false
has_active_grant (row ∷ rows) email =
    (row.email == email && row.status == status_active) || has_active_grant rows email

-- SELECT … FROM requests WHERE status = 'pending'
unfoldable pub pending_rows : List RequestRow → List RequestRow
pending_rows [] = []
pending_rows (row ∷ rows) =
    let rest = pending_rows rows in if is_pending row.status then row ∷ rest else rest

-- SELECT … FROM grants WHERE status = 'active'
unfoldable pub active_rows : List GrantRow → List GrantRow
active_rows [] = []
active_rows (row ∷ rows) =
    let rest = active_rows rows in if row.status == status_active then row ∷ rest else rest

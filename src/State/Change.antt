-- ===== src/State/Change.antt =====
-- internal/state/state.go: the abstract store, as the changes that the tables may undergo.
pub mod Methods
pub mod Submits
pub mod Moves
pub mod Consistent
pub mod Upserts
pub mod Sound
use gmail_visibility_manager.Base.{
  List, [], ◌∷◌, ◌++◌, ◌≡◌, Bool, false, none, some, if◌then◌else◌, is_empty,
}
use gmail_visibility_manager.Text.{Text}
use gmail_visibility_manager.Std.{Std}
use gmail_visibility_manager.State.Records.{Status, RequestRow, is_approved}
use gmail_visibility_manager.State.Tables.{
  find_request, update_request, set_denied, set_applied, set_filter_id,
}
use gmail_visibility_manager.State.Calls.{Host, Db}
use gmail_visibility_manager.State.Calls.Rollback.{SameTables}
use gmail_visibility_manager.State.Operations.{is_blocked}
use gmail_visibility_manager.State.Operations.Approve.{Approved}

-- a row as Submit makes it: blocked exactly if the policy says so, and not decided
pub record IsFresh (row : RequestRow) : Type 0 where
  pub status :
      row.status ≡ (if is_blocked row.policy_verdict then Status.blocked else Status.pending)
  pub undecided : row.decided_by ≡ []

module _ ⦃std : Std⦄ ⦃host : Host⦄ where
  pub data Change (a b : Db) : Type 0 where
    nothing : SameTables a b → Change a b
    submitted :
        (row : RequestRow)
        → IsFresh row
        → find_request a.requests row.request_id ≡ none
        → b.requests ≡ a.requests ++ row ∷ []
        → b.grants ≡ a.grants
        → Change a b
    approved : (id approver label : Text) → Approved id approver label a b → Change a b
    denied :
        (id actor reason at : Text) (row : RequestRow)
        → find_request a.requests id ≡ some row
        → row.status ≡ Status.pending
        → is_empty actor ≡ false
        → b.requests ≡ update_request (set_denied actor reason at) a.requests id
        → b.grants ≡ a.grants
        → Change a b
    applied :
        (id at : Text) (row : RequestRow)
        → find_request a.requests id ≡ some row
        → row.status ≡ Status.approved
        → b.requests ≡ update_request (set_applied at) a.requests id
        → b.grants ≡ a.grants
        → Change a b
    filtered :
        (filter_id at email : Text)
        → b.requests ≡ a.requests
        → b.grants ≡ set_filter_id filter_id at email a.grants
        → Change a b

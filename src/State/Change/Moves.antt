-- ===== src/State/Change/Moves.antt =====
-- internal/state/state.go: the state machine of a request, and what stays fixed.
use mathlib.Core.Path.{subst}
use gmail_visibility_manager.Base.{List, ◌≡◌, ◌≢◌, refl, sym, some, arith, Bool-cases, inl, inr}
use gmail_visibility_manager.Text.{Text, ◌==◌, ==_iff}
use gmail_visibility_manager.Std.{Std}
use gmail_visibility_manager.State.Records.{Status, RequestRow}
use gmail_visibility_manager.State.Tables.{
  find_request, update_request, set_approved, set_denied, set_applied,
}
use gmail_visibility_manager.State.Tables.Laws.{
  KeepsId, find_request-append, find_request-update_request,
}
use gmail_visibility_manager.State.Calls.{Host, Db}
use gmail_visibility_manager.State.Change.{
  Change, nothing, submitted, approved, denied, applied, filtered,
}

-- the moves of a status
pub data Moves : Status → Status → Type 0 where
  stay : {s : Status} → Moves s s
  approve : Moves Status.pending Status.approved
  deny : Moves Status.pending Status.denied
  apply : Moves Status.approved Status.applied

-- the part of a row that no method writes again
pub record Frozen (a b : RequestRow) : Type 0 where
  pub request_id : b.request_id ≡ a.request_id
  pub request_hash : b.request_hash ≡ a.request_hash
  pub schema_version : b.schema_version ≡ a.schema_version
  pub created_at : b.created_at ≡ a.created_at
  pub received_at : b.received_at ≡ a.received_at
  pub requested_by : b.requested_by ≡ a.requested_by
  pub action : b.action ≡ a.action
  pub email : b.email ≡ a.email
  pub labels : b.classification_labels_json ≡ a.classification_labels_json
  pub rationale : b.rationale ≡ a.rationale
  pub verdict : b.policy_verdict ≡ a.policy_verdict
  pub reasons : b.policy_reasons_json ≡ a.policy_reasons_json
  pub approval_required : b.approval_required ≡ a.approval_required

pub record Later (a b : RequestRow) : Type 0 where
  pub frozen : Frozen a b
  pub moves : Moves a.status b.status
  -- a decision, once made, is not taken over by another person
  pub decided : a.status ≢ Status.pending → b.decided_by ≡ a.decided_by

pub Later-refl : (a : RequestRow) → Later a a
Later-refl a = record {
  frozen = record {
    request_id = refl;
    request_hash = refl;
    schema_version = refl;
    created_at = refl;
    received_at = refl;
    requested_by = refl;
    action = refl;
    email = refl;
    labels = refl;
    rationale = refl;
    verdict = refl;
    reasons = refl;
    approval_required = refl;
  };
  moves = stay;
  decided = λ n. refl;
}

pub set_approved-Later :
    (approver at : Text) (row : RequestRow)
    → row.status ≡ Status.pending
    → Later row (set_approved approver at row)
unfolding set_approved
set_approved-Later approver at row p = record {
  frozen = ground arith;
  moves = subst (λ s. Moves s Status.approved) (sym p) approve;
  decided = λ n. absurd (n p);
}

pub set_denied-Later :
    (actor reason at : Text) (row : RequestRow)
    → row.status ≡ Status.pending
    → Later row (set_denied actor reason at row)
unfolding set_denied
set_denied-Later actor reason at row p = record {
  frozen = ground arith;
  moves = subst (λ s. Moves s Status.denied) (sym p) deny;
  decided = λ n. absurd (n p);
}

set_applied_lem :
    (at : Text) (row : RequestRow)
    → row.status ≡ Status.approved
    → set_applied at row ≡ record row { status = Status.applied; applied_at = at }
unfolding set_applied
set_applied_lem at row p = rw p

pub set_applied-Later :
    (at : Text) (row : RequestRow) → row.status ≡ Status.approved → Later row (set_applied at row)
set_applied-Later at row p = subst (Later row) (sym (set_applied_lem at row p)) (record {
  frozen = ground arith;
  moves = subst (λ s. Moves s Status.applied) (sym p) apply;
  decided = λ n. refl;
})

pub set_applied-KeepsId : (at : Text) → KeepsId (set_applied at)
unfolding set_applied
set_applied-KeepsId at row = ground arith

-- an update of the row `id` that is a move there keeps every other row
update-Later :
    (change : RequestRow → RequestRow) (rows : List RequestRow) (id k : Text)
    (found row : RequestRow)
    → KeepsId change
    → find_request rows id ≡ some found
    → Later found (change found)
    → find_request rows k ≡ some row
    → (row' : RequestRow) × (find_request (update_request change rows id) k ≡ some row')
      × Later row row'
update-Later change rows id k found row keeps f l h = elim (Bool-cases (id == k)) [
  | inr other ↦
      (row, rw (find_request-update_request change rows id k keeps, other) h, Later-refl row)
  | inl same ↦
      let e : id ≡ k = (==_iff id k).0 same in
      let r : found ≡ row = ground (arith, e) in
      (
        change row,
        rw (find_request-update_request change rows id k keeps, same, h),
        subst (λ x. Later x (change x)) r l,
      )
]

module _ ⦃std : Std⦄ ⦃host : Host⦄ where
  -- A stored request never disappears. Its status moves only from pending to approved or denied and
  -- from approved to applied; what was requested, its hash and its policy verdict stay as they were
  -- stored, and who decided a request that is no longer pending stays too.
  pub Change-Later :
      (a b : Db) (k : Text) (row : RequestRow)
      → Change a b
      → find_request a.requests k ≡ some row
      → (row' : RequestRow) × (find_request b.requests k ≡ some row') × Later row row'
  Change-Later a b k row (nothing s) h = (row, rw s.requests h, Later-refl row)
  Change-Later a b k row (submitted new fresh n rs gs) h =
      (row, rw (rs, find_request-append, h), Later-refl row)
  Change-Later a b k row (approved id approver label d) h = rw (d.effect.requests) (
      update-Later (set_approved approver d.decided_at) a.requests id k d.effect.row row
        (unfold set_approved in λ r. refl) d.effect.found
        (set_approved-Later approver d.decided_at d.effect.row d.effect.pending) h)
  Change-Later a b k row (denied id actor reason at found f p n rs gs) h = rw rs (
      update-Later (set_denied actor reason at) a.requests id k found row
        (unfold set_denied in λ r. refl) f (set_denied-Later actor reason at found p) h)
  Change-Later a b k row (applied id at found f p rs gs) h = rw rs (
      update-Later (set_applied at) a.requests id k found row (set_applied-KeepsId at) f
        (set_applied-Later at found p) h)
  Change-Later a b k row (filtered f at email rs gs) h = (row, rw rs h, Later-refl row)

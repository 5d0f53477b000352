-- ===== src/State/Change/Consistent.antt =====
-- internal/state/state.go: a stored request that makes sense.
use mathlib.Core.Path.{subst}
use gmail_visibility_manager.Base.{
  List, [], ◌∷◌, ◌++◌, ◌≡◌, ◌⊎◌, false, some, arith, is_empty, Bool-cases, Option-cases, inl, inr,
}
use gmail_visibility_manager.Text.{Text, ◌==◌, ==_iff}
use gmail_visibility_manager.Policy.{Verdict}
use gmail_visibility_manager.State.Records.{Status, RequestRow}
use gmail_visibility_manager.State.Tables.{
  find_request, update_request, set_approved, set_denied, set_applied,
}
use gmail_visibility_manager.State.Tables.Laws.{
  KeepsId, find_request-append, find_request-update_request,
}
use gmail_visibility_manager.State.Change.{IsFresh}

-- a stored request that makes sense
pub record IsConsistent (row : RequestRow) : Type 0 where
  -- the policy's block is the only one, and nobody can lift it
  pub blocked_iff :
      (row.policy_verdict ≡ Verdict.blocked → row.status ≡ Status.blocked)
      × (row.status ≡ Status.blocked → row.policy_verdict ≡ Verdict.blocked)
  -- exactly the requests that were decided name a person
  pub undecided : row.status ≡ Status.pending ⊎ row.status ≡ Status.blocked → row.decided_by ≡ []
  pub decided :
      (row.status ≡ Status.approved ⊎ row.status ≡ Status.applied) ⊎ row.status ≡ Status.denied
      → is_empty row.decided_by ≡ false

pub IsFresh-IsConsistent : (row : RequestRow) → IsFresh row → IsConsistent row
IsFresh-IsConsistent row f = record {
  blocked_iff = (λ e. ground (arith, f.status), λ e. ground (arith, f.status));
  undecided = λ e. f.undecided;
  decided = λ e. absurd (ground (arith, f.status));
}

pub set_approved-IsConsistent :
    (approver at : Text) (row : RequestRow)
    → row.status ≡ Status.pending
    → is_empty approver ≡ false
    → IsConsistent row
    → IsConsistent (set_approved approver at row)
unfolding set_approved
set_approved-IsConsistent approver at row p n c = record {
  blocked_iff = (λ e. ground (arith, c.blocked_iff.0 e), λ e. absurd (ground arith));
  undecided = λ e. absurd (ground arith);
  decided = λ e. n;
}

pub set_denied-IsConsistent :
    (actor reason at : Text) (row : RequestRow)
    → row.status ≡ Status.pending
    → is_empty actor ≡ false
    → IsConsistent row
    → IsConsistent (set_denied actor reason at row)
unfolding set_denied
set_denied-IsConsistent actor reason at row p n c = record {
  blocked_iff = (λ e. ground (arith, c.blocked_iff.0 e), λ e. absurd (ground arith));
  undecided = λ e. absurd (ground arith);
  decided = λ e. n;
}

pub set_applied-IsConsistent :
    (at : Text) (row : RequestRow)
    → row.status ≡ Status.approved
    → IsConsistent row
    → IsConsistent (set_applied at row)
unfolding set_applied
set_applied-IsConsistent at row p c = rw p (record {
  blocked_iff = (λ e. ground (arith, c.blocked_iff.0 e), λ e. absurd (ground arith));
  undecided = λ e. absurd (ground arith);
  decided = λ e. c.decided (inl (inl p));
})

-- a change of the row `id` to a consistent one keeps all rows consistent
pub update-IsConsistent :
    (change : RequestRow → RequestRow) (rows : List RequestRow) (id : Text) (found : RequestRow)
    → KeepsId change
    → find_request rows id ≡ some found
    → IsConsistent (change found)
    → ((k : Text) (row : RequestRow) → find_request rows k ≡ some row → IsConsistent row)
    → (k : Text) (row : RequestRow) → find_request (update_request change rows id) k ≡ some row
    → IsConsistent row
update-IsConsistent change rows id found keeps f c all k row h = elim (Bool-cases (id == k)) [
  | inr other ↦ all k row (ground (arith, find_request-update_request change rows id k keeps))
  | inl same ↦
      let e : id ≡ k = (==_iff id k).0 same in
      let r : change found ≡ row =
        ground (arith, find_request-update_request change rows id k keeps, e) in
      subst IsConsistent r c
]

pub append-IsConsistent :
    (rows : List RequestRow) (new : RequestRow)
    → IsConsistent new
    → ((k : Text) (row : RequestRow) → find_request rows k ≡ some row → IsConsistent row)
    → (k : Text) (row : RequestRow) → find_request (rows ++ new ∷ []) k ≡ some row
    → IsConsistent row
append-IsConsistent rows new c all k row h = elim (Option-cases (find_request rows k)) [
  | inr (old, p) ↦ all k row (ground (arith, find_request-append rows new k))
  | inl p ↦
      let r : new ≡ row = ground (arith, find_request-append rows new k) in subst IsConsistent r c
]

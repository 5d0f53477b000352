-- ===== src/State/Calls/Rollback.antt =====
-- internal/state/state.go: the tables behind a transaction.
use gmail_visibility_manager.Base.{◌≡◌, ◌⊎◌, arith, Option-cases, inl, inr}
use gmail_visibility_manager.Text.{Text}
use gmail_visibility_manager.Result.{ok, err, Result-cases}
use gmail_visibility_manager.Exec.{Exec}
use gmail_visibility_manager.State.Calls.{Host, Db, next_call, call, transaction}

pub record SameTables (a b : Db) : Type 0 where
  pub requests : b.requests ≡ a.requests
  pub grants : b.grants ≡ a.grants

module _ ⦃host : Host⦄ where
  -- the transaction failed and changed nothing, or its body succeeded and is committed
  pub transaction-cases :
      {A : Type 0} (body : Exec Db A) (db : Db)
      → ((e : Text) × ((transaction body db).0 ≡ err e) × SameTables db (transaction body db).1)
        ⊎ ((a : A) × ((transaction body db).0 ≡ ok a)
            × ((body (next_call db)).0 ≡ ok a)
            × SameTables (body (next_call db)).1 (transaction body db).1)
  unfolding transaction
  transaction-cases body db = elim (Option-cases (host.fault db.calls)) [
    | inr (e, f) ↦ inl (e, ground arith, ground arith)
    | inl f ↦ elim (Result-cases (body (next_call db)).0) [
      | inr (e, r) ↦ inl (e, ground arith, ground arith)
      | inl (a, r) ↦ elim (Option-cases (host.fault (body (next_call db)).1.calls)) [
        | inr (e, g) ↦ inl (e, ground arith, ground arith)
        | inl g ↦ inr (a, ground arith, r, ground arith)
      ]
    ]
  ]

  pub tables-call : (db : Db) → SameTables db (call db).1
  unfolding call
  tables-call db = ground arith

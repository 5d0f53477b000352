-- ===== src/State/Calls.antt =====
-- What the store asks of the machine: calls of the database, which may fail, the clock, and random
-- bytes. A host answers the n-th call by its number, so that any course of failures can be stated.
pub mod Rollback
use gmail_visibility_manager.Base.{
  ℕ, suc, List, [], ◌∷◌, ◌++◌, Bool, Option, none, some, is_empty, if◌then◌else◌,
}
use gmail_visibility_manager.Text.{Text, text, trim_space}
use gmail_visibility_manager.Result.{Result, ok, err}
use gmail_visibility_manager.Exec.{Exec, pure, lift, wrap_result, ◌>>=◌, ◌>>◌}
use gmail_visibility_manager.Dict.{is_some}
use gmail_visibility_manager.Std.{Std}
use gmail_visibility_manager.State.Records.{
  RequestRecord, GrantRecord, RequestRow, GrantRow, scan_request, scan_grant,
}
use gmail_visibility_manager.State.Tables.{find_request, find_grant, has_active_grant}

pub record Host : Type 0 where
  -- the error of a call of the database, if it fails
  pub fault : ℕ → Option Text
  -- the error of an INSERT that meets its own primary key
  pub conflict : Text
  -- time.Now().UTC() in RFC 3339
  pub clock : ℕ → Text
  -- sixteen random bytes in hexadecimal, or the current time in nanoseconds where rand.Read fails
  pub random : ℕ → Text

pub record Db : Type 0 where
  pub requests : List RequestRow
  pub grants : List GrantRow
  -- the number of calls so far
  pub calls : ℕ

abbrev pub empty_db : Db
empty_db = record { requests = []; grants = []; calls = 0 }

abbrev pub next_call : Db → Db
next_call db = record db { calls = suc db.calls }

module _ ⦃host : Host⦄ where
  -- a call of the database that changes no table
  unfoldable pub call : Exec Db (Unit {0})
  call db = elim (host.fault db.calls) [
    | none ↦ (ok tt, next_call db)
    | some e ↦ (err e, next_call db)
  ]

  unfoldable pub now : Exec Db Text
  now db = (ok (host.clock db.calls), next_call db)

  unfoldable pub new_request_id : Exec Db Text
  new_request_id db = (ok (text "req-" ++ host.random db.calls), next_call db)

  abbrev pub write_requests : (List RequestRow → List RequestRow) → Exec Db (Unit {0})
  write_requests change db = (ok tt, record db { requests = change db.requests })

  abbrev pub write_grants : (List GrantRow → List GrantRow) → Exec Db (Unit {0})
  write_grants change db = (ok tt, record db { grants = change db.grants })

  -- INSERT INTO requests
  unfoldable pub insert_request : RequestRow → Exec Db (Unit {0})
  unfolding call
  insert_request row = do
    call
    λ db.
        if is_some (find_request db.requests row.request_id)
        then (err host.conflict, db)
        else (ok tt, record db { requests = db.requests ++ row ∷ [] })

  -- the tables of `before`, where a transaction is rolled back
  abbrev pub restore : Db → Db → Db
  restore before after = record before { calls = after.calls }

  abbrev pub commit : {A : Type 0} → Db → Result A → Db → Result A × Db
  commit before (err e) after = (err e, restore before after)
  commit before (ok a) after = elim (host.fault after.calls) [
    | none ↦ (ok a, next_call after)
    | some e ↦ (err e, restore before (next_call after))
  ]

  -- BeginTx, the body, and Commit; an error anywhere rolls the tables back
  unfoldable pub transaction : {A : Type 0} → Exec Db A → Exec Db A
  unfolding call
  transaction body = do call; λ before. let (r, after) = body before in commit before r after

module _ ⦃std : Std⦄ ⦃host : Host⦄ where
  abbrev pub scan_found : Option RequestRow → Result RequestRecord
  scan_found none = err (text "request not found")
  scan_found (some row) = scan_request row

  abbrev pub scan_found_grant : Option GrantRow → Result GrantRecord
  scan_found_grant none = err (text "grant not found")
  scan_found_grant (some row) = scan_grant row

  -- GetRequest, and getRequestTx within a transaction
  unfoldable pub get_request : Text → Exec Db RequestRecord
  unfolding call
  get_request request_id = do
    call
    λ db. (scan_found (find_request db.requests (trim_space request_id)), db)

  -- grantExistsTx
  unfoldable pub grant_exists : Text → Exec Db Bool
  unfolding call
  grant_exists email = do call; λ db. (ok (has_active_grant db.grants email), db)

  -- the row that LookupGrant reads, for a normalized address
  unfoldable pub select_grant : Text → Exec Db GrantRecord
  unfolding call
  select_grant email = do call; λ db. (scan_found_grant (find_grant db.grants email), db)

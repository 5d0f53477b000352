-- ===== src/State/History.antt =====
-- internal/state/state.go: methods in any order, with failures of the database between them.
use gmail_visibility_manager.Base.{
  List, [], ◌∷◌, ◌≡◌, ◌≢◌, refl, ◌∙◌, false, some, arith, is_empty, inl,
}
use gmail_visibility_manager.Text.{Text}
use gmail_visibility_manager.Std.{Std, StdLaws}
use gmail_visibility_manager.Policy.{Verdict, Evaluation}
use gmail_visibility_manager.State.Records.{Status, RequestRow, GrantRow}
use gmail_visibility_manager.State.Tables.{find_request, find_grant}
use gmail_visibility_manager.State.Calls.{Host, Db, empty_db}
use gmail_visibility_manager.State.Operations.{
  submit, approve, deny, mark_request_applied, set_grant_filter_id,
}
use gmail_visibility_manager.State.Change.{Change}
use gmail_visibility_manager.State.Change.Submits.{submit-Change}
use gmail_visibility_manager.State.Change.Methods.{
  approve-Change, deny-Change, mark_request_applied-Change, set_grant_filter_id-Change,
}
use gmail_visibility_manager.State.Change.Moves.{Moves, stay, Frozen, Later-refl, Change-Later}
use gmail_visibility_manager.State.Change.Sound.{IsSound, Justifies, empty-IsSound, Change-IsSound}

-- a call of a method of Store that writes
pub data Method : Type 0 where
  submits : Evaluation → Method
  approves : Text → Text → Text → Method
  denies : Text → Text → Text → Method
  marks : Text → Method
  records_filter : Text → Text → Method

module _ ⦃std : Std⦄ ⦃host : Host⦄ where
  unfoldable pub run_method : Method → Db → Db
  run_method (submits eval) db = (submit eval db).1
  run_method (approves id approver label) db = (approve id approver label db).1
  run_method (denies id actor reason) db = (deny id actor reason db).1
  run_method (marks id) db = (mark_request_applied id db).1
  run_method (records_filter email filter_id) db = (set_grant_filter_id email filter_id db).1

  unfoldable pub run_methods : List Method → Db → Db
  unfolding run_method
  run_methods [] db = db
  run_methods (m ∷ ms) db = run_methods ms (run_method m db)

  -- Every method of Store makes one of the changes of the abstract store, whatever calls of the
  -- database fail: none, the insertion of a fresh request, an approval with its grant, a denial, the
  -- mark of an approved request as applied, or the record of a filter id.
  pub run_method-Change : (m : Method) (db : Db) → Change db (run_method m db)
  unfolding run_method
  run_method-Change (submits eval) db = submit-Change eval db
  run_method-Change (approves id approver label) db = approve-Change id approver label db
  run_method-Change (denies id actor reason) db = deny-Change id actor reason db
  run_method-Change (marks id) db = mark_request_applied-Change id db
  run_method-Change (records_filter email filter_id) db =
      set_grant_filter_id-Change email filter_id db

-- several moves of a status in a row
pub data Course : Status → Status → Type 0 where
  here : {s : Status} → Course s s
  next : {s t u : Status} → Moves s t → Course t u → Course s u

-- Blocked, denied and applied are final.
pub Course-final : {s t : Status} → Course s t → s ≢ Status.pending → s ≢ Status.approved → s ≡ t
Course-final here p a = refl
Course-final (next stay c) p a = Course-final c p a
Course-final (next Moves.approve c) p a = absurd (p refl)
Course-final (next Moves.deny c) p a = absurd (p refl)
Course-final (next Moves.apply c) p a = absurd (a refl)

pub record Ever (a b : RequestRow) : Type 0 where
  pub frozen : Frozen a b
  pub course : Course a.status b.status

Frozen-trans : (a b c : RequestRow) → Frozen a b → Frozen b c → Frozen a c
Frozen-trans a b c f g = record {
  request_id = g.request_id ∙ f.request_id;
  request_hash = g.request_hash ∙ f.request_hash;
  schema_version = g.schema_version ∙ f.schema_version;
  created_at = g.created_at ∙ f.created_at;
  received_at = g.received_at ∙ f.received_at;
  requested_by = g.requested_by ∙ f.requested_by;
  action = g.action ∙ f.action;
  email = g.email ∙ f.email;
  labels = g.labels ∙ f.labels;
  rationale = g.rationale ∙ f.rationale;
  verdict = g.verdict ∙ f.verdict;
  reasons = g.reasons ∙ f.reasons;
  approval_required = g.approval_required ∙ f.approval_required;
}

module _ ⦃std : Std⦄ ⦃host : Host⦄ where
  -- Through any sequence of methods and failures a stored request stays in the table with its content,
  -- its hash, its time of receipt and the policy's verdict and reasons, and its status follows the state machine: pending to approved or denied,
  -- approved to applied, and no other way.
  pub run_methods-Ever :
      (ms : List Method) (db : Db) (k : Text) (row : RequestRow)
      → find_request db.requests k ≡ some row
      → (row' : RequestRow) × (find_request (run_methods ms db).requests k ≡ some row')
        × Ever row row'
  unfolding run_methods
  run_methods-Ever [] db k row h =
      (row, h, record { frozen = (Later-refl row).frozen; course = here })
  run_methods-Ever (m ∷ ms) db k row h =
      let (mid, found, later) =
        Change-Later db (run_method m db) k row (run_method-Change m db) h in
      let (last, there, ever) = run_methods-Ever ms (run_method m db) k mid found in
      (
        last,
        there,
        record {
          frozen = Frozen-trans row mid last later.frozen ever.frozen;
          course = next later.moves ever.course;
        },
      )

module _ ⦃std : Std⦄ ⦃host : Host⦄ (laws : StdLaws std) where
  run_methods-IsSound : (ms : List Method) (db : Db) → IsSound db → IsSound (run_methods ms db)
  unfolding run_methods
  run_methods-IsSound [] db s = s
  run_methods-IsSound (m ∷ ms) db s =
      run_methods-IsSound ms (run_method m db)
        (Change-IsSound laws db (run_method m db) (run_method-Change m db) s)

  -- No grant without a human decision: whatever methods ran on an empty store and whatever failed, each
  -- grant goes back to a stored request that was approved, with the same address, the same labels and
  -- the same approver; the approver is named, and the policy had not blocked the request.
  pub grant_has_approval :
      (ms : List Method) (k : Text) (grant : GrantRow)
      → find_grant (run_methods ms empty_db).grants k ≡ some grant
      → (j : Justifies (run_methods ms empty_db).requests grant) × (is_empty grant.approved_by
          ≡ false)
        × (j.row.policy_verdict ≢ Verdict.blocked)
  grant_has_approval ms k grant h =
      let s = run_methods-IsSound ms empty_db empty-IsSound in
      let j = s.justified k grant h in
      let c = s.consistent grant.created_from_request_id j.row j.found in
      (
        j,
        rw (← j.same_approver) (c.decided (inl j.settled)),
        λ e. ground (arith, c.blocked_iff.0 e, j.settled),
      )

-- ===== src/Manager/Marking.antt =====
-- internal/state/state.go and internal/manager/manager.go: which steps may mark a request applied.
use gmail_visibility_manager.Base.{
  List, [], ◌∷◌, ◌≡◌, ◌⊎◌, refl, sym, ap, ◌∙◌, ◌||◌, not, is_empty, some, arith, Bool-cases,
  Option-cases, inl, inr, if◌then◌else◌,
}
use gmail_visibility_manager.Text.{Text, text, ◌==◌, trim_space}
use gmail_visibility_manager.Text.Trim.{trim_space_idem}
use gmail_visibility_manager.Result.{ok, err, Result-cases}
use gmail_visibility_manager.Std.{Std}
use gmail_visibility_manager.State.Records.{Status, RequestRecord, RequestRow}
use gmail_visibility_manager.State.Tables.{find_request, set_approved}
use gmail_visibility_manager.State.Tables.Laws.{find_request-update_request, map_some}
use gmail_visibility_manager.State.Calls.{Host, Db, call, now, get_request}
use gmail_visibility_manager.State.Operations
use gmail_visibility_manager.State.Operations.{
  mark_request_applied, mark_found, set_grant_filter_id,
}
use gmail_visibility_manager.State.Operations.Approve.{approve_trimmed-cases}
use gmail_visibility_manager.Gmail.{ReconcileResult}
use gmail_visibility_manager.Manager.{record_grant_filter_ids}
use gmail_visibility_manager.Manager.Changes.{tables-get_request}

-- every request that is applied in `b` was applied in `a`
abbrev pub NoneApplied : Db → Db → Type 0
NoneApplied a b =
    (k : Text) (row : RequestRow)
    → find_request b.requests k ≡ some row
    → row.status ≡ Status.applied
    → find_request a.requests k ≡ some row

NoneApplied-same : (a b : Db) → b.requests ≡ a.requests → NoneApplied a b
NoneApplied-same a b e k row h s = rw (← e) h

module _ ⦃std : Std⦄ ⦃host : Host⦄ where
  mark_found-applied :
      (id : Text) (req r : RequestRecord) (db : Db)
      → (mark_found id req db).0 ≡ ok r
      → r.status ≡ Status.applied
  unfolding mark_found now call
  mark_found-applied id req r db h = ground (arith, h)

  -- either the request was not read, or mark_found decides
  mark-cases :
      (id : Text) (db : Db)
      → (((e : Text) × ((mark_request_applied id db).0 ≡ err e))
          × ((mark_request_applied id db).1.requests ≡ db.requests))
        ⊎ ((req : RequestRecord) × (mark_request_applied id db
              ≡ mark_found (trim_space id) req (get_request (trim_space id) db).1))
  unfolding mark_request_applied
  mark-cases id db =
      let same = tables-get_request (trim_space id) db in
      elim (Bool-cases (is_empty (trim_space id))) [
        | inl e ↦ inl ((text "request id is required", ground arith), ground arith)
        | inr e ↦ elim (Result-cases (get_request (trim_space id) db).0) [
          | inr (x, p) ↦ inl ((x, ground arith), ground (arith, same))
          | inl (req, p) ↦ inr (req, ground arith)
        ]
      ]

  pub mark_request_applied-applied :
      (id : Text) (r : RequestRecord) (db : Db)
      → (mark_request_applied id db).0 ≡ ok r
      → r.status ≡ Status.applied
  mark_request_applied-applied id r db h = elim (mark-cases id db) [
    | inl ((e, p), _) ↦ absurd (ground (arith, h))
    | inr (req, p) ↦
        mark_found-applied (trim_space id) req r (get_request (trim_space id) db).1
          (sym (ap (λ x. x.0) p) ∙ h)
  ]

  mark_found-failed :
      (id : Text) (req : RequestRecord) (db : Db) (e : Text)
      → (mark_found id req db).0 ≡ err e
      → (mark_found id req db).1.requests ≡ db.requests
  unfolding mark_found now call
  mark_found-failed id req db e h = ground (arith, h)

  pub mark_request_applied-failed :
      (id : Text) (db : Db) (e : Text)
      → (mark_request_applied id db).0 ≡ err e
      → (mark_request_applied id db).1.requests ≡ db.requests
  mark_request_applied-failed id db e h = elim (mark-cases id db) [
    | inl (_, same) ↦ same
    | inr (req, p) ↦
        let db' = (get_request (trim_space id) db).1 in
        ap (λ x. x.1.requests) p
        ∙ (mark_found-failed (trim_space id) req db' e (sym (ap (λ x. x.0) p) ∙ h)
            ∙ (tables-get_request (trim_space id) db).requests)
  ]

  requests-set_grant_filter_id :
      (email filter_id : Text) (db : Db)
      → (set_grant_filter_id email filter_id db).1.requests ≡ db.requests
  unfolding set_grant_filter_id now call
  requests-set_grant_filter_id email filter_id db = ground arith

  pub approve-NoneApplied :
      (id approver label : Text) (db : Db)
      → NoneApplied db (Operations.approve id approver label db).1
  unfolding Operations.approve
  approve-NoneApplied id approver label db k row h s =
      elim (approve_trimmed-cases (trim_space id) (trim_space approver) label db
        (trim_space_idem id)) [
          | inl same ↦ rw (← same.requests) h
          | inr done ↦ not_applied (trim_space id) done.decided_at (
              sym (
                find_request-update_request (set_approved (trim_space approver) done.decided_at)
                  db.requests (trim_space id) k (unfold set_approved in λ r. refl))
              ∙ (ap (λ rows. find_request rows k) (sym done.effect.requests) ∙ h))
        ]
    where
      not_applied :
          (key at : Text)
          → (if key == k
              then map_some (set_approved (trim_space approver) at) (find_request db.requests k)
              else find_request db.requests k)
            ≡ some row
          → find_request db.requests k ≡ some row
      not_applied key at e =
          unfold set_approved in
          elim (Option-cases (find_request db.requests k)) [
            | inl p ↦ absurd (ground (arith, e, s))
            | inr (r, p) ↦ ground (arith, e, s)
          ]

  pub requests-record_grant_filter_ids :
      (results : List ReconcileResult) (db : Db)
      → (record_grant_filter_ids results db).1.requests ≡ db.requests
  unfolding record_grant_filter_ids
  requests-record_grant_filter_ids [] db = refl
  requests-record_grant_filter_ids (r ∷ rs) db =
      elim (Bool-cases (is_empty (trim_space r.gmail_filter_id) || not r.changed)) [
        | inl skip ↦ rw skip (requests-record_grant_filter_ids rs db)
        | inr keep ↦
            let same = requests-set_grant_filter_id r.email r.gmail_filter_id db in
            let db' = (set_grant_filter_id r.email r.gmail_filter_id db).1 in
            elim (Result-cases (set_grant_filter_id r.email r.gmail_filter_id db).0) [
              | inr (e, p) ↦ rw (keep, p) same
              | inl (u, p) ↦ rw (keep, p) (requests-record_grant_filter_ids rs db' ∙ same)
            ]
      ]

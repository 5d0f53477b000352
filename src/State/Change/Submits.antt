-- ===== src/State/Change/Submits.antt =====
-- internal/state/state.go: what Submit does to the tables.
use mathlib.Core.Path.{subst}
use gmail_visibility_manager.Base.{
  false, [], ◌∷◌, ◌++◌, ◌≡◌, ◌⊎◌, refl, sym, ◌∙◌, is_empty, none, arith, Option-cases, Bool-cases,
  inl, inr,
}
use gmail_visibility_manager.Text.{Text, text, trim_space}
use gmail_visibility_manager.Result.{ok, Result-cases}
use gmail_visibility_manager.Std.{Std}
use gmail_visibility_manager.Request.{VisibilityRequest, hash}
use gmail_visibility_manager.Policy.{Evaluation}
use gmail_visibility_manager.State.Records.{RequestRow, marshal_string_slice, bool_int}
use gmail_visibility_manager.State.Tables.{find_request}
use gmail_visibility_manager.State.Calls.{
  Host, Db, next_call, call, now, new_request_id, insert_request,
}
use gmail_visibility_manager.State.Calls.Rollback.{SameTables}
use gmail_visibility_manager.State.Operations.{submit, submit_filled, submitted_row}
use gmail_visibility_manager.State.Change.{Change, nothing, submitted, IsFresh}

-- the request of an evaluation with an id and a creation time
abbrev pub filled : Evaluation → Text → Text → VisibilityRequest
filled eval request_id created_at = record eval.request {
  request_id = request_id;
  created_at = created_at;
}

-- a field that Submit fills in if it is blank
abbrev pub IsFilled : Text → Text → Type 0
IsFilled given stored = is_empty (trim_space given) ≡ false → stored ≡ given

module _ ⦃std : Std⦄ where
  -- what a row says of the request: its fields, the id and the creation time if they were given, its
  -- labels and the reasons of the policy as JSON, and the hash of the whole
  pub record IsRowOf (eval : Evaluation) (row : RequestRow) : Type 0 where
    pub schema_version : row.schema_version ≡ eval.request.schema_version
    pub requested_by : row.requested_by ≡ eval.request.requested_by
    pub action : row.action ≡ eval.request.action
    pub email : row.email ≡ eval.request.email
    pub rationale : row.rationale ≡ eval.request.rationale
    pub request_id : IsFilled eval.request.request_id row.request_id
    pub created_at : IsFilled eval.request.created_at row.created_at
    pub labels :
        marshal_string_slice eval.request.classification_labels ≡ ok row.classification_labels_json
    pub reasons : marshal_string_slice eval.reasons ≡ ok row.policy_reasons_json
    pub request_hash : hash (filled eval row.request_id row.created_at) ≡ ok row.request_hash
    pub verdict : row.policy_verdict ≡ eval.verdict
    pub approval_required : row.approval_required ≡ bool_int eval.approval_required

  -- the one row that Submit inserts
  pub record Inserted (eval : Evaluation) (a b : Db) : Type 0 where
    pub row : RequestRow
    pub fresh : IsFresh row
    pub content : IsRowOf eval row
    pub new : find_request a.requests row.request_id ≡ none
    pub requests : b.requests ≡ a.requests ++ row ∷ []
    pub grants : b.grants ≡ a.grants

  abbrev pub Submits : Evaluation → Db → Db → Type 0
  Submits eval a b = SameTables a b ⊎ Inserted eval a b

module _ ⦃std : Std⦄ ⦃host : Host⦄ where
  submit_filled-Submits :
      (eval : Evaluation) (id created at : Text) (db : Db)
      → IsFilled eval.request.request_id id
      → IsFilled eval.request.created_at created
      → Submits eval db (submit_filled eval (filled eval id created) at db).1
  unfolding submit_filled insert_request call
  submit_filled-Submits eval id created at db known_id known_time =
      let req = filled eval id created in
      elim (Result-cases (hash req)) [
        | inr (_, p) ↦ inl (ground arith)
        | inl (h, p) ↦ elim (Result-cases (marshal_string_slice req.classification_labels)) [
          | inr (_, q) ↦ inl (ground arith)
          | inl (ls, q) ↦ elim (Result-cases (marshal_string_slice eval.reasons)) [
            | inr (_, r) ↦ inl (ground arith)
            | inl (rs, r) ↦ elim (Option-cases (host.fault db.calls)) [
              | inr (_, f) ↦ inl (ground arith)
              | inl f ↦ elim (Option-cases (find_request db.requests req.request_id)) [
                | inr (_, g) ↦ inl (ground arith)
                | inl g ↦ inr (record {
                  row = submitted_row eval req h ls rs at;
                  fresh = record { status = refl; undecided = refl };
                  content = record {
                    schema_version = refl;
                    requested_by = refl;
                    action = refl;
                    email = refl;
                    rationale = refl;
                    request_id = known_id;
                    created_at = known_time;
                    labels = q;
                    reasons = r;
                    request_hash = p;
                    verdict = refl;
                    approval_required = refl;
                  };
                  new = g;
                  requests = ground arith;
                  grants = ground arith;
                })
              ]
            ]
          ]
        ]
      ]

  -- Submit fills in at most the id and the creation time, and touches no table before it inserts.
  pub submit-submit_filled :
      (eval : Evaluation) (db : Db)
      → (id : Text) × (created : Text) × (at : Text) × (db' : Db) × IsFilled eval.request.request_id
          id
        × IsFilled eval.request.created_at created
        × SameTables db db'
        × (submit eval db ≡ submit_filled eval (filled eval id created) at db')
  unfolding submit new_request_id now
  submit-submit_filled eval db =
      let r = eval.request in
      let new = text "req-" ++ host.random db.calls in
      let second = next_call db in
      elim (Bool-cases (is_empty (trim_space r.request_id))) [
        | inl e ↦ elim (Bool-cases (is_empty (trim_space r.created_at))) [
          | inl f ↦ (
            new,
            host.clock second.calls,
            host.clock second.calls,
            next_call second,
            λ h. absurd (cc (e, h)),
            λ h. absurd (cc (f, h)),
            ground arith,
            ground arith,
          )
          | inr f ↦ (
            new,
            r.created_at,
            host.clock second.calls,
            next_call second,
            λ h. absurd (cc (e, h)),
            λ _. refl,
            ground arith,
            ground arith,
          )
        ]
        | inr e ↦ elim (Bool-cases (is_empty (trim_space r.created_at))) [
          | inl f ↦ (
            r.request_id,
            host.clock db.calls,
            host.clock db.calls,
            second,
            λ _. refl,
            λ h. absurd (cc (f, h)),
            ground arith,
            ground arith,
          )
          | inr f ↦ (
            r.request_id,
            r.created_at,
            host.clock db.calls,
            second,
            λ _. refl,
            λ _. refl,
            ground arith,
            ground arith,
          )
        ]
      ]

  Submits-between :
      (eval : Evaluation) (a b c : Db) → SameTables a b → Submits eval b c → Submits eval a c
  Submits-between eval a b c s (inl t) =
      inl (record { requests = t.requests ∙ s.requests; grants = t.grants ∙ s.grants })
  Submits-between eval a b c s (inr i) = inr (record {
    row = i.row;
    fresh = i.fresh;
    content = i.content;
    new = rw (← s.requests) i.new;
    requests = rw (← s.requests) i.requests;
    grants = i.grants ∙ s.grants;
  })

  pub submit-Submits : (eval : Evaluation) (db : Db) → Submits eval db (submit eval db).1
  submit-Submits eval db =
      let (id, created, at, db', known_id, known_time, same, e) = submit-submit_filled eval db in
      subst (λ x. Submits eval db x.1) (sym e)
        (Submits-between eval db db' (submit_filled eval (filled eval id created) at db').1 same
          (submit_filled-Submits eval id created at db' known_id known_time))

  pub submit-Change : (eval : Evaluation) (db : Db) → Change db (submit eval db).1
  submit-Change eval db = elim (submit-Submits eval db) [
    | inl same ↦ nothing same
    | inr i ↦ submitted i.row i.fresh i.new i.requests i.grants
  ]

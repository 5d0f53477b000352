-- ===== src/Daemon/Serve/Intake.antt =====
-- internal/daemon/server.go: what a client can bring about.
use gmail_visibility_manager.Base.{
  Option, none, some, ◌∙◌, ℕ, ◌≡◌, refl, Bool, eqb, Bool-cases, if-both, inl, inr,
}
use gmail_visibility_manager.Text.{Text, ◌==◌}
use gmail_visibility_manager.Result.{Result, ok, Result-cases}
use gmail_visibility_manager.Std.{Std}
use gmail_visibility_manager.Request.{VisibilityRequest, normalize_email, parse_strict}
use gmail_visibility_manager.Config.{Config}
use gmail_visibility_manager.Policy.{evaluate}
use gmail_visibility_manager.State.Records.{is_pending}
use gmail_visibility_manager.State.Calls.{Host, Db}
use gmail_visibility_manager.State.Calls.Rollback.{SameTables}
use gmail_visibility_manager.State.Operations
use gmail_visibility_manager.State.Operations.{lookup_grant}
use gmail_visibility_manager.State.Operations.Approve.{tables-lookup_grant}
use gmail_visibility_manager.State.Change.Submits.{Inserted, submit-Submits}
use gmail_visibility_manager.Manager
use gmail_visibility_manager.Manager.{World}
use gmail_visibility_manager.Manager.Changes.{tables-list_grants, tables-get_request}
use gmail_visibility_manager.Rpc.Envelope.{Request, Response, validate_request}
use gmail_visibility_manager.Rpc.Framing.{Bytes, read_frame}
use gmail_visibility_manager.Daemon.Info.{
  method_system_ping, method_system_info, method_grant_submit, method_grant_lookup,
  method_grant_list,
}
use gmail_visibility_manager.Daemon.Serve.{
  Decoders, Served, Reply, dispatch, dispatch_submit, dispatch_lookup, dispatch_list, handle_conn,
  request_max_bytes,
}

module _ ⦃std : Std⦄ ⦃host : Host⦄ (decoders : Decoders) (cfg : Config) (has_notifier : Bool) where
  -- what a call of the daemon may do: nothing to the tables, or the insertion of the one request that
  -- its parameters hold, with the verdict that the policy gives on it
  pub data Takes (params : Text) (a b : Db) : Type 0 where
    unchanged : SameTables a b → Takes params a b
    stored :
        (body : VisibilityRequest)
        → parse_strict decoders.visibility_request params ≡ ok body
        → Inserted (evaluate cfg body) a b
        → Takes params a b

  -- what one connection may do: nothing to the tables, or what the call in its frame may do
  pub data Intake (stream : Bytes) (a b : Db) : Type 0 where
    refused : SameTables a b → Intake stream a b
    taken :
        (payload : Bytes) (req : Request)
        → (read_frame request_max_bytes stream).0 ≡ ok payload
        → decoders.envelope payload ≡ ok req
        → validate_request req ≡ ok tt
        → Takes req.params a b
        → Intake stream a b

  same_tables : (a : Db) → SameTables a a
  same_tables a = record { requests = refl; grants = refl }

  untouched : (params : Text) (a : Db) → Takes params a a
  untouched params a = unchanged (same_tables a)

  -- a read of the tables changes nothing of this
  Takes-tables : (params : Text) (a b c : Db) → Takes params a b → SameTables b c → Takes params a c
  Takes-tables params a b c (unchanged same) k =
      unchanged (record { requests = k.requests ∙ same.requests; grants = k.grants ∙ same.grants })
  Takes-tables params a b c (stored body p i) k = stored body p (record {
    row = i.row;
    fresh = i.fresh;
    content = i.content;
    new = i.new;
    requests = k.requests ∙ i.requests;
    grants = k.grants ∙ i.grants;
  })

  db-submit :
      (body : VisibilityRequest) (w : World)
      → (Manager.submit cfg body w).1.db ≡ (Operations.submit (evaluate cfg body) w.db).1
  unfolding Manager.submit
  db-submit body w = elim (Result-cases (Operations.submit (evaluate cfg body) w.db).0) [
    | inl (r, p) ↦ rw (p, Manager.submit) refl
    | inr (e, p) ↦ rw (p, Manager.submit) refl
  ]

  pub submit-Takes :
      (params : Text) (body : VisibilityRequest) (w : World)
      → parse_strict decoders.visibility_request params ≡ ok body
      → Takes params w.db (Manager.submit cfg body w).1.db
  submit-Takes params body w p =
      rw (db-submit body w) (elim (submit-Submits (evaluate cfg body) w.db) [
        | inl same ↦ unchanged same
        | inr i ↦ stored body p i
      ])

  dispatch_submit-Takes :
      (req : Request) (s : Served)
      → Takes req.params s.world.db (dispatch_submit decoders cfg has_notifier req s).1.world.db
  unfolding dispatch_submit
  dispatch_submit-Takes req s =
      elim (Result-cases (parse_strict decoders.visibility_request req.params)) [
        | inr (e, p) ↦ rw (p, dispatch_submit) (untouched req.params s.world.db)
        | inl (body, p) ↦
            let i = submit-Takes req.params body s.world p in
            elim (Result-cases (Manager.submit cfg body s.world).0) [
              | inr (e, q) ↦ rw (p, q, dispatch_submit) i
              | inl (r, q) ↦
                  let s' = record s { world = (Manager.submit cfg body s.world).1 } in
                  let P : Served → Type 0 = λ x. Takes req.params s.world.db x.world.db in
                  rw (p, q, dispatch_submit)
                    (if-both P (is_pending r.status)
                      (if-both P has_notifier {y = s'}
                        (Takes-tables req.params _ _ _ i
                          (tables-get_request r.request_id (Manager.submit cfg body s.world).1.db))
                        i)
                      i)
            ]
      ]

  dispatch_lookup-Takes :
      (req : Request) (s : Served)
      → Takes req.params s.world.db (dispatch_lookup decoders cfg has_notifier req s).1.world.db
  unfolding dispatch_lookup
  dispatch_lookup-Takes req s = elim (Result-cases (decoders.lookup_params req.params)) [
    | inr (e, p) ↦ rw (p, dispatch_lookup) (untouched req.params s.world.db)
    | inl (param, p) ↦ elim (Result-cases (normalize_email param)) [
      | inr (e, q) ↦ rw (p, q, dispatch_lookup) (untouched req.params s.world.db)
      | inl (email, q) ↦
          rw (p, q, dispatch_lookup) (unchanged (tables-lookup_grant email s.world.db))
    ]
  ]

  dispatch_list-Takes :
      (req : Request) (s : Served)
      → Takes req.params s.world.db (dispatch_list decoders cfg has_notifier req s).1.world.db
  unfolding dispatch_list
  dispatch_list-Takes req s = unchanged (tables-list_grants s.world.db)

  dispatch-Takes :
      (req : Request) (s : Served)
      → Takes req.params s.world.db (dispatch decoders cfg has_notifier req s).1.world.db
  unfolding dispatch
  dispatch-Takes req s =
      let P : Response Reply × Served → Type 0 = λ r. Takes req.params s.world.db r.1.world.db in
      let same = untouched req.params s.world.db in
      if-both P (req.method == method_system_ping) same (
        if-both P (req.method == method_system_info) same (
          if-both P (req.method == method_grant_submit) (dispatch_submit-Takes req s) (
            if-both P (req.method == method_grant_lookup) (dispatch_lookup-Takes req s)
              (if-both P (req.method == method_grant_list) (dispatch_list-Takes req s) same))))

  -- Whoever connects to the socket and whatever he sends, the grants stay as they are and so does every
  -- stored request: at most one request is added. It is the one that the strict format reads from the
  -- frame that was sent, as the policy evaluates it, field for field, with its labels and the policy's
  -- reasons as JSON, the hash of the whole, and the policy's verdict, pending or blocked, with nobody
  -- named as its approver.
  pub handle_conn-Intake :
      (peer : Option (Result ℕ)) (stream : Bytes) (s : Served)
      → Intake stream s.world.db (handle_conn decoders cfg has_notifier peer stream s).1.world.db
  unfolding handle_conn
  handle_conn-Intake none stream s = refused (same_tables s.world.db)
  handle_conn-Intake (some peer) stream s =
      let same = refused (same_tables s.world.db) in
      elim (Result-cases peer) [
        | inr (e, p) ↦ rw (p, handle_conn) same
        | inl (uid, p) ↦ elim (Bool-cases (eqb uid cfg.client_uid)) [
          | inr other ↦ rw (p, other, handle_conn) same
          | inl ours ↦ elim (Result-cases (read_frame request_max_bytes stream).0) [
            | inr (e, q) ↦ rw (p, ours, q, handle_conn) same
            | inl (payload, q) ↦ elim (Result-cases (decoders.envelope payload)) [
              | inr (e, d) ↦ rw (p, ours, q, d, handle_conn) same
              | inl (req, d) ↦ elim (Result-cases (validate_request req)) [
                | inr (e, v) ↦ rw (p, ours, q, d, v, handle_conn) same
                | inl (u, v) ↦
                    rw (p, ours, q, d, v, handle_conn)
                      (taken payload req q d v (dispatch-Takes req s))
              ]
            ]
          ]
        ]
      ]

-- ===== src/Daemon/Serve/Admission.antt =====
-- internal/daemon/server.go: which connections get a result.
use gmail_visibility_manager.Base.{
  Option, none, some, ℕ, List, ◌≡◌, refl, Bool, true, eqb, arith, Bool-cases, if-both, inl, inr,
}
use gmail_visibility_manager.Text.{Text, text, ◌==◌, contains}
use gmail_visibility_manager.Result.{Result, ok, err, Result-cases}
use gmail_visibility_manager.Std.{Std}
use gmail_visibility_manager.Request.{normalize_email, parse_strict}
use gmail_visibility_manager.Config.{Config}
use gmail_visibility_manager.State.Records.{GrantRecord}
use gmail_visibility_manager.State.Calls.{Host}
use gmail_visibility_manager.State.Operations.{lookup_grant}
use gmail_visibility_manager.State.Operations.Lists.{list_grants}
use gmail_visibility_manager.Manager
use gmail_visibility_manager.Rpc.Envelope.{
  Request, Response, new_success, new_error, validate_request,
}
use gmail_visibility_manager.Rpc.Envelope.Checks.{IsAccepted, validate_request_iff}
use gmail_visibility_manager.Rpc.Framing.{Bytes, read_frame}
use gmail_visibility_manager.Daemon.Info.{
  method_system_ping, method_system_info, method_grant_submit, method_grant_lookup,
  method_grant_list,
}
use gmail_visibility_manager.Daemon.Serve.{
  Decoders, Served, Reply, lookup_reply, list_reply, dispatch, dispatch_submit, dispatch_lookup,
  dispatch_list, handle_conn, request_max_bytes,
}

module _ ⦃std : Std⦄ ⦃host : Host⦄ (decoders : Decoders) (cfg : Config) (has_notifier : Bool) where
  -- a connection of the configured client, with one frame that holds an accepted request
  pub record IsAdmitted (peer : Option (Result ℕ)) (stream : Bytes) (id : Text) : Type 0 where
    pub client : peer ≡ some (ok cfg.client_uid)
    pub payload : Bytes
    pub framed : (read_frame request_max_bytes stream).0 ≡ ok payload
    pub req : Request
    pub decoded : decoders.envelope payload ≡ ok req
    pub accepted : IsAccepted req
    pub same_id : id ≡ req.id

  abbrev Answers : Request → Response Reply × Served → Type 0
  Answers req r = r.0.id ≡ req.id

  lookup_reply-id :
      (id email : Text) (found : Result GrantRecord)
      → (lookup_reply decoders cfg has_notifier id email found).id ≡ id
  unfolding new_success new_error
  lookup_reply-id id email (ok g) = refl
  lookup_reply-id id email (err e) =
      if-both (λ (r : Response Reply). r.id ≡ id) (contains e (text "not found")) refl refl

  list_reply-id :
      (id : Text) (found : Result (List GrantRecord))
      → (list_reply decoders cfg has_notifier id found).id ≡ id
  unfolding new_success new_error
  list_reply-id id (ok g) = refl
  list_reply-id id (err e) = refl

  dispatch_submit-id :
      (req : Request) (s : Served) → Answers req (dispatch_submit decoders cfg has_notifier req s)
  unfolding dispatch_submit new_success new_error
  dispatch_submit-id req s =
      elim (Result-cases (parse_strict decoders.visibility_request req.params)) [
        | inr (e, p) ↦ rw (p, dispatch_submit) refl
        | inl (body, p) ↦ elim (Result-cases (Manager.submit cfg body s.world).0) [
          | inr (e, q) ↦ rw (p, q, dispatch_submit) refl
          | inl (r, q) ↦ rw (p, q, dispatch_submit) refl
        ]
      ]

  dispatch_lookup-id :
      (req : Request) (s : Served) → Answers req (dispatch_lookup decoders cfg has_notifier req s)
  unfolding dispatch_lookup new_success new_error
  dispatch_lookup-id req s = elim (Result-cases (decoders.lookup_params req.params)) [
    | inr (e, p) ↦ rw (p, dispatch_lookup) refl
    | inl (param, p) ↦ elim (Result-cases (normalize_email param)) [
      | inr (e, q) ↦ rw (p, q, dispatch_lookup) refl
      | inl (email, q) ↦
          rw (p, q, dispatch_lookup)
            (lookup_reply-id req.id email (lookup_grant email s.world.db).0)
    ]
  ]

  dispatch-id :
      (req : Request) (s : Served) → Answers req (dispatch decoders cfg has_notifier req s)
  unfolding dispatch new_success new_error dispatch_list
  dispatch-id req s =
      let P = Answers req in
      if-both P (req.method == method_system_ping) refl (
        if-both P (req.method == method_system_info) refl (
          if-both P (req.method == method_grant_submit) (dispatch_submit-id req s) (
            if-both P (req.method == method_grant_lookup) (dispatch_lookup-id req s) (
              if-both P (req.method == method_grant_list)
                (list_reply-id req.id (list_grants s.world.db).0) refl))))

  -- A connection gets a success only if its peer is the configured client and it sent a frame that
  -- ReadFrame accepts under the limit of 2 ^ 20 bytes, with a request that ValidateRequest accepts; the
  -- response carries that request's id.
  pub handle_conn-IsAdmitted :
      (peer : Option (Result ℕ)) (stream : Bytes) (s : Served)
      → (handle_conn decoders cfg has_notifier peer stream s).0.succeeded ≡ true
      → IsAdmitted peer stream (handle_conn decoders cfg has_notifier peer stream s).0.id
  unfolding handle_conn new_error
  handle_conn-IsAdmitted none stream s h = absurd (ground (arith, h))
  handle_conn-IsAdmitted (some peer) stream s h = elim (Result-cases peer) [
    | inr (e, p) ↦ absurd (ground (arith, h))
    | inl (uid, p) ↦ elim (Bool-cases (eqb uid cfg.client_uid)) [
      | inr other ↦ absurd (ground (arith, h))
      | inl ours ↦ elim (Result-cases (read_frame request_max_bytes stream).0) [
        | inr (e, q) ↦ absurd (ground (arith, h))
        | inl (payload, q) ↦ elim (Result-cases (decoders.envelope payload)) [
          | inr (e, d) ↦ absurd (ground (arith, h))
          | inl (req, d) ↦ elim (Result-cases (validate_request req)) [
            | inr (e, v) ↦ absurd (ground (arith, h))
            | inl (u, v) ↦ record {
              client = ground arith;
              payload = payload;
              framed = q;
              req = req;
              decoded = d;
              accepted = (validate_request_iff req).0 (ground arith);
              same_id = rw (p, ours, q, d, v, handle_conn) (dispatch-id req s);
            }
          ]
        ]
      ]
    ]
  ]

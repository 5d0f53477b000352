-- ===== src/Daemon/Serve.antt =====
-- internal/daemon/server.go: one connection, from the peer's credentials to the response.
pub mod Intake
pub mod Admission
use gmail_visibility_manager.Base.{
  ℕ, ◌^◌, List, [], ◌∷◌, ◌++◌, Bool, true, false, not, eqb, if◌then◌else◌, Option, none, some,
}
use gmail_visibility_manager.Text.{Text, text, ◌==◌, contains}
use gmail_visibility_manager.Result.{Result, ok, err}
use gmail_visibility_manager.Exec.{Exec}
use gmail_visibility_manager.Std.{Std}
use gmail_visibility_manager.Request.{VisibilityRequest, normalize_email, parse_strict}
use gmail_visibility_manager.Config.{Config}
use gmail_visibility_manager.State.Records.{RequestRecord, GrantRecord, Status, is_pending}
use gmail_visibility_manager.State.Calls.{Host, get_request}
use gmail_visibility_manager.State.Operations.{lookup_grant}
use gmail_visibility_manager.State.Operations.Lists.{list_grants}
use gmail_visibility_manager.Manager
use gmail_visibility_manager.Manager.{World, on_store}
use gmail_visibility_manager.Rpc.Envelope.{
  Request, Response, new_success, new_error, validate_request,
}
use gmail_visibility_manager.Rpc.Framing.{Bytes, read_frame}
use gmail_visibility_manager.Daemon.Info.{
  SystemInfo, system_info, method_system_ping, method_system_info, method_grant_submit,
  method_grant_lookup, method_grant_list,
}

abbrev pub request_max_bytes : ℕ
request_max_bytes = 2 ^ 20

-- the results of the methods
pub data Reply : Type 0 where
  pong : Reply
  info : SystemInfo → Reply
  submitted : RequestRecord → Reply
  looked_up : (email : Text) (donna_visible : Bool) (grant : Option GrantRecord) → Reply
  listed : List GrantRecord → Reply

-- The JSON decoders of encoding/json that the daemon uses, at the envelope, at a request, and at the
-- parameters of grant.lookup, of which the email is the one field.
pub record Decoders : Type 0 where
  pub envelope : Bytes → Result Request
  pub visibility_request : Text → Result (VisibilityRequest × Bool)
  pub lookup_params : Text → Result Text

-- the world of the manager, and the requests of which the notifier was told
pub record Served : Type 0 where
  pub world : World
  pub notified : List Text

module _ ⦃std : Std⦄ ⦃host : Host⦄ (decoders : Decoders) (cfg : Config) (has_notifier : Bool) where
  -- the call of the notifier, the bot's NotifyPending, which reads the request from the store; its
  -- error is ignored
  abbrev pub tell : Text → Served → Served
  tell request_id s = record s {
    world = (on_store (get_request request_id) s.world).1;
    notified = s.notified ++ request_id ∷ [];
  }

  -- `if record.Status == "pending" && s.notifier != nil`
  abbrev pub notify : RequestRecord → Served → Served
  notify r s = if is_pending r.status then (if has_notifier then tell r.request_id s else s) else s

  unfoldable pub dispatch_submit : Request → Served → Response Reply × Served
  unfolding new_success new_error
  dispatch_submit req s = elim (parse_strict decoders.visibility_request req.params) [
    | err e ↦ (new_error req.id (text "invalid_params") e false, s)
    | ok parsed ↦
        let (stored, w) = Manager.submit cfg parsed s.world in
        let s' = record s { world = w } in
        elim stored [
          | err e ↦ (new_error req.id (text "internal_error") e false, s')
          | ok r ↦ (new_success req.id (submitted r), notify r s')
        ]
  ]

  -- what grant.lookup answers to the store
  abbrev pub lookup_reply : Text → Text → Result GrantRecord → Response Reply
  lookup_reply id email (ok grant) = new_success id (looked_up email true (some grant))
  lookup_reply id email (err e) =
      if contains e (text "not found")
      then new_success id (looked_up email false none)
      else new_error id (text "internal_error") e false

  unfoldable pub dispatch_lookup : Request → Served → Response Reply × Served
  unfolding new_success new_error
  dispatch_lookup req s = elim (decoders.lookup_params req.params) [
    | err _ ↦
        (new_error req.id (text "invalid_params") (text "invalid grant.lookup params") false, s)
    | ok param ↦ elim (normalize_email param) [
      | err e ↦ (new_error req.id (text "invalid_params") e false, s)
      | ok email ↦
          let (found, w) = on_store (lookup_grant email) s.world in
          (lookup_reply req.id email found, record s { world = w })
    ]
  ]

  abbrev pub list_reply : Text → Result (List GrantRecord) → Response Reply
  list_reply id (ok grants) = new_success id (listed grants)
  list_reply id (err e) = new_error id (text "internal_error") e false

  unfoldable pub dispatch_list : Request → Served → Response Reply × Served
  unfolding new_success new_error
  dispatch_list req s =
      let (grants, w) = on_store list_grants s.world in
      (list_reply req.id grants, record s { world = w })

  unfoldable pub dispatch : Request → Served → Response Reply × Served
  unfolding dispatch_submit dispatch_lookup dispatch_list system_info
  dispatch req s =
      if req.method == method_system_ping
      then (new_success req.id pong, s)
      else if req.method == method_system_info
      then (new_success req.id (info (system_info cfg)), s)
      else if req.method == method_grant_submit
      then dispatch_submit req s
      else if req.method == method_grant_lookup
      then dispatch_lookup req s
      else if req.method == method_grant_list
      then dispatch_list req s
      else (
        new_error req.id (text "method_not_allowed") (text "method is not exposed by this daemon")
            false,
        s,
      )

  -- handleConn: `peer` is the uid of the peer, or `none` where the connection is not a Unix one, and
  -- `stream` what it sends; the deadlines and the writing of the response are left out
  unfoldable pub handle_conn : Option (Result ℕ) → Bytes → Served → Response Reply × Served
  unfolding dispatch validate_request read_frame
  handle_conn none stream s =
      (new_error [] (text "internal_error") (text "expected unix connection") false, s)
  handle_conn (some peer) stream s = elim peer [
    | err _ ↦
        (new_error [] (text "internal_error") (text "failed to read peer credentials") false, s)
    | ok uid ↦
        if not (eqb uid cfg.client_uid)
        then (new_error [] (text "unauthorized_peer") (text "peer uid is not allowed") false, s)
        else elim (read_frame request_max_bytes stream).0 [
          | err e ↦ (new_error [] (text "invalid_request") e false, s)
          | ok payload ↦ elim (decoders.envelope payload) [
            | err _ ↦
                (new_error [] (text "invalid_request") (text "request must be valid JSON") false, s)
            | ok req ↦ elim (validate_request req) [
              | err e ↦ (new_error req.id (text "invalid_request") e false, s)
              | ok _ ↦ dispatch req s
            ]
          ]
        ]
  ]

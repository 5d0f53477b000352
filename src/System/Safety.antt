-- ===== src/System/Safety.antt =====
-- What holds of the running program, whatever events come.
use gmail_visibility_manager.Base.{
  List, [], ◌∷◌, ◌≡◌, ◌≢◌, refl, ◌∙◌, Bool, true, false, Option, some, arith, All, is_empty, inl,
  inr,
}
use gmail_visibility_manager.Text.{Text}
use gmail_visibility_manager.Std.{Std, StdLaws}
use gmail_visibility_manager.Os.{Os}
use gmail_visibility_manager.Config.{Config}
use gmail_visibility_manager.Policy.{Verdict}
use gmail_visibility_manager.State.Records.{GrantRow}
use gmail_visibility_manager.State.Tables.{find_grant}
use gmail_visibility_manager.State.Calls.{Host, Db}
use gmail_visibility_manager.State.Change.{submitted}
use gmail_visibility_manager.State.Change.Sound.{IsSound, Justifies, empty-IsSound}
use gmail_visibility_manager.State.Changes.{Changes, done, one, same_tables, Changes-IsSound}
use gmail_visibility_manager.Gmail.{Gmail}
use gmail_visibility_manager.Manager.Changes.{approve-Changes, deny-Changes}
use gmail_visibility_manager.Manager.Changes.Reconcile.{reconcile_all-Changes}
use gmail_visibility_manager.Manager.{World}
use gmail_visibility_manager.Discord.{Message, Bot, on_message}
use gmail_visibility_manager.Discord.Deciders.{
  Deed, reads, approved, denied, on_message-Deed, on_message_refused,
}
use gmail_visibility_manager.Daemon.Serve.{Decoders, Served}
use gmail_visibility_manager.Daemon.Serve.Intake.{
  Intake, refused, taken, Takes, unchanged, stored, submit-Takes, handle_conn-Intake,
}
use gmail_visibility_manager.Rpc.Framing.{Bytes}
use gmail_visibility_manager.Result.{Result-cases}
use gmail_visibility_manager.Request.{parse_strict}
use gmail_visibility_manager.System.{
  Event, connects, approves, denies, submits, submit_data, reconciles, receives, is_powerless,
  start, run_event, run_events,
}

module _ ⦃std : Std⦄ ⦃os : Os⦄ ⦃host : Host⦄ ⦃gmail : Gmail⦄ (decoders : Decoders) (cfg : Config)
    (has_notifier : Bool) (bot : Bot) where
  Takes-Changes :
      (params : Text) (a b : Db) → Takes decoders cfg has_notifier params a b → Changes a b
  Takes-Changes params a b (unchanged same) = same_tables same
  Takes-Changes params a b (stored body p i) =
      one (submitted i.row i.fresh i.new i.requests i.grants)

  Intake-Changes :
      (stream : Bytes) (a b : Db) → Intake decoders cfg has_notifier stream a b → Changes a b
  Intake-Changes stream a b (refused same) = same_tables same
  Intake-Changes stream a b (taken payload req f d v t) = Takes-Changes req.params a b t

  submit_data-Changes :
      (input : Text) (w : World)
      → Changes w.db (submit_data decoders cfg has_notifier bot input w).db
  unfolding submit_data
  submit_data-Changes input w =
      elim (Result-cases (parse_strict decoders.visibility_request input)) [
        | inr (e, p) ↦ rw (p, submit_data) done
        | inl (body, p) ↦
            rw (p, submit_data)
              (Takes-Changes input _ _ (submit-Takes decoders cfg has_notifier input body w p))
      ]

  Deed-Changes : (id : Text) (w v : World) → Deed cfg id w v → Changes w.db v.db
  Deed-Changes id w v (reads same) = same_tables same.tables
  Deed-Changes id w v (approved request_id) = approve-Changes cfg request_id _ w
  Deed-Changes id w v (denied request_id reason) = deny-Changes request_id _ reason w

  on_message-Changes : (m : Option Message) (w : World) → Changes w.db (on_message cfg bot m w).0.db
  on_message-Changes m w = elim (on_message-Deed cfg bot m w) [
    | inl e ↦ rw e done
    | inr (id, may, deed) ↦ Deed-Changes id w (on_message cfg bot m w).0 deed
  ]

  run_event-Changes :
      (e : Event) (s : Served)
      → Changes s.world.db (run_event decoders cfg has_notifier bot e s).world.db
  unfolding run_event
  run_event-Changes (connects peer stream) s =
      Intake-Changes stream _ _ (handle_conn-Intake decoders cfg has_notifier peer stream s)
  run_event-Changes (approves id actor) s = approve-Changes cfg id actor s.world
  run_event-Changes (denies id actor reason) s = deny-Changes id actor reason s.world
  run_event-Changes (submits input) s = submit_data-Changes input s.world
  run_event-Changes (reconciles apply backfill) s = reconcile_all-Changes cfg apply backfill s.world
  run_event-Changes (receives message) s = on_message-Changes message s.world

  Intake-grants :
      (stream : Bytes) (a b : Db)
      → Intake decoders cfg has_notifier stream a b
      → b.grants ≡ a.grants
  Intake-grants stream a b (refused same) = same.grants
  Intake-grants stream a b (taken payload req f d v (unchanged same)) = same.grants
  Intake-grants stream a b (taken payload req f d v (stored body p i)) = i.grants

  -- As long as clients only connect to the daemon, whoever they are and whatever they send, and the bot
  -- gets messages only from those who may not decide, no grant is made, changed or lost.
  pub connections_keep_grants :
      (es : List Event) (s : Served)
      → All (λ e. is_powerless bot e ≡ true) es
      → (run_events decoders cfg has_notifier bot es s).world.db.grants ≡ s.world.db.grants
  unfolding run_events
  connections_keep_grants [] s _ = refl
  connections_keep_grants (connects peer stream ∷ es) s (h, hs) =
      connections_keep_grants es (run_event decoders cfg has_notifier bot (connects peer stream) s)
        hs
      ∙ Intake-grants stream _ _ (handle_conn-Intake decoders cfg has_notifier peer stream s)
  connections_keep_grants (receives message ∷ es) s (h, hs) =
      connections_keep_grants es (run_event decoders cfg has_notifier bot (receives message) s) hs
      ∙ rw (on_message_refused cfg bot message s.world (ground (arith, h)))
  connections_keep_grants (approves id actor ∷ es) s (h, hs) = absurd (ground (arith, h))
  connections_keep_grants (denies id actor reason ∷ es) s (h, hs) = absurd (ground (arith, h))
  connections_keep_grants (submits input ∷ es) s (h, hs) = absurd (ground (arith, h))
  connections_keep_grants (reconciles apply backfill ∷ es) s (h, hs) = absurd (ground (arith, h))

  module _ (laws : StdLaws std) where
    run_events-IsSound :
        (es : List Event) (s : Served)
        → IsSound s.world.db
        → IsSound (run_events decoders cfg has_notifier bot es s).world.db
    unfolding run_events
    run_events-IsSound [] s h = h
    run_events-IsSound (e ∷ es) s h =
        run_events-IsSound es (run_event decoders cfg has_notifier bot e s)
          (Changes-IsSound laws _ _ (run_event-Changes e s) h)

    -- The promise of the program: after any connections, local commands (submit, approve, deny and
    -- reconcile) and Discord messages in any order, with any failures of the database and any answers
    -- of Gmail, each grant goes back to a stored request that was approved, with the same address,
    -- labels and approver; the approver is named, and the policy had not blocked that request.
    pub run_events-IsJustified :
        (es : List Event) (k : Text) (grant : GrantRow)
        → find_grant (run_events decoders cfg has_notifier bot es start).world.db.grants k
          ≡ some grant
        → (j : Justifies
            (run_events decoders cfg has_notifier bot es start).world.db.requests
            grant)
          × (is_empty grant.approved_by ≡ false)
          × (j.row.policy_verdict ≢ Verdict.blocked)
    run_events-IsJustified es k grant h =
        let s = run_events-IsSound es start empty-IsSound in
        let j = s.justified k grant h in
        let c = s.consistent grant.created_from_request_id j.row j.found in
        (
          j,
          rw (← j.same_approver) (c.decided (inl j.settled)),
          λ e. ground (arith, c.blocked_iff.0 e, j.settled),
        )

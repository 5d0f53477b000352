-- ===== src/System.antt =====
-- The running program: connections of clients to the daemon, the commands of the trusted user that
-- change the store (cmd/gmail-visibility-manager/main.go: submit, approve, deny and gmail reconcile),
-- and messages to the Discord bot, in any order, on one store, one audit log, and one Gmail account.
pub mod Safety
pub mod Enforcement
use gmail_visibility_manager.Base.{ℕ, List, [], ◌∷◌, Bool, true, false, not, Option}
use gmail_visibility_manager.Text.{Text}
use gmail_visibility_manager.Result.{Result, ok, err}
use gmail_visibility_manager.Request.{parse_strict}
use gmail_visibility_manager.Std.{Std}
use gmail_visibility_manager.Os.{Os}
use gmail_visibility_manager.Config.{Config}
use gmail_visibility_manager.State.Calls.{Host, empty_db}
use gmail_visibility_manager.Gmail.{Gmail}
use gmail_visibility_manager.Manager
use gmail_visibility_manager.Manager.{World}
use gmail_visibility_manager.Manager.Approve
use gmail_visibility_manager.Manager.Reconcile.{reconcile_all}
use gmail_visibility_manager.Discord.{Message, Bot, is_admitted, on_message}
use gmail_visibility_manager.Rpc.Framing.{Bytes}
use gmail_visibility_manager.Daemon.Serve.{Decoders, Served, handle_conn}

pub data Event : Type 0 where
  connects : (peer : Option (Result ℕ)) (stream : Bytes) → Event
  approves : (request_id actor : Text) → Event
  denies : (request_id actor reason : Text) → Event
  submits : (input : Text) → Event
  reconciles : (apply backfill_historical : Bool) → Event
  receives : Option Message → Event

-- a connection, or a message by somebody who may not decide
abbrev pub is_powerless : Bot → Event → Bool
is_powerless bot (connects peer stream) = true
is_powerless bot (receives message) = not (is_admitted bot message)
is_powerless bot _ = false

abbrev pub start : Served
start = record { world = record { db = empty_db; log = []; gmail_calls = 0 }; notified = [] }

module _ ⦃std : Std⦄ ⦃os : Os⦄ ⦃host : Host⦄ ⦃gmail : Gmail⦄ (decoders : Decoders) (cfg : Config)
    (has_notifier : Bool) (bot : Bot) where
  -- runSubmit: the local command parses its input as the daemon does
  unfoldable pub submit_data : Text → World → World
  submit_data input w = elim (parse_strict decoders.visibility_request input) [
    | err _ ↦ w
    | ok req ↦ (Manager.submit cfg req w).1
  ]

  unfoldable pub run_event : Event → Served → Served
  unfolding submit_data
  run_event (connects peer stream) s = (handle_conn decoders cfg has_notifier peer stream s).1
  run_event (approves id actor) s = record s { world = (Approve.approve cfg id actor s.world).1 }
  run_event (denies id actor reason) s = record s {
    world = (Manager.deny id actor reason s.world).1;
  }
  run_event (submits input) s = record s { world = submit_data input s.world }
  run_event (reconciles apply backfill) s = record s {
    world = (reconcile_all cfg apply backfill s.world).1;
  }
  run_event (receives message) s = record s { world = (on_message cfg bot message s.world).0 }

  unfoldable pub run_events : List Event → Served → Served
  unfolding run_event
  run_events [] s = s
  run_events (e ∷ es) s = run_events es (run_event e s)

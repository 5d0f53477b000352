-- ===== src/Discord/Deciders.antt =====
-- internal/discordbot/bot.go: who can decide by a message, and what a message can do.
use gmail_visibility_manager.Base.{
  List, [], ◌∷◌, ◌++◌, ◌≡◌, ◌⊎◌, refl, Bool, true, false, is_empty, Option, none, some, arith,
  Bool-cases, inl, inr, if-both, drop, length,
}
use gmail_visibility_manager.Text.{Text, text, ◌==◌, ==_iff, trim_space, has_prefix, join}
use gmail_visibility_manager.Text.Fields.{fields}
use gmail_visibility_manager.Std.{Std}
use gmail_visibility_manager.Config.{Config, DiscordConfig}
use gmail_visibility_manager.State.Calls.{Host, Db, call, get_request}
use gmail_visibility_manager.State.Calls.Rollback.{SameTables}
use gmail_visibility_manager.State.Operations.Lists.{list_pending}
use gmail_visibility_manager.Gmail.{Gmail}
use gmail_visibility_manager.Gmail.Senders.{is_member}
use gmail_visibility_manager.Manager
use gmail_visibility_manager.Manager.{World}
use gmail_visibility_manager.Manager.Approve
use gmail_visibility_manager.Discord.{
  Author, Message, Bot, admits, is_admitted, command_prefix, answer_pending, answer_show,
  answer_approve, answer_deny, on_show, on_approve, on_deny, run_command, Reply, reply, on_content,
  on_author, on_message,
}

-- a message by somebody who may decide: a listed user who is no bot, in the configured channel, or
-- where none is configured in a direct message
pub record MayDecide (cfg : DiscordConfig) (allowed : List Text) (m : Option Message) (id : Text)
    : Type 0 where
  pub message : Message
  pub author : Author
  pub received : m ≡ some message
  pub by : message.author ≡ some author
  pub named : author.id ≡ id
  pub human : author.is_bot ≡ false
  pub place :
      (message.channel_id ≡ cfg.channel_id)
      ⊎ ((is_empty (trim_space cfg.channel_id) ≡ true)
          × (is_empty (trim_space message.guild_id) ≡ true))
  pub listed : is_member id allowed ≡ true

-- the same tables, audit log and calls of Gmail
pub record SameRecords (a b : World) : Type 0 where
  pub tables : SameTables a.db b.db
  pub log : b.log ≡ a.log
  pub gmail_calls : b.gmail_calls ≡ a.gmail_calls

module _ ⦃std : Std⦄ ⦃host : Host⦄ ⦃gmail : Gmail⦄ (cfg : Config) where
  -- what a command of a user does to the world
  pub data Deed (id : Text) (before : World) : World → Type 0 where
    reads : {after : World} → SameRecords before after → Deed id before after
    approved :
        (request_id : Text)
        → Deed id before (Approve.approve cfg request_id (text "discord:" ++ id) before).1
    denied :
        (request_id reason : Text)
        → Deed id before (Manager.deny request_id (text "discord:" ++ id) reason before).1

  tables-list_pending : (db : Db) → SameTables db (list_pending db).1
  unfolding list_pending call
  tables-list_pending db = ground arith

  tables-get_request : (id : Text) (db : Db) → SameTables db (get_request id db).1
  unfolding get_request call
  tables-get_request id db = ground arith

  unchanged : (w : World) → SameRecords w w
  unchanged w = record {
    tables = record { requests = refl; grants = refl };
    log = refl;
    gmail_calls = refl;
  }

  answer_pending-Deed : (id : Text) (w : World) → Deed id w (answer_pending cfg w).0
  unfolding answer_pending
  answer_pending-Deed id w =
      reads (record { tables = tables-list_pending w.db; log = refl; gmail_calls = refl })

  on_show-Deed :
      (id prefix : Text) (words : List Text) (w : World) → Deed id w (on_show cfg prefix words w).0
  unfolding answer_show
  on_show-Deed id prefix [] w = reads (unchanged w)
  on_show-Deed id prefix (request_id ∷ []) w =
      reads (record { tables = tables-get_request request_id w.db; log = refl; gmail_calls = refl })
  on_show-Deed id prefix (request_id ∷ word ∷ words) w = reads (unchanged w)

  on_approve-Deed :
      (id prefix : Text) (words : List Text) (w : World)
      → Deed id w (on_approve cfg prefix id words w).0
  unfolding answer_approve
  on_approve-Deed id prefix [] w = reads (unchanged w)
  on_approve-Deed id prefix (request_id ∷ []) w = approved request_id
  on_approve-Deed id prefix (request_id ∷ word ∷ words) w = reads (unchanged w)

  on_deny-Deed :
      (id prefix : Text) (words : List Text) (w : World)
      → Deed id w (on_deny cfg prefix id words w).0
  unfolding answer_deny
  on_deny-Deed id prefix [] w = reads (unchanged w)
  on_deny-Deed id prefix (request_id ∷ words) w = denied request_id (join words (text " "))

  run_command-Deed :
      (id prefix : Text) (words : List Text) (w : World)
      → Deed id w (run_command cfg prefix id words w).0
  unfolding run_command
  run_command-Deed id prefix [] w = reads (unchanged w)
  run_command-Deed id prefix (name ∷ words) w =
      let Does = λ (o : World × Text). Deed id w o.0 in
      if-both Does (name == text "pending") (answer_pending-Deed id w) (
        if-both Does (name == text "show") (on_show-Deed id prefix words w) (
          if-both Does (name == text "approve") (on_approve-Deed id prefix words w) (
            if-both Does (name == text "deny") (on_deny-Deed id prefix words w)
              (reads (unchanged w)))))

  on_content-Deed :
      (b : Bot) (msg : Message) (author : Author) (w : World)
      → Deed author.id w (on_content cfg b msg author w).0
  unfolding on_content
  on_content-Deed b msg author w =
      let prefix = command_prefix b in
      let words = fields (trim_space (drop (length prefix) (trim_space msg.content))) in
      if-both (λ (o : World × List Reply). Deed author.id w o.0)
        (has_prefix (trim_space msg.content) prefix)
        {x = reply msg.channel_id (run_command cfg prefix author.id words w)} {y = (w, [])}
        (run_command-Deed author.id prefix words w) (reads (unchanged w))

  admits-MayDecide :
      (b : Bot) (msg : Message) (author : Author)
      → msg.author ≡ some author
      → admits b msg author ≡ true
      → MayDecide b.cfg b.allowed (some msg) author.id
  unfolding admits
  admits-MayDecide b msg author p h = record {
    message = msg;
    author = author;
    received = refl;
    by = p;
    named = refl;
    human = ground arith;
    place = place (is_empty (trim_space b.cfg.channel_id)) refl;
    listed = ground arith;
  }
    where
      place :
          (blank : Bool)
          → is_empty (trim_space b.cfg.channel_id) ≡ blank
          → (msg.channel_id ≡ b.cfg.channel_id)
            ⊎ ((is_empty (trim_space b.cfg.channel_id) ≡ true)
                × (is_empty (trim_space msg.guild_id) ≡ true))
      place true e = inr (e, ground arith)
      place false e = inl ((==_iff msg.channel_id b.cfg.channel_id).0 (ground arith))

  on_author-Deed :
      (b : Bot) (msg : Message) (a : Option Author) (w : World)
      → msg.author ≡ a
      → (on_author cfg b msg a w ≡ (w, []))
        ⊎ ((id : Text) × MayDecide b.cfg b.allowed (some msg) id
            × Deed id w (on_author cfg b msg a w).0)
  on_author-Deed b msg none w p = inl refl
  on_author-Deed b msg (some author) w p = elim (Bool-cases (admits b msg author)) [
    | inr refused ↦ rw refused (inl refl)
    | inl admitted ↦
        rw admitted (
          inr (author.id, admits-MayDecide b msg author p admitted, on_content-Deed b msg author w))
  ]

  -- A message either does nothing at all, not even a reply, or it comes from somebody who may decide:
  -- a listed user who is no bot, in the configured channel, or in a direct message where no channel is
  -- configured. Then it reads the store, or it approves or denies one request in the name of that user.
  pub on_message-Deed :
      (b : Bot) (m : Option Message) (w : World)
      → (on_message cfg b m w ≡ (w, []))
        ⊎ ((id : Text) × MayDecide b.cfg b.allowed m id × Deed id w (on_message cfg b m w).0)
  unfolding on_message
  on_message-Deed b none w = inl refl
  on_message-Deed b (some msg) w = on_author-Deed b msg msg.author w refl

  -- without passing the tests of onMessage a message changes nothing
  pub on_message_refused :
      (b : Bot) (m : Option Message) (w : World)
      → is_admitted b m ≡ false
      → on_message cfg b m w ≡ (w, [])
  unfolding on_message
  on_message_refused b none w h = refl
  on_message_refused b (some msg) w h = refused msg.author h
    where
      refused :
          (a : Option Author)
          → elim a [ none ↦ false | some author ↦ admits b msg author ] ≡ false
          → on_author cfg b msg a w ≡ (w, [])
      refused none h = refl
      refused (some author) h = rw h

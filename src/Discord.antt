-- ===== src/Discord.antt =====
-- internal/discordbot/bot.go: the approval adapter, its commands and who may give them.
pub mod Replies
pub mod Deciders
pub mod Listed
use gmail_visibility_manager.Base.{
  ℕ, ◌+◌, drop, length, List, [], ◌∷◌, ◌++◌, Bool, true, false, ◌&&◌, ◌||◌, not, is_empty, Option,
  none, some, map, if◌then◌else◌,
}
use gmail_visibility_manager.Text.{Text, text, ◌==◌, trim_space, has_prefix, join}
use gmail_visibility_manager.Text.Fields.{fields}
use gmail_visibility_manager.Result.{Result, ok, err}
use gmail_visibility_manager.Std.{Std}
use gmail_visibility_manager.Os.{Os}
use gmail_visibility_manager.Config.{Config, DiscordConfig, is_blank}
use gmail_visibility_manager.State.Records.{RequestRecord, GrantRecord, status_text}
use gmail_visibility_manager.State.Calls.{Host, get_request}
use gmail_visibility_manager.State.Operations.Lists.{list_pending}
use gmail_visibility_manager.Gmail.{Gmail, ReconcileResult}
use gmail_visibility_manager.Gmail.Senders.{is_member}
use gmail_visibility_manager.Manager
use gmail_visibility_manager.Manager.{World, on_store}
use gmail_visibility_manager.Manager.Approve
use gmail_visibility_manager.Manager.Approve.{Approval}
use gmail_visibility_manager.Discord.Replies.{
  pending_line, pending_text, show_text, approval_text, usage_show, usage_approve, usage_deny,
  commands_text,
}

-- the types of the Discord library, with the fields that the bot reads
pub record Author : Type 0 where
  pub id : Text
  pub is_bot : Bool

pub record Message : Type 0 where
  pub author : Option Author
  pub channel_id : Text
  pub guild_id : Text
  pub content : Text

-- the session is the Discord library's
pub record Bot : Type 0 where
  pub cfg : DiscordConfig
  -- the set of the ids that may decide
  pub allowed : List Text

-- the loop that fills the set of ids
unfoldable pub collect_allowed : List Text → List Text → List Text
collect_allowed [] allowed = allowed
collect_allowed (id ∷ ids) allowed =
    let trimmed = trim_space id in
    collect_allowed ids
      (if is_empty trimmed || is_member trimmed allowed then allowed else allowed ++ trimmed ∷ [])

-- New, given the error of discordgo.New; `none` where it returns no bot
unfoldable pub new_bot : ⦃os : Os⦄ → (Text → Option Text) → DiscordConfig → Result (Option Bot)
unfolding collect_allowed
new_bot ⦃os⦄ new_session cfg =
    let token = trim_space (os.getenv cfg.token_env) in
    let allowed = collect_allowed cfg.allowed_user_ids [] in
    if is_empty cfg.allowed_user_ids || is_empty token
    then ok none
    else elim (new_session (text "Bot " ++ token)) [
      | some e ↦ err (text "create discord session: " ++ e)
      | none ↦
          if is_empty allowed then ok none else ok (some (record { cfg = cfg; allowed = allowed }))
    ]

-- the tests of onMessage on a message with an author
unfoldable pub admits : Bot → Message → Author → Bool
admits b msg author =
    not author.is_bot
    && (is_blank b.cfg.channel_id || msg.channel_id == b.cfg.channel_id)
    && (not (is_blank b.cfg.channel_id) || is_blank msg.guild_id)
    && is_member author.id b.allowed

-- whether a message passes the tests of onMessage
abbrev pub is_admitted : Bot → Option Message → Bool
is_admitted b none = false
is_admitted b (some msg) = elim msg.author [ none ↦ false | some author ↦ admits b msg author ]

unfoldable pub command_prefix : Bot → Text
command_prefix b =
    let prefix = trim_space b.cfg.command_prefix in if is_empty prefix then text "!gvm" else prefix

-- a text and its channel; the error of sending it is ignored, and a blank text is not sent
abbrev pub Reply : Type 0
Reply = Text × Text

abbrev pub reply : Text → World × Text → World × List Reply
reply channel_id (w, content) = (w, (if is_blank content then [] else (channel_id, content) ∷ []))

module _ ⦃std : Std⦄ ⦃host : Host⦄ ⦃gmail : Gmail⦄ (cfg : Config) where
  -- a command with its reply
  unfoldable pub answer_pending : World → World × Text
  unfolding pending_line
  answer_pending w =
      let (listed, after) = on_store list_pending w in
      (
        after,
        elim listed [
          | err e ↦ text "error: " ++ e
          | ok [] ↦ text "No pending Gmail visibility requests."
          | ok (r ∷ rs) ↦ join (map pending_line (r ∷ rs)) (10 ∷ [])
        ],
      )

  unfoldable pub answer_show : Text → World → World × Text
  unfolding show_text
  answer_show request_id w =
      let (found, after) = on_store (get_request request_id) w in
      (after, elim found [ err e ↦ text "error: " ++ e | ok r ↦ show_text r ])

  unfoldable pub answer_approve : Text → Text → World → World × Text
  unfolding approval_text
  answer_approve request_id author_id w =
      let (approval, after) = Approve.approve cfg request_id (text "discord:" ++ author_id) w in
      (after, approval_text request_id approval)

  unfoldable pub answer_deny : Text → Text → List Text → World → World × Text
  answer_deny request_id author_id words w =
      let (denied, after) =
        Manager.deny request_id (text "discord:" ++ author_id) (join words (text " ")) w in
      (
        after,
        elim denied [
          | err e ↦ text "error: " ++ e
          | ok _ ↦ text "Denied `" ++ (request_id ++ text "`.")
        ],
      )

  -- the number of words that each command takes
  abbrev pub on_show : Text → List Text → World → World × Text
  on_show prefix (id ∷ []) w = answer_show id w
  on_show prefix _ w = (w, usage_show prefix)

  abbrev pub on_approve : Text → Text → List Text → World → World × Text
  on_approve prefix author_id (id ∷ []) w = answer_approve id author_id w
  on_approve prefix author_id _ w = (w, usage_approve prefix)

  abbrev pub on_deny : Text → Text → List Text → World → World × Text
  on_deny prefix author_id [] w = (w, usage_deny prefix)
  on_deny prefix author_id (id ∷ reason) w = answer_deny id author_id reason w

  -- the switch on the first word
  unfoldable pub run_command : Text → Text → List Text → World → World × Text
  unfolding answer_pending answer_show answer_approve answer_deny
  run_command prefix author_id [] w = (w, commands_text)
  run_command prefix author_id (name ∷ words) w =
      if name == text "pending"
      then answer_pending w
      else if name == text "show"
      then on_show prefix words w
      else if name == text "approve"
      then on_approve prefix author_id words w
      else if name == text "deny"
      then on_deny prefix author_id words w
      else (w, text "unknown command")

  -- onMessage behind the tests: a text with the prefix in front is a command
  unfoldable pub on_content : Bot → Message → Author → World → World × List Reply
  unfolding run_command command_prefix
  on_content b msg author w =
      let content = trim_space msg.content in
      let prefix = command_prefix b in
      let words = fields (trim_space (drop (length prefix) content)) in
      if has_prefix content prefix
      then reply msg.channel_id (run_command prefix author.id words w)
      else (w, [])

  -- the tests on the author
  abbrev pub on_author : Bot → Message → Option Author → World → World × List Reply
  on_author b msg none w = (w, [])
  on_author b msg (some author) w =
      if admits b msg author then on_content b msg author w else (w, [])

  unfoldable pub on_message : Bot → Option Message → World → World × List Reply
  unfolding on_content admits
  on_message b none w = (w, [])
  on_message b (some msg) w = on_author b msg msg.author w

-- what the Discord library does for a notification: it opens a direct channel, and sends a text
pub record Session : Type 0 where
  pub open_dm : Text → Result Text
  pub send : Text → Text → Option Text

module _ (session : Session) where
  -- the loop over the users, with the errors that errors.Join puts together
  unfoldable pub notify_users : Text → List Text → List Text
  notify_users content [] = []
  notify_users content (user_id ∷ user_ids) =
      let rest = notify_users content user_ids in
      elim (session.open_dm user_id) [
        | err e ↦ (text "open DM with " ++ (user_id ++ (text ": " ++ e))) ∷ rest
        | ok dm_id ↦ elim (session.send dm_id content) [
          | none ↦ rest
          | some e ↦ (text "send DM to " ++ (user_id ++ (text ": " ++ e))) ∷ rest
        ]
      ]

  -- NotifyPending, with its error
  unfoldable pub notify_pending :
      ⦃std : Std⦄ → ⦃host : Host⦄ → Bot → Text → World → Option Text × World
  unfolding notify_users pending_text
  notify_pending b request_id w =
      let (found, after) = on_store (get_request request_id) w in
      (
        elim found [
          | err e ↦ some e
          | ok r ↦
              let content = pending_text b.cfg.command_prefix r in
              if not (is_blank b.cfg.channel_id)
              then session.send b.cfg.channel_id content
              else elim (notify_users content b.allowed) [
                | [] ↦ none
                | e ∷ es ↦ some (join (e ∷ es) (10 ∷ []))
              ]
        ],
        after,
      )

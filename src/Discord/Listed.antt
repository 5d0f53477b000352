-- ===== src/Discord/Listed.antt =====
-- internal/discordbot/bot.go: the users of the bot that New returns.
use gmail_visibility_manager.Base.{
  List, [], ◌∷◌, ◌++◌, ◌≡◌, refl, Bool, false, ◌&&◌, ◌||◌, not, is_empty, Option, some, arith,
  Option-cases, inl, inr,
}
use gmail_visibility_manager.Text.{Text, text, ◌==◌, ==_iff, trim_space}
use gmail_visibility_manager.Result.{ok}
use gmail_visibility_manager.Dict.Keyed.{has_key}
use gmail_visibility_manager.Os.{Os}
use gmail_visibility_manager.Config.{DiscordConfig}
use gmail_visibility_manager.Gmail.Senders.{is_member}
use gmail_visibility_manager.Gmail.Senders.Normal.{is_member-append}
use gmail_visibility_manager.Discord.{Bot, collect_allowed, new_bot}

-- whether an id is one of the configured ones, without its outer space
unfoldable pub is_listed : Text → List Text → Bool
is_listed id [] = false
is_listed id (user ∷ users) =
    (not (is_empty (trim_space user)) && trim_space user == id) || is_listed id users

is_member-collect_allowed :
    (id : Text) (ids allowed : List Text)
    → is_member id (collect_allowed ids allowed) ≡ (is_member id allowed || is_listed id ids)
unfolding collect_allowed is_listed has_key
is_member-collect_allowed id [] allowed = ground arith
is_member-collect_allowed id (user ∷ users) allowed = ground (
  arith,
  is_member-collect_allowed id users allowed,
  is_member-collect_allowed id users (allowed ++ trim_space user ∷ []),
  is_member-append id (trim_space user) allowed,
  ==_iff (trim_space user) id,
)

-- The bot that New returns has the configuration it was given, and its users are exactly the ids
-- that are configured, without outer space; there is one at least.
pub new_bot_lem :
    ⦃os : Os⦄ (new_session : Text → Option Text) (cfg : DiscordConfig) (b : Bot)
    → new_bot new_session cfg ≡ ok (some b)
    → (b.cfg ≡ cfg)
      × (is_empty b.allowed ≡ false)
      × ((id : Text) → is_member id b.allowed ≡ is_listed id cfg.allowed_user_ids)
unfolding new_bot
new_bot_lem ⦃os⦄ new_session cfg b h =
    let token = trim_space (os.getenv cfg.token_env) in
    let ids = collect_allowed cfg.allowed_user_ids [] in
    elim (Option-cases (new_session (text "Bot " ++ token))) [
      | inr (e, p) ↦ absurd (ground (arith, p))
      | inl p ↦
          let made : (is_empty ids ≡ false) × (record { cfg = cfg; allowed = ids } ≡ b) =
            ground (arith, p) in
          (
            ground (arith, made.1),
            ground (arith, made),
            λ id.
                ground (
                  arith,
                  made.1,
                  is_member-collect_allowed id cfg.allowed_user_ids [],
                  none_yet id,
                ),
          )
    ]
  where
    none_yet : (id : Text) → is_member id [] ≡ false
    none_yet id = unfold has_key in refl

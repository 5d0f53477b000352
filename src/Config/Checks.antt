-- ===== src/Config/Checks.antt =====
-- internal/config/config.go: what the daemon, Gmail and Discord require.
use gmail_visibility_manager.Base.{ℕ, ◌<◌, ◌≡◌, ◌≢◌, ◌⊎◌, ◌↔◌, true, false, arith, inl, inr}
use gmail_visibility_manager.Result.{ok, Result-cases}
use gmail_visibility_manager.Std.{Std}
use gmail_visibility_manager.Os.{Os}
use gmail_visibility_manager.Config.{
  Config, DiscordConfig, validate, validate_daemon, validate_gmail, validate_discord,
  gmail_configured, socket_file_mode, count_ids, is_blank, is_current_dir,
}

-- DiscordConfig.Validate accepts exactly two kinds of configuration: one with neither a channel nor
-- an approver, and one with an approver whose id is not blank.
pub validate_discord_iff :
    (c : DiscordConfig)
    → (validate_discord c ≡ ok tt) ↔ (
        ((is_blank c.channel_id ≡ true) × (count_ids c.allowed_user_ids ≡ 0))
        ⊎ (0 < count_ids c.allowed_user_ids))
unfolding validate_discord
validate_discord_iff c = (λ h. grind arith, λ h. ground arith)

module _ ⦃std : Std⦄ ⦃os : Os⦄ where
  pub record IsDaemonReady (c : Config) : Type 0 where
    pub valid : validate c ≡ ok tt
    pub socket : is_blank c.socket_path ≡ false
    pub client : c.client_uid ≢ 0
    pub mode : (m : ℕ) × (socket_file_mode c ≡ ok m)

  -- ValidateDaemon accepts exactly the configurations that Validate accepts, with a socket path that is
  -- not blank, a client other than root, and a socket mode that can be read.
  pub validate_daemon_iff : (c : Config) → (validate_daemon c ≡ ok tt) ↔ IsDaemonReady c
  unfolding validate_daemon
  validate_daemon_iff c = (
    λ h. elim (Result-cases (socket_file_mode c)) [
      | inl (m, p) ↦ record {
        valid = ground arith;
        socket = ground arith;
        client = ground arith;
        mode = (m, p);
      }
      | inr (_, p) ↦ absurd (ground arith)
    ],
    λ r. let (m, p) = r.mode in ground (arith, r.valid, r.socket, r.client, p),
  )

  -- ValidateGmail accepts exactly the configurations that Validate accepts, for which GmailConfigured
  -- reports true, and whose client file is not the current directory.
  pub validate_gmail_iff :
      (c : Config)
      → (validate_gmail c ≡ ok tt) ↔ (
          (validate c ≡ ok tt)
          × (gmail_configured c ≡ true)
          × (is_current_dir c.oauth_client_path ≡ false))
  unfolding validate_gmail gmail_configured
  validate_gmail_iff c = (λ h. ground arith, λ h. ground arith)

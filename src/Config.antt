-- ===== src/Config.antt =====
-- internal/config/config.go: the trusted configuration and its checks. `Config/Defaults` holds what
-- fills in a loaded file.
pub mod Labels
pub mod Defaults
pub mod Checks
pub mod Mode
use gmail_visibility_manager.Base.{
  ℕ, zero, suc, ◌+◌, ◌-◌, ◌*◌, ◌^◌, List, [], ◌∷◌, ◌++◌, Bool, true, false, ◌&&◌, ◌||◌, not, ltb,
  leb, eqb, is_empty, if◌then◌else◌, Option, none, some,
}
use gmail_visibility_manager.Text.{Text, text, ◌==◌, trim_space, contains_any}
use gmail_visibility_manager.Result.{Result, ok, err, ◌>>=◌, ◌>>◌, reject_if}
use gmail_visibility_manager.Dict.{Dict, lookup, insert, is_some}
use gmail_visibility_manager.Std.{Std, to_lower}
use gmail_visibility_manager.Os.{Os}

pub record AuthStoreConfig : Type 0 where
  pub backend : Text
  pub service : Text
  pub file_dir : Text

pub record DiscordConfig : Type 0 where
  pub token_env : Text
  pub channel_id : Text
  pub allowed_user_ids : List Text
  pub command_prefix : Text

-- `client_uid` is a uint32
pub record Config : Type 0 where
  pub instance_name : Text
  pub account_email : Text
  pub client_uid : ℕ
  pub socket_path : Text
  pub socket_mode : Text
  pub state_path : Text
  pub audit_log_path : Text
  pub oauth_client_path : Text
  pub auth_store : AuthStoreConfig
  pub visibility_label : Text
  pub allowed_classification_labels : List Text
  pub sensitive_classification_labels : List Text
  pub discord : DiscordConfig

abbrev pub default_visibility_label : Text
default_visibility_label = text "Donna"

abbrev pub default_socket_mode : Text
default_socket_mode = text "0660"

abbrev pub is_blank : Text → Bool
is_blank t = is_empty (trim_space t)

-- the loop of strconv.ParseUint in base 8 at 32 bits: a digit from 0 to 7, and no overflow
unfoldable pub octal_digits : Text → ℕ → Option ℕ
octal_digits [] n = some n
octal_digits (c ∷ s) n =
    let m = n * 8 + (c - b'0') in
    if ltb c b'0' || ltb b'7' c || leb (2 ^ 32) m then none else octal_digits s m

unfoldable pub parse_octal : Text → Option ℕ
unfolding octal_digits
parse_octal [] = none
parse_octal (c ∷ s) = octal_digits (c ∷ s) 0

-- the loop of DiscordConfig.Validate
unfoldable pub count_ids : List Text → ℕ
count_ids [] = 0
count_ids (id ∷ ids) = let rest = count_ids ids in if is_blank id then rest else suc rest

unfoldable pub validate_discord : DiscordConfig → Result (Unit {0})
unfolding count_ids
validate_discord c =
    if is_blank c.channel_id && eqb (count_ids c.allowed_user_ids) 0
    then ok tt
    else reject_if (eqb (count_ids c.allowed_user_ids) 0)
        (text "config: discord.allowed_user_ids is required when Discord approval is configured")

module _ ⦃std : Std⦄ where
  unfoldable pub normalize_label : Text → Text
  normalize_label value = to_lower (trim_space value)

  -- the loop of AllowedLabelSet and SensitiveLabelSet
  unfoldable pub add_labels : List Text → Dict Text → Dict Text
  add_labels [] result = result
  add_labels (label ∷ labels) result =
      add_labels labels (insert result (normalize_label label) (trim_space label))

  unfoldable pub allowed_label_set : Config → Dict Text
  unfolding add_labels
  allowed_label_set c = add_labels c.allowed_classification_labels []

  unfoldable pub sensitive_label_set : Config → Dict Text
  unfolding add_labels
  sensitive_label_set c = add_labels c.sensitive_classification_labels []

  -- the loop of Validate over the sensitive labels
  unfoldable pub check_sensitive : Dict Text → List Text → Result (Unit {0})
  check_sensitive allowed [] = ok tt
  check_sensitive allowed (label ∷ labels) = do
    reject_if (not (is_some (lookup allowed (normalize_label label))))
        (text "config: sensitive label " ++ (std.quote label ++ text " must also be allowed"))
    check_sensitive allowed labels

  -- the tests of Validate on the labels
  unfoldable pub validate_labels : Config → Result (Unit {0})
  unfolding allowed_label_set check_sensitive
  validate_labels c = do
    reject_if (is_blank c.visibility_label) (text "config: visibility_label is required")
    reject_if (contains_any c.visibility_label (0 ∷ 13 ∷ 10 ∷ []))
        (text "config: visibility_label contains invalid control character")
    reject_if (is_some (lookup (allowed_label_set c) (normalize_label c.visibility_label)))
        (text "config: visibility_label must not also be an allowed classification label")
    check_sensitive (allowed_label_set c) c.sensitive_classification_labels

  unfoldable pub gmail_configured : Config → Bool
  gmail_configured c = not (is_blank c.account_email) && not (is_blank c.oauth_client_path)

  unfoldable pub socket_file_mode : Config → Result ℕ
  unfolding parse_octal
  socket_file_mode c =
      let value = trim_space c.socket_mode in
      elim (parse_octal (if is_empty value then default_socket_mode else value)) [
        | none ↦ err (text "config: invalid socket_mode " ++ std.quote c.socket_mode)
        | some mode ↦ ok mode
      ]

module _ ⦃std : Std⦄ ⦃os : Os⦄ where
  abbrev pub is_current_dir : Text → Bool
  is_current_dir path = os.clean_path path == text "."

  unfoldable pub validate_auth_store : AuthStoreConfig → Result (Unit {0})
  validate_auth_store c =
      let backend = to_lower (trim_space c.backend) in
      if is_empty backend || backend == text "system"
      then ok tt
      else if backend == text "file"
      then (do
        reject_if (is_blank c.file_dir)
            (text "config: auth_store.file_dir is required when backend=file")
        reject_if (is_current_dir c.file_dir)
            (text "config: auth_store.file_dir must not resolve to current directory"))
      else err (text "config: unsupported auth_store.backend " ++ std.quote c.backend)

  -- the tests of Validate on the paths
  unfoldable pub validate_paths : Config → Result (Unit {0})
  validate_paths c = do
    reject_if (is_blank c.instance_name) (text "config: instance is required")
    reject_if (not (is_blank c.socket_path) && is_current_dir c.socket_path)
        (text "config: socket_path must not resolve to current directory")
    reject_if (is_blank c.state_path) (text "config: state_path is required")
    reject_if (is_current_dir c.state_path)
        (text "config: state_path must not resolve to current directory")
    reject_if (is_blank c.audit_log_path) (text "config: audit_log_path is required")
    reject_if (is_current_dir c.audit_log_path)
        (text "config: audit_log_path must not resolve to current directory")

  unfoldable pub validate : Config → Result (Unit {0})
  unfolding validate_paths validate_labels validate_auth_store validate_discord
  validate c = do
    validate_paths c
    validate_labels c
    validate_auth_store c.auth_store
    validate_discord c.discord

  unfoldable pub validate_daemon : Config → Result (Unit {0})
  unfolding socket_file_mode
  validate_daemon c = do
    validate c
    reject_if (is_blank c.socket_path) (text "config: socket_path is required for daemon mode")
    reject_if (eqb c.client_uid 0) (text "config: client_uid is required for daemon mode")
    _mode ← socket_file_mode c
    ok tt

  unfoldable pub validate_gmail : Config → Result (Unit {0})
  validate_gmail c = do
    validate c
    reject_if (is_blank c.account_email)
        (text "config: account_email is required for Gmail operations")
    reject_if (is_blank c.oauth_client_path)
        (text "config: oauth_client_path is required for Gmail operations")
    reject_if (is_current_dir c.oauth_client_path)
        (text "config: oauth_client_path must not resolve to current directory")

-- ===== src/Config/Defaults.antt =====
-- internal/config/config.go: the default configuration, and what `Load` fills in before it validates.
pub mod Lists
pub mod Load
use gmail_visibility_manager.Base.{
  List, [], ◌∷◌, ◌++◌, Bool, true, false, ◌&&◌, ◌||◌, not, is_empty, if◌then◌else◌, map,
}
use gmail_visibility_manager.Text.{Text, text, ◌==◌, trim_space, has_prefix}
use gmail_visibility_manager.Result.{Result, ok, err, ◌>>=◌, ◌>>◌}
use gmail_visibility_manager.Dict.{Dict, insert, values}
use gmail_visibility_manager.Sort.{sort_by}
use gmail_visibility_manager.Std.{Std}
use gmail_visibility_manager.Os.{Os}
use gmail_visibility_manager.Config.{
  Config, AuthStoreConfig, DiscordConfig, default_visibility_label, default_socket_mode, is_blank,
  normalize_label, validate,
}

abbrev pub default_instance : Text
default_instance = text "default"

abbrev pub default_auth_backend : Text
default_auth_backend = text "system"

abbrev pub default_auth_service : Text
default_auth_service = text "gmail-visibility-manager"

abbrev pub default_discord_token_env : Text
default_discord_token_env = text "GMAIL_VISIBILITY_MANAGER_DISCORD_TOKEN"

abbrev pub default_discord_prefix : Text
default_discord_prefix = text "!gvm"

-- `if strings.TrimSpace(value) == "" { value = fallback }`
abbrev pub or_default : Text → Text → Text
or_default value fallback = if is_blank value then fallback else value

unfoldable pub discord_defaults : DiscordConfig → DiscordConfig
discord_defaults c = record {
  token_env = or_default c.token_env default_discord_token_env;
  channel_id = c.channel_id;
  allowed_user_ids = map trim_space c.allowed_user_ids;
  command_prefix = or_default c.command_prefix default_discord_prefix;
}

module _ ⦃std : Std⦄ where
  -- the loop of normalizeLabelList
  unfoldable pub collect_list : List Text → Dict Text → Dict Text
  collect_list [] seen = seen
  collect_list (label ∷ labels) seen =
      let trimmed = trim_space label in
      collect_list labels
        (if is_empty trimmed then seen else insert seen (normalize_label trimmed) trimmed)

  unfoldable pub normalize_label_list : List Text → List Text
  unfolding collect_list
  normalize_label_list labels = sort_by normalize_label (values (collect_list labels []))

module _ ⦃os : Os⦄ where
  -- the path behind its first two characters, which the caller has tested
  abbrev pub drop_two : Text → Text
  drop_two (a ∷ b ∷ rest) = rest
  drop_two short = []

  -- ExpandPath behind its first line, which trims the path; without a home directory nothing changes
  unfoldable pub expand_trimmed : Text → Text
  expand_trimmed path =
      if is_empty path || path == text "~"
      then elim os.user_home_dir [
        | err _ ↦ path
        | ok home ↦ if path == text "~" then home else path
      ]
      else if has_prefix path (text "~/")
      then elim os.user_home_dir [ err _ ↦ path | ok home ↦ os.join_path home (drop_two path) ]
      else path

  unfoldable pub expand_path : Text → Text
  unfolding expand_trimmed
  expand_path path = expand_trimmed (trim_space path)

  unfoldable pub default_state_dir : Text
  unfolding expand_path
  default_state_dir =
      let value = trim_space (os.getenv (text "XDG_STATE_HOME")) in
      if is_empty value
      then elim os.user_home_dir [
        | err _ ↦ os.join_path (text ".") (text ".gmail-visibility-manager")
        | ok home ↦
            if is_blank home
            then os.join_path (text ".") (text ".gmail-visibility-manager")
            else os.join_path (os.join_path (os.join_path home (text ".local")) (text "state"))
                (text "gmail-visibility-manager")
      ]
      else os.join_path (expand_path value) (text "gmail-visibility-manager")

  -- the struct that Default returns; the fields that it leaves out are empty
  unfoldable pub default_config : Config
  unfolding default_state_dir
  default_config = record {
    instance_name = default_instance;
    account_email = [];
    client_uid = 0;
    socket_path =
        os.join_path (os.join_path os.temp_dir (text "gmail-visibility-manager"))
          (text "default.sock");
    socket_mode = default_socket_mode;
    state_path = os.join_path default_state_dir (text "state.db");
    audit_log_path = os.join_path default_state_dir (text "audit.jsonl");
    oauth_client_path = [];
    auth_store = record {
      backend = default_auth_backend;
      service = default_auth_service;
      file_dir = [];
    };
    visibility_label = default_visibility_label;
    allowed_classification_labels = [];
    sensitive_classification_labels = [];
    discord = record {
      token_env = default_discord_token_env;
      channel_id = [];
      allowed_user_ids = [];
      command_prefix = default_discord_prefix;
    };
  }

module _ ⦃std : Std⦄ ⦃os : Os⦄ where
  -- the last lines of AuthStoreConfig.applyDefaults
  unfoldable pub file_dir_default : Text → Text → Text
  unfolding expand_path
  file_dir_default file_dir state_path =
      let expanded = expand_path file_dir in
      if is_blank expanded && not (is_blank state_path)
      then os.join_path (os.dir_path state_path) (text "keyring")
      else expanded

  unfoldable pub auth_store_defaults : AuthStoreConfig → Text → AuthStoreConfig
  unfolding file_dir_default
  auth_store_defaults c state_path =
      let backend = or_default c.backend default_auth_backend in
      record {
        backend = backend;
        service = or_default c.service default_auth_service;
        file_dir =
            if std.equal_fold (trim_space backend) (text "file")
            then file_dir_default c.file_dir state_path
            else c.file_dir;
      }

  unfoldable pub apply_defaults : Config → Config
  unfolding expand_path auth_store_defaults discord_defaults normalize_label_list
  apply_defaults c =
      let state_path = expand_path (or_default c.state_path default_config.state_path) in
      record {
        instance_name = or_default c.instance_name default_config.instance_name;
        account_email = c.account_email;
        client_uid = c.client_uid;
        socket_path = expand_path (or_default c.socket_path default_config.socket_path);
        socket_mode = or_default c.socket_mode default_config.socket_mode;
        state_path = state_path;
        audit_log_path = expand_path (or_default c.audit_log_path default_config.audit_log_path);
        oauth_client_path = expand_path c.oauth_client_path;
        auth_store = auth_store_defaults c.auth_store state_path;
        visibility_label = or_default c.visibility_label default_visibility_label;
        allowed_classification_labels = normalize_label_list c.allowed_classification_labels;
        sensitive_classification_labels = normalize_label_list c.sensitive_classification_labels;
        discord = discord_defaults c.discord;
      }

  -- Load, with the file system and the JSON decoder as arguments
  unfoldable pub load : (Text → Result Text) → (Text → Result Config) → Text → Result Config
  load read_file decode path =
      if is_blank path
      then (do validate default_config; ok default_config)
      else elim (read_file (expand_path path)) [
        | err e ↦ err (text "read config: " ++ e)
        | ok body ↦ elim (decode body) [
          | err e ↦ err (text "parse config: " ++ e)
          | ok cfg ↦ (do validate (apply_defaults cfg); ok (apply_defaults cfg))
        ]
      ]

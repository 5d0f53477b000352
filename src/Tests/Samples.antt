-- ===== src/Tests/Samples.antt =====
-- Concrete values that the tests share.
use gmail_visibility_manager.Base.{[], ◌∷◌, ◌++◌, true, false, Option, none, some, map, pos}
use gmail_visibility_manager.Text.{Text, text}
use gmail_visibility_manager.Result.{ok}
use gmail_visibility_manager.Os.{Os}
use gmail_visibility_manager.Config.{Config}
use gmail_visibility_manager.Request.{VisibilityRequest}
use gmail_visibility_manager.State.Records.{GrantRecord}
use gmail_visibility_manager.State.Calls.{Host}
use gmail_visibility_manager.Gmail.{Gmail, ReconcileResult}
use gmail_visibility_manager.Rpc.Envelope.{Request}
use gmail_visibility_manager.Rpc.Framing.{Bytes}
use gmail_visibility_manager.Discord.{Message, Bot}
use gmail_visibility_manager.Daemon.Serve.{Decoders}

instance abbrev pub sample_os : Os
sample_os = record {
  user_home_dir = ok (text "/home/u");
  temp_dir = text "/tmp";
  getenv = λ name. [];
  join_path = λ a b. a ++ b'/' ∷ b;
  dir_path = λ p. p;
  clean_path = λ p. p;
}

-- no call of the database fails
instance abbrev pub sample_host : Host
sample_host = record {
  fault = λ n. none;
  conflict = text "UNIQUE constraint failed";
  clock = λ n. text "2024-01-01T00:00:00Z";
  random = λ n. n ∷ [];
}

abbrev pub sample_config : Config
sample_config = record {
  instance_name = text "default";
  account_email = text "me@example.com";
  client_uid = 1001;
  socket_path = text "/run/gvm.sock";
  socket_mode = text "0660";
  state_path = text "/var/state.db";
  audit_log_path = text "/var/audit.jsonl";
  oauth_client_path = text "/etc/client.json";
  auth_store = record { backend = text "system"; service = text "gvm"; file_dir = [] };
  visibility_label = text "Donna";
  allowed_classification_labels = text "Travel" ∷ text "Kids/School" ∷ [];
  sensitive_classification_labels = text "Travel" ∷ [];
  discord = record {
    token_env = text "TOKEN";
    channel_id = text "12";
    allowed_user_ids = text "7" ∷ [];
    command_prefix = text "!gvm";
  };
}

-- a request in normal form
abbrev pub sample_request : VisibilityRequest
sample_request = record {
  schema_version = text "1.0";
  request_id = text "r-1";
  created_at = [];
  requested_by = text "donna";
  action = text "create_visibility_grant";
  email = text "a@b.com";
  classification_labels = text "Kids/School" ∷ [];
  rationale = text "mail";
}

abbrev pub done : Text → ReconcileResult
done email = record {
  email = email;
  expected_filter = record { from = email; add_labels = [] };
  gmail_filter_id = text "f-1";
  label_filters = [];
  historical_backfill = none;
  status = text "created";
  changed = true;
  message = [];
}

-- a Gmail account in which every reconciliation succeeds
instance abbrev pub sample_gmail : Gmail
sample_gmail = record {
  connect = λ n. none;
  reconcile = λ n grants opts. (map (λ (g : GrantRecord). done g.email) grants, none);
}

-- one request by the client 1001: a frame of one byte, which the decoders take for a submission
abbrev pub sample_stream : Bytes
sample_stream = 0 ∷ 0 ∷ 0 ∷ 1 ∷ 7 ∷ []

abbrev pub sample_call : Request
sample_call = record { v = pos 1; id = text "1"; method = text "grant.submit"; params = text "{}" }

abbrev pub sample_decoders : Decoders
sample_decoders = record {
  envelope = λ payload. ok sample_call;
  visibility_request = λ params. ok (sample_request, true);
  lookup_params = λ params. ok (text "a@b.com");
}

abbrev pub sample_bot : Bot
sample_bot = record { cfg = sample_config.discord; allowed = text "7" ∷ [] }

-- a message in the configured channel
abbrev pub sample_message : Text → Text → Option Message
sample_message id content = some (record {
  author = some (record { id = id; is_bot = false });
  channel_id = text "12";
  guild_id = text "3";
  content = content;
})

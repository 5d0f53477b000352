-- ===== src/Tests/Discord.antt =====
-- internal/discordbot at concrete inputs.
use gmail_visibility_manager.Base.{[], ◌∷◌, ◌≡◌, ◌⊎◌, refl}
use gmail_visibility_manager.Text.{Text, text, ◌==◌, trim_space, has_prefix, len, rune_len}
use gmail_visibility_manager.Text.Fields.{fields}
use gmail_visibility_manager.Dict.Keyed.{has_key}
use gmail_visibility_manager.Std.Ascii.{ascii_std}
use gmail_visibility_manager.Manager.{World}
use gmail_visibility_manager.State.Calls.{empty_db, call}
use gmail_visibility_manager.State.Operations.Lists.{list_pending}
use gmail_visibility_manager.State.Tables.{pending_rows}
use gmail_visibility_manager.State.Records.{scan_requests}
use gmail_visibility_manager.Sort.Less.{sort_less}
use gmail_visibility_manager.Discord.{on_message}
use gmail_visibility_manager.Discord.Replies.{escape_line, take_bytes}
use gmail_visibility_manager.Discord.Deciders.{MayDecide, Deed, on_message-Deed}
use gmail_visibility_manager.Tests.Samples.{
  sample_os, sample_host, sample_gmail, sample_config, sample_bot, sample_message,
}

abbrev quiet_world : World
quiet_world = record { db = empty_db; log = []; gmail_calls = 0 }

escape-sample : escape_line (text " a\nb ") ≡ text "a b"
unfolding escape_line text trim_space len
escape-sample = refl

-- the euro sign has three bytes, of which one is left
take_bytes-sample : take_bytes 2 (97 ∷ 0x20ac ∷ []) ≡ 97 ∷ 0xfffd ∷ []
unfolding take_bytes rune_len
take_bytes-sample = refl

on_message-sample :
    (on_message sample_config sample_bot
      (sample_message (text "7") (text "!gvm pending"))
      quiet_world).1
    ≡ (text "12", text "No pending Gmail visibility requests.") ∷ []
unfolding on_message text trim_space has_prefix fields ◌==◌ has_key list_pending call pending_rows
    sort_less scan_requests
on_message-sample = refl

on_message-Deed_example :
    (on_message sample_config sample_bot
        (sample_message (text "7") (text "!gvm approve r-1"))
        quiet_world
      ≡ (quiet_world, []))
    ⊎ ((id : Text) × MayDecide sample_config.discord
          (text "7" ∷ [])
          (sample_message (text "7") (text "!gvm approve r-1"))
          id
        × Deed sample_config id quiet_world
            (on_message sample_config sample_bot
              (sample_message (text "7") (text "!gvm approve r-1"))
              quiet_world).0)
on_message-Deed_example =
    on_message-Deed sample_config sample_bot (sample_message (text "7") (text "!gvm approve r-1"))
      quiet_world

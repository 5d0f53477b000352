-- ===== src/Tests/Config.antt =====
-- internal/config at concrete inputs.
use gmail_visibility_manager.Base.{List, [], ◌∷◌, ◌≡◌, refl, inr, arith}
use gmail_visibility_manager.Text.{
  Text, text, ◌==◌, trim_space, contains_any, has_rune, text_lt, has_prefix,
}
use gmail_visibility_manager.Result.{Result, ok}
use gmail_visibility_manager.Dict.{lookup, insert, values}
use gmail_visibility_manager.Sort.{sort_by}
use gmail_visibility_manager.Std.{rune_lower}
use gmail_visibility_manager.Std.Ascii.{ascii_std}
use gmail_visibility_manager.Config.{
  Config, octal_digits, socket_file_mode, validate, validate_daemon, validate_gmail,
  normalize_label, count_ids, add_labels,
}
use gmail_visibility_manager.Config.Labels.{HasSoundLabels, validate-HasSoundLabels}
use gmail_visibility_manager.Config.Checks.{IsDaemonReady, validate_daemon_iff}
use gmail_visibility_manager.Config.Mode.{socket_file_mode_iff}
use gmail_visibility_manager.Config.Defaults.{
  apply_defaults, load, expand_path, normalize_label_list, collect_list,
}
use gmail_visibility_manager.Config.Defaults.Load.{IsLoaded, load-IsLoaded}
use gmail_visibility_manager.Tests.Samples.{sample_os, sample_config}

validate-sample : validate sample_config ≡ ok tt
unfolding validate text trim_space contains_any has_rune normalize_label rune_lower ◌==◌ lookup
    insert add_labels count_ids
validate-sample = refl

validate_daemon-sample : validate_daemon sample_config ≡ ok tt
unfolding validate_daemon validate text trim_space contains_any has_rune normalize_label rune_lower
    ◌==◌ lookup insert add_labels count_ids octal_digits
validate_daemon-sample = refl

validate_gmail-sample : validate_gmail sample_config ≡ ok tt
unfolding validate_gmail validate text trim_space contains_any has_rune normalize_label rune_lower
    ◌==◌ lookup insert add_labels count_ids
validate_gmail-sample = refl

validate-HasSoundLabels_example : HasSoundLabels sample_config
validate-HasSoundLabels_example = validate-HasSoundLabels sample_config validate-sample

validate_daemon_iff_example : IsDaemonReady sample_config
validate_daemon_iff_example = (validate_daemon_iff sample_config).0 validate_daemon-sample

abbrev spaced_mode : Config
spaced_mode = record sample_config { socket_mode = text " 0600 " }

socket_file_mode_iff_example : socket_file_mode spaced_mode ≡ ok 384
unfolding text trim_space
socket_file_mode_iff_example = (socket_file_mode_iff spaced_mode 384).1 (
    inr (
      refl,
      (
        (omega arith, omega arith),
        (
          (omega arith, omega arith),
          ((omega arith, omega arith), ((omega arith, omega arith), tt)),
        ),
      ),
      refl,
      omega arith,
    ))

abbrev raw_list : List Text
raw_list = text " Travel" ∷ [] ∷ text "kids" ∷ text "travel " ∷ []

normalize_label_list-sample : normalize_label_list raw_list ≡ text "kids" ∷ text "travel" ∷ []
unfolding normalize_label_list collect_list text trim_space normalize_label rune_lower ◌==◌ insert
    values sort_by text_lt
normalize_label_list-sample = refl

-- a file system with one file, and its decoder
abbrev read_file : Text → Result Text
read_file path = ok path

abbrev decode : Text → Result Config
decode body = ok sample_config

abbrev loaded : Config
loaded = apply_defaults sample_config

load-sample : load read_file decode (text "/etc/gvm.json") ≡ ok loaded
unfolding load validate apply_defaults expand_path normalize_label_list collect_list values sort_by
    text_lt text trim_space contains_any has_rune normalize_label rune_lower ◌==◌ lookup insert
    add_labels count_ids has_prefix
load-sample = refl

load-IsLoaded_example : IsLoaded loaded
load-IsLoaded_example = load-IsLoaded read_file decode (text "/etc/gvm.json") loaded load-sample

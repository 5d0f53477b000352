-- ===== src/Service.antt =====
-- internal/service: the names and the texts of the service files.
pub mod Names
pub mod Quoting
use gmail_visibility_manager.Base.{
  ℕ, List, [], ◌∷◌, ◌++◌, Bool, true, false, ◌&&◌, ◌||◌, not, eqb, leb, is_empty, if◌then◌else◌,
}
use gmail_visibility_manager.Text.{Text, text, trim_space}
use gmail_visibility_manager.Result.{Result, ok, err, ◌>>=◌, ◌>>◌, reject_if}
use gmail_visibility_manager.Exec.{wrap_result}
use gmail_visibility_manager.Std.{Std, to_lower}
use gmail_visibility_manager.Os.{Os}
use gmail_visibility_manager.Config.{Config}

-- service.Spec
pub record ServiceSpec : Type 0 where
  pub instance_name : Text
  pub config_path : Text
  pub binary_path : Text
  pub stdout_log_path : Text
  pub stderr_log_path : Text

-- the Abs of path/filepath is a parameter
unfoldable pub build_spec :
    ⦃os : Os⦄ → (Text → Result Text) → Config → Text → Text → Result ServiceSpec
build_spec ⦃os⦄ absolute cfg config_path binary_path = do
  reject_if (is_empty (trim_space config_path)) (text "missing config path")
  reject_if (is_empty (trim_space binary_path)) (text "missing binary path")
  config_abs ← wrap_result (text "resolve config path: ") (absolute (trim_space config_path))
  binary_abs ← wrap_result (text "resolve binary path: ") (absolute (trim_space binary_path))
  let log_dir = os.join_path (os.dir_path cfg.state_path) (text "logs")
  ok (record {
    instance_name = cfg.instance_name;
    config_path = config_abs;
    binary_path = binary_abs;
    stdout_log_path = os.join_path log_dir (text "gmail-visibility-manager.stdout.log");
    stderr_log_path = os.join_path log_dir (text "gmail-visibility-manager.stderr.log");
  })

-- the cases of the switch of sanitizeInstance that keep a rune
unfoldable pub is_kept : ℕ → Bool
is_kept r =
    (leb b'a' r && leb r b'z')
    || (leb b'0' r && leb r b'9')
    || eqb r b'.'
    || eqb r b'_'
    || eqb r b'-'

-- the loop of sanitizeInstance
unfoldable pub sanitize_loop : Text → Bool → Text
unfolding is_kept
sanitize_loop [] last_dash = []
sanitize_loop (r ∷ s) last_dash =
    let rest = sanitize_loop s (not (is_kept r)) in
    if is_kept r then r ∷ rest else if last_dash then rest else b'-' ∷ rest

-- strings.Trim at "-"
unfoldable pub trim_left_dashes : Text → Text
trim_left_dashes [] = []
trim_left_dashes (r ∷ s) = if eqb r b'-' then trim_left_dashes s else r ∷ s

unfoldable pub trim_right_dashes : Text → Text
trim_right_dashes [] = []
trim_right_dashes (r ∷ s) =
    let rest = trim_right_dashes s in if eqb r b'-' && is_empty rest then [] else r ∷ rest

abbrev pub or_instance : Text → Text
or_instance value = if is_empty value then text "instance" else value

unfoldable pub sanitize_instance : ⦃std : Std⦄ → Text → Text
unfolding sanitize_loop trim_left_dashes trim_right_dashes
sanitize_instance value =
    let lowered = trim_space (to_lower value) in
    if is_empty lowered
    then text "instance"
    else or_instance (trim_right_dashes (trim_left_dashes (sanitize_loop lowered false)))

unfoldable pub systemd_unit_name : ⦃std : Std⦄ → Text → Text
unfolding sanitize_instance
systemd_unit_name instance_name =
    text "gmail-visibility-manager@" ++ (sanitize_instance instance_name ++ text ".service")

unfoldable pub launchd_label : ⦃std : Std⦄ → Text → Text
unfolding sanitize_instance
launchd_label instance_name =
    text "com.gmail-visibility-manager." ++ sanitize_instance instance_name

unfoldable pub launchd_file_name : ⦃std : Std⦄ → Text → Text
unfolding launchd_label
launchd_file_name instance_name = launchd_label instance_name ++ text ".plist"

unfoldable pub validate_spec : ServiceSpec → Result (Unit {0})
validate_spec spec = do
  reject_if (is_empty (trim_space spec.instance_name)) (text "missing instance")
  reject_if (is_empty (trim_space spec.config_path)) (text "missing config path")
  reject_if (is_empty (trim_space spec.binary_path)) (text "missing binary path")

-- strings.NewReplacer of the backslash and the quote
unfoldable pub escape_quoted : Text → Text
escape_quoted [] = []
escape_quoted (r ∷ s) =
    let rest = escape_quoted s in if eqb r b'\\' || eqb r b'"' then b'\\' ∷ r ∷ rest else r ∷ rest

unfoldable pub systemd_quote : Text → Text
unfolding escape_quoted
systemd_quote value = b'"' ∷ (escape_quoted value ++ b'"' ∷ [])

unfoldable pub systemd_unit : ServiceSpec → Result Text
unfolding validate_spec systemd_quote
systemd_unit spec = do
  validate_spec spec
  ok (
      text "[Unit]\nDescription=Gmail visibility manager ("
      ++ (spec.instance_name
          ++ (text ")\nAfter=network-online.target\n\n[Service]\nType=simple\nExecStart="
              ++ (systemd_quote spec.binary_path
                  ++ (text " --config "
                      ++ (systemd_quote spec.config_path
                          ++ text
                              " run\nRestart=on-failure\nRestartSec=2\nNoNewPrivileges=yes\n\n[Install]\nWantedBy=default.target\n"))))))

-- the runes that XML allows
unfoldable pub in_character_range : ℕ → Bool
in_character_range r =
    eqb r 0x9
    || eqb r 0xa
    || eqb r 0xd
    || (leb 0x20 r && leb r 0xd7ff)
    || (leb 0xe000 r && leb r 0xfffd)
    || (leb 0x10000 r && leb r 0x10ffff)

-- xml.EscapeText at one rune
unfoldable pub escape_rune : ℕ → Text
unfolding in_character_range
escape_rune r =
    if eqb r b'"'
    then text "&#34;"
    else if eqb r b'\''
    then text "&#39;"
    else if eqb r b'&'
    then text "&amp;"
    else if eqb r b'<'
    then text "&lt;"
    else if eqb r b'>'
    then text "&gt;"
    else if eqb r 0x9
    then text "&#x9;"
    else if eqb r 0xa
    then text "&#xA;"
    else if eqb r 0xd
    then text "&#xD;"
    else if in_character_range r
    then r ∷ []
    else 0xfffd ∷ []

unfoldable pub xml_escape : Text → Text
unfolding escape_rune
xml_escape [] = []
xml_escape (r ∷ s) = escape_rune r ++ xml_escape s

-- the range over the arguments in the template
unfoldable pub argument_lines : List Text → Text
unfolding xml_escape
argument_lines [] = []
argument_lines (argument ∷ arguments) =
    text "\n      <string>"
    ++ (xml_escape argument ++ (text "</string>" ++ argument_lines arguments))

unfoldable pub launchd_plist : ⦃std : Std⦄ → ServiceSpec → Result Text
unfolding validate_spec xml_escape argument_lines
launchd_plist spec = do
  validate_spec spec
  ok (
      text
        "<?xml version=\"1.0\" encoding=\"UTF-8\"?>\n<!DOCTYPE plist PUBLIC \"-//Apple Computer//DTD PLIST 1.0//EN\" \"http://www.apple.com/DTDs/PropertyList-1.0.dtd\">\n<plist version=\"1.0\">\n  <dict>\n    <key>Label</key>\n    <string>"
      ++ (xml_escape (launchd_label spec.instance_name)
          ++ (text "</string>\n    <key>ProgramArguments</key>\n    <array>"
              ++ (argument_lines
                    (spec.binary_path ∷ text "--config" ∷ spec.config_path ∷ text "run" ∷ [])
                  ++ (text
                        "\n    </array>\n    <key>RunAtLoad</key>\n    <true/>\n    <key>KeepAlive</key>\n    <true/>\n    <key>StandardOutPath</key>\n    <string>"
                      ++ (xml_escape spec.stdout_log_path
                          ++ (text "</string>\n    <key>StandardErrorPath</key>\n    <string>"
                              ++ (xml_escape spec.stderr_log_path
                                  ++ text "</string>\n  </dict>\n</plist>\n"))))))))

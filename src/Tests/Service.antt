-- ===== src/Tests/Service.antt =====
-- internal/service at concrete inputs.
use gmail_visibility_manager.Base.{[], ◌∷◌, ◌≡◌, refl, some, false}
use gmail_visibility_manager.Text.{text, trim_space, has_rune}
use gmail_visibility_manager.Std.{rune_lower}
use gmail_visibility_manager.Std.Ascii.{ascii_std}
use gmail_visibility_manager.Service.{
  sanitize_instance, sanitize_loop, trim_left_dashes, trim_right_dashes, is_kept, xml_escape,
  in_character_range, validate_spec,
}
use gmail_visibility_manager.Service.Names.{IsName, sanitize_instance-IsName}
use gmail_visibility_manager.Service.Quoting.{in_text, read_xml, read_xml-xml_escape}
use gmail_visibility_manager.Result.{err}

sanitize_instance-sample : sanitize_instance (text " -Work Mail!! 2- ") ≡ text "work-mail-2"
unfolding sanitize_instance sanitize_loop is_kept trim_left_dashes trim_right_dashes text trim_space
    rune_lower
sanitize_instance-sample = refl

validate_spec-sample :
    validate_spec (record {
      instance_name = text "work";
      config_path = text " ";
      binary_path = [];
      stdout_log_path = [];
      stderr_log_path = [];
    })
    ≡ err (text "missing config path")
unfolding validate_spec text trim_space
validate_spec-sample = refl

sanitize_instance-IsName_example : IsName (sanitize_instance (text " Work Mail "))
sanitize_instance-IsName_example = sanitize_instance-IsName (text " Work Mail ")

read_xml-xml_escape_example :
    (read_xml (xml_escape (b'a' ∷ b'<' ∷ 0xd ∷ [])) in_text ≡ some (b'a' ∷ b'<' ∷ 0xd ∷ []))
    × (has_rune b'<' (xml_escape (b'a' ∷ b'<' ∷ 0xd ∷ [])) ≡ false)
    × (has_rune b'>' (xml_escape (b'a' ∷ b'<' ∷ 0xd ∷ [])) ≡ false)
read_xml-xml_escape_example = read_xml-xml_escape (b'a' ∷ b'<' ∷ 0xd ∷ []) (
  (unfold in_character_range in refl),
  ((unfold in_character_range in refl), ((unfold in_character_range in refl), tt)),
)

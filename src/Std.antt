-- ===== src/Std.antt =====
-- The functions of Go's standard library that the program calls and this library does not write
-- out: the case table of Unicode beyond ASCII, the address parser of net/mail, `%q`, the RFC 3339
-- parser, JSON, and SHA-256. They are the fields of one record, which the definitions take as an
-- instance argument; `StdLaws` states what their documentation promises.
pub mod Lower
pub mod Ascii
use gmail_visibility_manager.Base.{
  ℤ, ℕ, ◌+◌, ◌≤◌, ◌<◌, ◌≡◌, List, length, ◌∷◌, Bool, true, ◌&&◌, leb, ltb, map, Option,
  if◌then◌else◌,
}
use gmail_visibility_manager.Text.{Text, is_space, text}
use gmail_visibility_manager.Result.{Result, ok}

pub data Json : Type 0 where
  str : Text → Json
  strs : List Text → Json

pub record Std : Type 0 where
  -- unicode.ToLower on the runes from 0x80 on
  pub unicode_lower : ℕ → ℕ
  -- strings.EqualFold
  pub equal_fold : Text → Text → Bool
  -- mail.ParseAddress, of which the program reads the field `Address`
  pub parse_address : Text → Result Text
  -- the verb %q of fmt
  pub quote : Text → Text
  -- the verb %d of fmt
  pub decimal : ℤ → Text
  -- json.Valid
  pub json_valid : Text → Bool
  -- whether time.Parse(time.RFC3339, …) succeeds
  pub is_rfc3339 : Text → Bool
  -- json.Marshal and json.Unmarshal at []string
  pub marshal_strings : List Text → Result Text
  pub unmarshal_strings : Text → Result (List Text)
  -- json.Marshal of a struct, given its fields with their names
  pub marshal_object : List (Text × Json) → Result Text
  -- hex.EncodeToString of sha256.Sum256
  pub sha256_hex : Text → Text

-- strings.ToLower, rune by rune
unfoldable pub rune_lower : ⦃std : Std⦄ → ℕ → ℕ
rune_lower ⦃std⦄ r =
    if ltb r 0x80 then (if leb b'A' r && leb r b'Z' then r + 32 else r) else std.unicode_lower r

abbrev pub to_lower : ⦃std : Std⦄ → Text → Text
to_lower = map rune_lower

pub record StdLaws (std : Std) : Type 0 where
  -- the lower case of a rune is in lower case
  pub lower_idem :
      (r : ℕ) → 0x80 ≤ r → rune_lower ⦃std = std⦄ (std.unicode_lower r) ≡ std.unicode_lower r
  -- lower case keeps white space apart from the rest
  pub lower_space : (r : ℕ) → 0x80 ≤ r → is_space (std.unicode_lower r) ≡ is_space r
  -- a rune beyond ASCII whose lower case is ASCII is a letter, such as the Kelvin sign
  pub lower_ascii :
      (r : ℕ)
      → 0x80 ≤ r
      → std.unicode_lower r < 0x80
      → (b'a' ≤ std.unicode_lower r) × (std.unicode_lower r ≤ b'z')
  pub equal_fold_refl : (s : Text) → std.equal_fold s s ≡ true
  -- case folding goes rune by rune
  pub equal_fold_length : (s t : Text) → std.equal_fold s t ≡ true → length s ≡ length t
  -- the address grammar does not distinguish letters by case
  pub address_lower :
      (s a : Text)
      → std.parse_address s ≡ ok a
      → std.parse_address (to_lower ⦃std = std⦄ s) ≡ ok (to_lower ⦃std = std⦄ a)
  -- a list of strings is read back from its JSON text, which begins with a bracket
  pub strings_round_trip :
      (ts : List Text)
      → (body : Text) × (std.marshal_strings ts ≡ ok (b'[' ∷ body))
        × (std.unmarshal_strings (b'[' ∷ body) ≡ ok ts)

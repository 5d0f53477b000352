-- ===== src/State/Records/RoundTrip.antt =====
-- internal/state/state.go: writing and reading the JSON columns.
use gmail_visibility_manager.Base.{
  List, ◌∷◌, ◌≡◌, refl, Bool, true, false, not, eqb, is_empty, arith,
}
use gmail_visibility_manager.Text.{Text, trim_space}
use gmail_visibility_manager.Result.{ok}
use gmail_visibility_manager.Std.{Std, StdLaws}
use gmail_visibility_manager.State.Records.{bool_int, marshal_string_slice, unmarshal_string_slice}

trim_bracket : (body : Text) → is_empty (trim_space (b'[' ∷ body)) ≡ false
unfolding trim_space
trim_bracket body = ground arith

module _ ⦃std : Std⦄ (laws : StdLaws std) where
  pub unmarshal-marshal :
      (values : List Text) (body : Text)
      → marshal_string_slice values ≡ ok body
      → unmarshal_string_slice body ≡ ok values
  unfolding marshal_string_slice unmarshal_string_slice
  unmarshal-marshal values body h =
      let (rest, written, read) = laws.strings_round_trip values in
      let e : b'[' ∷ rest ≡ body = ground arith in
      rw (← e) (ground (arith, trim_bracket rest, read))

pub not-bool_int : (b : Bool) → not (eqb (bool_int b) 0) ≡ b
unfolding bool_int
not-bool_int true = refl
not-bool_int false = refl

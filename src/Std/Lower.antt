-- ===== src/Std/Lower.antt =====
-- Lower case: a second time, with white space, and with ASCII punctuation.
use gmail_visibility_manager.Base.{
  ℕ, ◌≡◌, refl, [], ◌∷◌, Bool, true, ◌&&◌, not, leb, ltb, eqb, arith,
}
use gmail_visibility_manager.Text.{
  Text, is_space, trim_left, trim_right, trim_space, count_rune, contains_any, has_rune,
}
use gmail_visibility_manager.Text.Trim.{trim_space_lem}
use gmail_visibility_manager.Std.{Std, StdLaws, rune_lower, to_lower}

-- ASCII that is not a letter
unfoldable pub is_plain : ℕ → Bool
is_plain c = ltb c 0x80 && not (leb b'A' c && leb c b'Z') && not (leb b'a' c && leb c b'z')

unfoldable pub all_plain : Text → Bool
unfolding is_plain
all_plain [] = true
all_plain (c ∷ s) = is_plain c && all_plain s

module _ ⦃std : Std⦄ (laws : StdLaws std) where
  pub rune_lower_idem : (r : ℕ) → rune_lower (rune_lower r) ≡ rune_lower r
  unfolding rune_lower
  rune_lower_idem r = ground (arith, laws.lower_idem r)

  pub to_lower_idem : (s : Text) → to_lower (to_lower s) ≡ to_lower s
  to_lower_idem [] = refl
  to_lower_idem (r ∷ s) = cc (rune_lower_idem r, to_lower_idem s)

  is_space-rune_lower : (r : ℕ) → is_space (rune_lower r) ≡ is_space r
  unfolding rune_lower is_space
  is_space-rune_lower r = ground (arith, laws.lower_space r)

  eqb-rune_lower : (c r : ℕ) → is_plain c ≡ true → eqb (rune_lower r) c ≡ eqb r c
  unfolding rune_lower is_plain
  eqb-rune_lower c r h = ground (arith, laws.lower_ascii r)

  trim_left-to_lower : (s : Text) → trim_left (to_lower s) ≡ to_lower (trim_left s)
  unfolding trim_left
  trim_left-to_lower [] = refl
  trim_left-to_lower (r ∷ s) = ground (arith, is_space-rune_lower r, trim_left-to_lower s)

  trim_right-to_lower : (s : Text) → trim_right (to_lower s) ≡ to_lower (trim_right s)
  unfolding trim_right
  trim_right-to_lower [] = refl
  trim_right-to_lower (r ∷ s) = ground (arith, is_space-rune_lower r, trim_right-to_lower s)

  pub trim_space-to_lower : (s : Text) → trim_space (to_lower s) ≡ to_lower (trim_space s)
  trim_space-to_lower s = simp (trim_space_lem, trim_left-to_lower, trim_right-to_lower)

  pub count_rune-to_lower :
      (s : Text) (c : ℕ) → is_plain c ≡ true → count_rune (to_lower s) c ≡ count_rune s c
  unfolding count_rune
  count_rune-to_lower [] c h = refl
  count_rune-to_lower (r ∷ s) c h = ground (arith, eqb-rune_lower c r h, count_rune-to_lower s c h)

  has_rune-rune_lower :
      (r : ℕ) (chars : Text)
      → all_plain chars ≡ true
      → has_rune (rune_lower r) chars ≡ has_rune r chars
  unfolding has_rune all_plain
  has_rune-rune_lower r [] h = refl
  has_rune-rune_lower r (c ∷ cs) h = ground (arith, eqb-rune_lower c r, has_rune-rune_lower r cs)

  pub contains_any-to_lower :
      (s chars : Text)
      → all_plain chars ≡ true
      → contains_any (to_lower s) chars ≡ contains_any s chars
  unfolding contains_any
  contains_any-to_lower [] chars h = refl
  contains_any-to_lower (r ∷ s) chars h =
      ground (arith, has_rune-rune_lower r chars h, contains_any-to_lower s chars h)

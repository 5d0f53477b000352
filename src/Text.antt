-- ===== src/Text.antt =====
-- Go strings as lists of runes, and the functions of Go's `strings` and `unicode` packages that the
-- program calls. `len` counts the bytes of the UTF-8 form.
pub mod Order
pub mod Trim
pub mod Search
pub mod Fields
use Prim.Native.Char.{code}
use Prim.Native.String
use gmail_visibility_manager.Base.{
  ℕ, suc, String, List, [], ◌∷◌, ◌++◌, ◌+◌, ◌≡◌, ◌↔◌, refl, Bool, true, false, ◌&&◌, ◌||◌, ltb, leb,
  eqb, if◌then◌else◌, Option, none, some, is_empty, arith,
}

abbrev pub Text : Type 0
Text = List ℕ

-- a string literal of the source
unfoldable pub text : String → Text
text String.[] = []
text (String.◌∷◌ c s) = code c ∷ text s

infix 50 ◌==◌
unfoldable pub ◌==◌ : Text → Text → Bool
[] == [] = true
[] == (b ∷ t) = false
(a ∷ s) == [] = false
(a ∷ s) == (b ∷ t) = eqb a b && s == t

pub ==_iff : (s t : Text) → ((s == t) ≡ true) ↔ (s ≡ t)
unfolding ◌==◌
==_iff [] [] = ground arith
==_iff [] (b ∷ t) = ground arith
==_iff (a ∷ s) [] = ground arith
==_iff (a ∷ s) (b ∷ t) = ground (arith, ==_iff s t)

pub ==_refl : (s : Text) → (s == s) ≡ true
==_refl s = (==_iff s s).1 refl

-- `<` on strings: the bytewise order, which on UTF-8 is the order of the runes
unfoldable pub text_lt : Text → Text → Bool
text_lt [] [] = false
text_lt [] (b ∷ t) = true
text_lt (a ∷ s) [] = false
text_lt (a ∷ s) (b ∷ t) = if ltb a b then true else eqb a b && text_lt s t

-- the bytes of a rune in UTF-8
unfoldable pub rune_len : ℕ → ℕ
rune_len r = if ltb r 0x80 then 1 else if ltb r 0x800 then 2 else if ltb r 0x10000 then 3 else 4

unfoldable pub len : Text → ℕ
unfolding rune_len
len [] = 0
len (r ∷ s) = rune_len r + len s

-- unicode.IsSpace
unfoldable pub is_space : ℕ → Bool
is_space r =
    (leb 9 r && leb r 13)
    || eqb r 32
    || eqb r 0x85
    || eqb r 0xa0
    || eqb r 0x1680
    || (leb 0x2000 r && leb r 0x200a)
    || eqb r 0x2028
    || eqb r 0x2029
    || eqb r 0x202f
    || eqb r 0x205f
    || eqb r 0x3000

unfoldable pub trim_left : Text → Text
trim_left [] = []
trim_left (r ∷ s) = if is_space r then trim_left s else r ∷ s

unfoldable pub trim_right : Text → Text
trim_right [] = []
trim_right (r ∷ s) = let rest = trim_right s in if is_space r && is_empty rest then [] else r ∷ rest

-- strings.TrimSpace
unfoldable pub trim_space : Text → Text
unfolding trim_left trim_right is_space
trim_space s = trim_right (trim_left s)

unfoldable pub has_rune : ℕ → Text → Bool
has_rune r [] = false
has_rune r (c ∷ s) = eqb c r || has_rune r s

-- strings.ContainsAny
unfoldable pub contains_any : Text → Text → Bool
unfolding has_rune
contains_any [] chars = false
contains_any (c ∷ s) chars = has_rune c chars || contains_any s chars

-- strings.HasPrefix
unfoldable pub has_prefix : Text → Text → Bool
has_prefix s [] = true
has_prefix [] (p ∷ ps) = false
has_prefix (c ∷ s) (p ∷ ps) = eqb c p && has_prefix s ps

-- strings.Contains
unfoldable pub contains : Text → Text → Bool
unfolding has_prefix
contains [] sub = is_empty sub
contains (c ∷ s) sub = has_prefix (c ∷ s) sub || contains s sub

-- strings.Count of a text of one rune
unfoldable pub count_rune : Text → ℕ → ℕ
count_rune [] r = 0
count_rune (c ∷ s) r = let rest = count_rune s r in if eqb c r then suc rest else rest

-- strings.Cut at a text of one rune; `none` where it does not occur
unfoldable pub cut_rune : Text → ℕ → Option (Text × Text)
cut_rune [] r = none
cut_rune (c ∷ s) r =
    if eqb c r
    then some ([], s)
    else elim (cut_rune s r) [ none ↦ none | some (before, after) ↦ some (c ∷ before, after) ]

-- strings.Join
unfoldable pub join : List Text → Text → Text
join [] sep = []
join (t ∷ []) sep = t
join (t ∷ u ∷ ts) sep = t ++ (sep ++ join (u ∷ ts) sep)

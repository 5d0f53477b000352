-- ===== src/Text/Fields.antt =====
-- `strings.Fields`, and what trimming and joining mean to it.
use gmail_visibility_manager.Base.{
  List, [], ◌∷◌, ◌++◌, append_assoc, append-nil, ◌≡◌, refl, sym, Bool, true, ◌&&◌, not, is_empty,
  if◌then◌else◌, Bool-cases, inl, inr, arith,
}
use gmail_visibility_manager.Text.{Text, is_space, trim_left, trim_right, trim_space}
use gmail_visibility_manager.Text.Trim.{trim_space_lem}

-- the words of the rest of a text, where `word` is the word under construction
unfoldable pub fields_loop : Text → Text → List Text
fields_loop [] word = if is_empty word then [] else word ∷ []
fields_loop (r ∷ s) word =
    let rest = fields_loop s (if is_space r then [] else word ++ r ∷ []) in
    if is_space r && not (is_empty word) then word ∷ rest else rest

-- strings.Fields
unfoldable pub fields : Text → List Text
unfolding fields_loop
fields s = fields_loop s []

-- a text without white space
unfoldable pub no_space : Text → Bool
no_space [] = true
no_space (r ∷ s) = not (is_space r) && no_space s

-- a word of a text: some runes, and no white space
abbrev pub is_word : Text → Bool
is_word s = not (is_empty s) && no_space s

fields_loop-trim_left : (s : Text) → fields_loop (trim_left s) [] ≡ fields_loop s []
unfolding fields_loop trim_left
fields_loop-trim_left [] = refl
fields_loop-trim_left (r ∷ s) = ground (arith, fields_loop-trim_left s)

nil_of_empty : (s : Text) → is_empty s ≡ true → s ≡ []
nil_of_empty [] h = refl
nil_of_empty (r ∷ s) h = cc

blank-fields_loop :
    (s t : Text) → t ≡ [] → fields_loop t [] ≡ fields_loop s [] → fields_loop s [] ≡ []
unfolding fields_loop
blank-fields_loop s t e h = sym (rw e at h)

fields_loop-trim_right : (s w : Text) → fields_loop (trim_right s) w ≡ fields_loop s w
unfolding fields_loop trim_right
fields_loop-trim_right [] w = refl
fields_loop-trim_right (r ∷ s) w = elim (Bool-cases (is_space r && is_empty (trim_right s))) [
  | inl gone ↦ ground (
    arith,
    blank-fields_loop s (trim_right s) (nil_of_empty (trim_right s) (ground arith))
        (fields_loop-trim_right s []),
  )
  | inr kept ↦ ground (arith, fields_loop-trim_right s (w ++ r ∷ []), fields_loop-trim_right s [])
]

-- Trimming takes nothing from the words of a text.
pub fields-trim_space : (s : Text) → fields (trim_space s) ≡ fields s
unfolding fields
fields-trim_space s = rw (trim_space_lem, fields_loop-trim_right, fields_loop-trim_left)

-- A word is read whole, whatever stands behind it.
pub fields_loop-append :
    (e s w : Text) → no_space e ≡ true → fields_loop (e ++ s) w ≡ fields_loop s (w ++ e)
unfolding fields_loop no_space
fields_loop-append [] s w h = rw append-nil
fields_loop-append (r ∷ e) s w h =
    ground (arith, fields_loop-append e s (w ++ r ∷ []), append_assoc w (r ∷ []) e)

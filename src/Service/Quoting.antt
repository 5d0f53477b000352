-- ===== src/Service/Quoting.antt =====
-- internal/service: xmlEscape, and a reader of the text of an XML element.
use gmail_visibility_manager.Base.{
  ℕ, ◌+◌, ◌-◌, ◌*◌, [], ◌∷◌, ◌++◌, ◌≡◌, refl, ap, ◌∙◌, true, false, ◌||◌, ◌&&◌, eqb, leb, ltb,
  Option, none, some, All, arith, if◌then◌else◌, if-cases,
}
use gmail_visibility_manager.Text.{Text, text, ◌==◌, has_rune}
use gmail_visibility_manager.Service.{in_character_range, escape_rune, xml_escape}

-- the value of a digit, up to base 16
abbrev digit : ℕ → Option ℕ
digit c =
    if leb b'0' c && leb c b'9'
    then some (c - b'0')
    else if leb b'a' c && leb c b'f'
    then some (c - b'a' + 10)
    else if leb b'A' c && leb c b'F'
    then some (c - b'A' + 10)
    else none

abbrev place : ℕ → Option ℕ → Option ℕ → Option ℕ
place base (some n) (some d) = if ltb d base then some (n * base + d) else none
place base _ _ = none

-- the number that digits spell behind the ones read before
abbrev number : ℕ → Option ℕ → Text → Option ℕ
number base before [] = before
number base before (c ∷ s) = number base (place base before (digit c)) s

-- a character that XML allows
abbrev allowed : Option ℕ → Option ℕ
allowed (some r) = if in_character_range r then some r else none
allowed none = none

-- `#` and decimal digits, or `#x` and hexadecimal ones
abbrev numeric : Text → Option ℕ
numeric (h ∷ c ∷ s) =
    if eqb h b'#'
    then allowed (if eqb c b'x' then number 16 (some 0) s else number 10 (some 0) (c ∷ s))
    else none
numeric _ = none

-- the character that a reference stands for: the five entities of XML and the character references
unfoldable pub referenced : Text → Option ℕ
unfolding in_character_range
referenced e =
    if e == text "lt"
    then some b'<'
    else if e == text "gt"
    then some b'>'
    else if e == text "amp"
    then some b'&'
    else if e == text "quot"
    then some b'"'
    else if e == text "apos"
    then some b'\''
    else numeric e

-- where the reader is: in the text, behind a carriage return, or in a reference
pub data Reading : Type 0 where
  in_text : Reading
  after_return : Reading
  in_reference : (name : Text) → Reading

abbrev front : Option ℕ → Option Text → Option Text
front (some r) (some rest) = some (r ∷ rest)
front _ _ = none

-- what a character of the text leads to, and what it is read as in front of the rest: a carriage
-- return is read as a line feed, and a bare `<` or a character that XML forbids is an error
abbrev behind : ℕ → Reading
behind c = if eqb c b'&' then in_reference [] else if eqb c 0xd then after_return else in_text

abbrev read_rune : ℕ → Option Text → Option Text
read_rune c rest =
    if eqb c b'&'
    then rest
    else if eqb c b'<'
    then none
    else front (allowed (some (if eqb c 0xd then 0xa else c))) rest

-- The characters that XML reads in an element without markup, or an error: a reference that is
-- unknown or does not end is one, and a carriage return with a line feed is one line feed.
unfoldable pub read_xml : Text → Reading → Option Text
unfolding referenced in_character_range
read_xml [] (in_reference e) = none
read_xml [] _ = some []
read_xml (c ∷ s) (in_reference e) =
    let ends = eqb c b';' in
    let rest = read_xml s (if ends then in_text else in_reference (e ++ c ∷ [])) in
    if ends then front (referenced e) rest else rest
read_xml (c ∷ s) after_return =
    let rest = read_xml s (behind c) in if eqb c 0xa then rest else read_rune c rest
read_xml (c ∷ s) in_text = read_rune c (read_xml s (behind c))

read_xml-escape_rune :
    (r : ℕ) (s : Text)
    → in_character_range r ≡ true
    → read_xml (escape_rune r ++ s) in_text ≡ front (some r) (read_xml s in_text)
unfolding read_xml escape_rune text ◌==◌ referenced in_character_range
read_xml-escape_rune r s h =
    let Reads = λ (t : Text). read_xml (t ++ s) in_text ≡ front (some r) (read_xml s in_text) in
    if-cases Reads (eqb r b'"') (λ e. ground (arith, e))
      (λ n_quote.
        if-cases Reads (eqb r b'\'') (λ e. ground (arith, e))
          (λ n_apostrophe.
            if-cases Reads (eqb r b'&') (λ e. ground (arith, e))
              (λ n_and.
                if-cases Reads (eqb r b'<') (λ e. ground (arith, e))
                  (λ n_lt.
                    if-cases Reads (eqb r b'>') (λ e. ground (arith, e))
                      (λ n_gt.
                        if-cases Reads (eqb r 0x9) (λ e. ground (arith, e))
                          (λ n_tab.
                            if-cases Reads (eqb r 0xa) (λ e. ground (arith, e))
                              (λ n_line.
                                if-cases Reads (eqb r 0xd) (λ e. ground (arith, e))
                                  (λ n_return.
                                    if-cases Reads (in_character_range r)
                                      (λ e. rw (n_and, n_lt, n_return, h) refl)
                                      (λ e. absurd (cc))))))))))

no_markup_rune :
    (r : ℕ) → (has_rune b'<' (escape_rune r) ≡ false) × (has_rune b'>' (escape_rune r) ≡ false)
unfolding escape_rune text has_rune
no_markup_rune r = (ground arith, ground arith)

has_rune-++ : (c : ℕ) (s t : Text) → has_rune c (s ++ t) ≡ (has_rune c s || has_rune c t)
unfolding has_rune
has_rune-++ c [] t = refl
has_rune-++ c (r ∷ s) t = ground (arith, has_rune-++ c s t)

has_no_rune-++ :
    (c : ℕ) (s t : Text) → has_rune c s ≡ false → has_rune c t ≡ false → has_rune c (s ++ t) ≡ false
has_no_rune-++ c s t h k = ground (arith, has_rune-++ c s t, h, k)

-- A text of runes that XML allows, escaped by xmlEscape, is text that XML reads back as itself: no
-- reference in it is unknown, and no line end is changed. It holds no `<` and no `>`, so it cannot end
-- the element that it stands in.
pub read_xml-xml_escape :
    (value : Text)
    → All (λ r. in_character_range r ≡ true) value
    → (read_xml (xml_escape value) in_text ≡ some value)
      × (has_rune b'<' (xml_escape value) ≡ false)
      × (has_rune b'>' (xml_escape value) ≡ false)
unfolding xml_escape
read_xml-xml_escape [] _ =
    ((unfold read_xml in refl), (unfold has_rune in refl), (unfold has_rune in refl))
read_xml-xml_escape (r ∷ s) (h, hs) =
    let (back, no_lt, no_gt) = read_xml-xml_escape s hs in
    let n = no_markup_rune r in
    (
      read_xml-escape_rune r (xml_escape s) h ∙ ap (front (some r)) back,
      has_no_rune-++ b'<' (escape_rune r) (xml_escape s) n.0 no_lt,
      has_no_rune-++ b'>' (escape_rune r) (xml_escape s) n.1 no_gt,
    )

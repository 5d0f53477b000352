-- ===== src/Gmail/Terms.antt =====
-- internal/gmail/gmail.go: the senders that the `from` of a filter names.
pub mod RoundTrip
pub mod Balance
pub mod Parens
use gmail_visibility_manager.Base.{
  ℕ, zero, suc, ◌+◌, ◌-◌, length, List, [], ◌∷◌, ◌++◌, Bool, true, false, ◌&&◌, ◌||◌, not, leb, eqb,
  is_empty, Option, none, some, if◌then◌else◌,
}
use gmail_visibility_manager.Text.{Text, text, len, join, trim_space, has_prefix}
use gmail_visibility_manager.Text.Fields.{fields}
use gmail_visibility_manager.Result.{ok, err}
use gmail_visibility_manager.Sort.{sort_strings}
use gmail_visibility_manager.Std.{Std}
use gmail_visibility_manager.Request.{normalize_email}
use gmail_visibility_manager.Gmail.Senders.{is_member, normalized_exact_senders}

-- strings.HasSuffix of a text of one rune
unfoldable pub ends_with : Text → ℕ → Bool
ends_with [] r = false
ends_with (c ∷ []) r = eqb c r
ends_with (c ∷ d ∷ s) r = ends_with (d ∷ s) r

-- value[:len(value)-1] where the last rune is ASCII
unfoldable pub drop_last : Text → Text
drop_last [] = []
drop_last (c ∷ []) = []
drop_last (c ∷ d ∷ s) = c ∷ drop_last (d ∷ s)

-- the loop of outerParensWrap: `i` is not the last index of the value where runes follow
unfoldable pub wrap_loop : Text → ℕ → Bool
wrap_loop [] depth = eqb depth 0
wrap_loop (r ∷ s) depth =
    let rest =
      wrap_loop s (if eqb r b'(' then depth + 1 else if eqb r b')' then depth - 1 else depth) in
    if eqb r b')' && (eqb depth 0 || (eqb depth 1 && not (is_empty s))) then false else rest

unfoldable pub outer_parens_wrap : Text → Bool
unfolding wrap_loop
outer_parens_wrap value = wrap_loop value 0

-- the condition of the loop of stripOuterParens
unfoldable pub is_wrapped : Text → Bool
unfolding outer_parens_wrap ends_with
is_wrapped value =
    leb 2 (len value)
    && has_prefix value (b'(' ∷ [])
    && ends_with value b')'
    && outer_parens_wrap value

-- value[1 : len(value)-1]
unfoldable pub inner : Text → Text
unfolding drop_last
inner [] = []
inner (r ∷ s) = drop_last s

-- the loop of stripOuterParens, for as many rounds as the text has runes
unfoldable pub strip_loop : ℕ → Text → Text
unfolding is_wrapped inner
strip_loop zero value = value
strip_loop (suc rounds) value = elim (is_wrapped value) [
  | true ↦ strip_loop rounds (trim_space (inner value))
  | false ↦ value
]

unfoldable pub strip_outer_parens : Text → Text
unfolding strip_loop
strip_outer_parens value = let trimmed = trim_space value in strip_loop (length trimmed) trimmed

-- the closure `flush` of splitFilterFromTerms
unfoldable pub flush_term : List Text → List Text → List Text
flush_term current result =
    let trimmed = trim_space (join current (text " ")) in
    if is_empty current || is_empty trimmed then result else result ++ trimmed ∷ []

module _ ⦃std : Std⦄ where
  -- the loop of splitFilterFromTerms
  unfoldable pub split_loop : List Text → List Text → List Text → List Text
  unfolding flush_term
  split_loop [] current result = flush_term current result
  split_loop (field ∷ rest) current result =
      let is_or = std.equal_fold field (text "OR") in
      split_loop rest (if is_or then [] else current ++ field ∷ [])
        (if is_or then flush_term current result else result)

  unfoldable pub split_filter_from_terms : Text → List Text
  unfolding split_loop
  split_filter_from_terms value = split_loop (fields (trim_space value)) [] []

  -- the loop of parseExactSenderTerms
  unfoldable pub parse_terms : List Text → List Text → Option (List Text)
  unfolding strip_outer_parens
  parse_terms [] terms = some terms
  parse_terms (term ∷ rest) terms = elim (normalize_email (strip_outer_parens term)) [
    | err _ ↦ none
    | ok email ↦ parse_terms rest (if is_member email terms then terms else terms ++ email ∷ [])
  ]

  -- `none` where Go returns false
  unfoldable pub parse_exact_sender_terms : Text → Option (List Text)
  unfolding split_filter_from_terms parse_terms
  parse_exact_sender_terms value = elim (parse_terms (split_filter_from_terms value) []) [
    | none ↦ none
    | some terms ↦ if is_empty (sort_strings terms) then none else some (sort_strings terms)
  ]

  unfoldable pub exact_sender_signature : List Text → Text
  exact_sender_signature values = join (normalized_exact_senders values) (10 ∷ [])

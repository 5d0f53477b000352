-- ===== src/Gmail/Terms/RoundTrip.antt =====
-- internal/gmail/gmail.go: the `from` of a group of exact senders is read back as that group.
use gmail_visibility_manager.Base.{
  ℕ, zero, suc, ◌+◌, length, List, [], ◌∷◌, ◌++◌, append_assoc, append-nil, ◌≡◌, refl, Bool, true,
  false, ◌&&◌, not, is_empty, eqb, some, arith, All, All-imp, Bool-cases, Option-cases, ap, ◌∙◌,
  inl, inr,
}
use gmail_visibility_manager.Text.{
  Text, text, ==_iff, join, trim_space, has_prefix, is_space, cut_rune, text_lt,
}
use gmail_visibility_manager.Text.Order.{text_lt_irrefl}
use gmail_visibility_manager.Text.Fields.{
  fields, fields_loop, is_word, fields-trim_space, fields_loop-append,
}
use gmail_visibility_manager.Result.{ok}
use gmail_visibility_manager.Dict.Keyed.{has_key}
use gmail_visibility_manager.Sort.{IsStrict, sort_strings}
use gmail_visibility_manager.Sort.Laws.{sort_by_of_IsStrict}
use gmail_visibility_manager.Std.{Std, StdLaws}
use gmail_visibility_manager.Request.{normalize_email}
use gmail_visibility_manager.Request.Email.{
  IsAddress, normalize_email-IsAddress, normalize_email_idem,
}
use gmail_visibility_manager.Gmail.Senders.{
  is_member, separator, normalized_exact_senders, format_exact_sender_group,
}
use gmail_visibility_manager.Gmail.Senders.Normal.{
  is_member-append, normalized_exact_senders-All, normalized_exact_senders_lem,
}
use gmail_visibility_manager.Gmail.Terms.{
  flush_term, split_loop, split_filter_from_terms, parse_terms, parse_exact_sender_terms,
  strip_outer_parens, strip_loop, is_wrapped,
}

-- a sender that the text of a filter can hold: no white space, and no parenthesis in front
unfoldable pub is_term : Text → Bool
is_term e = is_word e && not (has_prefix e (b'(' ∷ []))

-- the words of a `from` with " OR " between its senders
abbrev words : List Text → List Text
words [] = []
words (e ∷ []) = e ∷ []
words (e ∷ f ∷ es) = e ∷ text "OR" ∷ words (f ∷ es)

fields_loop-separator :
    (s w : Text)
    → is_empty w ≡ false
    → fields_loop (separator ++ s) w ≡ w ∷ text "OR" ∷ fields_loop s []
unfolding fields_loop text is_space
fields_loop-separator s w h = rw h

fields_loop-word : (e : Text) → is_word e ≡ true → fields_loop e [] ≡ e ∷ []
unfolding fields_loop
fields_loop-word e h = ground (arith, fields_loop-append e [] [] (ground arith), append-nil e)

fields_loop-join :
    (es : List Text)
    → All (λ e. is_word e ≡ true) es
    → fields_loop (join es separator) [] ≡ words es
unfolding join
fields_loop-join [] _ = unfold fields_loop in refl
fields_loop-join (e ∷ []) (h, _) = fields_loop-word e h
fields_loop-join (e ∷ f ∷ es) (h, hs) =
    let rest = join (f ∷ es) separator in
    fields_loop-append e (separator ++ rest) [] (ground arith)
    ∙ fields_loop-separator rest e (ground arith)
    ∙ ap (λ ws. e ∷ text "OR" ∷ ws) (fields_loop-join (f ∷ es) hs)

length-cut_rune :
    (s : Text) (r : ℕ) (before after : Text)
    → cut_rune s r ≡ some (before, after)
    → length s ≡ length before + suc (length after)
unfolding cut_rune
length-cut_rune [] r before after h = cc
length-cut_rune (c ∷ s) r before after h = elim (Bool-cases (eqb c r)) [
  | inl here ↦ ground (arith, here)
  | inr later ↦ elim (Option-cases (cut_rune s r)) [
    | inl nowhere ↦ absurd (ground (arith, later, nowhere))
    | inr ((b, a), found) ↦ ground (arith, later, found, length-cut_rune s r b a)
  ]
]

strip_loop_bare : (n : ℕ) (s : Text) → has_prefix s (b'(' ∷ []) ≡ false → strip_loop n s ≡ s
unfolding strip_loop is_wrapped
strip_loop_bare zero s h = refl
strip_loop_bare (suc n) s h = ground arith

strip_bare :
    (e : Text) → trim_space e ≡ e → has_prefix e (b'(' ∷ []) ≡ false → strip_outer_parens e ≡ e
unfolding strip_outer_parens
strip_bare e h k = rw h (strip_loop_bare (length e) e k)

fields-join :
    (es : List Text) → All (λ e. is_word e ≡ true) es → fields (join es separator) ≡ words es
unfolding fields
fields-join = fields_loop-join

-- what the reader of a filter needs to know of each sender
record IsRead ⦃std : Std⦄ (e : Text) : Type 0 where
  address : normalize_email e ≡ ok e
  trimmed : trim_space e ≡ e
  word : is_word e ≡ true
  bare : strip_outer_parens e ≡ e
  no_or : std.equal_fold e (text "OR") ≡ false

module _ ⦃std : Std⦄ where
  -- a sender that comes later in the order is none of those before
  still_new :
      (e : Text) (terms es : List Text)
      → All (λ f. text_lt e f ≡ true) es
      → All (λ f. is_member f terms ≡ false) es
      → All (λ f. is_member f (terms ++ e ∷ []) ≡ false) es
  still_new e terms [] _ _ = tt
  still_new e terms (f ∷ es) (b, bs) (n, ns) = (
    ground (arith, is_member-append f e terms, ==_iff e f, text_lt_irrefl e),
    still_new e terms es bs ns,
  )

  parse_terms-append :
      (es terms : List Text)
      → All IsRead es
      → All (λ e. is_member e terms ≡ false) es
      → IsStrict (λ t. t) es
      → parse_terms es terms ≡ some (terms ++ es)
  unfolding parse_terms
  parse_terms-append [] terms _ _ _ = rw append-nil
  parse_terms-append (e ∷ es) terms (r, rs) (n, ns) (b, s) =
      let rest = parse_terms-append es (terms ++ e ∷ []) rs (still_new e terms es b ns) s in
      rw (r.bare, parse_terms)
        (rw (r.address, parse_terms) (rw n (rest ∙ ap some (append_assoc terms (e ∷ []) es))))

module _ ⦃std : Std⦄ (laws : StdLaws std) where
  split_loop-words :
      (es result : List Text) → All IsRead es → split_loop (words es) [] result ≡ result ++ es
  unfolding split_loop flush_term join
  split_loop-words [] result _ = rw append-nil
  split_loop-words (e ∷ []) result (r, _) = ground (arith, r.trimmed, r.word, r.no_or)
  split_loop-words (e ∷ f ∷ es) result (r, rs) = ground (
    arith,
    r.trimmed,
    r.word,
    r.no_or,
    laws.equal_fold_refl (text "OR"),
    split_loop-words (f ∷ es) (result ++ e ∷ []) rs,
    append_assoc result (e ∷ []) (f ∷ es),
  )

  -- an address has three runes at least, so it is no OR
  not_or : (e : Text) → IsAddress e → std.equal_fold e (text "OR") ≡ false
  unfolding text
  not_or e a = elim (Bool-cases (std.equal_fold e (text "OR"))) [
    | inr other ↦ other
    | inl same ↦
        let (before, after, found, some_before, some_after, _) = a.parts in
        absurd (
          ground (
            arith,
            laws.equal_fold_length e (text "OR") same,
            length-cut_rune e b'@' before after found,
            some_before,
            some_after,
          ))
  ]

  normal-IsRead : (value e : Text) → normalize_email value ≡ ok e → is_term e ≡ true → IsRead e
  unfolding is_term
  normal-IsRead value e h t =
      let a = normalize_email-IsAddress laws value e h in
      record {
        address = normalize_email_idem laws value e h;
        trimmed = a.trimmed;
        word = ground arith;
        bare = strip_bare e a.trimmed (ground arith);
        no_or = not_or e a;
      }

  all-IsRead :
      (es : List Text)
      → All (λ e. (is_term e ≡ true) → IsRead e) es
      → All (λ e. is_term e ≡ true) es
      → All IsRead es
  all-IsRead [] _ _ = tt
  all-IsRead (e ∷ es) (f, fs) (t, ts) = (f t, all-IsRead es fs ts)

  split-format :
      (values : List Text)
      → All IsRead (normalized_exact_senders values)
      → split_filter_from_terms (format_exact_sender_group values) ≡ normalized_exact_senders values
  unfolding split_filter_from_terms format_exact_sender_group
  split-format values reads =
      let senders = normalized_exact_senders values in
      rw (fields-trim_space, fields-join senders (All-imp _ _ (λ e r. r.word) senders reads))
        (split_loop-words senders [] reads)

  sorted_again :
      (values : List Text)
      → sort_strings (normalized_exact_senders values) ≡ normalized_exact_senders values
  unfolding sort_strings
  sorted_again values = sort_by_of_IsStrict (λ t. t) _ (normalized_exact_senders_lem values).0

  -- What formatExactSenderGroup writes, parseExactSenderTerms reads back: the normal form of the
  -- senders, if there are any, none of them holds white space and none begins with a parenthesis.
  pub parse-format_exact_sender_group :
      (values : List Text)
      → is_empty (normalized_exact_senders values) ≡ false
      → All (λ e. is_term e ≡ true) (normalized_exact_senders values)
      → parse_exact_sender_terms (format_exact_sender_group values)
        ≡ some (normalized_exact_senders values)
  unfolding parse_exact_sender_terms
  parse-format_exact_sender_group values some_sender terms =
      let senders = normalized_exact_senders values in
      let reads : All IsRead senders =
        all-IsRead senders
          (normalized_exact_senders-All (λ e. (is_term e ≡ true) → IsRead e) normal-IsRead values)
          terms in
      let parsed : parse_terms senders [] ≡ some senders =
        parse_terms-append senders [] reads (no_members senders)
          (normalized_exact_senders_lem values).0 in
      rw (split-format values reads, parse_exact_sender_terms)
        (rw (parsed, parse_exact_sender_terms)
          (rw (sorted_again values, parse_exact_sender_terms) (rw some_sender)))
    where
      no_members : (es : List Text) → All (λ e. is_member e [] ≡ false) es
      no_members [] = tt
      no_members (e ∷ es) = ((unfold has_key in refl), no_members es)

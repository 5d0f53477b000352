-- ===== src/Request/Email.antt =====
-- internal/request/request.go: the addresses that NormalizeEmail accepts.
use gmail_visibility_manager.Base.{
  ℕ, [], ◌∷◌, ◌≡◌, refl, sym, true, false, eqb, is_empty, some, arith, Option-cases, inl, inr,
}
use gmail_visibility_manager.Text.{
  Text, text, ==_iff, ==_refl, trim_space, contains_any, contains, has_prefix, count_rune, cut_rune,
}
use gmail_visibility_manager.Text.Trim.{trim_space_idem}
use gmail_visibility_manager.Result.{ok, Result-cases}
use gmail_visibility_manager.Std.{Std, StdLaws, to_lower}
use gmail_visibility_manager.Std.Lower.{
  to_lower_idem, trim_space-to_lower, count_rune-to_lower, contains_any-to_lower, all_plain,
}
use gmail_visibility_manager.Request.{normalize_email, normalize_trimmed, check_parts}

-- one bare mailbox in normal form
pub record IsAddress ⦃std : Std⦄ (e : Text) : Type 0 where
  pub trimmed : trim_space e ≡ e
  pub lowered : to_lower e ≡ e
  pub bare : contains_any e (text " ,<>") ≡ false
  pub individual : contains e (text "*") ≡ false
  pub one_at : count_rune e b'@' ≡ 1
  pub parts :
      (local domain : Text) × (cut_rune e b'@' ≡ some (local, domain))
      × (is_empty local ≡ false)
      × (is_empty domain ≡ false)
      × (contains_any domain (32 ∷ 9 ∷ 13 ∷ 10 ∷ []) ≡ false)

contains_rune : (s : Text) (c : ℕ) → contains s (c ∷ []) ≡ contains_any s (c ∷ [])
unfolding contains has_prefix contains_any
contains_rune [] c = refl
contains_rune (r ∷ s) c = ground (arith, contains_rune s c)

module _ ⦃std : Std⦄ where
  -- the tests that a trimmed value passed
  record Accepted (v e : Text) : Type 0 where
    address : Text
    parsed : std.parse_address v ≡ ok address
    some_text : is_empty v ≡ false
    no_list : contains_any v (text " ,<>") ≡ false
    no_star : contains v (text "*") ≡ false
    one_at : eqb (count_rune v b'@') 1 ≡ true
    result : e ≡ to_lower (trim_space address)
    same : e ≡ to_lower v
    checked : check_parts v e ≡ ok e

  check_parts_self : (v n e : Text) → check_parts v n ≡ ok e → e ≡ n
  unfolding check_parts
  check_parts_self v n e h = ground arith

  normalize_trimmed-Accepted : (v e : Text) → normalize_trimmed v ≡ ok e → Accepted v e
  unfolding normalize_trimmed
  normalize_trimmed-Accepted v e h = elim (Result-cases (std.parse_address v)) [
    | inl (a, p) ↦
        let n = to_lower (trim_space a) in
        record {
          address = a;
          parsed = p;
          some_text = ground arith;
          no_list = ground arith;
          no_star = ground arith;
          one_at = ground arith;
          result = ground (arith, check_parts_self v n e);
          same = ground (arith, check_parts_self v n e, ==_iff n (to_lower v));
          checked = ground (arith, check_parts_self v n e);
        }
    | inr (_, p) ↦ absurd (ground arith)
  ]

  -- both sides of the `@`, as the last test reads them
  abbrev HasParts : Text → Type 0
  HasParts e =
      (local domain : Text) × (cut_rune e b'@' ≡ some (local, domain))
      × (is_empty local ≡ false)
      × (is_empty domain ≡ false)
      × (contains_any domain (32 ∷ 9 ∷ 13 ∷ 10 ∷ []) ≡ false)

  check_parts-HasParts : (v n e : Text) → check_parts v n ≡ ok e → HasParts n
  unfolding check_parts
  check_parts-HasParts v n e h = elim (Option-cases (cut_rune n b'@')) [
    | inl p ↦ absurd (ground arith)
    | inr ((l, d), p) ↦ (l, d, p, ground arith, ground arith, ground arith)
  ]

  HasParts-check_parts : (v n : Text) → HasParts n → check_parts v n ≡ ok n
  unfolding check_parts
  HasParts-check_parts v n (l, d, p, hl, hd, hw) = ground arith

module _ ⦃std : Std⦄ (laws : StdLaws std) where
  -- What NormalizeEmail returns is one bare address in lower case: nothing to trim, exactly one `@`,
  -- none of the characters of lists, display names and patterns, and text on both sides of the `@`.
  pub normalize_email-IsAddress : (value e : Text) → normalize_email value ≡ ok e → IsAddress e
  unfolding normalize_email text all_plain
  normalize_email-IsAddress value e h =
      let v = trim_space value in
      let a = normalize_trimmed-Accepted v e h in
      record {
        trimmed = rw (a.same, trim_space-to_lower laws, trim_space_idem);
        lowered = rw (a.same, to_lower_idem laws);
        bare = rw (a.same, contains_any-to_lower laws v _ refl) a.no_list;
        individual =
            rw (a.same, contains_rune, contains_any-to_lower laws v _ refl, ← contains_rune)
              a.no_star;
        one_at = rw (a.same, count_rune-to_lower laws v b'@' refl) (ground (arith, a.one_at));
        parts = check_parts-HasParts v e e a.checked;
      }

  is_empty-to_lower : (s : Text) → is_empty (to_lower s) ≡ is_empty s
  is_empty-to_lower [] = refl
  is_empty-to_lower (r ∷ s) = refl

  -- NormalizeEmail leaves its own results alone, so a stored address is looked up as it is stored.
  pub normalize_email_idem :
      (value e : Text) → normalize_email value ≡ ok e → normalize_email e ≡ ok e
  unfolding normalize_email normalize_trimmed
  normalize_email_idem value e h =
      let v = trim_space value in
      let a = normalize_trimmed-Accepted v e h in
      let s = normalize_email-IsAddress value e h in
      rw s.trimmed (
        ground (
          arith,
          s.bare,
          s.individual,
          s.one_at,
          a.some_text,
          is_empty-to_lower v,
          a.same,
          HasParts-check_parts e e s.parts,
          normal a.address a.parsed a.same a.result,
          s.lowered,
          ==_refl e,
        ))
    where
      normal :
          (x : Text)
          → std.parse_address (trim_space value) ≡ ok x
          → e ≡ to_lower (trim_space value)
          → e ≡ to_lower (trim_space x)
          → (std.parse_address e ≡ ok (to_lower x)) × (to_lower (trim_space (to_lower x)) ≡ e)
      normal x p q r = (
        rw q (laws.address_lower _ x p),
        rw (trim_space-to_lower laws, to_lower_idem laws) (sym r),
      )

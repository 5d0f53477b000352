-- ===== src/Gmail/Senders/Normal.antt =====
-- internal/gmail/gmail.go: the normal form of a list of senders.
use gmail_visibility_manager.Base.{
  List, [], ◌∷◌, ◌++◌, ◌≡◌, ◌≢◌, refl, Bool, false, ◌||◌, arith, All, All-append, if-both,
  Bool-cases, inl, inr,
}
use gmail_visibility_manager.Text.{Text, ◌==◌, ==_iff}
use gmail_visibility_manager.Result.{ok, err, Result-cases}
use gmail_visibility_manager.Dict.Keyed.{has_key, has_key-sort_by}
use gmail_visibility_manager.Sort.{IsStrict, sort_strings}
use gmail_visibility_manager.Sort.Laws.{HasDistinct, sort_by-IsStrict, sort_by-All}
use gmail_visibility_manager.Std.{Std}
use gmail_visibility_manager.Request.{normalize_email}
use gmail_visibility_manager.Gmail.Senders.{is_member, collect_senders, normalized_exact_senders}

pub is_member-append :
    (k t : Text) (ts : List Text) → is_member k (ts ++ t ∷ []) ≡ (is_member k ts || t == k)
unfolding has_key
is_member-append k t [] = ground arith
is_member-append k t (u ∷ ts) = ground (arith, is_member-append k t ts)

distinct-append :
    (t : Text) (ts : List Text)
    → is_member t ts ≡ false
    → HasDistinct (λ x. x) ts
    → HasDistinct (λ x. x) (ts ++ t ∷ [])
unfolding has_key
distinct-append t [] _ _ = (tt, tt)
distinct-append t (u ∷ us) h (n, d) = (
  All-append (λ y. u ≢ y) us (t ∷ []) n ((λ e. ground (arith, h, ==_iff u t, e)), tt),
  distinct-append t us (ground (arith, h)) d,
)

module _ ⦃std : Std⦄ where
  -- whether a value reads as an address
  abbrev pub reads_as : Text → Text → Bool
  reads_as email value = elim (normalize_email value) [ err _ ↦ false | ok e ↦ e == email ]

  unfoldable pub some_reads_as : Text → List Text → Bool
  some_reads_as email [] = false
  some_reads_as email (value ∷ values) = reads_as email value || some_reads_as email values

  is_member-collect_senders :
      (k : Text) (values result : List Text)
      → is_member k (collect_senders values result) ≡ (some_reads_as k values || is_member k result)
  unfolding collect_senders some_reads_as
  is_member-collect_senders k [] result = refl
  is_member-collect_senders k (value ∷ values) result =
      elim (Result-cases (normalize_email value)) [
        | inr (e, p) ↦ ground (arith, p, is_member-collect_senders k values result)
        | inl (email, p) ↦ ground (
          arith,
          p,
          is_member-collect_senders k values result,
          is_member-collect_senders k values (result ++ email ∷ []),
          is_member-append k email result,
          ==_iff email k,
        )
      ]

  collect_senders-All :
      (P : Text → Type 0)
      → ((value e : Text) → normalize_email value ≡ ok e → P e)
      → (values result : List Text) → All P result
      → All P (collect_senders values result)
  unfolding collect_senders
  collect_senders-All P f [] result a = a
  collect_senders-All P f (value ∷ values) result a = elim (Result-cases (normalize_email value)) [
    | inr (e, p) ↦ rw (p, collect_senders) (collect_senders-All P f values result a)
    | inl (email, p) ↦
        rw (p, collect_senders)
          (collect_senders-All P f values _ (
            if-both (All P) (is_member email result) a
              (All-append P result (email ∷ []) a (f value email p, tt))))
  ]

  collect_senders-HasDistinct :
      (values result : List Text)
      → HasDistinct (λ x. x) result
      → HasDistinct (λ x. x) (collect_senders values result)
  unfolding collect_senders
  collect_senders-HasDistinct [] result d = d
  collect_senders-HasDistinct (value ∷ values) result d =
      elim (Result-cases (normalize_email value)) [
        | inr (e, p) ↦ rw (p, collect_senders) (collect_senders-HasDistinct values result d)
        | inl (email, p) ↦ elim (Bool-cases (is_member email result)) [
          | inl old ↦ rw (p, old, collect_senders) (collect_senders-HasDistinct values result d)
          | inr new ↦
              rw (p, new, collect_senders)
                (collect_senders-HasDistinct values (result ++ email ∷ [])
                  (distinct-append email result new d))
        ]
      ]

  pub normalized_exact_senders-All :
      (P : Text → Type 0)
      → ((value e : Text) → normalize_email value ≡ ok e → P e)
      → (values : List Text) → All P (normalized_exact_senders values)
  unfolding normalized_exact_senders sort_strings
  normalized_exact_senders-All P f values =
      sort_by-All (λ t. t) P (collect_senders values []) (collect_senders-All P f values [] tt)

  -- The normal form of a list of senders ascends strictly, so no address is there twice, and it holds
  -- exactly the addresses that some value of the list reads as; a value that is no address adds nothing.
  pub normalized_exact_senders_lem :
      (values : List Text)
      → IsStrict (λ t. t) (normalized_exact_senders values)
        × ((email : Text)
            → is_member email (normalized_exact_senders values) ≡ some_reads_as email values)
  unfolding normalized_exact_senders sort_strings
  normalized_exact_senders_lem values =
      let senders = collect_senders values [] in
      (
        sort_by-IsStrict (λ t. t) senders (collect_senders-HasDistinct values [] tt),
        λ email. ground (
          arith,
          has_key-sort_by (λ t. t) email senders,
          is_member-collect_senders email values [],
          no_member email,
        ),
      )
    where
      no_member : (k : Text) → is_member k [] ≡ false
      no_member k = unfold has_key in refl

-- ===== src/Gmail/Terms/Balance.antt =====
-- internal/gmail/gmail.go: the test of outerParensWrap, and what balanced parentheses are.
use mathlib.Core.Path.{subst}
use gmail_visibility_manager.Base.{
  ◌+◌, ◌++◌, ◌↔◌, sym, ap, eqb, is_empty, ℕ, zero, suc, ◌≤◌, [], ◌∷◌, ◌≡◌, refl, true, false, arith,
  Bool-cases, inl, inr,
}
use gmail_visibility_manager.Text.{Text, len, rune_len, count_rune, has_prefix}
use gmail_visibility_manager.Gmail.Terms.{wrap_loop, outer_parens_wrap, is_wrapped, ends_with}

-- a text in one pair of parentheses
abbrev pub wrapped : Text → Text
wrapped m = b'(' ∷ (m ++ b')' ∷ [])

-- no beginning of the text closes more than it opens, up to `k` pairs that are open before it
NeverBelow : ℕ → Text → Type 0
NeverBelow k m = (p s : Text) → p ++ s ≡ m → count_rune p b')' ≤ k + count_rune p b'('

-- balanced parentheses: as many close as open, and none closes before it was opened
pub record IsBalanced (m : Text) : Type 0 where
  pub equal : count_rune m b'(' ≡ count_rune m b')'
  pub ordered : (p s : Text) → p ++ s ≡ m → count_rune p b')' ≤ count_rune p b'('

Balances : ℕ → Text → Type 0
Balances k m = NeverBelow k m × (k + count_rune m b'(' ≡ count_rune m b')')

-- one rune in front
NeverBelow-cons :
    (k j : ℕ) (r : ℕ) (m : Text)
    → ((p : Text)
        → count_rune p b')' ≤ j + count_rune p b'('
        → count_rune (r ∷ p) b')' ≤ k + count_rune (r ∷ p) b'(')
    → NeverBelow j m
    → NeverBelow k (r ∷ m)
unfolding NeverBelow count_rune
NeverBelow-cons k j r m step h [] s e = omega arith
NeverBelow-cons k j r m step h (q ∷ p) s e =
    subst (λ (x : ℕ). count_rune (x ∷ p) b')' ≤ k + count_rune (x ∷ p) b'(') (sym (heads e))
      (step p (h p s (tails e)))
  where
    heads : q ∷ (p ++ s) ≡ r ∷ m → q ≡ r
    heads e = cc

    tails : q ∷ (p ++ s) ≡ r ∷ m → p ++ s ≡ m
    tails e = cc

NeverBelow-tail :
    (k j : ℕ) (r : ℕ) (m : Text)
    → ((p : Text)
        → count_rune (r ∷ p) b')' ≤ k + count_rune (r ∷ p) b'('
        → count_rune p b')' ≤ j + count_rune p b'(')
    → NeverBelow k (r ∷ m)
    → NeverBelow j m
unfolding NeverBelow
NeverBelow-tail k j r m step h p s e = step p (h (r ∷ p) s (ap (λ t. r ∷ t) e))

Balances-cons :
    (k j r : ℕ) (m : Text)
    → ((p : Text)
        → k + count_rune (r ∷ p) b'(' + count_rune p b')'
          ≡ j + count_rune p b'(' + count_rune (r ∷ p) b')')
    → Balances j m ↔ Balances k (r ∷ m)
unfolding Balances
Balances-cons k j r m same = (
  λ h. (NeverBelow-cons k j r m (λ p q. omega (arith, q, same p)) h.0, omega (arith, h.1, same m)),
  λ h. (NeverBelow-tail k j r m (λ p q. omega (arith, q, same p)) h.0, omega (arith, h.1, same m)),
)

some_end : (m : Text) → is_empty (m ++ b')' ∷ []) ≡ false
some_end [] = refl
some_end (r ∷ m) = refl

closes_first : (m : Text) → Balances 0 (b')' ∷ m) → ⊥
unfolding Balances NeverBelow count_rune
closes_first m (h, _) = omega (arith, h (b')' ∷ []) m refl)

nil-Balances : (k : ℕ) → (k ≡ 0) ↔ Balances k []
unfolding Balances NeverBelow count_rune
nil-Balances k = (λ h. (nothing, omega (arith, h)), λ h. omega (arith, h.1))
  where
    nothing : (p s : Text) → p ++ s ≡ [] → count_rune p b')' ≤ k + count_rune p b'('
    nothing [] s e = omega arith
    nothing (q ∷ p) s e = cc

wrap_loop_iff : (m : Text) (k : ℕ) → (wrap_loop (m ++ b')' ∷ []) (suc k) ≡ true) ↔ Balances k m
unfolding wrap_loop
wrap_loop_iff [] k =
    let i = nil-Balances k in (λ h. i.0 (ground (arith, h)), λ h. ground (arith, i.1 h))
wrap_loop_iff (r ∷ m) k = elim (Bool-cases (eqb r b'(')) [
  | inl opens ↦
      let i = wrap_loop_iff m (suc k) in
      let b = Balances-cons k (suc k) r m (λ p. unfold count_rune in ground (arith, opens)) in
      (λ h. b.0 (i.0 (ground (arith, h, opens))), λ h. ground (arith, opens, i.1 (b.1 h)))
  | inr n_opens ↦ elim (Bool-cases (eqb r b')')) [
    | inr n_closes ↦
        let i = wrap_loop_iff m k in
        let b =
          Balances-cons k k r m (λ p. unfold count_rune in ground (arith, n_opens, n_closes)) in
        (
          λ h. b.0 (i.0 (ground (arith, h, n_opens, n_closes))),
          λ h. ground (arith, n_opens, n_closes, i.1 (b.1 h)),
        )
    | inl closes ↦ closing r m k closes (wrap_loop_iff m)
  ]
]
  where
    closing :
        (r : ℕ) (m : Text) (k : ℕ)
        → eqb r b')' ≡ true
        → ((j : ℕ) → (wrap_loop (m ++ b')' ∷ []) (suc j) ≡ true) ↔ Balances j m)
        → (wrap_loop (r ∷ (m ++ b')' ∷ [])) (suc k) ≡ true) ↔ Balances k (r ∷ m)
    closing r m zero closes f = (
      λ h. absurd (ground (arith, h, closes, some_end m)),
      λ h. absurd (closes_first m (subst (λ x. Balances 0 (x ∷ m)) (ground (arith, closes)) h)),
    )
    closing r m (suc j) closes f =
        let b = Balances-cons (suc j) j r m (λ p. unfold count_rune in ground (arith, closes)) in
        (
          λ h. b.0 ((f j).0 (ground (arith, h, closes))),
          λ h. ground (arith, closes, (f j).1 (b.1 h)),
        )

Balances-IsBalanced : (m : Text) → Balances 0 m ↔ IsBalanced m
unfolding Balances NeverBelow
Balances-IsBalanced m = (
  λ h. record { equal = omega (arith, h.1); ordered = λ p s e. omega (arith, h.0 p s e) },
  λ b. (λ p s e. omega (arith, b.ordered p s e), omega (arith, b.equal)),
)

ends_with-closed : (c : ℕ) (m : Text) → ends_with (c ∷ (m ++ b')' ∷ [])) b')' ≡ true
unfolding ends_with
ends_with-closed c [] = refl
ends_with-closed c (r ∷ m) = ends_with-closed r m

len-closed : (m : Text) → 1 ≤ len (m ++ b')' ∷ [])
unfolding len rune_len
len-closed [] = omega arith
len-closed (r ∷ m) = omega (arith, len-closed m)

-- the test of the loop holds exactly for a pair round a balanced text
pub is_wrapped-wrapped : (m : Text) → (is_wrapped (wrapped m) ≡ true) ↔ IsBalanced m
unfolding is_wrapped outer_parens_wrap wrap_loop has_prefix len rune_len
is_wrapped-wrapped m =
    let i = wrap_loop_iff m 0 in
    let b = Balances-IsBalanced m in
    (
      λ h. b.0 (i.0 (ground (arith, h))),
      λ h. ground (arith, ends_with-closed b'(' m, len-closed m, i.1 (b.1 h)),
    )

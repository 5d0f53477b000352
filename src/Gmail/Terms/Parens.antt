-- ===== src/Gmail/Terms/Parens.antt =====
-- internal/gmail/gmail.go: stripOuterParens, as a relation of a text and what is left of it.
use mathlib.Core.Path.{subst}
use gmail_visibility_manager.Base.{
  ◌++◌, ◌∙◌, sym, ap, ℕ, zero, suc, ◌≤◌, ◌<◌, length, [], ◌∷◌, ◌≡◌, refl, true, false, arith,
  Bool-cases, inl, inr,
}
use gmail_visibility_manager.Text.{
  Text, len, rune_len, has_prefix, trim_left, trim_right, trim_space,
}
use gmail_visibility_manager.Text.Trim.{trim_space_lem}
use gmail_visibility_manager.Gmail.Terms.{
  drop_last, inner, is_wrapped, strip_loop, strip_outer_parens, ends_with,
}
use gmail_visibility_manager.Gmail.Terms.Balance.{wrapped, IsBalanced, is_wrapped-wrapped}

length-trim_left : (s : Text) → length (trim_left s) ≤ length s
unfolding trim_left
length-trim_left [] = omega arith
length-trim_left (r ∷ s) = ground (arith, length-trim_left s)

length-trim_right : (s : Text) → length (trim_right s) ≤ length s
unfolding trim_right
length-trim_right [] = omega arith
length-trim_right (r ∷ s) = ground (arith, length-trim_right s)

length-trim_space : (s : Text) → length (trim_space s) ≤ length s
length-trim_space s =
    rw trim_space_lem (omega (arith, length-trim_right (trim_left s), length-trim_left s))

length-drop_last : (s : Text) → length (drop_last s) ≤ length s
unfolding drop_last
length-drop_last [] = omega arith
length-drop_last (c ∷ []) = omega arith
length-drop_last (c ∷ d ∷ s) = omega (arith, length-drop_last (d ∷ s))

-- each round makes the text shorter
length-inner : (s : Text) → is_wrapped s ≡ true → length (trim_space (inner s)) < length s
unfolding inner is_wrapped ends_with
length-inner [] h = absurd (ground arith)
length-inner (r ∷ s) h = omega (arith, length-trim_space (drop_last s), length-drop_last s)

-- a text without its outer pairs: each pair that is taken off encloses a balanced text, and what
-- remains is no such pair any more
pub data Strips : Text → Text → Type 0 where
  bare : {v : Text} → ((m : Text) → v ≡ wrapped m → IsBalanced m → ⊥) → Strips v v
  peeled : {m t : Text} → IsBalanced m → Strips (trim_space m) t → Strips (wrapped m) t

drop_last-closed : (s : Text) → ends_with s b')' ≡ true → s ≡ drop_last s ++ b')' ∷ []
unfolding drop_last ends_with
drop_last-closed [] h = cc
drop_last-closed (c ∷ []) h = ap (λ x. x ∷ []) (ground (arith, h))
drop_last-closed (c ∷ d ∷ s) h = ap (λ t. c ∷ t) (drop_last-closed (d ∷ s) h)

wrapped-inner : (s : Text) → is_wrapped s ≡ true → s ≡ wrapped (inner s)
unfolding is_wrapped inner has_prefix ends_with len rune_len
wrapped-inner [] h = absurd (ground (arith, h))
wrapped-inner (c ∷ []) h = absurd (ground (arith, h))
wrapped-inner (c ∷ d ∷ s) h =
    front c (ground (arith, h)) (d ∷ s) (drop_last-closed (d ∷ s) (ground (arith, h)))
  where
    front :
        (c : ℕ)
        → c ≡ b'('
        → (t : Text) → t ≡ drop_last t ++ b')' ∷ []
        → c ∷ t ≡ wrapped (drop_last t)
    front c e t h = cc

bare_end : (s : Text) → is_wrapped s ≡ false → Strips s s
bare_end s h = bare (λ m e b. refuse (wrapped m) (ap is_wrapped e) ((is_wrapped-wrapped m).1 b))
  where
    refuse : (t : Text) → is_wrapped s ≡ is_wrapped t → is_wrapped t ≡ true → ⊥
    refuse t e k = cc (h, e, k)

strip_loop-Strips : (n : ℕ) (s : Text) → length s ≤ n → Strips s (strip_loop n s)
unfolding strip_loop
strip_loop-Strips zero [] h = bare_end [] (unfold is_wrapped len in refl)
strip_loop-Strips zero (r ∷ s) h = elim h [ ]
strip_loop-Strips (suc n) s h = elim (Bool-cases (is_wrapped s)) [
  | inr done ↦ rw (done, strip_loop) (bare_end s done)
  | inl more ↦
      let e = wrapped-inner s more in
      rw (more, strip_loop)
        (subst (λ x. Strips x (strip_loop n (trim_space (inner s)))) (sym e)
          (peeled ((is_wrapped-wrapped (inner s)).0 (ap is_wrapped (sym e) ∙ more))
            (strip_loop-Strips n (trim_space (inner s)) (omega (arith, length-inner s more)))))
]

-- stripOuterParens ends, with the text that is left of the trimmed value when all outer pairs of
-- parentheses are taken off: each pair that it takes off encloses a balanced text, white space round
-- that text goes too, and the result is not such a pair any more.
pub strip_outer_parens-Strips :
    (value : Text) → Strips (trim_space value) (strip_outer_parens value)
unfolding strip_outer_parens
strip_outer_parens-Strips value =
    strip_loop-Strips (length (trim_space value)) (trim_space value) (omega arith)

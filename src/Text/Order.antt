-- ===== src/Text/Order.antt =====
-- The order of texts.
use gmail_visibility_manager.Base.{[], ◌∷◌, ◌≡◌, refl, true, false, arith, Bool-cases, inl, inr}
use gmail_visibility_manager.Text.{Text, text_lt}

abbrev pub Lt : Text → Text → Type 0
Lt s t = text_lt s t ≡ true

pub text_lt_irrefl : (s : Text) → text_lt s s ≡ false
unfolding text_lt
text_lt_irrefl [] = refl
text_lt_irrefl (a ∷ s) = ground (arith, text_lt_irrefl s)

pub text_lt_trans : (s t u : Text) → Lt s t → Lt t u → Lt s u
unfolding text_lt
text_lt_trans [] [] u h k = ground arith
text_lt_trans [] (b ∷ t) [] h k = ground arith
text_lt_trans [] (b ∷ t) (c ∷ u) h k = refl
text_lt_trans (a ∷ s) [] u h k = ground arith
text_lt_trans (a ∷ s) (b ∷ t) [] h k = ground arith
text_lt_trans (a ∷ s) (b ∷ t) (c ∷ u) h k = ground (arith, text_lt_trans s t u)

-- Texts that are not ordered either way are equal.
pub text_lt_total : (s t : Text) → text_lt s t ≡ false → text_lt t s ≡ false → s ≡ t
unfolding text_lt
text_lt_total [] [] h k = refl
text_lt_total [] (b ∷ t) h k = ground arith
text_lt_total (a ∷ s) [] h k = ground arith
text_lt_total (a ∷ s) (b ∷ t) h k = ground (arith, text_lt_total s t)

pub text_lt_asymm : (s t : Text) → Lt s t → text_lt t s ≡ false
unfolding text_lt
text_lt_asymm [] [] h = ground arith
text_lt_asymm [] (b ∷ t) h = refl
text_lt_asymm (a ∷ s) [] h = ground arith
text_lt_asymm (a ∷ s) (b ∷ t) h = ground (arith, text_lt_asymm s t)

-- What is not below is at or above, and that is transitive too.
pub text_lt_not_trans :
    (s t u : Text) → text_lt t s ≡ false → text_lt u t ≡ false → text_lt u s ≡ false
text_lt_not_trans s t u h k = elim (Bool-cases (text_lt u s)) [
  | inr above ↦ above
  | inl below ↦ elim (Bool-cases (text_lt s t)) [
    | inl st ↦ cc (text_lt_trans u s t below st)
    | inr ts ↦ rw (text_lt_total s t ts h) k
  ]
]

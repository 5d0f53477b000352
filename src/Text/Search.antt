-- ===== src/Text/Search.antt =====
-- `strings.Contains` on what was appended.
use gmail_visibility_manager.Base.{[], ◌∷◌, ◌++◌, ◌≡◌, refl, true, arith}
use gmail_visibility_manager.Text.{Text, has_prefix, contains}

has_prefix-append : (s t : Text) → has_prefix (s ++ t) s ≡ true
unfolding has_prefix
has_prefix-append [] t = refl
has_prefix-append (c ∷ s) t = ground (arith, has_prefix-append s t)

contains_prefix : (s sub : Text) → has_prefix s sub ≡ true → contains s sub ≡ true
unfolding contains
contains_prefix [] [] h = refl
contains_prefix [] (p ∷ ps) h = h
contains_prefix (c ∷ s) sub h = ground arith

pub contains-append_left : (s t sub : Text) → contains t sub ≡ true → contains (s ++ t) sub ≡ true
unfolding contains
contains-append_left [] t sub h = h
contains-append_left (c ∷ s) t sub h = ground (arith, contains-append_left s t sub)

pub contains_self : (s t : Text) → contains (s ++ t) s ≡ true
contains_self s t = contains_prefix (s ++ t) s (has_prefix-append s t)

has_prefix-append_right : (s t p : Text) → has_prefix s p ≡ true → has_prefix (s ++ t) p ≡ true
unfolding has_prefix
has_prefix-append_right [] t [] h = has_prefix_nil t
  where
    has_prefix_nil : (u : Text) → has_prefix u [] ≡ true
    has_prefix_nil [] = refl
    has_prefix_nil (c ∷ u) = refl
has_prefix-append_right [] t (q ∷ p) h = cc
has_prefix-append_right (c ∷ s) t [] h = refl
has_prefix-append_right (c ∷ s) t (q ∷ p) h = ground (arith, has_prefix-append_right s t p)

contains_nil : (s : Text) → contains s [] ≡ true
unfolding contains has_prefix
contains_nil [] = refl
contains_nil (c ∷ s) = refl

pub contains-append_right : (s t sub : Text) → contains s sub ≡ true → contains (s ++ t) sub ≡ true
unfolding contains
contains-append_right [] t [] h = contains_nil t
contains-append_right [] t (p ∷ ps) h = cc
contains-append_right (c ∷ s) t sub h =
    ground (arith, contains-append_right s t sub, has_prefix-append_right (c ∷ s) t sub)

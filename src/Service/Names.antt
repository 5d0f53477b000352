-- ===== src/Service/Names.antt =====
-- internal/service/spec.go: the names that are made of an instance.
use gmail_visibility_manager.Base.{
  [], ◌∷◌, ◌≡◌, refl, Bool, true, false, ◌&&◌, not, eqb, is_empty, All, arith, Bool-cases, inl, inr,
  if◌then◌else◌, if-both,
}
use gmail_visibility_manager.Text.{Text, text, trim_space}
use gmail_visibility_manager.Std.{Std, to_lower}
use gmail_visibility_manager.Service.{
  is_kept, sanitize_loop, trim_left_dashes, trim_right_dashes, or_instance, sanitize_instance,
}

unfoldable pub begins_with_dash : Text → Bool
begins_with_dash [] = false
begins_with_dash (r ∷ s) = eqb r b'-'

unfoldable pub ends_with_dash : Text → Bool
ends_with_dash [] = false
ends_with_dash (r ∷ s) = let rest = ends_with_dash s in if is_empty s then eqb r b'-' else rest

-- a part of a file name: letters, digits, dots, underscores, and dashes within
pub record IsName (name : Text) : Type 0 where
  pub some_text : is_empty name ≡ false
  pub plain : All (λ r. is_kept r ≡ true) name
  pub first : begins_with_dash name ≡ false
  pub last : ends_with_dash name ≡ false

abbrev IsPlain : Text → Type 0
IsPlain = All (λ r. is_kept r ≡ true)

sanitize_loop-IsPlain : (s : Text) (last_dash : Bool) → IsPlain (sanitize_loop s last_dash)
unfolding sanitize_loop
sanitize_loop-IsPlain [] last_dash = tt
sanitize_loop-IsPlain (r ∷ s) last_dash =
    let rest = sanitize_loop-IsPlain s (not (is_kept r)) in
    elim (Bool-cases (is_kept r)) [
      | inl kept ↦ rw kept (kept, rw kept at rest)
      | inr other ↦
          rw other (
            if-both IsPlain last_dash (rw other at rest) (unfold is_kept in refl, rw other at rest))
    ]

trim_left_dashes-IsPlain : (s : Text) → IsPlain s → IsPlain (trim_left_dashes s)
unfolding trim_left_dashes
trim_left_dashes-IsPlain [] _ = tt
trim_left_dashes-IsPlain (r ∷ s) (p, ps) =
    if-both IsPlain (eqb r b'-') (trim_left_dashes-IsPlain s ps) (p, ps)

trim_right_dashes-IsPlain : (s : Text) → IsPlain s → IsPlain (trim_right_dashes s)
unfolding trim_right_dashes
trim_right_dashes-IsPlain [] _ = tt
trim_right_dashes-IsPlain (r ∷ s) (p, ps) =
    if-both IsPlain (eqb r b'-' && is_empty (trim_right_dashes s)) tt
      (p, trim_right_dashes-IsPlain s ps)

begins-trim_left_dashes : (s : Text) → begins_with_dash (trim_left_dashes s) ≡ false
unfolding trim_left_dashes begins_with_dash
begins-trim_left_dashes [] = refl
begins-trim_left_dashes (r ∷ s) = ground (arith, begins-trim_left_dashes s)

begins-trim_right_dashes :
    (s : Text) → begins_with_dash s ≡ false → begins_with_dash (trim_right_dashes s) ≡ false
unfolding trim_right_dashes begins_with_dash
begins-trim_right_dashes [] h = refl
begins-trim_right_dashes (r ∷ s) h = rw h h

ends-trim_right_dashes : (s : Text) → ends_with_dash (trim_right_dashes s) ≡ false
unfolding trim_right_dashes ends_with_dash
ends-trim_right_dashes [] = refl
ends-trim_right_dashes (r ∷ s) = ground (arith, ends-trim_right_dashes s)

instance-IsName : IsName (text "instance")
unfolding text is_kept begins_with_dash ends_with_dash
instance-IsName = record {
  some_text = refl;
  plain = (refl, (refl, (refl, (refl, (refl, (refl, (refl, (refl, tt))))))));
  first = refl;
  last = refl;
}

or_instance-IsName :
    (s : Text)
    → IsPlain s
    → begins_with_dash s ≡ false
    → ends_with_dash s ≡ false
    → IsName (or_instance s)
or_instance-IsName [] p f l = instance-IsName
or_instance-IsName (r ∷ s) p f l = record { some_text = refl; plain = p; first = f; last = l }

module _ ⦃std : Std⦄ where
  -- Whatever the instance is called, sanitizeInstance makes a safe part of a file name of it: it is not
  -- empty, has only lower case letters, digits, dots, underscores and dashes, and neither begins nor
  -- ends with a dash.
  pub sanitize_instance-IsName : (value : Text) → IsName (sanitize_instance value)
  unfolding sanitize_instance
  sanitize_instance-IsName value =
      let lowered = trim_space (to_lower value) in
      let kept = trim_left_dashes (sanitize_loop lowered false) in
      if-both IsName (is_empty lowered) instance-IsName (
        or_instance-IsName (trim_right_dashes kept)
          (trim_right_dashes-IsPlain kept (
            trim_left_dashes-IsPlain (sanitize_loop lowered false)
              (sanitize_loop-IsPlain lowered false)))
          (begins-trim_right_dashes kept (begins-trim_left_dashes (sanitize_loop lowered false)))
          (ends-trim_right_dashes kept))

-- ===== src/Result.antt =====
-- Go's pair of a value and an `error`: the error is its text, as `err.Error()` gives it.
use gmail_visibility_manager.Base.{◌≡◌, ◌⊎◌, inl, inr, refl, Bool, true, false}
use gmail_visibility_manager.Text.{Text}

pub data Result {ℓ} (A : Type ℓ) : Type ℓ where
  ok : (value : A) → Result A
  err : (message : Text) → Result A

-- a computation that may stop, and what follows it
module _ {ℓ κ} {A : Type ℓ} {B : Type κ} where
  infixl 5 ◌>>=◌
  abbrev pub ◌>>=◌ : Result A → (A → Result B) → Result B
  err message >>= next = err message
  ok value >>= next = next value

  -- where the whole succeeds, both of its parts do
  pub >>=-eq-ok :
      (first : Result A) (next : A → Result B) {last : B}
      → (first >>= next) ≡ ok last
      → (value : A) × (first ≡ ok value) × (next value ≡ ok last)
  >>=-eq-ok (err message) next h = cc
  >>=-eq-ok (ok value) next h = (value, refl, h)

module _ {ℓ} {A : Type ℓ} where
  infixl 5 ◌>>◌
  abbrev pub ◌>>◌ : Result (Unit {0}) → Result A → Result A
  check >> rest = check >>= λ _. rest

  pub Result-cases :
      (r : Result A) → ((value : A) × (r ≡ ok value)) ⊎ ((message : Text) × (r ≡ err message))
  Result-cases (err message) = inr (message, refl)
  Result-cases (ok value) = inl (value, refl)

-- `if refused { return fmt.Errorf(message) }`
abbrev pub reject_if : Bool → Text → Result (Unit {0})
reject_if false message = ok tt
reject_if true message = err message

-- ===== src/Exec.antt =====
-- Go methods that change a state and may return an error. What was written before an error stays
-- written, so the state comes back beside the error too.
use gmail_visibility_manager.Base.{◌++◌}
use gmail_visibility_manager.Text.{Text}
use gmail_visibility_manager.Result.{Result, ok, err}

abbrev pub Exec {ℓ} : (State Value : Type ℓ) → Type ℓ
Exec State Value = State → Result Value × State

-- fmt.Errorf with a prefix and %w
abbrev pub wrap_result {ℓ} : {Value : Type ℓ} → Text → Result Value → Result Value
wrap_result prefix (err message) = err (prefix ++ message)
wrap_result prefix (ok value) = ok value

module _ {ℓ} {State Value : Type ℓ} where
  abbrev pub lift : Result Value → Exec State Value
  lift outcome state = (outcome, state)

  abbrev pub pure : Value → Exec State Value
  pure value = lift (ok value)

  abbrev pub wrap : Text → Exec State Value → Exec State Value
  wrap prefix step state = let (outcome, after) = step state in (wrap_result prefix outcome, after)

module _ {ℓ} {S A B : Type ℓ} where
  abbrev pub continue : Result A → (A → Exec S B) → Exec S B
  continue (err message) next state = (err message, state)
  continue (ok value) next state = next value state

  infixl 5 ◌>>=◌
  abbrev pub ◌>>=◌ : Exec S A → (A → Exec S B) → Exec S B
  step >>= next = λ state. let (outcome, after) = step state in continue outcome next after

  infixl 5 ◌>>◌
  abbrev pub ◌>>◌ : Exec S A → Exec S B → Exec S B
  step >> rest = step >>= λ _. rest

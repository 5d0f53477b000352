-- ===== src/Dict.antt =====
-- Go's `map[string]V` as an association list with one entry for each key: a write to a key that is
-- there replaces its value.
pub mod Laws
pub mod Keyed
use gmail_visibility_manager.Base.{
  List, [], ◌∷◌, Option, none, some, if◌then◌else◌, Bool, true, false,
}
use gmail_visibility_manager.Text.{Text, ◌==◌}

abbrev pub Dict {ℓ} : Type ℓ → Type ℓ
Dict V = List (Text × V)

module _ {ℓ} {V : Type ℓ} where
  unfoldable pub lookup : Dict V → Text → Option V
  lookup [] k = none
  lookup ((j, v) ∷ d) k = if j == k then some v else lookup d k

  unfoldable pub insert : Dict V → Text → V → Dict V
  insert [] k v = (k, v) ∷ []
  insert ((j, w) ∷ d) k v = if j == k then (k, v) ∷ d else (j, w) ∷ insert d k v

  unfoldable pub values : Dict V → List V
  values [] = []
  values ((j, v) ∷ d) = v ∷ values d

abbrev pub is_some {ℓ} : {A : Type ℓ} → Option A → Bool
is_some none = false
is_some (some a) = true

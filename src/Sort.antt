-- ===== src/Sort.antt =====
-- `sort.Slice` by a text key and `sort.Strings`. Go's sort is not stable and leaves the order of equal
-- keys open; the program sorts values whose keys are distinct, where there is one ascending order.
pub mod Laws
pub mod Unique
pub mod Less
use gmail_visibility_manager.Base.{ℕ, List, [], ◌∷◌, ◌≡◌, true, All, if◌then◌else◌}
use gmail_visibility_manager.Text.{Text, text_lt}

module _ {ℓ} {A : Type ℓ} (key : A → Text) where
  unfoldable pub insert_by : A → List A → List A
  insert_by x [] = x ∷ []
  insert_by x (y ∷ ys) = if text_lt (key y) (key x) then y ∷ insert_by x ys else x ∷ y ∷ ys

  unfoldable pub sort_by : List A → List A
  unfolding insert_by
  sort_by [] = []
  sort_by (x ∷ xs) = insert_by x (sort_by xs)

  -- ascending and without two equal keys
  abbrev pub IsStrict : List A → Type 0
  IsStrict [] = Unit
  IsStrict (x ∷ xs) = All (λ y. text_lt (key x) (key y) ≡ true) xs × IsStrict xs

unfoldable pub sort_strings : List Text → List Text
unfolding sort_by
sort_strings = sort_by (λ t. t)

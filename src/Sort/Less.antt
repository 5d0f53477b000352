-- ===== src/Sort/Less.antt =====
-- Sorting by a comparison, as `sort.Slice` and ORDER BY use one. Values that compare equal keep their
-- order.
use mathlib.Core.List.{Perm}
use mathlib.Core.List.Perm
use gmail_visibility_manager.Base.{
  List, [], ◌∷◌, ◌≡◌, Bool, true, false, if◌then◌else◌, All, All-imp, Bool-cases, inl, inr,
}

module _ {ℓ} {A : Type ℓ} (less : A → A → Bool) where
  unfoldable pub insert_less : A → List A → List A
  insert_less x [] = x ∷ []
  insert_less x (y ∷ ys) = if less y x then y ∷ insert_less x ys else x ∷ y ∷ ys

  unfoldable pub sort_less : List A → List A
  unfolding insert_less
  sort_less [] = []
  sort_less (x ∷ xs) = insert_less x (sort_less xs)

  -- no value stands behind one that it should precede
  abbrev pub IsOrdered : List A → Type 0
  IsOrdered [] = Unit
  IsOrdered (x ∷ xs) = All (λ y. less y x ≡ false) xs × IsOrdered xs

  insert_less-perm : (x : A) (l : List A) → Perm (insert_less x l) (x ∷ l)
  unfolding insert_less
  insert_less-perm x [] = Perm.refl _
  insert_less-perm x (y ∷ ys) = elim (Bool-cases (less y x)) [
    | inl before ↦ rw before (Perm.trans (Perm.cons y (insert_less-perm x ys)) (Perm.swap x y ys))
    | inr after ↦ rw after (Perm.refl _)
  ]

  pub sort_less-perm : (l : List A) → Perm (sort_less l) l
  unfolding sort_less
  sort_less-perm [] = Perm.refl _
  sort_less-perm (x ∷ xs) =
      Perm.trans (insert_less-perm x (sort_less xs)) (Perm.cons x (sort_less-perm xs))

module _ {ℓ κ} {A : Type ℓ} (less : A → A → Bool) (P : A → Type κ) where
  pub insert_less-All : (x : A) (l : List A) → P x → All P l → All P (insert_less less x l)
  unfolding insert_less
  insert_less-All x [] p _ = (p, tt)
  insert_less-All x (y ∷ ys) p (q, qs) = elim (Bool-cases (less y x)) [
    | inl before ↦ rw before (q, insert_less-All x ys p qs)
    | inr after ↦ rw after (p, (q, qs))
  ]

  pub sort_less-All : (l : List A) → All P l → All P (sort_less less l)
  unfolding sort_less
  sort_less-All [] _ = tt
  sort_less-All (x ∷ xs) (p, ps) = insert_less-All x (sort_less less xs) p (sort_less-All xs ps)

-- a strict order whose incomparable values are alike
pub record IsWeakOrder {ℓ} {A : Type ℓ} (less : A → A → Bool) : Type ℓ where
  pub asymm : (x y : A) → less x y ≡ true → less y x ≡ false
  pub not_trans : (x y z : A) → less y x ≡ false → less z y ≡ false → less z x ≡ false

module _ {ℓ} {A : Type ℓ} (less : A → A → Bool) (weak : IsWeakOrder less) where
  insert_less-IsOrdered :
      (x : A) (l : List A) → IsOrdered less l → IsOrdered less (insert_less less x l)
  unfolding insert_less
  insert_less-IsOrdered x [] _ = (tt, tt)
  insert_less-IsOrdered x (y ∷ ys) (b, s) = elim (Bool-cases (less y x)) [
    | inl before ↦ rw before (
      insert_less-All less (λ z. less z y ≡ false) x ys (weak.asymm y x before) b,
      insert_less-IsOrdered x ys s,
    )
    | inr after ↦ rw after ((after, All-imp _ _ (λ z h. weak.not_trans x y z after h) ys b), (b, s))
  ]

  pub sort_less-IsOrdered : (l : List A) → IsOrdered less (sort_less less l)
  unfolding sort_less
  sort_less-IsOrdered [] = tt
  sort_less-IsOrdered (x ∷ xs) =
      insert_less-IsOrdered x (sort_less less xs) (sort_less-IsOrdered xs)

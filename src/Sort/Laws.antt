-- ===== src/Sort/Laws.antt =====
-- Sorting by a text key: members and order.
use mathlib.Core.List.{Perm}
use mathlib.Core.List.Perm
use gmail_visibility_manager.Base.{
  List, [], ◌∷◌, ◌≡◌, ◌≢◌, refl, true, arith, All, All-imp, Any, ◌⊎◌, Bool-cases, inl, inr, map,
}
use gmail_visibility_manager.Text.{Text, text_lt}
use gmail_visibility_manager.Text.Order.{text_lt_trans, text_lt_total, text_lt_irrefl}
use gmail_visibility_manager.Sort.{insert_by, sort_by, IsStrict}

module _ {ℓ} {A : Type ℓ} (key : A → Text) where
  pub insert_by-perm : (x : A) (l : List A) → Perm (insert_by key x l) (x ∷ l)
  unfolding insert_by
  insert_by-perm x [] = Perm.refl _
  insert_by-perm x (y ∷ ys) = elim (Bool-cases (text_lt (key y) (key x))) [
    | inl before ↦ rw before (Perm.trans (Perm.cons y (insert_by-perm x ys)) (Perm.swap x y ys))
    | inr after ↦ rw after (Perm.refl _)
  ]

  pub sort_by-perm : (l : List A) → Perm (sort_by key l) l
  unfolding sort_by
  sort_by-perm [] = Perm.refl _
  sort_by-perm (x ∷ xs) =
      Perm.trans (insert_by-perm x (sort_by key xs)) (Perm.cons x (sort_by-perm xs))

  -- no member of `l` has the key of `x`
  abbrev pub IsNew : A → List A → Type 0
  IsNew x = All (λ y. key x ≢ key y)

  abbrev pub HasDistinct : List A → Type 0
  HasDistinct [] = Unit
  HasDistinct (x ∷ xs) = IsNew x xs × HasDistinct xs

module _ {ℓ κ} {A : Type ℓ} (key : A → Text) (P : A → Type κ) where
  pub insert_by-All : (x : A) (l : List A) → P x → All P l → All P (insert_by key x l)
  unfolding insert_by
  insert_by-All x [] p _ = (p, tt)
  insert_by-All x (y ∷ ys) p (q, qs) = elim (Bool-cases (text_lt (key y) (key x))) [
    | inl before ↦ rw before (q, insert_by-All x ys p qs)
    | inr after ↦ rw after (p, (q, qs))
  ]

  pub sort_by-All : (l : List A) → All P l → All P (sort_by key l)
  unfolding sort_by
  sort_by-All [] _ = tt
  sort_by-All (x ∷ xs) (p, ps) = insert_by-All x (sort_by key xs) p (sort_by-All xs ps)

module _ {ℓ} {A : Type ℓ} (key : A → Text) (P : A → Type 0) where
  insert_by-Any : (x : A) (l : List A) → P x ⊎ Any P l → Any P (insert_by key x l)
  unfolding insert_by
  insert_by-Any x [] h = h
  insert_by-Any x (y ∷ ys) (inr (inl q)) = elim (Bool-cases (text_lt (key y) (key x))) [
    | inl before ↦ rw before (inl q)
    | inr after ↦ rw after (inr (inl q))
  ]
  insert_by-Any x (y ∷ ys) (inl p) = elim (Bool-cases (text_lt (key y) (key x))) [
    | inl before ↦ rw before (inr (insert_by-Any x ys (inl p)))
    | inr after ↦ rw after (inl p)
  ]
  insert_by-Any x (y ∷ ys) (inr (inr qs)) = elim (Bool-cases (text_lt (key y) (key x))) [
    | inl before ↦ rw before (inr (insert_by-Any x ys (inr qs)))
    | inr after ↦ rw after (inr (inr qs))
  ]

  pub sort_by-Any : (l : List A) → Any P l → Any P (sort_by key l)
  unfolding sort_by
  sort_by-Any [] h = absurd h
  sort_by-Any (x ∷ xs) (inl p) = insert_by-Any x (sort_by key xs) (inl p)
  sort_by-Any (x ∷ xs) (inr ps) = insert_by-Any x (sort_by key xs) (inr (sort_by-Any xs ps))

module _ {ℓ} {A : Type ℓ} (key : A → Text) where
  below_all :
      (x y : A) (ys : List A)
      → text_lt (key x) (key y) ≡ true
      → All (λ z. text_lt (key y) (key z) ≡ true) ys
      → All (λ z. text_lt (key x) (key z) ≡ true) ys
  below_all x y ys h = All-imp _ _ (λ z k. text_lt_trans (key x) (key y) (key z) h k) ys

  pub insert_by-IsStrict :
      (x : A) (l : List A) → IsNew key x l → IsStrict key l → IsStrict key (insert_by key x l)
  unfolding insert_by
  insert_by-IsStrict x [] _ _ = (tt, tt)
  insert_by-IsStrict x (y ∷ ys) (n, ns) (b, s) = elim (Bool-cases (text_lt (key y) (key x))) [
    | inl before ↦ rw before (insert_by-All key _ x ys before b, insert_by-IsStrict x ys ns s)
    | inr after ↦ elim (Bool-cases (text_lt (key x) (key y))) [
      | inl lt ↦ rw after ((lt, below_all x y ys lt b), (b, s))
      | inr ge ↦ absurd (n (text_lt_total (key x) (key y) ge after))
    ]
  ]

  pub sort_by-IsStrict : (l : List A) → HasDistinct key l → IsStrict key (sort_by key l)
  unfolding sort_by
  sort_by-IsStrict [] _ = tt
  sort_by-IsStrict (x ∷ xs) (n, d) =
      insert_by-IsStrict x (sort_by key xs) (sort_by-All key _ xs n) (sort_by-IsStrict xs d)

  -- A strictly ascending list is already sorted.
  pub sort_by_of_IsStrict : (l : List A) → IsStrict key l → sort_by key l ≡ l
  unfolding sort_by
  sort_by_of_IsStrict [] _ = refl
  sort_by_of_IsStrict (x ∷ xs) (b, s) = rw (sort_by_of_IsStrict xs s) (front x xs b)
    where
      front :
          (x : A) (l : List A)
          → All (λ y. text_lt (key x) (key y) ≡ true) l
          → insert_by key x l ≡ x ∷ l
      front x [] _ = refl
      front x (y ∷ ys) (lt, _) =
          ground (arith, text_lt_irrefl (key x), text_lt_trans (key x) (key y) (key x))

-- strict order is a matter of the keys alone
module _ {ℓ} {A : Type ℓ} (key : A → Text) where
  below_keys :
      (k : Text) (l : List A)
      → All (λ y. text_lt k (key y) ≡ true) l
      → All (λ t. text_lt k t ≡ true) (map key l)
  below_keys k [] _ = tt
  below_keys k (x ∷ xs) (b, bs) = (b, below_keys k xs bs)

  keys_below :
      (k : Text) (l : List A)
      → All (λ t. text_lt k t ≡ true) (map key l)
      → All (λ y. text_lt k (key y) ≡ true) l
  keys_below k [] _ = tt
  keys_below k (x ∷ xs) (b, bs) = (b, keys_below k xs bs)

  pub IsStrict-keys : (l : List A) → IsStrict key l → IsStrict (λ t. t) (map key l)
  IsStrict-keys [] _ = tt
  IsStrict-keys (x ∷ xs) (b, s) = (below_keys (key x) xs b, IsStrict-keys xs s)

  pub keys-IsStrict : (l : List A) → IsStrict (λ t. t) (map key l) → IsStrict key l
  keys-IsStrict [] _ = tt
  keys-IsStrict (x ∷ xs) (b, s) = (keys_below (key x) xs b, keys-IsStrict xs s)

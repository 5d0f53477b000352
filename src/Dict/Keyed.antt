-- ===== src/Dict/Keyed.antt =====
-- A map in which each value is stored under its own key, as a set of spellings by their lower case.
use gmail_visibility_manager.Base.{
  List, [], ◌∷◌, ◌++◌, ◌≡◌, ◌≢◌, refl, Bool, true, false, ◌||◌, arith, All-imp, Bool-cases, inl,
  inr,
}
use gmail_visibility_manager.Text.{Text, ◌==◌, ==_iff}
use gmail_visibility_manager.Dict.{Dict, lookup, insert, values, is_some}
use gmail_visibility_manager.Dict.Laws.{EachEntry}
use gmail_visibility_manager.Sort.{insert_by, sort_by}
use gmail_visibility_manager.Sort.Laws.{IsNew, HasDistinct}

module _ {A : Type 0} (key : A → Text) where
  -- whether some member has the key `k`
  unfoldable pub has_key : Text → List A → Bool
  has_key k [] = false
  has_key k (x ∷ xs) = key x == k || has_key k xs

  abbrev pub IsKeyed : Dict A → Type 0
  IsKeyed = EachEntry (λ k v. key v ≡ k)

  pub has_key-values :
      (d : Dict A) (k : Text) → IsKeyed d → has_key k (values d) ≡ is_some (lookup d k)
  unfolding has_key values lookup
  has_key-values [] k _ = refl
  has_key-values ((j, v) ∷ d) k (e, es) = rw e (ground (arith, has_key-values d k es))

  has_key-insert_by :
      (k : Text) (x : A) (l : List A) → has_key k (insert_by key x l) ≡ has_key k (x ∷ l)
  unfolding has_key insert_by
  has_key-insert_by k x [] = refl
  has_key-insert_by k x (y ∷ ys) = ground (arith, has_key-insert_by k x ys)

  pub has_key-sort_by : (k : Text) (l : List A) → has_key k (sort_by key l) ≡ has_key k l
  unfolding has_key sort_by
  has_key-sort_by k [] = refl
  has_key-sort_by k (x ∷ xs) =
      ground (arith, has_key-insert_by k x (sort_by key xs), has_key-sort_by k xs)

  IsNew-insert :
      (w : A) (d : Dict A) (k : Text) (v : A)
      → key v ≡ k
      → key w ≢ k
      → IsKeyed d
      → IsNew key w (values d)
      → IsNew key w (values (insert d k v))
  unfolding values insert
  IsNew-insert w [] k v e n _ _ = (rw e n, tt)
  IsNew-insert w ((j, u) ∷ d) k v e n (q, qs) (m, ms) = elim (Bool-cases (j == k)) [
    | inl same ↦ rw same (rw e n, ms)
    | inr other ↦ rw other (m, IsNew-insert w d k v e n qs ms)
  ]

  pub insert-HasDistinct :
      (d : Dict A) (k : Text) (v : A)
      → key v ≡ k
      → IsKeyed d
      → HasDistinct key (values d)
      → HasDistinct key (values (insert d k v))
  unfolding values insert
  insert-HasDistinct [] k v e _ _ = (tt, tt)
  insert-HasDistinct ((j, u) ∷ d) k v e (q, qs) (m, ms) = elim (Bool-cases (j == k)) [
    | inl same ↦ rw same (move u v j k same e q m, ms)
    | inr other ↦ rw other (
      IsNew-insert u d k v e (λ p. cc (other, (==_iff j k).1 (cc))) qs m,
      insert-HasDistinct d k v e qs ms,
    )
  ]
    where
      move :
          (u v : A) (j k : Text)
          → (j == k) ≡ true
          → key v ≡ k
          → key u ≡ j
          → IsNew key u (values d)
          → IsNew key v (values d)
      move u v j k same e q = All-imp _ _ (λ y n p. n (cc ((==_iff j k).0 same))) (values d)

  -- a value with a new key goes to the end
  pub insert_new :
      (d : Dict A) (v : A)
      → IsKeyed d
      → IsNew key v (values d)
      → insert d (key v) v ≡ d ++ (key v, v) ∷ []
  unfolding insert values
  insert_new [] v _ _ = refl
  insert_new ((j, u) ∷ d) v (q, qs) (n, ns) = ground (arith, ==_iff j (key v), insert_new d v qs ns)

  pub values-append :
      (d : Dict A) (k : Text) (v : A) → values (d ++ (k, v) ∷ []) ≡ values d ++ v ∷ []
  unfolding values
  values-append [] k v = refl
  values-append ((j, u) ∷ d) k v = cc (values-append d k v)

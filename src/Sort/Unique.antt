-- ===== src/Sort/Unique.antt =====
-- Sorting values with distinct keys that arrive in any order, such as the order of a Go map.
use mathlib.Core.List.{Permᴰ, Perm}
use mathlib.Core.Logic.{∥∥₁_elim}
use mathlib.Core.Path.{subst}
use gmail_visibility_manager.Base.{List, [], ◌∷◌, ◌≡◌, ◌≢◌, refl, sym, ap, ◌∙◌, arith}
use gmail_visibility_manager.Text.{Text}
use gmail_visibility_manager.Text.Order.{text_lt_trans, text_lt_total, text_lt_asymm}
use gmail_visibility_manager.Sort.{insert_by, sort_by}
use gmail_visibility_manager.Sort.Laws.{IsNew, HasDistinct}

module _ {A : Type 0} (key : A → Text) where
  insert_by_comm :
      (x y : A) (l : List A)
      → key x ≢ key y
      → insert_by key x (insert_by key y l) ≡ insert_by key y (insert_by key x l)
  unfolding insert_by
  insert_by_comm x y [] n =
      ground (arith, text_lt_asymm (key x) (key y), text_lt_total (key x) (key y))
  insert_by_comm x y (z ∷ l) n = ground (
    arith,
    text_lt_asymm (key x) (key y),
    text_lt_total (key x) (key y),
    text_lt_trans (key z) (key x) (key y),
    text_lt_trans (key z) (key y) (key x),
    text_lt_total (key x) (key z),
    text_lt_total (key y) (key z),
    text_lt_trans (key x) (key y) (key z),
    text_lt_trans (key y) (key x) (key z),
    text_lt_asymm (key x) (key z),
    text_lt_asymm (key y) (key z),
    insert_by_comm x y l,
  )

  IsNew-perm : (x : A) {l r : List A} → Permᴰ l r → IsNew key x l → IsNew key x r
  IsNew-perm x Permᴰ.nil h = h
  IsNew-perm x (Permᴰ.cons e p) (n, h) = (subst (λ c. key x ≢ key c) e n, IsNew-perm x p h)
  IsNew-perm x (Permᴰ.swap e f) (n, (m, h)) =
      (subst (λ c. key x ≢ key c) f m, (subst (λ c. key x ≢ key c) e n, h))
  IsNew-perm x (Permᴰ.trans p q) h = IsNew-perm x q (IsNew-perm x p h)

  HasDistinct-perm : {l r : List A} → Permᴰ l r → HasDistinct key l → HasDistinct key r
  HasDistinct-perm Permᴰ.nil h = h
  HasDistinct-perm (Permᴰ.cons {l₂ = r} e p) (n, h) =
      (subst (λ c. IsNew key c r) e (IsNew-perm _ p n), HasDistinct-perm p h)
  HasDistinct-perm (Permᴰ.swap {a = a} {b = b} {l = l} e f) ((n, ns), (ms, h)) = (
    (λ q. n (ap key e ∙ (sym q ∙ ap key (sym f))), subst (λ c. IsNew key c l) f ms),
    (subst (λ c. IsNew key c l) e ns, h),
  )
  HasDistinct-perm (Permᴰ.trans p q) h = HasDistinct-perm q (HasDistinct-perm p h)

  sort_by-permᴰ : {l r : List A} → Permᴰ l r → HasDistinct key l → sort_by key l ≡ sort_by key r
  unfolding sort_by
  sort_by-permᴰ Permᴰ.nil h = refl
  sort_by-permᴰ (Permᴰ.cons e p) (n, h) = cc (sort_by-permᴰ p h)
  sort_by-permᴰ (Permᴰ.swap {a = a} {b = b} {l = l} e f) ((n, ns), (ms, h)) =
      cc (insert_by_comm a b (sort_by key l) n)
  sort_by-permᴰ (Permᴰ.trans p q) h = sort_by-permᴰ p h ∙ sort_by-permᴰ q (HasDistinct-perm p h)

  -- Two arrangements of the same values with distinct keys sort to the same list.
  pub sort_by-perm-eq :
      IsSet (List A) → {l r : List A} → Perm l r → HasDistinct key l → sort_by key l ≡ sort_by key r
  sort_by-perm-eq set p h = ∥∥₁_elim p (set _ _) (λ q. sort_by-permᴰ q h)

-- ===== src/Dict/Laws.antt =====
-- The laws of the maps.
use mathlib.Core.Path.{subst}
use gmail_visibility_manager.Base.{
  [], ◌∷◌, none, some, if◌then◌else◌, ◌≡◌, refl, arith, Any, true, Bool-cases, inl, inr,
}
use gmail_visibility_manager.Text.{Text, ◌==◌, ==_iff}
use gmail_visibility_manager.Dict.{Dict, lookup, insert}

pub lookup-nil {ℓ} : {V : Type ℓ} (k : Text) → lookup {V = V} [] k ≡ none
unfolding lookup
lookup-nil k = refl

module _ {ℓ} {V : Type ℓ} where
  pub lookup-insert :
      (d : Dict V) (k j : Text) (v : V)
      → lookup (insert d k v) j ≡ (if k == j then some v else lookup d j)
  unfolding lookup insert
  lookup-insert [] k j v = refl
  lookup-insert ((i, w) ∷ d) k j v =
      ground (arith, ==_iff k j, ==_iff i k, ==_iff i j, lookup-insert d k j v)

-- An association list has the form that `Good` asks for: each entry's key belongs to its value.
module _ {V : Type 0} (P : Text → V → Type 0) where
  abbrev pub EachEntry : Dict V → Type 0
  EachEntry [] = Unit
  EachEntry ((k, v) ∷ d) = P k v × EachEntry d

  pub insert-EachEntry :
      (d : Dict V) (k : Text) (v : V) → P k v → EachEntry d → EachEntry (insert d k v)
  unfolding insert
  insert-EachEntry [] k v p _ = (p, tt)
  insert-EachEntry ((j, w) ∷ d) k v p (q, qs) = ground (arith, insert-EachEntry d k v p qs)

  pub lookup-EachEntry : (d : Dict V) (k : Text) (v : V) → EachEntry d → lookup d k ≡ some v → P k v
  unfolding lookup
  lookup-EachEntry [] k v e h = cc
  lookup-EachEntry ((j, w) ∷ d) k v (q, qs) h =
      ground (arith, ==_iff j k, lookup-EachEntry d k v qs)

pub lookup-Any :
    {V : Type 0} (P : V → Type 0) (d : Dict V) (k : Text) (v : V)
    → lookup d k ≡ some v
    → P v
    → Any (λ (entry : Text × V). P entry.1) d
unfolding lookup
lookup-Any P [] k v h p = cc
lookup-Any P ((j, w) ∷ d) k v h p = elim (Bool-cases (j == k)) [
  | inl same ↦ inl (subst P (found h same) p)
  | inr other ↦ inr (lookup-Any P d k v (ground (arith, h, other)) p)
]
  where
    found : (if j == k then some w else lookup d k) ≡ some v → (j == k) ≡ true → v ≡ w
    found h same = ground (arith, h, same)

-- ===== src/Gmail/Reconcile/Members.antt =====
-- internal/gmail/gmail.go: buildVisibilityGroups puts each grant in a group.
use mathlib.Core.Path.{subst}
use gmail_visibility_manager.Base.{
  ℕ, zero, suc, ◌+◌, List, [], ◌∷◌, some-injective, ◌++◌, ◌≡◌, refl, true, false, is_empty, some,
  All, Any, Any-map, Any-append_left, Any-append_right, Bool-cases, Option-cases, ap, ◌∙◌, inl, inr,
  arith,
}
use gmail_visibility_manager.Text.{Text, ◌==◌, ==_iff, ==_refl}
use gmail_visibility_manager.Result.{ok}
use gmail_visibility_manager.Dict.{Dict, lookup, insert}
use gmail_visibility_manager.Dict.Laws.{
  lookup-insert, lookup-Any, EachEntry, insert-EachEntry, lookup-EachEntry,
}
use gmail_visibility_manager.Dict.Keyed.{has_key}
use gmail_visibility_manager.Sort.Laws.{sort_by-Any}
use gmail_visibility_manager.Std.{Std}
use gmail_visibility_manager.Request.{normalize_email}
use gmail_visibility_manager.Gmail.Senders.{is_member}
use gmail_visibility_manager.Gmail.Senders.Normal.{is_member-append, normalized_exact_senders_lem}
use gmail_visibility_manager.Gmail.Grouping.{
  CompiledGrant, VisibilityGroup, grow_group, group_loop, build_visibility_groups,
}
use gmail_visibility_manager.Gmail.Groups.Signing.{some_reads_as-member}
use gmail_visibility_manager.Gmail.Reconcile.{get_elem?}

-- a group, with a label, that has the grant at an index and its address
pub record Holds (i : ℕ) (email : Text) (group : VisibilityGroup) : Type 0 where
  pub labelled : is_empty group.label ≡ false
  pub index : Any (λ j. i ≡ j) group.indexes
  pub sender : is_member email group.emails ≡ true

abbrev IsLabelled : VisibilityGroup → Type 0
IsLabelled group = is_empty group.label ≡ false

abbrev pub HasLabel : CompiledGrant → Type 0
HasLabel item = is_empty item.grant.visibility_label ≡ false

-- the group under a key holds the grant
abbrev Placed : Text → ℕ → Text → Dict VisibilityGroup → Type 0
Placed k i email groups = (g : VisibilityGroup) × (lookup groups k ≡ some g) × Holds i email g

joined : VisibilityGroup → ℕ → Text → VisibilityGroup
joined group i email = record group {
  indexes = group.indexes ++ i ∷ [];
  emails = group.emails ++ email ∷ [];
}

joined-keeps :
    (g : VisibilityGroup) (j i : ℕ) (e email : Text)
    → Holds i email g
    → Holds i email (joined g j e)
unfolding joined
joined-keeps g j i e email h = record {
  labelled = h.labelled;
  index = Any-append_left (λ j. i ≡ j) g.indexes (j ∷ []) h.index;
  sender = ground (arith, is_member-append email e g.emails, h.sender);
}

joined-Holds :
    (g : VisibilityGroup) (i : ℕ) (email : Text) → IsLabelled g → Holds i email (joined g i email)
unfolding joined has_key
joined-Holds g i email h = record {
  labelled = h;
  index = Any-append_right (λ j. i ≡ j) g.indexes (i ∷ []) (inl refl);
  sender = ground (arith, is_member-append email email g.emails, ==_refl email);
}

module _ (label_ids : Dict Text) where
  grow_group-IsLabelled :
      (groups : Dict VisibilityGroup) (i : ℕ) (item : CompiledGrant)
      → EachEntry (λ _ g. IsLabelled g) groups
      → HasLabel item
      → IsLabelled (grow_group label_ids groups i item)
  unfolding grow_group
  grow_group-IsLabelled groups i item q h =
      elim (Option-cases (lookup groups item.primary_label_key)) [
        | inl p ↦ rw (p, grow_group) h
        | inr (g, p) ↦
            rw (p, grow_group)
              (lookup-EachEntry (λ _ g. IsLabelled g) groups item.primary_label_key g q p)
      ]

  grow_group-Holds :
      (groups : Dict VisibilityGroup) (i : ℕ) (item : CompiledGrant)
      → EachEntry (λ _ g. IsLabelled g) groups
      → HasLabel item
      → Holds i item.spec.from (grow_group label_ids groups i item)
  unfolding grow_group has_key
  grow_group-Holds groups i item q h = elim (Option-cases (lookup groups item.primary_label_key)) [
    | inl p ↦
        rw (p, grow_group)
          (record {
            labelled = h;
            index = inl refl;
            sender = ground (arith, ==_refl item.spec.from);
          })
    | inr (g, p) ↦
        rw (p, grow_group)
          (unfold joined in
            joined-Holds g i item.spec.from
              (lookup-EachEntry (λ _ g. IsLabelled g) groups item.primary_label_key g q p))
  ]

  grow_group-joined :
      (groups : Dict VisibilityGroup) (j : ℕ) (item : CompiledGrant) (g : VisibilityGroup)
      → lookup groups item.primary_label_key ≡ some g
      → grow_group label_ids groups j item ≡ joined g j item.spec.from
  unfolding grow_group joined
  grow_group-joined groups j item g p = rw (p, grow_group) refl

  insert-Placed :
      (groups : Dict VisibilityGroup) (j : ℕ) (item : CompiledGrant) (k : Text) (i : ℕ)
      (email : Text)
      → Placed k i email groups
      → Placed k i email (insert groups item.primary_label_key (grow_group label_ids groups j item))
  insert-Placed groups j item k i email (g, p, h) =
      elim (Bool-cases (item.primary_label_key == k)) [
        | inl same ↦ (
          joined g j item.spec.from,
          lookup-insert groups item.primary_label_key k _
              ∙ rw same (
                  ap some (
                    grow_group-joined groups j item g
                      (ap (lookup groups) ((==_iff item.primary_label_key k).0 same) ∙ p))),
          joined-keeps g j i item.spec.from email h,
        )
        | inr other ↦ (g, lookup-insert groups item.primary_label_key k _ ∙ rw other p, h)
      ]

  group_loop-Placed_before :
      (j : ℕ) (items : List CompiledGrant) (groups : Dict VisibilityGroup) (k : Text) (i : ℕ)
      (email : Text)
      → Placed k i email groups
      → Placed k i email (group_loop label_ids j items groups)
  unfolding group_loop
  group_loop-Placed_before j [] groups k i email h = h
  group_loop-Placed_before j (item ∷ items) groups k i email h =
      group_loop-Placed_before (suc j) items _ k i email (insert-Placed groups j item k i email h)

  group_loop-Placed_first :
      (j : ℕ) (item : CompiledGrant) (items : List CompiledGrant) (groups : Dict VisibilityGroup)
      → HasLabel item
      → EachEntry (λ _ g. IsLabelled g) groups
      → Placed item.primary_label_key j item.spec.from
          (group_loop label_ids j (item ∷ items) groups)
  unfolding group_loop
  group_loop-Placed_first j item items groups h q =
      let key = item.primary_label_key in
      group_loop-Placed_before (suc j) items _ key j item.spec.from (
        grow_group label_ids groups j item,
        lookup-insert groups key key _ ∙ rw (==_refl key) refl,
        grow_group-Holds groups j item q h,
      )

  group_loop-Placed :
      (j : ℕ) (items : List CompiledGrant) (groups : Dict VisibilityGroup) (n i : ℕ)
      (item : CompiledGrant)
      → j + n ≡ i
      → get_elem? items n ≡ some item
      → All HasLabel items
      → EachEntry (λ _ g. IsLabelled g) groups
      → Placed item.primary_label_key i item.spec.from (group_loop label_ids j items groups)
  unfolding group_loop
  group_loop-Placed j [] groups n i item e p _ q = cc
  group_loop-Placed j (first ∷ items) groups zero i item e p (h, hs) q =
      subst
        (λ n.
          Placed item.primary_label_key n item.spec.from
            (group_loop label_ids j (first ∷ items) groups))
        (omega (arith, e))
        (subst
          (λ (x : CompiledGrant).
            Placed x.primary_label_key j x.spec.from
              (group_loop label_ids j (first ∷ items) groups))
          (some-injective first item p) (group_loop-Placed_first j first items groups h q))
  group_loop-Placed j (first ∷ items) groups (suc n) i item e p (h, hs) q =
      group_loop-Placed (suc j) items _ n i item (omega (arith, e)) p hs (
        insert-EachEntry (λ _ g. IsLabelled g) groups first.primary_label_key _
          (grow_group-IsLabelled groups j first q h) q)

module _ ⦃std : Std⦄ where
  -- each grant with an address in normal form is in one of the groups
  pub build_visibility_groups-Holds :
      (compiled : List CompiledGrant) (label_ids : Dict Text) (i : ℕ) (item : CompiledGrant)
      → get_elem? compiled i ≡ some item
      → All HasLabel compiled
      → normalize_email item.spec.from ≡ ok item.spec.from
      → Any (Holds i item.spec.from) (build_visibility_groups compiled label_ids)
  unfolding build_visibility_groups
  build_visibility_groups-Holds compiled label_ids i item p h n =
      let (g, q, holds) = group_loop-Placed label_ids 0 compiled [] i i item (omega arith) p h tt in
      Any-map (λ (entry : Text × VisibilityGroup). Holds i item.spec.from entry.1)
        (Holds i item.spec.from) _
        (λ entry held. record {
          labelled = held.labelled;
          index = held.index;
          sender =
              (normalized_exact_senders_lem entry.1.emails).1 item.spec.from
              ∙ some_reads_as-member item.spec.from entry.1.emails n held.sender;
        })
        _
        (sort_by-Any (λ (entry : Text × VisibilityGroup). entry.0)
          (λ entry. Holds i item.spec.from entry.1) _
          (lookup-Any (Holds i item.spec.from) _ item.primary_label_key g q holds))

-- ===== src/Gmail/Grouping.antt =====
-- internal/gmail/gmail.go: the grants of one visibility label.
use gmail_visibility_manager.Base.{ℕ, suc, List, [], ◌∷◌, ◌++◌, none, some, map}
use gmail_visibility_manager.Text.{Text}
use gmail_visibility_manager.Dict.{Dict, lookup, insert}
use gmail_visibility_manager.Sort.{sort_by}
use gmail_visibility_manager.Std.{Std}
use gmail_visibility_manager.GmailFilter.{Spec}
use gmail_visibility_manager.State.Records.{GrantRecord}
use gmail_visibility_manager.Gmail.Senders.{normalized_exact_senders}

pub record CompiledGrant : Type 0 where
  pub grant : GrantRecord
  pub spec : Spec
  pub primary_label_key : Text

pub record VisibilityGroup : Type 0 where
  pub label : Text
  pub label_id : Text
  pub indexes : List ℕ
  pub emails : List Text

-- a read of a map of strings, where a missing key gives ""
unfoldable pub text_at : Dict Text → Text → Text
text_at d k = elim (lookup d k) [ none ↦ [] | some v ↦ v ]

-- the body of the loop of buildVisibilityGroups
unfoldable pub grow_group : Dict Text → Dict VisibilityGroup → ℕ → CompiledGrant → VisibilityGroup
grow_group label_ids groups i item = elim (lookup groups item.primary_label_key) [
  | none ↦ record {
    label = item.grant.visibility_label;
    label_id = text_at label_ids item.primary_label_key;
    indexes = i ∷ [];
    emails = item.spec.from ∷ [];
  }
  | some group ↦ record group {
    indexes = group.indexes ++ i ∷ [];
    emails = group.emails ++ item.spec.from ∷ [];
  }
]

unfoldable pub group_loop :
    Dict Text → ℕ → List CompiledGrant → Dict VisibilityGroup → Dict VisibilityGroup
unfolding grow_group
group_loop label_ids i [] groups = groups
group_loop label_ids i (item ∷ items) groups =
    group_loop label_ids (suc i) items
      (insert groups item.primary_label_key (grow_group label_ids groups i item))

module _ ⦃std : Std⦄ where
  unfoldable pub build_visibility_groups : List CompiledGrant → Dict Text → List VisibilityGroup
  unfolding group_loop
  build_visibility_groups compiled label_ids =
      map
        (λ (entry : Text × VisibilityGroup). record entry.1 {
          emails = normalized_exact_senders entry.1.emails;
        })
        (sort_by (λ (entry : Text × VisibilityGroup). entry.0) (group_loop label_ids 0 compiled []))

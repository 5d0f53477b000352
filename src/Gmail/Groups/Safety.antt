-- ===== src/Gmail/Groups/Safety.antt =====
-- internal/gmail/gmail.go: what the reconciliation of a group asks Gmail to change.
use gmail_visibility_manager.Base.{
  List, [], ◌++◌, ◌≡◌, ap, ◌∙◌, Bool, false, Option, All, inl, inr, if-both, if◌then◌else◌,
}
use gmail_visibility_manager.Text.{Text}
use gmail_visibility_manager.Result.{ok, Result-cases}
use gmail_visibility_manager.Exec.{pure, lift, ◌>>◌}
use gmail_visibility_manager.Sort.{sort_strings}
use gmail_visibility_manager.Sort.Laws.{sort_by-All}
use gmail_visibility_manager.Std.{Std}
use gmail_visibility_manager.Gmail.Senders.{shard_exact_senders}
use gmail_visibility_manager.Gmail.Api.{Api, Calls, Filter}
use gmail_visibility_manager.Gmail.Api.Log.{Extends, Makes-lift, Makes->>=}
use gmail_visibility_manager.Gmail.Matching.{ExactSenderFilter, exact_sender_visibility_filters}
use gmail_visibility_manager.Gmail.Grouping.{VisibilityGroup}
use gmail_visibility_manager.Gmail.Groups.{
  Sharding, index_filters, desired_senders, shards_loop, delete_loop, change_filters,
  reconcile_visibility_group,
}
use gmail_visibility_manager.Gmail.Groups.Made.{
  IsGroupCreate, IsGroupDelete, IsIdOf, index_filters-All, add_undesired-All, all_ids, all_in,
  delete_loop-Makes, shards_loop-Makes, shards_loop_idle,
}

-- The calls of a group: first the creations, then the removals, and none without `apply`.
pub record GroupCalls ⦃std : Std⦄ (existing : List ExactSenderFilter) (shards : List (List Text))
    (label_id : Text) (apply : Bool) (before after : Calls) : Type 0 where
  pub created : Calls
  pub deleted : Calls
  pub split : after ≡ deleted ++ (created ++ before)
  pub creates : All (IsGroupCreate shards label_id) created
  pub deletes : All (IsGroupDelete existing) deleted
  pub idle : apply ≡ false → after ≡ before

module _ ⦃std : Std⦄ ⦃api : Api⦄ where
  -- the removals behind the creations
  deletes-GroupCalls :
      (existing : List ExactSenderFilter) (shards : List (List Text)) (label_id : Text)
      (apply : Bool) (ids : List Text) (s : Sharding) (before middle : Calls)
      → Extends (IsGroupCreate shards label_id) before middle
      → (apply ≡ false → middle ≡ before)
      → All (IsIdOf existing) ids
      → GroupCalls existing shards label_id apply before
          ((delete_loop (if apply then ids else []) >> pure s) middle).1
  deletes-GroupCalls existing shards label_id apply ids s before middle e idle all =
      let d =
        Makes->>= (delete_loop (if apply then ids else [])) (λ _. lift (ok s))
          (delete_loop-Makes existing _ (if-both (All (IsIdOf existing)) apply all tt))
          (λ _. Makes-lift (ok s)) middle in
      record {
        created = e.new;
        deleted = d.new;
        split = d.split ∙ ap (λ c. d.new ++ c) e.split;
        creates = e.each;
        deletes = d.each;
        idle = λ h. rw h (unfold delete_loop in idle h);
      }

  change_filters-GroupCalls :
      (existing : List ExactSenderFilter) (shards : List (List Text)) (label_id : Text)
      (apply : Bool) (calls : Calls)
      → GroupCalls existing shards label_id apply calls
          (change_filters existing shards label_id apply calls).1
  unfolding change_filters
  change_filters-GroupCalls existing shards label_id apply calls =
      let d = index_filters existing [] [] in
      let start : Sharding = record {
        filter_id_by_signature = [];
        created_signatures = [];
        desired_signatures = [];
      } in
      let o = shards_loop d.0 label_id apply shards start calls in
      let made = shards_loop-Makes shards d.0 label_id apply shards start (all_in shards) calls in
      let still : (apply ≡ false) → o.1 ≡ calls =
        λ h. rw h (shards_loop_idle d.0 label_id shards start calls) in
      elim (Result-cases o.0) [
        | inr (e, p) ↦ rw p (record {
          created = made.new;
          deleted = [];
          split = made.split;
          creates = made.each;
          deletes = tt;
          idle = still;
        })
        | inl (s, p) ↦ rw p (
            deletes-GroupCalls existing shards label_id apply _ s calls o.1 made still (
              sorted_ids _ (
                add_undesired-All (IsIdOf existing) s.desired_signatures existing d.1
                  (all_ids existing)
                  (index_filters-All (IsIdOf existing) existing [] [] (all_ids existing) tt))))
      ]
    where
      sorted_ids :
          (ids : List Text) → All (IsIdOf existing) ids → All (IsIdOf existing) (sort_strings ids)
      sorted_ids ids all = unfold sort_strings in sort_by-All (λ t. t) (IsIdOf existing) ids all

  -- The reconciliation of a group asks Gmail for no other changes than these: it creates filters for
  -- shards of its senders with the group's label id, and then it deletes filters that name exact senders
  -- and add just that label. Nothing is deleted before the last creation, and without `apply` nothing is
  -- called.
  pub reconcile_visibility_group-GroupCalls :
      (filters : List (Option Filter)) (group : VisibilityGroup) (apply : Bool) (calls : Calls)
      → GroupCalls
          (exact_sender_visibility_filters filters group.label_id)
          (shard_exact_senders
            (desired_senders (exact_sender_visibility_filters filters group.label_id) group.emails))
          group.label_id
          apply
          calls
          (reconcile_visibility_group filters group apply calls).1
  unfolding reconcile_visibility_group
  reconcile_visibility_group-GroupCalls filters group apply calls =
      change_filters-GroupCalls (exact_sender_visibility_filters filters group.label_id) _
        group.label_id apply calls

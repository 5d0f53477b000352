-- ===== src/Gmail/Groups.antt =====
-- internal/gmail/gmail.go: the filters that the grants of one visibility label share.
pub mod Made
pub mod Safety
pub mod Signing
pub mod Shards
pub mod Covered
use gmail_visibility_manager.Base.{
  ℕ, suc, List, [], ◌∷◌, ◌++◌, Bool, true, false, ◌&&◌, not, is_empty, Option, none, some, map,
  if◌then◌else◌,
}
use gmail_visibility_manager.Text.{Text, text, ◌==◌}
use gmail_visibility_manager.Result.{Result, ok, err}
use gmail_visibility_manager.Exec.{Exec, pure, continue, ◌>>=◌, ◌>>◌}
use gmail_visibility_manager.Dict.{Dict, lookup, insert, values, is_some}
use gmail_visibility_manager.Sort.{sort_strings, sort_by}
use gmail_visibility_manager.Std.{Std}
use gmail_visibility_manager.Config.{normalize_label}
use gmail_visibility_manager.GmailFilter.{Spec, compile_grant}
use gmail_visibility_manager.State.Records.{GrantRecord}
use gmail_visibility_manager.Gmail.{LabelFilter}
use gmail_visibility_manager.Gmail.Senders.{
  is_member, normalized_exact_senders, shard_exact_senders,
}
use gmail_visibility_manager.Gmail.Terms.{exact_sender_signature}
use gmail_visibility_manager.Gmail.Api.{
  Api, Calls, Filter, create_managed_visibility_group_filter, delete_filter,
}
use gmail_visibility_manager.Gmail.Grouping.{
  CompiledGrant, VisibilityGroup, text_at, grow_group, group_loop, build_visibility_groups,
}
use gmail_visibility_manager.Gmail.Matching.{ExactSenderFilter, exact_sender_visibility_filters}

-- `set[value] = true`
unfoldable pub add_member : List Text → Text → List Text
add_member set value = if is_member value set then set else set ++ value ∷ []

unfoldable pub add_members : List Text → List Text → List Text
unfolding add_member
add_members set [] = set
add_members set (value ∷ values) = add_members (add_member set value) values

-- the variables of the loop over the shards
pub record Sharding : Type 0 where
  pub filter_id_by_signature : Dict Text
  pub created_signatures : List Text
  pub desired_signatures : List Text

-- what a group comes to: `none` where Go returns no error
pub record GroupReconcile : Type 0 where
  pub label_filters : Dict LabelFilter
  pub error : Option Text

-- the senders of the filters that are there
unfoldable pub existing_terms : List ExactSenderFilter → List Text
existing_terms [] = []
existing_terms (filter ∷ filters) = filter.terms ++ existing_terms filters

-- the first filter of each signature; the later ones are superfluous
unfoldable pub index_filters :
    List ExactSenderFilter → Dict ExactSenderFilter → List Text → Dict ExactSenderFilter × List Text
unfolding add_member
index_filters [] by_signature delete_ids = (by_signature, delete_ids)
index_filters (filter ∷ filters) by_signature delete_ids =
    let known = is_some (lookup by_signature filter.signature) in
    index_filters filters
      (if known then by_signature else insert by_signature filter.signature filter)
      (if known then add_member delete_ids filter.id else delete_ids)

-- the filters whose senders are in no shard that is wanted
unfoldable pub add_undesired : List Text → List ExactSenderFilter → List Text → List Text
unfolding add_member
add_undesired desired [] delete_ids = delete_ids
add_undesired desired (filter ∷ filters) delete_ids =
    add_undesired desired filters
      (if is_member filter.signature desired then delete_ids else add_member delete_ids filter.id)

-- the signature of the shard that holds a sender
unfoldable pub sign_shard : Text → List Text → Dict Text → Dict Text
sign_shard signature [] by_email = by_email
sign_shard signature (sender ∷ senders) by_email =
    sign_shard signature senders (insert by_email sender signature)

-- the switch on the filter of a sender
unfoldable pub judge_sender : Text → Text → Bool → LabelFilter
judge_sender label filter_id created = record {
  label = label;
  gmail_filter_id = filter_id;
  primary = true;
  status =
      if is_empty filter_id then text "missing" else if created then text "created" else text "ok";
  message =
      if is_empty filter_id
      then text "grouped exact-sender Gmail visibility filter is missing"
      else if created
      then text "created grouped exact-sender Gmail visibility filter"
      else text "grouped exact-sender Gmail visibility filter exists";
}

-- the loop over the senders of the group
unfoldable pub judge_senders :
    Text → List Text → Dict Text → Sharding → Dict LabelFilter → Dict LabelFilter
unfolding judge_sender text_at
judge_senders label [] signatures s result = result
judge_senders label (email ∷ emails) signatures s result =
    let signature = text_at signatures email in
    judge_senders label emails signatures s (
      insert result email (
        judge_sender label (text_at s.filter_id_by_signature signature)
          (is_member signature s.created_signatures)))

-- the loop that gives each sender of the group the error
unfoldable pub fail_senders : Text → List Text → Text → Dict LabelFilter → Dict LabelFilter
fail_senders label [] message result = result
fail_senders label (email ∷ emails) message result = fail_senders label emails message (
    insert result email (record {
      label = label;
      gmail_filter_id = [];
      primary = true;
      status = text "error";
      message = message;
    }))

-- the body of the loop over the shards, behind the search for the filter
unfoldable pub note_shard : Text → Option (Text × Bool) → Sharding → Sharding
unfolding add_member
note_shard signature none s = record s {
  desired_signatures = add_member s.desired_signatures signature;
}
note_shard signature (some (id, created)) s = record {
  filter_id_by_signature = insert s.filter_id_by_signature signature id;
  created_signatures =
      if created then add_member s.created_signatures signature else s.created_signatures;
  desired_signatures = add_member s.desired_signatures signature;
}

module _ ⦃api : Api⦄ where
  unfoldable pub delete_loop : List Text → Exec Calls (Unit {0})
  unfolding delete_filter
  delete_loop [] = pure tt
  delete_loop (id ∷ ids) = delete_filter id >> delete_loop ids

module _ ⦃std : Std⦄ where
  unfoldable pub desired_senders : List ExactSenderFilter → List Text → List Text
  unfolding add_members existing_terms
  desired_senders existing emails =
      normalized_exact_senders (add_members (add_members [] (existing_terms existing)) emails)

  unfoldable pub sign_shards : List (List Text) → Dict Text → Dict Text
  unfolding sign_shard
  sign_shards [] by_email = by_email
  sign_shards (shard ∷ shards) by_email =
      sign_shards shards (sign_shard (exact_sender_signature shard) shard by_email)

  module _ ⦃api : Api⦄ where
    -- the creation of the filter of a shard, where changes are to be applied
    unfoldable pub create_missing : Text → Bool → List Text → Exec Calls (Option (Text × Bool))
    create_missing label_id false shard = pure none
    create_missing label_id true shard = do
      id ← create_managed_visibility_group_filter shard label_id
      pure (some (id, true))

    -- the id of the filter of one shard, and whether it was created; `none` where it stays missing
    unfoldable pub find_or_create :
        Dict ExactSenderFilter → Text → Bool → List Text → Exec Calls (Option (Text × Bool))
    unfolding create_missing
    find_or_create by_signature label_id apply shard =
        elim (lookup by_signature (exact_sender_signature shard)) [
          | some filter ↦ pure (some (filter.id, false))
          | none ↦ create_missing label_id apply shard
        ]

    unfoldable pub shards_loop :
        Dict ExactSenderFilter → Text → Bool → List (List Text) → Sharding → Exec Calls Sharding
    unfolding find_or_create note_shard
    shards_loop by_signature label_id apply [] s = pure s
    shards_loop by_signature label_id apply (shard ∷ shards) s = do
      found ← find_or_create by_signature label_id apply shard
      shards_loop by_signature label_id apply shards
          (note_shard (exact_sender_signature shard) found s)

    -- the filters that are created, and then those that are deleted
    unfoldable pub change_filters :
        List ExactSenderFilter → List (List Text) → Text → Bool → Exec Calls Sharding
    unfolding shards_loop delete_loop index_filters add_undesired
    change_filters existing shards label_id apply =
        let (by_signature, superfluous) = index_filters existing [] [] in
        do
          s ← shards_loop by_signature label_id apply shards (record {
            filter_id_by_signature = [];
            created_signatures = [];
            desired_signatures = [];
          })
          let delete_ids = sort_strings (add_undesired s.desired_signatures existing superfluous)
          delete_loop (if apply then delete_ids else [])
          pure s

    -- the label filters of the group, for its error or for the ids of its shards
    abbrev pub conclude_group :
        VisibilityGroup → List (List Text) → Result Sharding → GroupReconcile
    conclude_group group shards (err message) = record {
      label_filters = fail_senders group.label group.emails message [];
      error = some message;
    }
    conclude_group group shards (ok s) = record {
      label_filters = judge_senders group.label group.emails (sign_shards shards []) s [];
      error = none;
    }

    unfoldable pub reconcile_visibility_group :
        List (Option Filter) → VisibilityGroup → Bool → Calls → GroupReconcile × Calls
    unfolding desired_senders change_filters judge_senders fail_senders sign_shards
    reconcile_visibility_group filters group apply calls =
        let existing = exact_sender_visibility_filters filters group.label_id in
        let shards = shard_exact_senders (desired_senders existing group.emails) in
        let (outcome, after) = change_filters existing shards group.label_id apply calls in
        (conclude_group group shards outcome, after)

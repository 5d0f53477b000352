-- ===== src/Gmail/Groups/Made.antt =====
-- internal/gmail/gmail.go: the calls of each part of the reconciliation of a group.
use gmail_visibility_manager.Base.{
  List, [], ◌∷◌, ◌++◌, ◌≡◌, refl, sym, ap, ◌∙◌, Bool, true, false, is_empty, Option, none, some,
  All, All-append, All-imp, Any, Any-imp, Bool-cases, Option-cases, inl, inr, if-both,
}
use gmail_visibility_manager.Text.{Text, text, trim_space}
use gmail_visibility_manager.Result.{Result, ok, err, Result-cases}
use gmail_visibility_manager.Exec.{pure, lift}
use gmail_visibility_manager.Dict.{Dict, lookup}
use gmail_visibility_manager.Std.{Std}
use gmail_visibility_manager.Gmail.Senders.{is_member, format_exact_sender_group}
use gmail_visibility_manager.Gmail.Terms.{exact_sender_signature}
use gmail_visibility_manager.Gmail.Api.{
  Api, Call, Calls, create_filter, remove_filter, sender_filter,
  create_managed_visibility_group_filter, create_checked, delete_filter,
}
use gmail_visibility_manager.Gmail.Api.Log.{
  Extends-refl, Makes, Makes-lift, Makes-request, Makes->>=, Makes-if, create_checked-Makes,
}
use gmail_visibility_manager.Gmail.Matching.{ExactSenderFilter}
use gmail_visibility_manager.Gmail.Groups.{
  Sharding, add_member, index_filters, add_undesired, create_missing, find_or_create, note_shard,
  shards_loop, delete_loop,
}

-- one filter for the senders of a shard
abbrev pub IsGroupCreate : ⦃std : Std⦄ → List (List Text) → Text → Call → Type 0
IsGroupCreate shards label_id (create_filter filter) =
    Any (λ shard. filter ≡ sender_filter (format_exact_sender_group shard) label_id) shards
IsGroupCreate shards label_id _ = ⊥

-- the removal of one of the filters
abbrev pub IsGroupDelete : List ExactSenderFilter → Call → Type 0
IsGroupDelete existing (remove_filter id) =
    Any (λ (filter : ExactSenderFilter). trim_space filter.id ≡ id) existing
IsGroupDelete existing _ = ⊥

-- the id of one of the filters
abbrev pub IsIdOf : List ExactSenderFilter → Text → Type 0
IsIdOf existing id = Any (λ (filter : ExactSenderFilter). filter.id ≡ id) existing

add_member-All :
    (P : Text → Type 0) (set : List Text) (value : Text)
    → P value
    → All P set
    → All P (add_member set value)
unfolding add_member
add_member-All P set value p ps =
    if-both (All P) (is_member value set) ps (All-append P set (value ∷ []) ps (p, tt))

pub index_filters-All :
    (P : Text → Type 0) (filters : List ExactSenderFilter) (d : Dict ExactSenderFilter)
    (ids : List Text)
    → All (λ (filter : ExactSenderFilter). P filter.id) filters
    → All P ids
    → All P (index_filters filters d ids).1
unfolding index_filters
index_filters-All P [] d ids _ q = q
index_filters-All P (filter ∷ filters) d ids (p, ps) q =
    index_filters-All P filters _ _ ps (if-both (All P) _ (add_member-All P ids filter.id p q) q)

pub add_undesired-All :
    (P : Text → Type 0) (desired : List Text) (filters : List ExactSenderFilter) (ids : List Text)
    → All (λ (filter : ExactSenderFilter). P filter.id) filters
    → All P ids
    → All P (add_undesired desired filters ids)
unfolding add_undesired
add_undesired-All P desired [] ids _ q = q
add_undesired-All P desired (filter ∷ filters) ids (p, ps) q =
    add_undesired-All P desired filters _ ps
      (if-both (All P) (is_member filter.signature desired) q (add_member-All P ids filter.id p q))

-- each filter has its own id
pub all_ids :
    (filters : List ExactSenderFilter)
    → All (λ (filter : ExactSenderFilter). IsIdOf filters filter.id) filters
all_ids [] = tt
all_ids (filter ∷ rest) = (
  inl refl,
  All-imp (λ (f : ExactSenderFilter). IsIdOf rest f.id)
      (λ (f : ExactSenderFilter). IsIdOf (filter ∷ rest) f.id) (λ f h. inr h) rest (all_ids rest),
)

pub all_in : {A : Type 0} (xs : List A) → All (λ x. Any (λ y. y ≡ x) xs) xs
all_in [] = tt
all_in (x ∷ xs) = (
  inl refl,
  All-imp (λ y. Any (λ z. z ≡ y) xs) (λ y. Any (λ z. z ≡ y) (x ∷ xs)) (λ y h. inr h) xs (all_in xs),
)

module _ ⦃api : Api⦄ where
  delete_filter-Makes :
      (existing : List ExactSenderFilter) (id : Text)
      → IsIdOf existing id
      → Makes (IsGroupDelete existing) (delete_filter id)
  unfolding delete_filter
  delete_filter-Makes existing id h calls = elim (Bool-cases (is_empty (trim_space id))) [
    | inl blank ↦ rw blank (Extends-refl calls)
    | inr id_text ↦ rw id_text (
        Makes-request (remove_filter (trim_space id)) (λ calls. api.delete calls (trim_space id))
          (Any-imp _ _ (λ (f : ExactSenderFilter) e. ap trim_space e) existing h) calls)
  ]

  pub delete_loop-Makes :
      (existing : List ExactSenderFilter) (ids : List Text)
      → All (IsIdOf existing) ids
      → Makes (IsGroupDelete existing) (delete_loop ids)
  unfolding delete_loop
  delete_loop-Makes existing [] _ = Makes-lift (ok tt)
  delete_loop-Makes existing (id ∷ ids) (p, ps) =
      Makes->>= (delete_filter id) (λ _. delete_loop ids) (delete_filter-Makes existing id p)
        (λ _. delete_loop-Makes existing ids ps)

module _ ⦃std : Std⦄ ⦃api : Api⦄ where
  create-Makes :
      (shards : List (List Text)) (label_id : Text) (shard : List Text)
      → Any (λ s. s ≡ shard) shards
      → Makes
          (IsGroupCreate shards label_id)
          (create_managed_visibility_group_filter shard label_id)
  unfolding create_managed_visibility_group_filter
  create-Makes shards label_id shard h =
      let from = format_exact_sender_group shard in
      let prefix = text "create gmail visibility filter: " in
      let refusal : Result Text = err (prefix ++ text "at least one sender is required") in
      Makes-if (is_empty from) (lift refusal) (create_checked prefix (sender_filter from label_id))
        (Makes-lift refusal)
        (create_checked-Makes (IsGroupCreate shards label_id) prefix (sender_filter from label_id) (
          Any-imp _ _
            (λ s e. ap (λ s. sender_filter (format_exact_sender_group s) label_id) (sym e)) shards
            h))

  create_missing-Makes :
      (shards : List (List Text)) (label_id : Text) (apply : Bool) (shard : List Text)
      → Any (λ s. s ≡ shard) shards
      → Makes (IsGroupCreate shards label_id) (create_missing label_id apply shard)
  unfolding create_missing
  create_missing-Makes shards label_id false shard h =
      Makes-lift {A = Option (Text × Bool)} (ok none)
  create_missing-Makes shards label_id true shard h =
      Makes->>= {B = Option (Text × Bool)} (create_managed_visibility_group_filter shard label_id)
        (λ id. pure (some (id, true))) (create-Makes shards label_id shard h)
        (λ id. Makes-lift {A = Option (Text × Bool)} (ok (some (id, true))))

  find_or_create-Makes :
      (shards : List (List Text)) (d : Dict ExactSenderFilter) (label_id : Text) (apply : Bool)
      (shard : List Text)
      → Any (λ s. s ≡ shard) shards
      → Makes (IsGroupCreate shards label_id) (find_or_create d label_id apply shard)
  unfolding find_or_create
  find_or_create-Makes shards d label_id apply shard h calls =
      elim (Option-cases (lookup d (exact_sender_signature shard))) [
        | inr (filter, p) ↦ rw (p, find_or_create) (Extends-refl calls)
        | inl p ↦ rw (p, find_or_create) (create_missing-Makes shards label_id apply shard h calls)
      ]

  pub shards_loop-Makes :
      (all : List (List Text)) (d : Dict ExactSenderFilter) (label_id : Text) (apply : Bool)
      (shards : List (List Text)) (s : Sharding)
      → All (λ shard. Any (λ s. s ≡ shard) all) shards
      → Makes (IsGroupCreate all label_id) (shards_loop d label_id apply shards s)
  unfolding shards_loop
  shards_loop-Makes all d label_id apply [] s _ = Makes-lift (ok s)
  shards_loop-Makes all d label_id apply (shard ∷ shards) s (h, hs) =
      Makes->>= (find_or_create d label_id apply shard) _
        (find_or_create-Makes all d label_id apply shard h)
        (λ found.
          shards_loop-Makes all d label_id apply shards
            (note_shard (exact_sender_signature shard) found s) hs)

  -- without `apply` the loop over the shards calls nothing
  find_or_create_idle :
      (d : Dict ExactSenderFilter) (label_id : Text) (shard : List Text) (calls : Calls)
      → (find_or_create d label_id false shard calls).1 ≡ calls
  unfolding find_or_create create_missing
  find_or_create_idle d label_id shard calls =
      elim (Option-cases (lookup d (exact_sender_signature shard))) [
        | inr (filter, p) ↦ rw (p, find_or_create)
        | inl p ↦ rw (p, find_or_create)
      ]

  pub shards_loop_idle :
      (d : Dict ExactSenderFilter) (label_id : Text) (shards : List (List Text)) (s : Sharding)
      (calls : Calls)
      → (shards_loop d label_id false shards s calls).1 ≡ calls
  unfolding shards_loop
  shards_loop_idle d label_id [] s calls = refl
  shards_loop_idle d label_id (shard ∷ shards) s calls =
      let o = find_or_create d label_id false shard calls in
      elim (Result-cases o.0) [
        | inr (e, p) ↦ rw p (find_or_create_idle d label_id shard calls)
        | inl (found, p) ↦
            rw p (
              shards_loop_idle d label_id shards _ o.1 ∙ find_or_create_idle d label_id shard calls)
      ]

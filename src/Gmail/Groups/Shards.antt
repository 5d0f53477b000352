-- ===== src/Gmail/Groups/Shards.antt =====
-- internal/gmail/gmail.go: each shard has a filter behind the loop over the shards.
use gmail_visibility_manager.Base.{
  List, [], ◌∷◌, ◌≡◌, Bool, true, false, is_empty, Option, none, some, All, Bool-cases,
  Option-cases, inl, inr, if-both, if◌then◌else◌, arith,
}
use gmail_visibility_manager.Text.{Text, ◌==◌, ==_refl, trim_space}
use gmail_visibility_manager.Result.{Result, ok, err, Result-cases}
use gmail_visibility_manager.Exec.{pure, continue}
use gmail_visibility_manager.Dict.{Dict, lookup, insert}
use gmail_visibility_manager.Dict.Laws.{
  lookup-insert, EachEntry, insert-EachEntry, lookup-EachEntry,
}
use gmail_visibility_manager.Std.{Std}
use gmail_visibility_manager.Gmail.Senders.{format_exact_sender_group}
use gmail_visibility_manager.Gmail.Terms.{exact_sender_signature}
use gmail_visibility_manager.Gmail.Api.{
  Api, Calls, Filter, create_managed_visibility_group_filter, create_checked, checked_id,
}
use gmail_visibility_manager.Gmail.Matching.{ExactSenderFilter}
use gmail_visibility_manager.Gmail.Grouping.{text_at}
use gmail_visibility_manager.Gmail.Groups.{
  Sharding, index_filters, create_missing, find_or_create, note_shard, shards_loop,
}

-- not blank, as an id
abbrev pub IsId : Text → Type 0
IsId id = is_empty id ≡ false

-- each filter of the index has an id
abbrev pub HasIds : Dict ExactSenderFilter → Type 0
HasIds = EachEntry (λ _ (filter : ExactSenderFilter). IsId filter.id)

pub index_filters-HasIds :
    (filters : List ExactSenderFilter) (d : Dict ExactSenderFilter) (ids : List Text)
    → All (λ (filter : ExactSenderFilter). IsId filter.id) filters
    → HasIds d
    → HasIds (index_filters filters d ids).0
unfolding index_filters
index_filters-HasIds [] d ids _ q = q
index_filters-HasIds (filter ∷ filters) d ids (p, ps) q =
    index_filters-HasIds filters _ _ ps
      (if-both HasIds _ q (insert-EachEntry _ d filter.signature filter p q))

-- a signature has the id of a filter
abbrev pub HasFilter : Sharding → Text → Type 0
HasFilter s signature = IsId (text_at s.filter_id_by_signature signature)

-- no signature loses its filter
abbrev Grows : Sharding → Sharding → Type 0
Grows s t = (signature : Text) → HasFilter s signature → HasFilter t signature

text_at-insert :
    (d : Dict Text) (k j v : Text) → text_at (insert d k v) j ≡ (if k == j then v else text_at d j)
unfolding text_at
text_at-insert d k j v = ground (arith, lookup-insert d k j v)

note_shard-HasFilter :
    (signature id : Text) (created : Bool) (s : Sharding)
    → IsId id
    → HasFilter (note_shard signature (some (id, created)) s) signature
unfolding note_shard
note_shard-HasFilter signature id created s h =
    rw (text_at-insert s.filter_id_by_signature signature signature id, ==_refl signature) h

note_shard-Grows :
    (signature id : Text) (created : Bool) (s : Sharding)
    → IsId id
    → Grows s (note_shard signature (some (id, created)) s)
unfolding note_shard
note_shard-Grows signature id created s h j k =
    rw (text_at-insert s.filter_id_by_signature signature j id) (if-both IsId (signature == j) h k)

-- what the loop over the shards leaves where it returns no error
module _ ⦃std : Std⦄ ⦃api : Api⦄ where
  -- the id that Gmail gave
  GivesId : Result Text → Type 0
  GivesId (ok id) = IsId id
  GivesId (err _) = Unit

  checked_id-GivesId : (prefix id : Text) → GivesId (checked_id prefix id)
  unfolding GivesId
  checked_id-GivesId prefix id = elim (Bool-cases (is_empty (trim_space id))) [
    | inl blank ↦ rw blank tt
    | inr id_text ↦ rw id_text id_text
  ]

  create_checked-GivesId :
      (prefix : Text) (filter : Filter) (calls : Calls)
      → GivesId (create_checked prefix filter calls).0
  unfolding create_checked
  create_checked-GivesId prefix filter calls = elim (Result-cases (api.create calls filter)) [
    | inr (e, p) ↦ rw p (unfold GivesId in tt)
    | inl (id, p) ↦ rw p (checked_id-GivesId prefix id)
  ]

  create-GivesId :
      (shard : List Text) (label_id : Text) (calls : Calls)
      → GivesId (create_managed_visibility_group_filter shard label_id calls).0
  unfolding create_managed_visibility_group_filter
  create-GivesId shard label_id calls =
      elim (Bool-cases (is_empty (format_exact_sender_group shard))) [
        | inl nobody ↦ rw nobody (unfold GivesId in tt)
        | inr somebody ↦ rw somebody (create_checked-GivesId _ _ calls)
      ]

  FindsShard : Result (Option (Text × Bool)) → Type 0
  FindsShard (ok (some (id, _))) = IsId id
  FindsShard (ok none) = ⊥
  FindsShard (err _) = Unit

  create_missing-FindsShard :
      (label_id : Text) (shard : List Text) (calls : Calls)
      → FindsShard (create_missing label_id true shard calls).0
  unfolding create_missing
  create_missing-FindsShard label_id shard calls =
      found (create_managed_visibility_group_filter shard label_id calls)
        (create-GivesId shard label_id calls)
    where
      found :
          (o : Result Text × Calls)
          → GivesId o.0
          → FindsShard (continue o.0 (λ id. pure (some (id, true))) o.1).0
      found (err e, after) g = unfold FindsShard in tt
      found (ok id, after) g = unfold FindsShard in unfold GivesId in g

  find_or_create-FindsShard :
      (d : Dict ExactSenderFilter) (label_id : Text) (shard : List Text) (calls : Calls)
      → HasIds d
      → FindsShard (find_or_create d label_id true shard calls).0
  unfolding find_or_create
  find_or_create-FindsShard d label_id shard calls h =
      elim (Option-cases (lookup d (exact_sender_signature shard))) [
        | inr (filter, p) ↦
            rw (p, find_or_create) (unfold FindsShard in lookup-EachEntry _ d _ filter h p)
        | inl p ↦ rw (p, find_or_create) (create_missing-FindsShard label_id shard calls)
      ]

  -- each shard has a filter in the end
  unfoldable pub Covers : Sharding → List (List Text) → Result Sharding → Type 0
  Covers s shards (err _) = Unit
  Covers s shards (ok t) =
      Grows s t × All (λ shard. HasFilter t (exact_sender_signature shard)) shards

  Covers-cons :
      (s t : Sharding) (shard : List Text) (shards : List (List Text)) (r : Result Sharding)
      → Grows s t
      → HasFilter t (exact_sender_signature shard)
      → Covers t shards r
      → Covers s (shard ∷ shards) r
  unfolding Covers
  Covers-cons s t shard shards (err _) g h c = tt
  Covers-cons s t shard shards (ok u) g h (c, cs) = ((λ k x. c k (g k x)), (c _ h, cs))

  pub shards_loop-Covers :
      (d : Dict ExactSenderFilter) (label_id : Text) (shards : List (List Text)) (s : Sharding)
      (calls : Calls)
      → HasIds d
      → Covers s shards (shards_loop d label_id true shards s calls).0
  unfolding shards_loop Covers
  shards_loop-Covers d label_id [] s calls h = ((λ k g. g), tt)
  shards_loop-Covers d label_id (shard ∷ shards) s calls h =
      let o = find_or_create d label_id true shard calls in
      step o (find_or_create-FindsShard d label_id shard calls h) (λ found after.
        shards_loop-Covers d label_id shards (note_shard (exact_sender_signature shard) found s)
          after h)
    where
      step :
          (o : Result (Option (Text × Bool)) × Calls)
          → FindsShard o.0
          → ((found : Option (Text × Bool)) (after : Calls)
              → Covers
                  (note_shard (exact_sender_signature shard) found s)
                  shards
                  (shards_loop d label_id true shards
                    (note_shard (exact_sender_signature shard) found s)
                    after).0)
          → Covers s
              (shard ∷ shards)
              (continue o.0
                (λ found.
                  shards_loop d label_id true shards
                    (note_shard (exact_sender_signature shard) found s))
                o.1).0
      step (err e, after) f more = tt
      step (ok none, after) f more = absurd (unfold FindsShard in f)
      step (ok (some (id, created)), after) f more =
          let sig = exact_sender_signature shard in
          Covers-cons s (note_shard sig (some (id, created)) s) shard shards _
            (note_shard-Grows sig id created s (unfold FindsShard in f))
            (note_shard-HasFilter sig id created s (unfold FindsShard in f))
            (more (some (id, created)) after)

-- ===== src/Gmail/Groups/Covered.antt =====
-- internal/gmail/gmail.go: after the reconciliation of a group each of its senders has a filter.
use gmail_visibility_manager.Base.{
  List, [], ◌∷◌, ◌≡◌, ◌⊎◌, refl, ◌∙◌, Bool, true, false, ◌||◌, is_empty, Option, none, some, All,
  Bool-cases, Option-cases, inl, inr, arith,
}
use gmail_visibility_manager.Text.{Text, text}
use gmail_visibility_manager.Result.{Result, ok, err}
use gmail_visibility_manager.Exec.{pure, continue, ◌>>◌}
use gmail_visibility_manager.Dict.{Dict, lookup, insert, is_some}
use gmail_visibility_manager.Dict.Laws.{
  lookup-insert, EachEntry, insert-EachEntry, lookup-EachEntry,
}
use gmail_visibility_manager.Dict.Keyed.{has_key}
use gmail_visibility_manager.Std.{Std}
use gmail_visibility_manager.Request.{normalize_email}
use gmail_visibility_manager.Gmail.{LabelFilter}
use gmail_visibility_manager.Gmail.Senders.{is_member, shard_exact_senders}
use gmail_visibility_manager.Gmail.Senders.Shards.{concat}
use gmail_visibility_manager.Gmail.Terms.{exact_sender_signature}
use gmail_visibility_manager.Gmail.Api.{Api, Calls, Filter}
use gmail_visibility_manager.Gmail.Matching.{
  ExactSenderFilter, exact_sender_visibility_filters, exact_sender_terms_from_filter, filter_id,
}
use gmail_visibility_manager.Gmail.Grouping.{VisibilityGroup, text_at}
use gmail_visibility_manager.Gmail.Groups.{
  Sharding, index_filters, desired_senders, sign_shards, judge_sender, judge_senders, shards_loop,
  delete_loop, change_filters, conclude_group, reconcile_visibility_group,
}
use gmail_visibility_manager.Gmail.Groups.Signing.{
  sign_shards-EachEntry, is_some-sign_shards, sender_in_shards,
}
use gmail_visibility_manager.Gmail.Groups.Shards.{
  IsId, index_filters-HasIds, HasFilter, Covers, shards_loop-Covers,
}

-- the filter of a sender as the last loop judges it
judged : Text → Dict Text → Sharding → Text → LabelFilter
judged label signatures s email =
    judge_sender label (text_at s.filter_id_by_signature (text_at signatures email))
      (is_member (text_at signatures email) s.created_signatures)

judge_senders-EachEntry :
    (label : Text) (emails : List Text) (signatures : Dict Text) (s : Sharding)
    (d : Dict LabelFilter)
    → EachEntry (λ k v. v ≡ judged label signatures s k) d
    → EachEntry (λ k v. v ≡ judged label signatures s k) (judge_senders label emails signatures s d)
unfolding judge_senders judged
judge_senders-EachEntry label [] signatures s d q = q
judge_senders-EachEntry label (e ∷ es) signatures s d q =
    judge_senders-EachEntry label es signatures s _
      (insert-EachEntry (λ k v. v ≡ judged label signatures s k) d e _ refl q)

is_some-judge_senders :
    (label : Text) (emails : List Text) (signatures : Dict Text) (s : Sharding)
    (d : Dict LabelFilter) (k : Text)
    → is_some (lookup (judge_senders label emails signatures s d) k)
      ≡ (is_member k emails || is_some (lookup d k))
unfolding judge_senders has_key
is_some-judge_senders label [] signatures s d k = refl
is_some-judge_senders label (e ∷ es) signatures s d k =
    is_some-judge_senders label es signatures s _ k ∙ one_more e k es d _
  where
    one_more :
        (e k : Text) (es : List Text) (d : Dict LabelFilter) (v : LabelFilter)
        → (is_member k es || is_some (lookup (insert d e v) k))
          ≡ (is_member k (e ∷ es) || is_some (lookup d k))
    one_more e k es d v = ground (arith, lookup-insert d e k v)

-- a filter with an id, found or created, that enforces the label
pub record IsInPlace (label : Text) (f : LabelFilter) : Type 0 where
  pub labelled : f.label ≡ label
  pub id : is_empty f.gmail_filter_id ≡ false
  pub primary : f.primary ≡ true
  pub status : (f.status ≡ text "ok") ⊎ (f.status ≡ text "created")

judge_sender-IsInPlace :
    (label id : Text) (created : Bool) → IsId id → IsInPlace label (judge_sender label id created)
unfolding judge_sender
judge_sender-IsInPlace label id true h = record {
  labelled = refl;
  id = h;
  primary = refl;
  status = rw h (inr refl);
}
judge_sender-IsInPlace label id false h = record {
  labelled = refl;
  id = h;
  primary = refl;
  status = rw h (inl refl);
}

pub exact_sender_visibility_filters-IsId :
    ⦃std : Std⦄ (filters : List (Option Filter)) (label_id : Text)
    → All
        (λ (filter : ExactSenderFilter). is_empty filter.id ≡ false)
        (exact_sender_visibility_filters filters label_id)
unfolding exact_sender_visibility_filters
exact_sender_visibility_filters-IsId [] label_id = tt
exact_sender_visibility_filters-IsId (filter ∷ filters) label_id =
    let rest = exact_sender_visibility_filters-IsId filters label_id in
    elim (Bool-cases (is_empty (filter_id filter))) [
      | inl blank ↦ rw (blank, exact_sender_visibility_filters) rest
      | inr id ↦ elim (Option-cases (exact_sender_terms_from_filter filter label_id)) [
        | inl p ↦
            rw (id, exact_sender_visibility_filters) (rw (p, exact_sender_visibility_filters) rest)
        | inr (terms, p) ↦
            rw (id, exact_sender_visibility_filters)
              (rw (p, exact_sender_visibility_filters) (id, rest))
      ]
    ]

module _ ⦃std : Std⦄ ⦃api : Api⦄ where
  -- the sender's filter in the conclusion of a group
  judged-IsInPlace :
      (label : Text) (shards : List (List Text)) (t : Sharding) (k : Text)
      → All (λ shard. HasFilter t (exact_sender_signature shard)) shards
      → is_member k (concat shards) ≡ true
      → IsInPlace label (judged label (sign_shards shards []) t k)
  unfolding judged
  judged-IsInPlace label shards t k c m =
      let signatures = sign_shards shards [] in
      elim (Option-cases (lookup signatures k)) [
        | inl p ↦ absurd (unsigned (is_some-sign_shards k shards []) p)
        | inr (signature, p) ↦ judge_sender-IsInPlace label _ _ (
            unfold text_at in
            rw (p, text_at)
              (lookup-EachEntry (λ _ v. HasFilter t v) signatures k signature
                (sign_shards-EachEntry (HasFilter t) shards [] c tt) p))
      ]
    where
      unsigned :
          is_some (lookup (sign_shards shards []) k)
            ≡ (is_member k (concat shards) || is_some (lookup {V = Text} [] k))
          → lookup (sign_shards shards []) k ≡ none
          → ⊥
      unsigned h p = ground (arith, h, p, m)

  -- the conclusion behind the deletions
  Concluded : VisibilityGroup → List (List Text) → Text → Result Sharding → Type 0
  Concluded group shards email outcome =
      (conclude_group group shards outcome).error ≡ none
      → (f : LabelFilter) × (lookup (conclude_group group shards outcome).label_filters email
          ≡ some f)
        × IsInPlace group.label f

  deleted-Concluded :
      (group : VisibilityGroup) (shards : List (List Text)) (s t : Sharding) (email : Text)
      (o : Result (Unit {0}) × Calls)
      → Covers s shards (ok t)
      → is_member email (concat shards) ≡ true
      → is_member email group.emails ≡ true
      → Concluded group shards email (continue o.0 (λ _. pure t) o.1).0
  unfolding Concluded Covers
  deleted-Concluded group shards s t email (err _, after) c in_shards m e = cc
  deleted-Concluded group shards s t email (ok _, after) (_, c) in_shards m e =
      let result = judge_senders group.label group.emails (sign_shards shards []) t [] in
      elim (Option-cases (lookup result email)) [
        | inl p ↦ absurd (
            judged_none
              (is_some-judge_senders group.label group.emails (sign_shards shards []) t [] email) p)
        | inr (f, p) ↦ (
          f,
          p,
          rw
              (lookup-EachEntry (λ k v. v ≡ judged group.label (sign_shards shards []) t k) result
                email f
                (judge_senders-EachEntry group.label group.emails (sign_shards shards []) t [] tt)
                p)
              (judged-IsInPlace group.label shards t email c in_shards),
        )
      ]
    where
      judged_none :
          is_some
              (lookup (judge_senders group.label group.emails (sign_shards shards []) t []) email)
            ≡ (is_member email group.emails || is_some (lookup {V = LabelFilter} [] email))
          → lookup (judge_senders group.label group.emails (sign_shards shards []) t []) email
            ≡ none
          → ⊥
      judged_none h p = ground (arith, h, p, m)

  shards-Concluded :
      (group : VisibilityGroup) (shards : List (List Text)) (s : Sharding) (email : Text)
      (o : Result Sharding × Calls) (ids : Sharding → List Text)
      → Covers s shards o.0
      → is_member email (concat shards) ≡ true
      → is_member email group.emails ≡ true
      → Concluded group shards email (continue o.0 (λ t. delete_loop (ids t) >> pure t) o.1).0
  unfolding Concluded
  shards-Concluded group shards s email (err _, after) ids c in_shards m = λ e. cc
  shards-Concluded group shards s email (ok t, after) ids c in_shards m =
      unfold Concluded in
      deleted-Concluded group shards s t email (delete_loop (ids t) after) c in_shards m

  -- Where the reconciliation of a group with `apply` returns no error, each of its senders, an address
  -- in normal form, has a filter in place afterwards: it has an id, and was found or created.
  pub reconcile_visibility_group-IsInPlace :
      (filters : List (Option Filter)) (group : VisibilityGroup) (calls : Calls) (email : Text)
      → (reconcile_visibility_group filters group true calls).0.error ≡ none
      → normalize_email email ≡ ok email
      → is_member email group.emails ≡ true
      → (f : LabelFilter) × (lookup
            (reconcile_visibility_group filters group true calls).0.label_filters
            email
          ≡ some f)
        × IsInPlace group.label f
  unfolding reconcile_visibility_group change_filters
  reconcile_visibility_group-IsInPlace filters group calls email e n m =
      let existing = exact_sender_visibility_filters filters group.label_id in
      let shards = shard_exact_senders (desired_senders existing group.emails) in
      let start : Sharding = record {
        filter_id_by_signature = [];
        created_signatures = [];
        desired_signatures = [];
      } in
      let d = index_filters existing [] [] in
      unfold Concluded in
      shards-Concluded group shards start email
        (shards_loop d.0 group.label_id true shards start calls) _
        (shards_loop-Covers d.0 group.label_id shards start calls (
          index_filters-HasIds existing [] []
            (exact_sender_visibility_filters-IsId filters group.label_id) tt))
        (sender_in_shards existing group.emails email n m) m e

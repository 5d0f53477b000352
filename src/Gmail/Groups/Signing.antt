-- ===== src/Gmail/Groups/Signing.antt =====
-- internal/gmail/gmail.go: the signature of the shard that holds a sender.
use gmail_visibility_manager.Base.{
  List, [], ◌∷◌, ◌++◌, ◌≡◌, refl, true, ◌||◌, All, Bool-cases, inl, inr, arith,
}
use gmail_visibility_manager.Text.{Text, ◌==◌, ==_iff, ==_refl}
use gmail_visibility_manager.Result.{ok}
use gmail_visibility_manager.Dict.{Dict, lookup, insert, is_some}
use gmail_visibility_manager.Dict.Laws.{lookup-insert, EachEntry, insert-EachEntry}
use gmail_visibility_manager.Dict.Keyed.{has_key}
use gmail_visibility_manager.Std.{Std}
use gmail_visibility_manager.Request.{normalize_email}
use gmail_visibility_manager.Gmail.Senders.{is_member, shard_exact_senders}
use gmail_visibility_manager.Gmail.Senders.Normal.{
  is_member-append, reads_as, some_reads_as, normalized_exact_senders_lem,
}
use gmail_visibility_manager.Gmail.Senders.Shards.{concat, shard_exact_senders_lem}
use gmail_visibility_manager.Gmail.Terms.{exact_sender_signature}
use gmail_visibility_manager.Gmail.Matching.{ExactSenderFilter}
use gmail_visibility_manager.Gmail.Groups.{
  add_member, add_members, desired_senders, existing_terms, sign_shard, sign_shards,
}

is_member-add_members :
    (k : Text) (values set : List Text)
    → is_member k (add_members set values) ≡ (is_member k set || is_member k values)
unfolding add_members add_member has_key
is_member-add_members k [] set = ground arith
is_member-add_members k (v ∷ vs) set = elim (Bool-cases (is_member v set)) [
  | inl old ↦ ground (arith, old, is_member-add_members k vs set, ==_iff v k)
  | inr new ↦
      ground (arith, new, is_member-add_members k vs (set ++ v ∷ []), is_member-append k v set)
]

-- the senders of the shards have a signature each
sign_shard-EachEntry :
    (P : Text → Type 0) (signature : Text) (shard : List Text) (d : Dict Text)
    → P signature
    → EachEntry (λ _ v. P v) d
    → EachEntry (λ _ v. P v) (sign_shard signature shard d)
unfolding sign_shard
sign_shard-EachEntry P signature [] d p q = q
sign_shard-EachEntry P signature (e ∷ es) d p q =
    sign_shard-EachEntry P signature es _ p (insert-EachEntry (λ _ v. P v) d e signature p q)

is_some-sign_shard :
    (k signature : Text) (shard : List Text) (d : Dict Text)
    → is_some (lookup (sign_shard signature shard d) k)
      ≡ (is_member k shard || is_some (lookup d k))
unfolding sign_shard has_key
is_some-sign_shard k signature [] d = refl
is_some-sign_shard k signature (e ∷ es) d =
    ground (
      arith,
      is_some-sign_shard k signature es (insert d e signature),
      lookup-insert d e k signature,
    )

is_member-++ :
    (k : Text) (xs ys : List Text) → is_member k (xs ++ ys) ≡ (is_member k xs || is_member k ys)
unfolding has_key
is_member-++ k [] ys = refl
is_member-++ k (x ∷ xs) ys = ground (arith, is_member-++ k xs ys)

module _ ⦃std : Std⦄ where
  pub sign_shards-EachEntry :
      (P : Text → Type 0) (shards : List (List Text)) (d : Dict Text)
      → All (λ shard. P (exact_sender_signature shard)) shards
      → EachEntry (λ _ v. P v) d
      → EachEntry (λ _ v. P v) (sign_shards shards d)
  unfolding sign_shards
  sign_shards-EachEntry P [] d _ q = q
  sign_shards-EachEntry P (shard ∷ shards) d (p, ps) q =
      sign_shards-EachEntry P shards _ ps (sign_shard-EachEntry P _ shard d p q)

  pub is_some-sign_shards :
      (k : Text) (shards : List (List Text)) (d : Dict Text)
      → is_some (lookup (sign_shards shards d) k)
        ≡ (is_member k (concat shards) || is_some (lookup d k))
  unfolding sign_shards has_key
  is_some-sign_shards k [] d = refl
  is_some-sign_shards k (shard ∷ shards) d = ground (
    arith,
    is_some-sign_shards k shards (sign_shard (exact_sender_signature shard) shard d),
    is_some-sign_shard k (exact_sender_signature shard) shard d,
    is_member-++ k shard (concat shards),
  )

  -- a value in normal form is found in the normal form of the list
  pub some_reads_as-member :
      (k : Text) (values : List Text)
      → normalize_email k ≡ ok k
      → is_member k values ≡ true
      → some_reads_as k values ≡ true
  unfolding has_key some_reads_as
  some_reads_as-member k [] n h = cc
  some_reads_as-member k (v ∷ vs) n h = elim (Bool-cases (v == k)) [
    | inl same ↦ ground (arith, reads_same v ((==_iff v k).0 same))
    | inr other ↦ ground (arith, other, some_reads_as-member k vs n (ground arith))
  ]
    where
      reads_same : (v : Text) → v ≡ k → reads_as k v ≡ true
      reads_same v e = rw e (rw (n, reads_as) (==_refl k))

  pub sender_in_shards :
      (existing : List ExactSenderFilter) (emails : List Text) (k : Text)
      → normalize_email k ≡ ok k
      → is_member k emails ≡ true
      → is_member k (concat (shard_exact_senders (desired_senders existing emails))) ≡ true
  sender_in_shards existing emails k n h =
      let desired = desired_senders existing emails in
      rw ((shard_exact_senders_lem desired).0, (normalized_exact_senders_lem desired).1)
        (some_reads_as-member k desired n (
          unfold desired_senders in
          rw
            (normalized_exact_senders_lem
              (add_members (add_members [] (existing_terms existing)) emails)).1
            (some_reads_as-member k _ n (
              ground (
                arith,
                h,
                is_member-add_members k emails (add_members [] (existing_terms existing)),
              )))))

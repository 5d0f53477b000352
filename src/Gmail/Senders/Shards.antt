-- ===== src/Gmail/Senders/Shards.antt =====
-- internal/gmail/gmail.go: the shards of a list of senders.
use mathlib.Core.Path.{subst}
use gmail_visibility_manager.Base.{
  ℕ, ◌+◌, ◌≤◌, ◌<◌, length, length-append, List, [], ◌∷◌, ◌++◌, append_assoc, ◌≡◌, ◌⊎◌, inl, inr,
  refl, false, ◌||◌, ltb, leb, is_empty, arith, All, Bool-cases,
}
use gmail_visibility_manager.Text.{Text, len, join}
use gmail_visibility_manager.Std.{Std}
use gmail_visibility_manager.Gmail.Senders.{
  shard_loop, shard_exact_senders, normalized_exact_senders, separator,
  max_exact_sender_group_terms, max_exact_sender_group_length,
}

abbrev pub concat {ℓ} : {A : Type ℓ} → List (List A) → List A
concat [] = []
concat (xs ∷ xss) = xs ++ concat xss

-- what a shard must satisfy; a single sender may be longer than the limit
pub record IsShard (shard : List Text) : Type 0 where
  pub nonempty : is_empty shard ≡ false
  pub terms : length shard ≤ max_exact_sender_group_terms
  pub fits : (len (join shard separator) ≤ max_exact_sender_group_length) ⊎ (length shard ≡ 1)

len-append : (s t : Text) → len (s ++ t) ≡ len s + len t
unfolding len
len-append [] t = omega arith
len-append (c ∷ s) t = omega (arith, len-append s t)

len-join-snoc :
    (ts : List Text) (t : Text)
    → is_empty ts ≡ false
    → len (join (ts ++ t ∷ []) separator) ≡ len (join ts separator) + (len t + len separator)
unfolding join
len-join-snoc [] t h = absurd (ground (arith, h))
len-join-snoc (a ∷ []) t h = omega (arith, len-append a (separator ++ t), len-append separator t)
len-join-snoc (a ∷ b ∷ ts) t h = omega (
  arith,
  len-join-snoc (b ∷ ts) t refl,
  len-append a (separator ++ join ((b ∷ ts) ++ t ∷ []) separator),
  len-append separator (join ((b ∷ ts) ++ t ∷ []) separator),
  len-append a (separator ++ join (b ∷ ts) separator),
  len-append separator (join (b ∷ ts) separator),
)

-- the shard under construction and its length
record IsCurrent (current : List Text) (n : ℕ) : Type 0 where
  measured : len (join current separator) ≡ n
  shard : (current ≡ []) ⊎ IsShard current

pub shard_loop-concat :
    (values current : List Text) (n : ℕ) → concat (shard_loop values current n) ≡ current ++ values
unfolding shard_loop
shard_loop-concat [] [] n = refl
shard_loop-concat [] (c ∷ cs) n = refl
shard_loop-concat (v ∷ vs) current n = ground (
  arith,
  shard_loop-concat vs (v ∷ []) (len v),
  shard_loop-concat vs (current ++ v ∷ []) (n + len v),
  shard_loop-concat vs (current ++ v ∷ []) (n + (len v + len separator)),
  append_assoc current (v ∷ []) vs,
)

single-IsShard : (v : Text) → IsShard (v ∷ [])
single-IsShard v = record { nonempty = refl; terms = omega arith; fits = inr refl }

single-IsCurrent : (v : Text) → IsCurrent (v ∷ []) (len v)
unfolding join
single-IsCurrent v = record { measured = refl; shard = inr (single-IsShard v) }

-- one more sender, where the code adds it
grown-IsCurrent :
    (current : List Text) (v : Text) (n : ℕ)
    → IsCurrent current n
    → is_empty current ≡ false
    → length current < max_exact_sender_group_terms
    → n + (len v + len separator) ≤ max_exact_sender_group_length
    → IsCurrent (current ++ v ∷ []) (n + (len v + len separator))
grown-IsCurrent current v n c some_sender few short =
    let measured : len (join (current ++ v ∷ []) separator) ≡ n + (len v + len separator) =
      omega (arith, len-join-snoc current v some_sender, c.measured) in
    record {
      measured = measured;
      shard = inr (record {
        nonempty = nonempty current;
        terms = omega (arith, length-append current (v ∷ []));
        fits = inl (omega (arith, measured));
      });
    }
  where
    nonempty : (ts : List Text) → is_empty (ts ++ v ∷ []) ≡ false
    nonempty [] = refl
    nonempty (t ∷ ts) = refl

shard_loop-All :
    (values current : List Text) (n : ℕ)
    → IsCurrent current n
    → All IsShard (shard_loop values current n)
unfolding shard_loop
shard_loop-All [] [] n c = tt
shard_loop-All [] (t ∷ ts) n c = elim c.shard [
  | inl e ↦ absurd (ground (arith, e))
  | inr s ↦ (s, tt)
]
shard_loop-All (v ∷ vs) [] n c =
    let zero_length : 0 ≡ n = unfold join len in c.measured in
    let grown : len v ≡ n + len v = omega (arith, zero_length) in
    shard_loop-All vs (v ∷ []) (n + len v) (subst (IsCurrent (v ∷ [])) grown (single-IsCurrent v))
shard_loop-All (v ∷ vs) (t ∷ ts) n c =
    let m = n + (len v + len separator) in
    elim (Bool-cases
      (leb max_exact_sender_group_terms (length (t ∷ ts)) || ltb max_exact_sender_group_length m)) [
        | inl full ↦
            rw (full, shard_loop)
              (elim c.shard [
                | inl e ↦ absurd (ground (arith, e))
                | inr s ↦ (s, shard_loop-All vs (v ∷ []) (len v) (single-IsCurrent v))
              ])
        | inr room ↦
            rw (room, shard_loop)
              (shard_loop-All vs ((t ∷ ts) ++ v ∷ []) m
                (grown-IsCurrent (t ∷ ts) v n c refl (ground (arith, room)) (ground (arith, room))))
      ]

module _ ⦃std : Std⦄ where
  -- The shards of a list of senders are its normal form cut in pieces: nothing is lost, repeated or
  -- reordered. Each piece has 1 to 100 senders, and its text, with " OR " between the senders, has at
  -- most 7000 bytes, unless a single sender is longer by itself.
  pub shard_exact_senders_lem :
      (values : List Text)
      → (concat (shard_exact_senders values) ≡ normalized_exact_senders values)
        × All IsShard (shard_exact_senders values)
  unfolding shard_exact_senders
  shard_exact_senders_lem values =
      let senders = normalized_exact_senders values in
      (
        shard_loop-concat senders [] 0,
        shard_loop-All senders [] 0
            (record { measured = unfold join len in refl; shard = inl refl }),
      )

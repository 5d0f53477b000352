-- ===== src/Gmail/Senders.antt =====
-- internal/gmail/gmail.go: groups of exact senders, as the `from` of one filter holds them.
pub mod Normal
pub mod Shards
use gmail_visibility_manager.Base.{
  ℕ, ◌+◌, length, List, [], ◌∷◌, ◌++◌, Bool, true, false, ◌&&◌, ◌||◌, not, ltb, leb, is_empty,
  if◌then◌else◌,
}
use gmail_visibility_manager.Text.{Text, text, ◌==◌, len, join}
use gmail_visibility_manager.Result.{Result, ok, err}
use gmail_visibility_manager.Dict.Keyed.{has_key}
use gmail_visibility_manager.Sort.{sort_strings}
use gmail_visibility_manager.Std.{Std}
use gmail_visibility_manager.Request.{normalize_email}

abbrev pub max_exact_sender_group_terms : ℕ
max_exact_sender_group_terms = 100

abbrev pub max_exact_sender_group_length : ℕ
max_exact_sender_group_length = 7000

abbrev pub separator : Text
separator = text " OR "

-- whether a list of texts holds one; `seen` holds exactly the members of `result` in Go
abbrev pub is_member : Text → List Text → Bool
is_member = has_key (λ t. t)

-- the loop of shardExactSenders: a shard that is full is given out, and the next one starts
unfoldable pub shard_loop : List Text → List Text → ℕ → List (List Text)
shard_loop [] current current_length = if is_empty current then [] else current ∷ []
shard_loop (value ∷ values) current current_length =
    let added_length = (if is_empty current then len value else len value + len separator) in
    elim (not (is_empty current)
      && (leb max_exact_sender_group_terms (length current)
          || ltb max_exact_sender_group_length (current_length + added_length))) [
            | true ↦ current ∷ shard_loop values (value ∷ []) (len value)
            | false ↦ shard_loop values (current ++ value ∷ []) (current_length + added_length)
          ]

module _ ⦃std : Std⦄ where
  -- the loop of normalizedExactSenders
  unfoldable pub collect_senders : List Text → List Text → List Text
  collect_senders [] result = result
  collect_senders (value ∷ values) result = elim (normalize_email value) [
    | err _ ↦ collect_senders values result
    | ok email ↦
        collect_senders values (if is_member email result then result else result ++ email ∷ [])
  ]

  unfoldable pub normalized_exact_senders : List Text → List Text
  unfolding collect_senders
  normalized_exact_senders values = sort_strings (collect_senders values [])

  unfoldable pub shard_exact_senders : List Text → List (List Text)
  unfolding shard_loop normalized_exact_senders
  shard_exact_senders values = shard_loop (normalized_exact_senders values) [] 0

  unfoldable pub format_exact_sender_group : List Text → Text
  unfolding normalized_exact_senders
  format_exact_sender_group values = join (normalized_exact_senders values) separator

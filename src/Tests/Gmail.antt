-- ===== src/Tests/Gmail.antt =====
-- internal/gmail at concrete inputs.
use gmail_visibility_manager.Base.{List, [], ◌∷◌, ◌≡◌, refl, All}
use gmail_visibility_manager.Text.{
  Text, text, ◌==◌, trim_space, contains_any, has_rune, text_lt, has_prefix, contains, count_rune,
  cut_rune, join,
}
use gmail_visibility_manager.Sort.{sort_strings}
use gmail_visibility_manager.Dict.Keyed.{has_key}
use gmail_visibility_manager.Request.{normalize_email}
use gmail_visibility_manager.Std.{rune_lower}
use gmail_visibility_manager.Std.Ascii.{ascii_std}
use gmail_visibility_manager.Gmail.Senders.{
  shard_exact_senders, normalized_exact_senders, format_exact_sender_group,
}
use gmail_visibility_manager.Gmail.Senders.Shards.{IsShard, shard_exact_senders_lem}

abbrev senders : List Text
senders = text "b@x.org" ∷ text "nobody" ∷ text " A@x.org" ∷ text "B@x.org" ∷ []

normalized-sample : normalized_exact_senders senders ≡ text "a@x.org" ∷ text "b@x.org" ∷ []
unfolding normalized_exact_senders normalize_email text trim_space contains_any contains count_rune
    cut_rune rune_lower ◌==◌ has_prefix has_rune has_key sort_strings text_lt
normalized-sample = refl

format-sample : format_exact_sender_group senders ≡ text "a@x.org OR b@x.org"
unfolding format_exact_sender_group normalize_email text trim_space contains_any contains count_rune
    cut_rune rune_lower ◌==◌ has_prefix has_rune has_key sort_strings text_lt join
format-sample = refl

shard_exact_senders_lem_example : All IsShard (shard_exact_senders senders)
shard_exact_senders_lem_example = (shard_exact_senders_lem senders).1

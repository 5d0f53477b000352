-- ===== src/Tests/Reconcile.antt =====
-- internal/gmail, the reconciliation, at concrete inputs.
use gmail_visibility_manager.Base.{
  arith, Option, ℕ, ◌<◌, is_empty, List, [], ◌∷◌, ◌≡◌, refl, Bool, true, false, none, some, map,
}
use gmail_visibility_manager.Text.{
  Text, text, ◌==◌, trim_space, contains_any, has_rune, text_lt, has_prefix, contains, count_rune,
  cut_rune, join, len,
}
use gmail_visibility_manager.Text.Fields.{fields, no_space}
use gmail_visibility_manager.Result.{Result, ok}
use gmail_visibility_manager.Sort.{sort_strings, sort_by, insert_by}
use gmail_visibility_manager.Sort.Less.{sort_less, insert_less}
use gmail_visibility_manager.Config.{normalize_label}
use gmail_visibility_manager.GmailFilter.{compile_grant}
use gmail_visibility_manager.Dict.{lookup, insert, values}
use gmail_visibility_manager.Dict.Keyed.{has_key}
use gmail_visibility_manager.Std.{rune_lower}
use gmail_visibility_manager.Std.Ascii.{ascii_std, ascii_laws}
use gmail_visibility_manager.Request.{normalize_email}
use gmail_visibility_manager.State.Records.{GrantRecord}
use gmail_visibility_manager.Gmail.{ReconcileOptions, ReconcileResult}
use gmail_visibility_manager.Gmail.Senders.{
  normalized_exact_senders, shard_exact_senders, format_exact_sender_group,
}
use gmail_visibility_manager.Gmail.Terms.{
  strip_outer_parens, split_filter_from_terms, exact_sender_signature,
}
use gmail_visibility_manager.Gmail.Terms.Parens.{Strips, strip_outer_parens-Strips}
use gmail_visibility_manager.Gmail.Terms.RoundTrip.{is_term}
use gmail_visibility_manager.Gmail.Api.{
  Api, sender_filter, label_name_to_id, list_filters, create_managed_visibility_group_filter,
  create_managed_label_filter,
}
use gmail_visibility_manager.Gmail.Api.Log.{Extends}
use gmail_visibility_manager.Gmail.Matching.{
  exact_sender_terms_from_filter, exact_sender_visibility_filters, find_matching_filter,
  compact_strings,
}
use gmail_visibility_manager.Gmail.Matching.Created.{exact_sender_terms_from_filter-sender_filter}
use gmail_visibility_manager.Gmail.Backfill.{backfill_labels_for_sender}
use gmail_visibility_manager.Gmail.Backfill.Modified.{CallsOnly, backfill-CallsOnly}
use gmail_visibility_manager.Gmail.Grouping.{VisibilityGroup, build_visibility_groups}
use gmail_visibility_manager.Gmail.Groups.{reconcile_visibility_group}
use gmail_visibility_manager.Gmail.Groups.Safety.{reconcile_visibility_group-GroupCalls}
use gmail_visibility_manager.Gmail.Resolve.{resolve_label_id_map}
use gmail_visibility_manager.Gmail.Reconcile.{
  should_backfill_historical, tally_filters, conclude_result,
}
use gmail_visibility_manager.Gmail.Reconcile.Grants.{reconcile_grants}
use gmail_visibility_manager.Gmail.Reconcile.Aligned.{reconcile_grants-subjects, subject, asked}
use gmail_visibility_manager.Gmail.Reconcile.Mutations.{
  known_filters, IsListing, IsManaged, reconcile_grants-IsListing, reconcile_grants-IsManaged,
}

-- the first page, and the last one at every other token
abbrev two_pages : Text → Result (List (Option Text) × Text)
two_pages [] = ok (some (text "m1") ∷ none ∷ some (text "m2") ∷ [], text "t")
two_pages (_ ∷ _) = ok (some (text "m3") ∷ [], [])

abbrev sample_left : Text → ℕ
sample_left [] = 1
sample_left (_ ∷ _) = 0

sample_left-more : (token : Text) → is_empty token ≡ false → sample_left token < 1
sample_left-more [] h = cc
sample_left-more (_ ∷ token) h = omega arith

pub two_pages-advances :
    (token : Text) (ids : List (Option Text)) (next : Text)
    → two_pages token ≡ ok (ids, next)
    → is_empty (trim_space next) ≡ false
    → sample_left (trim_space next) < sample_left token
unfolding trim_space
two_pages-advances [] ids next e h = sample_left-more (trim_space next) h
two_pages-advances (c ∷ token) ids next e h = absurd (last_token next (cc (e)) h)
  where
    last_token : (next : Text) → next ≡ [] → is_empty (trim_space next) ≡ false → ⊥
    last_token [] e h = cc
    last_token (_ ∷ next) e h = cc

-- an account with two labels, no filter, and a search of two pages
instance abbrev pub sample_api : Api
sample_api = record {
  labels = λ calls. ok (
      some (record { id = text "L1"; name = text "Donna" })
      ∷ some (record { id = text "L2"; name = text "Kids/School" })
      ∷ []);
  filters = λ calls. ok [];
  create = λ calls filter. ok (text "f9");
  delete = λ calls id. ok tt;
  messages = λ calls query token. two_pages token;
  pages_left = λ query token. sample_left token;
  advances = λ calls query token ids next. two_pages-advances token ids next;
  modify = λ calls ids added. ok tt;
}

abbrev senders : List Text
senders = text "b@x.org" ∷ text "nobody" ∷ text " A@x.org" ∷ text "B@x.org" ∷ []

abbrev sample_group : VisibilityGroup
sample_group = record {
  label = text "Donna";
  label_id = text "L1";
  indexes = 0 ∷ [];
  emails = text "a@x.org" ∷ [];
}

abbrev sample_grant : GrantRecord
sample_grant = record {
  email = text "a@x.org";
  visibility_label = text "Donna";
  classification_labels = text "Kids/School" ∷ [];
  status = text "active";
  created_from_request_id = text "r-1";
  requested_by = text "donna";
  rationale = [];
  approved_by = text "me";
  approved_at = text "2024-01-01T00:00:00Z";
  created_at = text "2024-01-01T00:00:00Z";
  updated_at = text "2024-01-01T00:00:00Z";
  gmail_filter_id = [];
}

abbrev options : Bool → ReconcileOptions
options apply = record {
  apply = apply;
  backfill_historical = false;
  backfill_historical_emails = [];
}

strip-sample : strip_outer_parens (text " ((a@x.org) ) ") ≡ text "a@x.org"
unfolding strip_outer_parens text trim_space len has_prefix
strip-sample = refl

strip_outer_parens-Strips_example :
    Strips (trim_space (text "((a))")) (strip_outer_parens (text "((a))"))
strip_outer_parens-Strips_example = strip_outer_parens-Strips (text "((a))")

split-sample :
    split_filter_from_terms (text "a@x.org or  (b@x.org)OR c OR")
    ≡ text "a@x.org" ∷ text "(b@x.org)OR c" ∷ []
unfolding split_filter_from_terms text trim_space fields join ◌==◌
split-sample = refl

exact_sender_terms_from_filter-sender_filter_example :
    exact_sender_terms_from_filter
      (some (sender_filter (format_exact_sender_group senders) (text "L1")))
      (text "L1")
    ≡ some (normalized_exact_senders senders)
unfolding normalized_exact_senders normalize_email text trim_space contains_any contains count_rune
    cut_rune rune_lower ◌==◌ has_prefix has_rune has_key sort_strings text_lt is_term no_space
exact_sender_terms_from_filter-sender_filter_example =
    exact_sender_terms_from_filter-sender_filter ascii_laws senders (text "L1") refl refl
      (refl, (refl, tt))

backfill-CallsOnly_example :
    CallsOnly
      (text "L1" ∷ [])
      []
      (backfill_labels_for_sender (text "a@x.org") (text "Donna" ∷ []) (text "L1" ∷ []) []).2
backfill-CallsOnly_example =
    backfill-CallsOnly (text "a@x.org") (text "Donna" ∷ []) (text "L1" ∷ []) []

reconcile_visibility_group-GroupCalls_example :
    (reconcile_visibility_group [] sample_group false []).1 ≡ []
reconcile_visibility_group-GroupCalls_example =
    (reconcile_visibility_group-GroupCalls [] sample_group false []).idle refl

reconcile_grants-subjects_example :
    map subject (reconcile_grants (options true) (sample_grant ∷ sample_grant ∷ []) []).0
    ≡ asked (options true) (sample_grant ∷ sample_grant ∷ [])
reconcile_grants-subjects_example =
    reconcile_grants-subjects (options true) (sample_grant ∷ sample_grant ∷ []) []

reconcile_grants-IsListing_example :
    Extends IsListing [] (reconcile_grants (options false) (sample_grant ∷ []) []).2
reconcile_grants-IsListing_example =
    reconcile_grants-IsListing (options false) (sample_grant ∷ []) [] refl

reconcile_grants-IsManaged_example :
    Extends
      (IsManaged (known_filters []))
      []
      (reconcile_grants (options true) (sample_grant ∷ []) []).2
reconcile_grants-IsManaged_example =
    reconcile_grants-IsManaged (options true) (sample_grant ∷ []) []

-- both labels are new, so two filters are created and the three messages get both labels
reconcile-sample :
    map
      (λ (r : ReconcileResult). r.status)
      (reconcile_grants (options true) (sample_grant ∷ []) []).0
    ≡ text "created" ∷ []
unfolding normalize_email text trim_space contains_any contains count_rune cut_rune rune_lower ◌==◌
    has_prefix has_rune has_key sort_strings text_lt reconcile_grants join len normalize_label
    shard_exact_senders normalized_exact_senders lookup insert format_exact_sender_group
    compile_grant sort_by sort_less insert_by insert_less values compact_strings
    resolve_label_id_map label_name_to_id list_filters build_visibility_groups
    reconcile_visibility_group exact_sender_visibility_filters
    create_managed_visibility_group_filter find_matching_filter create_managed_label_filter
    should_backfill_historical tally_filters exact_sender_signature backfill_labels_for_sender
    conclude_result
reconcile-sample = refl

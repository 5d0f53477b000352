-- ===== src/Tests/Request.antt =====
-- internal/request at concrete inputs.
use mathlib.Core.List.{Perm}
use mathlib.Core.List.Perm
use gmail_visibility_manager.Base.{List, [], ◌∷◌, ◌≡◌, refl, Bool, true, map}
use gmail_visibility_manager.Text.{
  Text, text, ◌==◌, text_lt, len, trim_space, has_rune, contains_any, has_prefix, contains,
  count_rune, cut_rune,
}
use gmail_visibility_manager.Result.{Result, ok, err}
use gmail_visibility_manager.Dict.{Dict, insert, values}
use gmail_visibility_manager.Dict.Keyed.{has_key}
use gmail_visibility_manager.Sort.{sort_by}
use gmail_visibility_manager.Std.{rune_lower, to_lower}
use gmail_visibility_manager.Std.Ascii.{ascii_std, ascii_laws}
use gmail_visibility_manager.Request.{
  VisibilityRequest, normalize_email, normalize_labels, collect_labels, normalize_basic,
  validate_basic, parse_strict,
}
use gmail_visibility_manager.Request.Email.{IsAddress, normalize_email-IsAddress}
use gmail_visibility_manager.Request.Labels.{
  IsNormalLabels, normalize_labels-IsNormal, normalize_labels-has_key,
}
use gmail_visibility_manager.Request.Normal.{parse_strict-normal}

abbrev raw_email : Text
raw_email = text " Sender@Example.com "

abbrev email : Text
email = text "sender@example.com"

normalize_email-sample : normalize_email raw_email ≡ ok email
unfolding normalize_email text trim_space contains_any contains count_rune cut_rune rune_lower ◌==◌
    has_prefix has_rune
normalize_email-sample = refl

normalize_email-two :
    normalize_email (text "a@b.com,c@d.com")
    ≡ err (text "request: email must be one bare email address")
unfolding normalize_email text trim_space contains_any contains count_rune cut_rune rune_lower ◌==◌
    has_prefix has_rune
normalize_email-two = refl

normalize_email-IsAddress_example : IsAddress email
normalize_email-IsAddress_example =
    normalize_email-IsAddress ascii_laws raw_email email normalize_email-sample

abbrev raw_labels : List Text
raw_labels = text "Travel" ∷ text " kids/school" ∷ text "Kids/School " ∷ []

abbrev labels : List Text
labels = text "Kids/School" ∷ text "Travel" ∷ []

abbrev seen : Dict Text
seen = (text "travel", text "Travel") ∷ (text "kids/school", text "Kids/School") ∷ []

collect_labels-sample : collect_labels raw_labels [] ≡ ok seen
unfolding collect_labels text trim_space len contains_any has_rune rune_lower insert ◌==◌
collect_labels-sample = refl

normalize_labels-sample : normalize_labels raw_labels ≡ ok labels
unfolding normalize_labels text trim_space len contains_any has_rune rune_lower insert ◌==◌ values
    sort_by text_lt
normalize_labels-sample = refl

normalize_labels-IsNormal_example : IsNormalLabels labels
normalize_labels-IsNormal_example =
    normalize_labels-IsNormal raw_labels labels normalize_labels-sample

normalize_labels-has_key_example :
    has_key (λ t. to_lower t) (text "travel") labels
    ≡ has_key (λ t. to_lower t) (text "travel") (map trim_space raw_labels)
normalize_labels-has_key_example =
    normalize_labels-has_key raw_labels labels normalize_labels-sample (text "travel")

other_order : Perm (text "Kids/School" ∷ text "Travel" ∷ []) (values seen)
unfolding values
other_order = Perm.swap (text "Travel") (text "Kids/School") []

abbrev raw_request : VisibilityRequest
raw_request = record {
  schema_version = text "1.0";
  request_id = text " r-1";
  created_at = [];
  requested_by = text "donna";
  action = text "create_visibility_grant ";
  email = raw_email;
  classification_labels = raw_labels;
  rationale = text "school mail";
}

abbrev request : VisibilityRequest
request = record {
  schema_version = text "1.0";
  request_id = text "r-1";
  created_at = [];
  requested_by = text "donna";
  action = text "create_visibility_grant";
  email = email;
  classification_labels = labels;
  rationale = text "school mail";
}

normalize_basic-sample : normalize_basic raw_request ≡ ok request
unfolding normalize_basic normalize_email normalize_labels text trim_space len contains_any contains
    count_rune cut_rune has_prefix has_rune rune_lower insert ◌==◌ values sort_by text_lt
normalize_basic-sample = refl

validate_basic-sample : validate_basic raw_request ≡ ok tt
unfolding validate_basic normalize_email normalize_labels text trim_space len contains_any contains
    count_rune cut_rune has_prefix has_rune rune_lower insert ◌==◌ values sort_by text_lt
validate_basic-sample = refl

-- a decoder that reads the one request, whatever the input
abbrev decode : Text → Result (VisibilityRequest × Bool)
decode body = ok (raw_request, true)

parse_strict-sample : parse_strict decode (text "{}") ≡ ok request
unfolding parse_strict validate_basic normalize_basic normalize_email normalize_labels text
    trim_space len contains_any contains count_rune cut_rune has_prefix has_rune rune_lower insert
    ◌==◌ values sort_by text_lt
parse_strict-sample = refl

parse_strict-normal_example :
    (validate_basic request ≡ ok tt)
    × (normalize_basic request ≡ ok request)
    × IsAddress request.email
    × IsNormalLabels request.classification_labels
parse_strict-normal_example =
    parse_strict-normal ascii_laws decode (text "{}") request parse_strict-sample

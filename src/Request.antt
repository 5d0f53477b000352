-- ===== src/Request.antt =====
-- internal/request/request.go: the one shape of an untrusted request, its validation, its normal form
-- and its hash. The proofs are in the modules below.
pub mod Email
pub mod Labels
pub mod Normal
use gmail_visibility_manager.Base.{
  ℕ, List, [], ◌∷◌, ◌++◌, Bool, true, false, ◌&&◌, ◌||◌, not, ltb, eqb, is_empty, if◌then◌else◌,
  none, some,
}
use gmail_visibility_manager.Text.{
  Text, text, ◌==◌, len, trim_space, contains_any, contains, count_rune, cut_rune,
}
use gmail_visibility_manager.Result.{Result, ok, err, ◌>>=◌, ◌>>◌, reject_if}
use gmail_visibility_manager.Sort.{sort_by}
use gmail_visibility_manager.Dict.{Dict, insert, values}
use gmail_visibility_manager.Std.{Std, Json, str, strs, to_lower}

abbrev pub schema_version_1 : Text
schema_version_1 = text "1.0"

abbrev pub action_create_visibility_grant : Text
action_create_visibility_grant = text "create_visibility_grant"

abbrev pub action_update_grant_labels : Text
action_update_grant_labels = text "update_grant_labels"

pub record VisibilityRequest : Type 0 where
  pub schema_version : Text
  pub request_id : Text
  pub created_at : Text
  pub requested_by : Text
  pub action : Text
  pub email : Text
  pub classification_labels : List Text
  pub rationale : Text

-- a function's error replaced by the caller's own
abbrev pub or_error {ℓ} : {A : Type ℓ} → Result A → Text → Result A
or_error (ok a) e = ok a
or_error (err _) e = err e

abbrev pub email_required : Text
email_required = text "request: email is required"

abbrev pub not_bare : Text
not_bare = text "request: email must be one bare email address"

abbrev pub not_individual : Text
not_individual = text "request: email must be one individual email address"

module _ ⦃std : Std⦄ where
  abbrev pub invalid_email : Text → Text
  invalid_email value = text "request: invalid email address " ++ std.quote value

  -- the last lines of NormalizeEmail: both sides of the one `@`
  unfoldable pub check_parts : Text → Text → Result Text
  check_parts value normalized = elim (cut_rune normalized b'@') [
    | none ↦ err (invalid_email value)
    | some (local, domain) ↦
        if is_empty local || is_empty domain || contains_any domain (32 ∷ 9 ∷ 13 ∷ 10 ∷ [])
        then err (invalid_email value)
        else ok normalized
  ]

  -- NormalizeEmail behind the first line, which trims the value
  unfoldable pub normalize_trimmed : Text → Result Text
  unfolding check_parts
  normalize_trimmed value = do
    reject_if (is_empty value) email_required
    reject_if (contains_any value (text " ,<>")) not_bare
    reject_if (contains value (text "*")) not_individual
    reject_if (not (eqb (count_rune value b'@') 1)) not_individual
    address ← or_error (std.parse_address value) (invalid_email value)
    let normalized = to_lower (trim_space address)
    reject_if (is_empty normalized || not (normalized == to_lower value)) not_bare
    check_parts value normalized

  unfoldable pub normalize_email : Text → Result Text
  unfolding normalize_trimmed
  normalize_email value = normalize_trimmed (trim_space value)

  -- the tests on one trimmed label
  unfoldable pub check_label : Text → Result (Unit {0})
  check_label trimmed = do
    reject_if (is_empty trimmed) (text "request: classification label must not be empty")
    reject_if (ltb 128 (len trimmed))
        (text "request: classification label " ++ (std.quote trimmed ++ text " is too long"))
    reject_if (contains_any trimmed (0 ∷ 13 ∷ 10 ∷ [])) (
        text "request: classification label "
        ++ (std.quote trimmed ++ text " contains invalid control character"))

  -- the loop of NormalizeLabels; `seen` maps the lower case of a label to its last spelling
  unfoldable pub collect_labels : List Text → Dict Text → Result (Dict Text)
  unfolding check_label
  collect_labels [] seen = ok seen
  collect_labels (label ∷ labels) seen = do
    let trimmed = trim_space label
    check_label trimmed
    collect_labels labels (insert seen (to_lower trimmed) trimmed)

  unfoldable pub normalize_labels : List Text → Result (List Text)
  unfolding collect_labels
  normalize_labels labels = do
    seen ← collect_labels labels []
    ok (sort_by (λ t. to_lower t) (values seen))

  -- the switch on the trimmed action
  abbrev pub is_supported_action : Text → Bool
  is_supported_action action =
      action == action_create_visibility_grant || action == action_update_grant_labels

  unfoldable pub validate_basic : VisibilityRequest → Result (Unit {0})
  validate_basic r = do
    reject_if (not (trim_space r.schema_version == schema_version_1))
        (text "request: schema_version must be " ++ std.quote schema_version_1)
    reject_if (not (is_empty (trim_space r.request_id)) && ltb 128 (len (trim_space r.request_id)))
        (text "request: request_id is too long")
    reject_if
        (not (is_empty (trim_space r.created_at)) && not (std.is_rfc3339 (trim_space r.created_at)))
        (text "request: created_at must be RFC3339")
    reject_if (is_empty (trim_space r.requested_by)) (text "request: requested_by is required")
    reject_if (not (is_supported_action (trim_space r.action)))
        (text "request: unsupported action " ++ std.quote r.action)
    _email ← normalize_email r.email
    _labels ← normalize_labels r.classification_labels
    reject_if (contains_any r.rationale (0 ∷ []))
        (text "request: rationale contains invalid control character")

  unfoldable pub normalize_basic : VisibilityRequest → Result VisibilityRequest
  normalize_basic r = do
    email ← normalize_email r.email
    labels ← normalize_labels r.classification_labels
    ok (record {
      schema_version = trim_space r.schema_version;
      request_id = trim_space r.request_id;
      created_at = trim_space r.created_at;
      requested_by = trim_space r.requested_by;
      action = trim_space r.action;
      email = email;
      classification_labels = labels;
      rationale = trim_space r.rationale;
    })

  -- the field tags of VisibilityRequest, with `omitempty`
  abbrev pub text_field : Text → Text → List (Text × Json)
  text_field name value = if is_empty value then [] else (name, str value) ∷ []

  abbrev pub list_field : Text → List Text → List (Text × Json)
  list_field name value = if is_empty value then [] else (name, strs value) ∷ []

  unfoldable pub json_fields : VisibilityRequest → List (Text × Json)
  json_fields r =
      (text "schema_version", str r.schema_version)
      ∷ (text_field (text "request_id") r.request_id
          ++ (text_field (text "created_at") r.created_at
              ++ ((text "requested_by", str r.requested_by)
                  ∷ (text "action", str r.action)
                  ∷ (text "email", str r.email)
                  ∷ (list_field (text "classification_labels") r.classification_labels
                      ++ text_field (text "rationale") r.rationale))))

  unfoldable pub hash : VisibilityRequest → Result Text
  hash req = do
    normalized ← normalize_basic req
    body ← std.marshal_object (json_fields normalized)
    ok (std.sha256_hex body)

  -- `decode` is the JSON decoder that refuses unknown fields: the first value of the input, and
  -- whether a second read meets the end of the input
  unfoldable pub parse_strict :
      (Text → Result (VisibilityRequest × Bool)) → Text → Result VisibilityRequest
  parse_strict decode body = elim (decode body) [
    | err e ↦ err (text "parse request: " ++ e)
    | ok (req, ended) ↦ (do
      reject_if (not ended) (text "parse request: request must contain exactly one JSON object")
      validate_basic req
      normalize_basic req)
  ]

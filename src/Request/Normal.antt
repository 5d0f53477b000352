-- ===== src/Request/Normal.antt =====
-- internal/request/request.go: NormalizeBasic, ValidateBasic and ParseStrict together.
use gmail_visibility_manager.Base.{[], ◌∷◌, ◌≡◌, Bool, false, arith, inl, inr}
use gmail_visibility_manager.Text.{Text, trim_left, trim_right, trim_space, contains_any}
use gmail_visibility_manager.Text.Trim.{trim_space_lem, trim_space_idem}
use gmail_visibility_manager.Result.{Result, ok, Result-cases}
use gmail_visibility_manager.Std.{Std, StdLaws}
use gmail_visibility_manager.Request.{
  VisibilityRequest, normalize_email, normalize_labels, normalize_basic, validate_basic,
  parse_strict, hash,
}
use gmail_visibility_manager.Request.Email.{
  IsAddress, normalize_email_idem, normalize_email-IsAddress,
}
use gmail_visibility_manager.Request.Labels.{
  IsNormalLabels, normalize_labels_idem, normalize_labels-IsNormal,
}

contains_any-trim_left :
    (s chars : Text) → contains_any s chars ≡ false → contains_any (trim_left s) chars ≡ false
unfolding contains_any trim_left
contains_any-trim_left [] chars h = h
contains_any-trim_left (r ∷ s) chars h = ground (arith, contains_any-trim_left s chars)

contains_any-trim_right :
    (s chars : Text) → contains_any s chars ≡ false → contains_any (trim_right s) chars ≡ false
unfolding contains_any trim_right
contains_any-trim_right [] chars h = h
contains_any-trim_right (r ∷ s) chars h = ground (arith, contains_any-trim_right s chars)

contains_any-trim_space :
    (s chars : Text) → contains_any s chars ≡ false → contains_any (trim_space s) chars ≡ false
contains_any-trim_space s chars h =
    rw trim_space_lem
      (contains_any-trim_right (trim_left s) chars (contains_any-trim_left s chars h))

module _ ⦃std : Std⦄ where
  -- what NormalizeBasic computes, part by part
  pub record Parts (r n : VisibilityRequest) : Type 0 where
    pub schema_version : n.schema_version ≡ trim_space r.schema_version
    pub request_id : n.request_id ≡ trim_space r.request_id
    pub created_at : n.created_at ≡ trim_space r.created_at
    pub requested_by : n.requested_by ≡ trim_space r.requested_by
    pub action : n.action ≡ trim_space r.action
    pub email : normalize_email r.email ≡ ok n.email
    pub labels : normalize_labels r.classification_labels ≡ ok n.classification_labels
    pub rationale : n.rationale ≡ trim_space r.rationale

  pub normalize_basic-Parts : (r n : VisibilityRequest) → normalize_basic r ≡ ok n → Parts r n
  unfolding normalize_basic
  normalize_basic-Parts r n h = elim (Result-cases (normalize_email r.email)) [
    | inl (e, p) ↦ elim (Result-cases (normalize_labels r.classification_labels)) [
      | inl (ls, q) ↦ record {
        schema_version = ground arith;
        request_id = ground arith;
        created_at = ground arith;
        requested_by = ground arith;
        action = ground arith;
        email = ground arith;
        labels = ground arith;
        rationale = ground arith;
      }
      | inr (_, q) ↦ absurd (ground arith)
    ]
    | inr (_, p) ↦ absurd (ground arith)
  ]

module _ ⦃std : Std⦄ (laws : StdLaws std) where
  normal_again : (r n : VisibilityRequest) → normalize_basic r ≡ ok n → normalize_basic n ≡ ok n
  unfolding normalize_basic
  normal_again r n h =
      let p = normalize_basic-Parts r n h in
      ground (
        arith,
        p.schema_version,
        p.request_id,
        p.created_at,
        p.requested_by,
        p.action,
        p.rationale,
        normalize_email_idem laws r.email n.email p.email,
        normalize_labels_idem r.classification_labels n.classification_labels p.labels,
        trim_space_idem r.schema_version,
        trim_space_idem r.request_id,
        trim_space_idem r.created_at,
        trim_space_idem r.requested_by,
        trim_space_idem r.action,
        trim_space_idem r.rationale,
      )

  -- NormalizeBasic leaves its own results alone, so a request and its normal form have one hash.
  pub normalize_basic_idem :
      (r n : VisibilityRequest)
      → normalize_basic r ≡ ok n
      → (normalize_basic n ≡ ok n) × (hash n ≡ hash r)
  unfolding hash
  normalize_basic_idem r n h = (normal_again r n h, ground (arith, h, normal_again r n h))

  -- A request that passed ValidateBasic still passes it in normal form.
  pub validate_basic-normalize_basic :
      (r n : VisibilityRequest)
      → validate_basic r ≡ ok tt
      → normalize_basic r ≡ ok n
      → validate_basic n ≡ ok tt
  unfolding validate_basic
  validate_basic-normalize_basic r n v h =
      let p = normalize_basic-Parts r n h in
      ground (
        arith,
        p.schema_version,
        p.request_id,
        p.created_at,
        p.requested_by,
        p.action,
        p.rationale,
        normalize_email_idem laws r.email n.email p.email,
        normalize_labels_idem r.classification_labels n.classification_labels p.labels,
        trim_space_idem r.schema_version,
        trim_space_idem r.request_id,
        trim_space_idem r.created_at,
        trim_space_idem r.requested_by,
        trim_space_idem r.action,
        contains_any-trim_space r.rationale (0 ∷ []),
        p.email,
        p.labels,
        v,
      )

  -- ParseStrict returns a valid request in normal form: its fields pass ValidateBasic, and neither
  -- NormalizeBasic nor a second validation would change anything.
  pub parse_strict-normal :
      (decode : Text → Result (VisibilityRequest × Bool)) (body : Text) (r : VisibilityRequest)
      → parse_strict decode body ≡ ok r
      → (validate_basic r ≡ ok tt)
        × (normalize_basic r ≡ ok r)
        × IsAddress r.email
        × IsNormalLabels r.classification_labels
  unfolding parse_strict
  parse_strict-normal decode body r h = elim (Result-cases (decode body)) [
    | inl ((raw, ended), p) ↦
        let p : decode body ≡ ok (raw, ended) = p in
        elim (Result-cases (validate_basic raw)) [
          | inl (u, q) ↦
              let n : normalize_basic raw ≡ ok r = ground arith in
              let parts = normalize_basic-Parts raw r n in
              (
                validate_basic-normalize_basic raw r q n,
                normal_again raw r n,
                normalize_email-IsAddress laws raw.email r.email parts.email,
                normalize_labels-IsNormal raw.classification_labels r.classification_labels
                    parts.labels,
              )
          | inr (_, q) ↦ absurd (ground arith)
        ]
    | inr (_, p) ↦ absurd (ground arith)
  ]

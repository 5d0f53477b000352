-- ===== src/Rpc/Envelope/Checks.antt =====
-- internal/rpc/envelope.go: which requests are accepted.
use gmail_visibility_manager.Base.{ℤ, pos, negsuc, ◌≡◌, ◌↔◌, ◌≤◌, true, false, is_empty, arith}
use gmail_visibility_manager.Text.{trim_space, len}
use gmail_visibility_manager.Result.{ok}
use gmail_visibility_manager.Std.{Std}
use gmail_visibility_manager.Rpc.Envelope.{Request, validate_request, version_1, is_version_1}

module _ ⦃std : Std⦄ where
  pub record IsAccepted (req : Request) : Type 0 where
    pub version : req.v ≡ version_1
    pub id : is_empty (trim_space req.id) ≡ false
    pub id_length : len req.id ≤ 64
    pub method : is_empty (trim_space req.method) ≡ false
    pub params : is_empty req.params ≡ false
    pub valid : std.json_valid req.params ≡ true

  is_version_1_iff : (v : ℤ) → (is_version_1 v ≡ true) ↔ (v ≡ version_1)
  is_version_1_iff (pos n) = (λ h. ground arith, λ h. ground arith)
  is_version_1_iff (negsuc n) = (λ h. ground arith, λ h. ground arith)

  -- ValidateRequest accepts exactly the requests of version 1 with an id of 1 to 64 bytes and a method,
  -- neither of them blank, and with valid JSON as parameters.
  pub validate_request_iff : (req : Request) → (validate_request req ≡ ok tt) ↔ IsAccepted req
  unfolding validate_request
  validate_request_iff req = (
    λ h. record {
      version = (is_version_1_iff req.v).0 (ground arith);
      id = ground arith;
      id_length = ground arith;
      method = ground arith;
      params = ground arith;
      valid = ground arith;
    },
    λ a. ground (
      arith,
      (is_version_1_iff req.v).1 a.version,
      a.id,
      a.id_length,
      a.method,
      a.params,
      a.valid,
    ),
  )

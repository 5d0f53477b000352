-- ===== src/Rpc/Envelope.antt =====
-- internal/rpc/envelope.go: requests, responses, and the checks on a request.
pub mod Checks
use gmail_visibility_manager.Base.{
  ℕ, ℤ, pos, negsuc, List, [], ◌∷◌, ◌++◌, Bool, true, false, not, ltb, eqb, is_empty, Option, none,
  some,
}
use gmail_visibility_manager.Text.{Text, text, trim_space, len}
use gmail_visibility_manager.Result.{Result, ok, err, reject_if, ◌>>=◌, ◌>>◌}
use gmail_visibility_manager.Std.{Std}

pub record Request : Type 0 where
  pub v : ℤ
  pub id : Text
  pub method : Text
  pub params : Text

pub record ErrorBody : Type 0 where
  pub code : Text
  pub message : Text
  pub retryable : Bool

-- `result` is of a type of the caller's
pub record Response (A : Type 0) : Type 0 where
  pub v : ℤ
  pub id : Text
  pub succeeded : Bool
  pub result : Option A
  pub error : Option ErrorBody

abbrev pub version_1 : ℤ
version_1 = pos 1

unfoldable pub new_success : {A : Type 0} → Text → A → Response A
new_success id result = record {
  v = version_1;
  id = id;
  succeeded = true;
  result = some result;
  error = none;
}

unfoldable pub new_error : {A : Type 0} → Text → Text → Text → Bool → Response A
new_error id code message retryable = record {
  v = version_1;
  id = id;
  succeeded = false;
  result = none;
  error = some (record { code = code; message = message; retryable = retryable });
}

abbrev pub is_version_1 : ℤ → Bool
is_version_1 (pos n) = eqb n 1
is_version_1 (negsuc n) = false

unfoldable pub validate_request : ⦃std : Std⦄ → Request → Result (Unit {0})
validate_request ⦃std⦄ req = do
  reject_if (not (is_version_1 req.v)) (text "unsupported version: " ++ std.decimal req.v)
  reject_if (is_empty (trim_space req.id)) (text "missing id")
  reject_if (ltb 64 (len req.id)) (text "id too long")
  reject_if (is_empty (trim_space req.method)) (text "missing method")
  reject_if (is_empty req.params) (text "missing params")
  reject_if (not (std.json_valid req.params)) (text "params must be valid JSON")

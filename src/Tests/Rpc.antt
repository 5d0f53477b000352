-- ===== src/Tests/Rpc.antt =====
-- internal/rpc and internal/gmailfilter at concrete inputs.
use gmail_visibility_manager.Base.{◌++◌, [], ◌∷◌, ◌≡◌, refl, arith, inr}
use gmail_visibility_manager.Text.{text, trim_space, len}
use gmail_visibility_manager.Result.{ok}
use gmail_visibility_manager.Std.Ascii.{ascii_std}
use gmail_visibility_manager.Rpc.Envelope.{validate_request}
use gmail_visibility_manager.Rpc.Envelope.Checks.{IsAccepted, validate_request_iff}
use gmail_visibility_manager.Rpc.Framing.{Bytes, read_frame, put_uint32, write_frame}
use gmail_visibility_manager.Rpc.Framing.RoundTrip.{collect, read_frame-write_frame, read_frame_lem}
use gmail_visibility_manager.GmailFilter.{compile_grant}
use gmail_visibility_manager.GmailFilter.Labels.{IsLed, compile_grant_lem}
use gmail_visibility_manager.Tests.Samples.{sample_call, sample_stream}

validate_request-sample : validate_request sample_call ≡ ok tt
unfolding validate_request text trim_space len
validate_request-sample = refl

validate_request_iff_example : IsAccepted sample_call
validate_request_iff_example = (validate_request_iff sample_call).0 validate_request-sample

abbrev payload : Bytes
payload = 1 ∷ 2 ∷ 3 ∷ []

read_frame-write_frame_example :
    read_frame 1000 ((write_frame collect payload []).1 ++ (9 ∷ [])) ≡ (ok payload, 9 ∷ [])
read_frame-write_frame_example =
    (read_frame-write_frame 1000 payload (9 ∷ []) refl (omega arith) (inr (omega arith))).1

read_frame-sample : read_frame 1000 sample_stream ≡ (ok (7 ∷ []), [])
unfolding read_frame
read_frame-sample = refl

read_frame-large : (read_frame 2 (0 ∷ 0 ∷ 0 ∷ 3 ∷ 1 ∷ 2 ∷ 3 ∷ [])).1 ≡ 1 ∷ 2 ∷ 3 ∷ []
unfolding read_frame
read_frame-large = refl

read_frame_lem_example : sample_stream ≡ put_uint32 1 ++ ((7 ∷ []) ++ [])
read_frame_lem_example =
    (read_frame_lem 1000 sample_stream (7 ∷ []) []
      (omega arith, (omega arith, (omega arith, (omega arith, (omega arith, tt)))))
      read_frame-sample).2

compile_grant_lem_example :
    IsLed
      (text "Donna")
      (compile_grant (text "a@b.com") (text "Donna") (text "Travel" ∷ text "donna" ∷ [])).add_labels
compile_grant_lem_example =
    (compile_grant_lem (text "a@b.com") (text "Donna") (text "Travel" ∷ text "donna" ∷ [])).1

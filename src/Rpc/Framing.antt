-- ===== src/Rpc/Framing.antt =====
-- internal/rpc/framing.go: frames of four bytes of length and a payload.
pub mod RoundTrip
use gmail_visibility_manager.Base.{
  ℕ, ◌+◌, ◌-◌, ◌*◌, ◌/◌, ◌%◌, ◌^◌, pos, take, drop, length, List, [], ◌∷◌, ◌++◌, Bool, true, false,
  ◌&&◌, ltb, eqb, is_empty, if◌then◌else◌,
}
use gmail_visibility_manager.Text.{Text, text}
use gmail_visibility_manager.Result.{Result, ok, err, reject_if}
use gmail_visibility_manager.Exec.{Exec, lift, wrap, ◌>>=◌, ◌>>◌}
use gmail_visibility_manager.Std.{Std}

-- a list of numbers below 256
abbrev pub Bytes : Type 0
Bytes = List ℕ

-- binary.BigEndian.PutUint32 of a uint32, and Uint32
unfoldable pub put_uint32 : ℕ → Bytes
put_uint32 n = (n / 2 ^ 24) % 256 ∷ (n / 2 ^ 16) % 256 ∷ (n / 2 ^ 8) % 256 ∷ n % 256 ∷ []

unfoldable pub uint32_of : Bytes → ℕ
uint32_of (a ∷ b ∷ c ∷ d ∷ []) = a * 2 ^ 24 + b * 2 ^ 16 + c * 2 ^ 8 + d
uint32_of other = 0

-- io.ReadFull on a stream of which `s` is what is left
unfoldable pub read_full : ℕ → Exec Bytes Bytes
read_full n s =
    if ltb (length s) n
    then (err (if is_empty s then text "EOF" else text "unexpected EOF"), [])
    else (ok (take n s), drop n s)

module _ ⦃std : Std⦄ where
  -- ReadFrame from the tests on the size on
  unfoldable pub read_payload : ℕ → ℕ → Exec Bytes Bytes
  unfolding read_full
  read_payload max_bytes size = do
    lift (reject_if (eqb size 0) (text "read frame: empty payload"))
    lift (
        reject_if (ltb 0 max_bytes && ltb max_bytes size) (
          text "read frame: payload "
          ++ (std.decimal (pos size) ++ (text " exceeds limit " ++ std.decimal (pos max_bytes)))))
    wrap (text "read frame payload: ") (read_full size)

  unfoldable pub read_frame : ℕ → Exec Bytes Bytes
  unfolding read_payload uint32_of
  read_frame max_bytes = do
    header ← wrap (text "read frame header: ") (read_full 4)
    read_payload max_bytes (uint32_of header)

-- `write` is the method of the io.Writer, on a state of its own
unfoldable pub write_frame : {S : Type 0} → (Bytes → Exec S (Unit {0})) → Bytes → Exec S (Unit {0})
unfolding put_uint32
write_frame write payload = do
  lift (reject_if (is_empty payload) (text "write frame: empty payload"))
  lift (reject_if (ltb (2 ^ 32 - 1) (length payload)) (text "write frame: payload too large"))
  wrap (text "write frame header: ") (write (put_uint32 (length payload % 2 ^ 32)))
  wrap (text "write frame payload: ") (write payload)

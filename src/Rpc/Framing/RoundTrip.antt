-- ===== src/Rpc/Framing/RoundTrip.antt =====
-- internal/rpc/framing.go: frames written and frames read.
use gmail_visibility_manager.Base.{
  ℕ, suc, zero, ◌+◌, ◌*◌, ◌/◌, ◌%◌, ◌^◌, ◌≤◌, ◌<◌, take, drop, take-drop, length, length-append, ap,
  List, [], ◌∷◌, ◌++◌, ◌≡◌, ◌≢◌, ◌∙◌, sym, refl, false, is_empty, arith, All, ◌⊎◌,
}
use gmail_visibility_manager.Result.{ok}
use gmail_visibility_manager.Exec.{Exec}
use gmail_visibility_manager.Std.{Std}
use gmail_visibility_manager.Rpc.Framing.{
  Bytes, put_uint32, uint32_of, read_payload, read_frame, write_frame,
}

abbrev pub IsByte : ℕ → Type 0
IsByte b = b < 256

-- a writer that keeps everything
abbrev pub collect : Bytes → Exec Bytes (Unit {0})
collect bytes sent = (ok tt, sent ++ bytes)

uint32_of-put_uint32 : (n : ℕ) → n < 2 ^ 32 → uint32_of (put_uint32 n) ≡ n
unfolding uint32_of put_uint32
uint32_of-put_uint32 n h = omega arith

put_uint32-uint32_of :
    (a b c d : ℕ)
    → IsByte a
    → IsByte b
    → IsByte c
    → IsByte d
    → put_uint32 (uint32_of (a ∷ b ∷ c ∷ d ∷ [])) ≡ a ∷ b ∷ c ∷ d ∷ []
unfolding uint32_of put_uint32
put_uint32-uint32_of a b c d ha hb hc hd =
    let n = a * 2 ^ 24 + b * 2 ^ 16 + c * 2 ^ 8 + d in
    let ea : (n / 2 ^ 24) % 256 ≡ a = omega arith in
    let eb : (n / 2 ^ 16) % 256 ≡ b = omega arith in
    let ec : (n / 2 ^ 8) % 256 ≡ c = omega arith in
    let ed : n % 256 ≡ d = omega arith in rw (ea, eb, ec, ed) refl

take-append {ℓ} : {A : Type ℓ} (xs ys : List A) → take (length xs) (xs ++ ys) ≡ xs
take-append [] ys = refl
take-append (x ∷ xs) ys = cc (take-append xs ys)

drop-append {ℓ} : {A : Type ℓ} (xs ys : List A) → drop (length xs) (xs ++ ys) ≡ ys
drop-append [] ys = refl
drop-append (x ∷ xs) ys = drop-append xs ys

length-take {ℓ} : {A : Type ℓ} (n : ℕ) (xs : List A) → n ≤ length xs → length (take n xs) ≡ n
length-take zero xs h = refl
length-take (suc n) [] h = absurd (omega arith)
length-take (suc n) (x ∷ xs) h = omega (arith, length-take n xs (omega arith))

-- what WriteFrame sends
write_frame-sent :
    (payload sent : Bytes)
    → is_empty payload ≡ false
    → length payload < 2 ^ 32
    → write_frame collect payload sent ≡ (ok tt, (sent ++ put_uint32 (length payload)) ++ payload)
unfolding write_frame
write_frame-sent payload sent n h =
    let e : length payload % 2 ^ 32 ≡ length payload = omega arith in rw e (ground (arith, e, n))

module _ ⦃std : Std⦄ where
  read_payload-ok :
      (max : ℕ) (payload more : Bytes)
      → is_empty payload ≡ false
      → (max ≡ 0) ⊎ (length payload ≤ max)
      → read_payload max (length payload) (payload ++ more) ≡ (ok payload, more)
  unfolding read_payload
  read_payload-ok max payload more n fits = ground (
    arith,
    take-append payload more,
    drop-append payload more,
    length-append payload more,
    length_of payload n,
    fits,
  )
    where
      length_of : (p : Bytes) → is_empty p ≡ false → 0 < length p
      length_of [] h = absurd (ground arith)
      length_of (x ∷ xs) h = omega arith

  read_frame-header :
      (max a b c d : ℕ) (s : Bytes)
      → read_frame max (a ∷ b ∷ c ∷ d ∷ s) ≡ read_payload max (uint32_of (a ∷ b ∷ c ∷ d ∷ [])) s
  unfolding read_frame
  read_frame-header max a b c d s = ground arith

  -- A frame that WriteFrame has sent, of a payload that is not empty and below 2 ^ 32 bytes, is read by
  -- ReadFrame as that payload, whatever follows, unless the reader's limit is below its length; the
  -- stream then stands behind the frame.
  pub read_frame-write_frame :
      (max : ℕ) (payload more : Bytes)
      → is_empty payload ≡ false
      → length payload < 2 ^ 32
      → (max ≡ 0) ⊎ (length payload ≤ max)
      → ((write_frame collect payload []).0 ≡ ok tt)
        × (read_frame max ((write_frame collect payload []).1 ++ more) ≡ (ok payload, more))
  unfolding put_uint32
  read_frame-write_frame max payload more n h fits =
      let sent = write_frame-sent payload [] n h in
      (
        ap (λ p. p.0) sent,
        rw
            (
              sent,
              read_frame-header max ((length payload / 2 ^ 24) % 256)
                  ((length payload / 2 ^ 16) % 256) ((length payload / 2 ^ 8) % 256)
                  (length payload % 256) (payload ++ more),
              uint32_of-put_uint32 (length payload) h,
            )
            (read_payload-ok max payload more n fits),
      )

  -- what a payload that was read says
  record IsRead (max size : ℕ) (s payload rest : Bytes) : Type 0 where
    nonempty : size ≢ 0
    fits : 0 < max → size ≤ max
    enough : size ≤ length s
    front : payload ≡ take size s
    back : rest ≡ drop size s

  read_payload-IsRead :
      (max size : ℕ) (s payload rest : Bytes)
      → read_payload max size s ≡ (ok payload, rest)
      → IsRead max size s payload rest
  unfolding read_payload
  read_payload-IsRead max size s payload rest h = record {
    nonempty = λ e. ground (arith, h);
    fits = λ l. ground (arith, h);
    enough = ground (arith, h);
    front = ground (arith, h);
    back = ground (arith, h);
  }

  short : (max : ℕ) (s payload rest : Bytes) → length s < 4 → read_frame max s ≢ (ok payload, rest)
  unfolding read_frame
  short max s payload rest l h = ground (arith, h)

  -- A payload that ReadFrame returns is not empty, is within the limit if there is one, and is what the
  -- four bytes in front of it announce: the stream of bytes was the frame of that payload, and then
  -- what is left.
  pub read_frame_lem :
      (max : ℕ) (s payload rest : Bytes)
      → All IsByte s
      → read_frame max s ≡ (ok payload, rest)
      → (is_empty payload ≡ false)
        × ((0 < max) → length payload ≤ max)
        × (s ≡ put_uint32 (length payload) ++ (payload ++ rest))
  read_frame_lem max (a ∷ b ∷ c ∷ d ∷ s) payload rest (ha, (hb, (hc, (hd, _)))) h =
      let size = uint32_of (a ∷ b ∷ c ∷ d ∷ []) in
      let r =
        read_payload-IsRead max size s payload rest (sym (read_frame-header max a b c d s) ∙ h) in
      let l : length payload ≡ size = ap length r.front ∙ length-take size s r.enough in
      (
        nonempty_of payload (λ e. r.nonempty (sym l ∙ e)),
        λ m. omega (arith, l, r.fits m),
        rw (l, put_uint32-uint32_of a b c d ha hb hc hd, r.front, r.back, take-drop size s) refl,
      )
    where
      nonempty_of : (p : Bytes) → length p ≢ 0 → is_empty p ≡ false
      nonempty_of [] n = absurd (n refl)
      nonempty_of (x ∷ xs) n = refl
  read_frame_lem max [] payload rest bytes h = absurd (short max [] payload rest (omega arith) h)
  read_frame_lem max (a ∷ []) payload rest bytes h =
      absurd (short max (a ∷ []) payload rest (omega arith) h)
  read_frame_lem max (a ∷ b ∷ []) payload rest bytes h =
      absurd (short max (a ∷ b ∷ []) payload rest (omega arith) h)
  read_frame_lem max (a ∷ b ∷ c ∷ []) payload rest bytes h =
      absurd (short max (a ∷ b ∷ c ∷ []) payload rest (omega arith) h)

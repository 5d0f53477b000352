-- ===== src/Config/Mode.antt =====
-- internal/config/config.go: the numbers that SocketFileMode reads.
use gmail_visibility_manager.Base.{
  true, false, is_empty, if◌then◌else◌, ◌⊎◌, inl, inr, Bool-cases, Option-cases, ℕ, ◌+◌, ◌-◌, ◌*◌,
  ◌^◌, ◌≤◌, ◌<◌, [], ◌∷◌, ◌≡◌, ◌≢◌, ◌↔◌, refl, some, arith, All,
}
use gmail_visibility_manager.Text.{Text, text, trim_space}
use gmail_visibility_manager.Result.{ok}
use gmail_visibility_manager.Std.{Std}
use gmail_visibility_manager.Config.{
  Config, octal_digits, parse_octal, default_socket_mode, socket_file_mode, is_blank,
}

abbrev IsOctal : ℕ → Type 0
IsOctal c = (b'0' ≤ c) × (c ≤ b'7')

-- the number that octal digits spell behind `n`, without a bound
abbrev octal_value : ℕ → Text → ℕ
octal_value n [] = n
octal_value n (c ∷ s) = octal_value (n * 8 + (c - b'0')) s

octal_digits_sound :
    (s : Text) (n r : ℕ)
    → n < 2 ^ 32
    → octal_digits s n ≡ some r
    → All IsOctal s × (r ≡ octal_value n s) × (r < 2 ^ 32)
unfolding octal_digits
octal_digits_sound [] n r fits h = ground arith
octal_digits_sound (c ∷ s) n r fits h = ground (arith, octal_digits_sound s (n * 8 + (c - b'0')) r)

le-octal_value : (s : Text) (n : ℕ) → n ≤ octal_value n s
le-octal_value [] n = omega arith
le-octal_value (c ∷ s) n = omega (arith, le-octal_value s (n * 8 + (c - b'0')))

octal_digits_complete :
    (s : Text) (n : ℕ)
    → All IsOctal s
    → octal_value n s < 2 ^ 32
    → octal_digits s n ≡ some (octal_value n s)
unfolding octal_digits
octal_digits_complete [] n _ _ = refl
octal_digits_complete (c ∷ s) n (hc, hs) fits =
    let m = n * 8 + (c - b'0') in
    ground (arith, octal_digits_complete s m hs fits, le-octal_value s m)

parse_octal_iff :
    (s : Text) (r : ℕ)
    → (parse_octal s ≡ some r)
      ↔ ((s ≢ []) × All IsOctal s × (r ≡ octal_value 0 s) × (octal_value 0 s < 2 ^ 32))
unfolding parse_octal
parse_octal_iff [] r = (λ h. cc, λ h. absurd (h.0 refl))
parse_octal_iff (c ∷ s) r = (
  λ h.
      let p = octal_digits_sound (c ∷ s) 0 r (omega arith) h in
      (λ e. cc, p.0, p.1, omega (arith, p.1, p.2)),
  λ h. rw h.2 (octal_digits_complete (c ∷ s) 0 h.1 h.3),
)

default_mode : parse_octal default_socket_mode ≡ some 432
unfolding parse_octal octal_digits text
default_mode = refl

module _ ⦃std : Std⦄ where
  socket_file_mode-parse_octal :
      (c : Config) (value : Text) (r : ℕ)
      → (if is_empty (trim_space c.socket_mode)
          then default_socket_mode
          else trim_space c.socket_mode)
        ≡ value
      → (socket_file_mode c ≡ ok r) ↔ (parse_octal value ≡ some r)
  unfolding socket_file_mode
  socket_file_mode-parse_octal c value r e = elim (Option-cases (parse_octal value)) [
    | inl p ↦ (λ h. absurd (ground (arith, h, e, p)), λ h. absurd (ground (arith, h, p)))
    | inr (m, p) ↦ (λ h. ground (arith, h, e, p), λ h. ground (arith, h, e, p))
  ]

  -- SocketFileMode reads a blank mode as 0660, and another one exactly when it is octal digits, but for
  -- outer space, whose value fits 32 bits; then it gives that value.
  pub socket_file_mode_iff :
      (c : Config) (r : ℕ)
      → (socket_file_mode c ≡ ok r) ↔ (
          ((is_blank c.socket_mode ≡ true) × (r ≡ 6 * 8 * 8 + 6 * 8))
          ⊎ ((is_blank c.socket_mode ≡ false)
              × All IsOctal (trim_space c.socket_mode)
              × (r ≡ octal_value 0 (trim_space c.socket_mode))
              × (octal_value 0 (trim_space c.socket_mode) < 2 ^ 32)))
  socket_file_mode_iff c r = elim (Bool-cases (is_blank c.socket_mode)) [
    | inl blank ↦
        let i = socket_file_mode-parse_octal c default_socket_mode r (rw blank refl) in
        (
          λ h. inl (blank, ground (arith, i.0 h, default_mode)),
          λ h. i.1 (ground (arith, default_mode, blank, h)),
        )
    | inr some_mode ↦
        let value = trim_space c.socket_mode in
        let i = socket_file_mode-parse_octal c value r (rw some_mode refl) in
        let j = parse_octal_iff value r in
        (
          λ h. let (_, digits, same, fits) = j.0 (i.0 h) in inr (some_mode, digits, same, fits),
          λ h. elim h [
            | inl (blank, _) ↦ absurd (cc (blank, some_mode))
            | inr (_, digits, same, fits) ↦
                i.1 (j.1 (λ e. ground (arith, e, some_mode), digits, same, fits))
          ],
        )
  ]

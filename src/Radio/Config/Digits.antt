-- ===== src/Radio/Config/Digits.antt =====
-- What the configuration says, and the key behind its digits.
use esp32s31_linux_function.Base.{
  subst, sym, ap, ap₂, ◌∙◌, false, true, ℕ, zero, suc, ◌+◌, ◌-◌, ◌*◌, ◌/◌, ◌%◌, ◌≤◌, ◌<◌, ◌≡◌, ◌≢◌,
  refl, ◌∙◌, ltb, ◌==◌, if◌then◌else◌, arith, ◌⊎◌, inl, inr, Bool-cases,
}
use esp32s31_linux_function.Copy.{Memory, store}
use esp32s31_linux_function.Copy.Words.{store_at, store_off}
use esp32s31_linux_function.Radio.Config.{
  ConnectParams, wifi_auth_wpa2_psk, hex_digit, hex_loop, sta_config,
}

-- The value of a lower-case hexadecimal digit.
abbrev pub digit_value : ℕ → ℕ
digit_value c = if ltb c b'a' then c - b'0' else c - b'a' + 10

abbrev pub IsHexDigit : ℕ → Type 0
IsHexDigit c = ((b'0' ≤ c) × (c ≤ b'9')) ⊎ ((b'a' ≤ c) × (c ≤ b'f'))

hex_digit-IsHexDigit : (n : ℕ) → n < 16 → IsHexDigit (hex_digit n) × (digit_value (hex_digit n) ≡ n)
hex_digit-IsHexDigit n h = elim (Bool-cases (ltb n 10)) [
  | inl e ↦ rw e (inl (omega arith, ground arith), ground arith)
  | inr e ↦ rw e (inr (omega arith, ground arith), ground arith)
]

-- What the loop writes: the two digits of each byte from `i` on; the rest stays.
hex_loop_lem :
    (n i : ℕ) (psk m : Memory)
    → ((j : ℕ)
        → i ≤ j
        → j < i + n
        → (hex_loop n i psk m (j * 2) ≡ hex_digit (psk j / 16))
          × (hex_loop n i psk m (j * 2 + 1) ≡ hex_digit (psk j % 16)))
      × ((x : ℕ) → (x < i * 2) ⊎ ((i + n) * 2 ≤ x) → hex_loop n i psk m x ≡ m x)
unfolding hex_loop
hex_loop_lem zero i psk m = ((λ j a b. absurd (omega arith)), λ x h. refl)
hex_loop_lem (suc n) i psk m =
    let hi = store (i * 2) (hex_digit (psk i / 16)) m in
    let lo = store (i * 2 + 1) (hex_digit (psk i % 16)) hi in
    let (inside, outside) = hex_loop_lem n (i + 1) psk lo in
    (
      (λ j a b. elim (Bool-cases (i == j)) [
        | inl e ↦
            let at : j ≡ i = ground arith in
            rw at (
              outside (i * 2) (inl (omega arith))
                  ∙ store_off (i * 2 + 1) (hex_digit (psk i % 16)) hi (i * 2)
                      (λ q. absurd (omega arith))
                  ∙ store_at (i * 2) (hex_digit (psk i / 16)) m,
              outside (i * 2 + 1) (inl (omega arith))
                  ∙ store_at (i * 2 + 1) (hex_digit (psk i % 16)) hi,
            )
        | inr e ↦ inside j (ground arith) (omega arith)
      ]),
      (λ x h.
          let there : (x < (i + 1) * 2) ⊎ ((i + 1 + n) * 2 ≤ x) = elim h [
            | inl p ↦ inl (omega arith)
            | inr p ↦ inr (omega arith)
          ] in
          let a : x ≢ i * 2 + 1 =
            λ q. elim h [ inl p ↦ absurd (omega arith) | inr p ↦ absurd (omega arith) ] in
          let b : x ≢ i * 2 =
            λ q. elim h [ inl p ↦ absurd (omega arith) | inr p ↦ absurd (omega arith) ] in
          outside x there
          ∙ store_off (i * 2 + 1) (hex_digit (psk i % 16)) hi x a
          ∙ store_off (i * 2) (hex_digit (psk i / 16)) m x b),
    )

-- A key of 32 bytes that Linux has derived is given to the driver as its 64 lower-case hexadecimal
-- digits, two for each byte, that read as the byte; nothing is written behind them, and the driver is told
-- to take the WPA2 path and not to use WPA3.
pub sta_config-Digits :
    (p : ConnectParams) (j x : ℕ)
    → p.has_password ≡ false
    → p.has_psk ≡ true
    → j < 32
    → p.psk j < 256
    → let c = sta_config p in
      IsHexDigit (c.password (j * 2))
      × IsHexDigit (c.password (j * 2 + 1))
      × (digit_value (c.password (j * 2)) * 16 + digit_value (c.password (j * 2 + 1)) ≡ p.psk j)
      × (c.password (64 + x) ≡ 0)
      × (c.authmode ≡ wifi_auth_wpa2_psk)
      × (c.disable_wpa3_compatible_mode ≡ true)
unfolding sta_config
sta_config-Digits p j x no_password psk lt byte =
    let (inside, outside) = hex_loop_lem 32 0 p.psk (λ i. 0) in
    let (a, b) = inside j (omega arith) (omega arith) in
    let (h, v) = hex_digit-IsHexDigit (p.psk j / 16) (omega arith) in
    let (h', v') = hex_digit-IsHexDigit (p.psk j % 16) (omega arith) in
    let m = hex_loop 32 0 p.psk (λ i. 0) in
    let value : digit_value (m (j * 2)) ≡ p.psk j / 16 = ap digit_value a ∙ v in
    let value' : digit_value (m (j * 2 + 1)) ≡ p.psk j % 16 = ap digit_value b ∙ v' in
    let both : digit_value (m (j * 2)) * 16 + digit_value (m (j * 2 + 1)) ≡ p.psk j =
      ap₂ (λ x y. x * 16 + y) value value' ∙ omega arith in
    rw (no_password, psk)
      (
        subst IsHexDigit (sym a) h,
        subst IsHexDigit (sym b) h',
        both,
        outside (64 + x) (inr (omega arith)),
        refl,
        refl,
      )

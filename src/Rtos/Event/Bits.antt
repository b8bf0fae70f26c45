-- ===== src/Rtos/Event/Bits.antt =====
-- What the event operations do to each bit.
use esp32s31_linux_function.Base.{
  ℕ, ◌+◌, ◌-◌, ◌<◌, ◌≡◌, ◌≢◌, ◌↔◌, sym, ap, ◌∙◌, Bool, true, false, arith, bit_and, bit_or, min,
  u32_mod,
}
use Prim.Native.Nat.{max}
use esp32s31_linux_function.Base.Bits.{
  test_bit, not32, test_bit-bit_and, test_bit-bit_or, test_bit-not32,
}
use esp32s31_linux_function.Base.Masks.{bit_and-eq_right, bit_and-ne_zero, bit_and-lt, bit_or-lt}
use esp32s31_linux_function.Rtos.Event.{World, is_group, eg_match, set_bits, clear_bits}

-- The wait condition: with the all-bits flag every wanted bit is set, without it some wanted bit is.
abbrev pub Satisfied : ℕ → ℕ → Bool → Type 0
Satisfied have want true = (i : ℕ) → i < 32 → test_bit i want ≡ 1 → test_bit i have ≡ 1
Satisfied have want false = (i : ℕ) × (i < 32) × (test_bit i have ≡ 1) × (test_bit i want ≡ 1)

-- `s31_eg_match` decides the wait condition, for 32-bit masks.
pub eg_match-Satisfied :
    (have want : ℕ) (all : Bool)
    → have < u32_mod
    → want < u32_mod
    → (eg_match have want all ≡ true) ↔ Satisfied have want all
unfolding eg_match
eg_match-Satisfied have want true hh hw =
    let (to, from) = bit_and-eq_right 32 have want hh hw in
    ((λ e. to (ground arith)), (λ h. let e : bit_and have want ≡ want = from h in ground arith))
eg_match-Satisfied have want false hh hw =
    let (to, from) = bit_and-ne_zero 32 have want hh in
    ((λ e. to (ground arith)), (λ h. let ne : bit_and have want ≢ 0 = from h in ground arith))

set_bits-live :
    (p bits : ℕ) (w : World)
    → is_group p w.group ≡ true
    → ((set_bits p bits w).0.group.bits ≡ bit_or w.group.bits bits)
      × ((set_bits p bits w).1 ≡ bit_or w.group.bits bits)
      × ((set_bits p bits w).0.wakes ≡ w.wakes + 1)
unfolding set_bits
set_bits-live p bits w live = ground arith

clear_bits-live :
    (p bits : ℕ) (w : World)
    → is_group p w.group ≡ true
    → ((clear_bits p bits w).0.group.bits ≡ bit_and w.group.bits (not32 bits))
      × ((clear_bits p bits w).1 ≡ w.group.bits)
      × ((clear_bits p bits w).0.wakes ≡ w.wakes)
unfolding clear_bits
clear_bits-live p bits w live = ground arith

-- The bits of `x & ~m`.
pub test_bit-clear :
    (i x m : ℕ)
    → m < u32_mod
    → i < 32
    → test_bit i (bit_and x (not32 m)) ≡ min (test_bit i x) (1 - test_bit i m)
test_bit-clear i x m hm hi =
    test_bit-bit_and i x (not32 m) ∙ ap (λ b. min (test_bit i x) b) (test_bit-not32 i m hm hi)

-- What setting and clearing do to a live group.
pub set-clear_bits :
    (p bits : ℕ) (w : World)
    → is_group p w.group ≡ true
    → bits < u32_mod
    → w.group.bits < u32_mod
    → let (s, set) = set_bits p bits w in
      let (c, old) = clear_bits p bits w in
      ((i : ℕ)
        → i < 32
        → (test_bit i s.group.bits ≡ max (test_bit i w.group.bits) (test_bit i bits))
          × (test_bit i c.group.bits ≡ min (test_bit i w.group.bits) (1 - test_bit i bits)))
      × (set ≡ s.group.bits)
      × (s.wakes ≡ w.wakes + 1)
      × (s.group.bits < u32_mod)
      × (old ≡ w.group.bits)
      × (c.wakes ≡ w.wakes)
      × (c.group.bits < u32_mod)
set-clear_bits p bits w live hb hw =
    let (s₀, s₁, s₂) = set_bits-live p bits w live in
    let (c₀, c₁, c₂) = clear_bits-live p bits w live in
    (
      (λ i h. (
        ap (test_bit i) s₀ ∙ test_bit-bit_or i w.group.bits bits,
        ap (test_bit i) c₀ ∙ test_bit-clear i w.group.bits bits hb h,
      )),
      s₁ ∙ sym s₀,
      s₂,
      rw s₀ (bit_or-lt 32 w.group.bits bits hw hb),
      c₁,
      c₂,
      rw c₀ (bit_and-lt 32 w.group.bits (not32 bits) hw),
    )

-- On a live group, setting bits sets those and keeps the others, clearing bits clears those and
-- keeps the others; the one returns the new bits and wakes the waiters once, the other returns the
-- old bits and wakes nobody; and both keep the word within 32 bits. For the word that setting leaves,
-- `s31_eg_match` says whether all, or any, of the wanted bits are set.
event_bits_lem :
    (p bits want : ℕ) (all : Bool) (w : World)
    → is_group p w.group ≡ true
    → bits < u32_mod
    → want < u32_mod
    → w.group.bits < u32_mod
    → let (s, set) = set_bits p bits w in
      let (c, old) = clear_bits p bits w in
      ((i : ℕ)
        → i < 32
        → (test_bit i s.group.bits ≡ max (test_bit i w.group.bits) (test_bit i bits))
          × (test_bit i c.group.bits ≡ min (test_bit i w.group.bits) (1 - test_bit i bits)))
      × (set ≡ s.group.bits)
      × (s.wakes ≡ w.wakes + 1)
      × (s.group.bits < u32_mod)
      × (old ≡ w.group.bits)
      × (c.wakes ≡ w.wakes)
      × (c.group.bits < u32_mod)
      × ((eg_match s.group.bits want all ≡ true) ↔ Satisfied s.group.bits want all)
event_bits_lem p bits want all w live hb hn hw =
    let (b, r, k, l, o, n, c) = set-clear_bits p bits w live hb hw in
    (b, r, k, l, o, n, c, eg_match-Satisfied (set_bits p bits w).0.group.bits want all l hn)

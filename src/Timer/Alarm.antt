-- ===== src/Timer/Alarm.antt =====
-- The next alarm of a timer.
use esp32s31_linux_function.Base.{
  ℕ, ◌+◌, ◌-◌, ◌*◌, ◌/◌, ◌%◌, ◌≤◌, ◌<◌, ◌≡◌, ◌≢◌, refl, false, arith, ◌==◌, u64_mod,
}
use esp32s31_linux_function.Timer.{Timer, advance}

mod-lt : (k : ℕ) → k < u64_mod → k % u64_mod ≡ k
mod-lt k h = omega arith

-- Steps of `p` from `a` to just past `now`.
past : (a now p : ℕ) → a ≤ now → p ≢ 0 → now < a + ((now - a) / p + 1) * p
past a now p h g = grind arith

near : (a now p : ℕ) → a ≤ now → p ≢ 0 → a + ((now - a) / p + 1) * p ≤ now + p
near a now p h g = grind arith

-- A periodic timer that is due, with room for one more period in the 64-bit clock, is put off by whole
-- periods, so it does not drift, to the first alarm after now, so that it is not due again at once and
-- at most a period ahead; it stays active with its period. A timer without a period becomes inactive.
pub advance_lem :
    (now : ℕ) (t : Timer)
    → t.alarm_us ≤ now
    → now + t.period_us < u64_mod
    → let t' = advance now t in
      (t.period_us ≡ 0 → t'.active ≡ false)
      × (t.period_us ≢ 0
          → (now < t'.alarm_us)
            × (t'.alarm_us ≤ now + t.period_us)
            × ((k : ℕ) × (t'.alarm_us ≡ t.alarm_us + k * t.period_us))
            × (t'.active ≡ t.active)
            × (t'.period_us ≡ t.period_us))
unfolding advance
advance_lem now t is_past room = (
  λ e. rw e refl,
  λ ne.
      let e : (t.period_us == 0) ≡ false = ground arith in
      let k = (now - t.alarm_us) / t.period_us + 1 in
      let after = past t.alarm_us now t.period_us is_past ne in
      let before = near t.alarm_us now t.period_us is_past ne in
      let small : k ≤ k * t.period_us = grind arith in
      let exact : (t.alarm_us + k % u64_mod * t.period_us % u64_mod) % u64_mod
          ≡ t.alarm_us + k * t.period_us =
        rw (mod-lt k (omega arith)) (omega arith) in
      simp e (rw exact (after, before, (k, refl), refl, refl)),
)

-- ===== src/Rtos/Wait/Time.antt =====
-- The time that is left of a timeout, although the tick counter wraps.
use esp32s31_linux_function.Base.{ℕ, ◌+◌, ◌-◌, ◌%◌, ◌≤◌, ◌<◌, ◌≡◌, arith, u32_mod}
use esp32s31_linux_function.Rtos.Wait.{max_delay, wait_remaining}

-- With the true times `began ≤ now` less than 2^32 ticks apart, a finite timeout loses exactly the
-- ticks that have passed, whether or not the 32-bit counter has wrapped in between, and ends at 0.
pub wait_remaining_lem :
    (timeout began now : ℕ)
    → timeout < max_delay
    → began ≤ now
    → now < began + u32_mod
    → wait_remaining timeout (began % u32_mod) (now % u32_mod) ≡ timeout - (now - began)
unfolding wait_remaining
wait_remaining_lem timeout began now finite order close = ground arith

-- An infinite timeout never runs out.
pub wait_remaining-forever : (start now : ℕ) → wait_remaining max_delay start now ≡ max_delay
unfolding wait_remaining
wait_remaining-forever start now = ground arith

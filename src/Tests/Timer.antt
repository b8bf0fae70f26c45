-- ===== src/Tests/Timer.antt =====
-- The esp_timer shim of radio_firmware/s31_linux_timer.c on concrete inputs.
use esp32s31_linux_function.Base.{
  ℕ, ◌+◌, ◌*◌, ◌≤◌, ◌<◌, ◌≡◌, ◌≢◌, refl, true, false, some, [], ◌∷◌, arith,
}
use esp32s31_linux_function.Timer.{Timer, World, find, put, due, advance, dispatch, timers_tick}
use esp32s31_linux_function.Timer.Alarm.{advance_lem}
use esp32s31_linux_function.Timer.Dispatch.{AllDue, Stopped, timers_tick_lem}

-- Every 10 us, next at 100.
abbrev periodic : Timer
periodic = record {
  handle = 40;
  callback = 900;
  arg = 1;
  alarm_us = 100;
  period_us = 10;
  active = true;
}

abbrev once : Timer
once = record periodic { handle = 80; period_us = 0 }

abbrev armed : World
armed = record { timers = periodic ∷ once ∷ []; live = 80 ∷ 40 ∷ []; fired = [] }

-- Callbacks that touch no timer.
abbrev pure : ℕ → ℕ → World → World
pure c a w = w

abbrev at_125 : ℕ → ℕ
at_125 i = 125

-- Both timers are run once, the periodic one only for the last of the periods that it missed.
tick_test :
    (timers_tick at_125 pure armed).timers
    ≡ record periodic { alarm_us = 130 } ∷ record once { active = false } ∷ []
unfolding timers_tick dispatch due put advance
tick_test = refl

advance_lem_example :
    (periodic.period_us ≡ 0 → (advance 125 periodic).active ≡ false)
    × (periodic.period_us ≢ 0
        → (125 < (advance 125 periodic).alarm_us)
          × ((advance 125 periodic).alarm_us ≤ 125 + 10)
          × ((k : ℕ) × ((advance 125 periodic).alarm_us ≡ 100 + k * 10))
          × ((advance 125 periodic).active ≡ true)
          × ((advance 125 periodic).period_us ≡ 10))
advance_lem_example = advance_lem 125 periodic (omega arith) (omega arith)

timers_tick_lem_example :
    AllDue (timers_tick at_125 pure armed).fired
    × Stopped at_125 64 armed (timers_tick at_125 pure armed)
timers_tick_lem_example = timers_tick_lem at_125 pure (λ c a w. refl) armed tt

abbrev new_callback : ℕ
new_callback = 900

abbrev new_block : ℕ
new_block = 120

abbrev stopped : World
stopped = record armed { timers = record periodic { active = false } ∷ once ∷ [] }

stopped_found : find 40 stopped.timers ≡ some (record periodic { active = false })
unfolding find
stopped_found = refl

-- ===== src/Tests/Event.antt =====
-- Event groups of radio_firmware/s31_rtos/s31_rtos_event.c on concrete inputs.
use esp32s31_linux_function.Base.{ℕ, ◌+◌, ◌*◌, ◌≡◌, refl, true, false, List, [], ◌∷◌}
use esp32s31_linux_function.Rtos.Wait.{Round, expired, returned, blocked, wait_loop, wait_remaining}
use esp32s31_linux_function.Rtos.Wait.Laws.{Ensures}
use esp32s31_linux_function.Rtos.Event.{World, eg_match, try_wait, recheck, wait_bits}
use esp32s31_linux_function.Rtos.Event.Waiting.{WaitResult, wait_bits_lem}

abbrev pub world : World
world = record {
  group = record { bits = 0x11; wait_context = 9 };
  wakes = 0;
  create_count = 1;
  set_count = 0;
  wait_count = 0;
  lines = 0;
}

-- Another task sets bit 1 just as the wait times out.
abbrev sets_late : List (Round World)
sets_late =
    record {
      tick = 105;
      waited = expired;
      others = λ w. record w { group = record (w.group) { bits = 0x13 } };
    }
    ∷ []

-- The recheck after the deadline sees the bits, returns them and consumes the wanted ones.
late_test :
    (let o = wait_bits false 40 0x03 true true 10 100 sets_late world in
      elim o [ returned w r ↦ r * 256 + w.group.bits | blocked w ↦ 0 ])
    ≡ 0x1310
unfolding wait_bits wait_loop wait_remaining try_wait recheck eg_match
late_test = refl

abbrev Any : ℕ → ℕ → Type 0
Any a b = Unit {0}

wait_bits_lem_example :
    Ensures
      (WaitResult Any 0x11 0x03 true true)
      (λ s. Unit {0} × (eg_match s.group.bits 0x03 true ≡ false))
      (wait_bits false 40 0x03 true true 10 100 sets_late world)
wait_bits_lem_example =
    wait_bits_lem Any false 40 0x03 true true 10 100 sets_late world (λ a. tt) (λ a b c h g. tt)
      ((λ w. tt), tt) refl

-- ===== src/Tests/Notify.antt =====
-- Task notifications of radio_firmware/s31_rtos/s31_rtos_core.c on concrete inputs.
use esp32s31_linux_function.Base.{
  ℕ, ◌+◌, ◌*◌, ◌≡◌, refl, true, false, none, some, List, [], ◌∷◌, arith, ◌⊎◌,
}
use esp32s31_linux_function.Rtos.Task.{zeroed, not_waiting, received}
use esp32s31_linux_function.Rtos.Wait.{Round, woken, returned, blocked, wait_loop, wait_remaining}
use esp32s31_linux_function.Rtos.Wait.Laws.{Ensures}
use esp32s31_linux_function.Rtos.Notify.{
  World, is_received, act, generic_notify, try_take_notified, notify_take, notify_wait,
}
use esp32s31_linux_function.Rtos.Notify.Waiting.{
  TakeResult, WaitResult, HasEntered, notify_take_lem, notify_wait_lem,
}
use esp32s31_linux_function.Rtos.Notify.Delivery.{
  set_without_overwrite, generic_notify_lem, notified_late, lost, late_notification-lost,
}

abbrev pub idle : World
idle = record { task = zeroed; wakes = 0 }

-- Another task gives twice while this one waits.
abbrev given_twice : List (Round World)
given_twice =
    record {
      tick = 101;
      waited = woken;
      others = λ w. (generic_notify 40 0 0 2 none (generic_notify 40 0 0 2 none w).0).0;
    }
    ∷ []

notify_take_test :
    elim (notify_take 0 false 10 100 (λ s. s) given_twice idle) [
      | returned w r ↦ r * 16 + w.task.notify_value
      | blocked w ↦ 0
    ]
    ≡ 0x21
unfolding notify_take wait_loop try_take_notified generic_notify act wait_remaining
notify_take_test = refl

abbrev Any : World → World → Type 0
Any a b = Unit {0}

notify_take_lem_example :
    Ensures
      (TakeResult Any idle false)
      (Any idle)
      (notify_take 0 false 10 100 (λ s. s) given_twice idle)
notify_take_lem_example =
    notify_take_lem Any false 10 100 (λ s. s) given_twice idle (λ a. tt) (λ a b c h g. tt) (λ s. tt)
      (λ s. tt) ((λ w. tt), tt)

notify_wait_lem_example :
    Ensures
      (WaitResult Any 0x0F idle 0xFF (some 0))
      (HasEntered Any 0x0F idle)
      (notify_wait 0 0x0F 0xFF (some 0) 10 100 (λ s. s) given_twice idle)
notify_wait_lem_example =
    notify_wait_lem Any 0x0F 0xFF (some 0) 10 100 (λ s. s) given_twice idle (λ s. tt)
      ((λ w. tt), tt)

generic_notify_lem_example :
    (generic_notify 40 0 0x1234 4 (some 0) idle ≡ (
      record idle {
        task = record (idle.task) { notify_value = 0x1234; notify_state = received };
        wakes = 1;
      },
      true,
      some 0,
    ))
    × ((false ≡ true)
        ⊎ (notify_wait 0 0x0F 0xFF
              (some 0)
              10
              100
              (λ s. s)
              given_twice
              (generic_notify 40 0 0x1234 4 none idle).0
            ≡ returned
                (record idle {
                  task = record (idle.task) { notify_value = 0x1200; notify_state = not_waiting };
                  wakes = 1;
                })
                (true, some 0x1234)))
generic_notify_lem_example =
    generic_notify_lem 40 set_without_overwrite 0x1234 0x0F 0xFF 10 100 (λ s. s) given_twice idle
      (omega arith)

late_notification-lost_example :
    (notify_wait 0 0 0 (some 0) 10 100 (λ s. s) (notified_late 40 7 105 ∷ []) idle
      ≡ returned (lost 7 idle) (false, some 7))
    × ((v : ℕ) × (notify_wait 0 0 0 (some 0) 0 105 (λ s. s) [] (lost 7 idle)
          ≡ returned (lost v idle) (false, some v)))
unfolding wait_remaining is_received
late_notification-lost_example =
    late_notification-lost 40 7 105 10 100 (λ s. s) idle (omega arith) (omega arith) (omega arith)
      refl

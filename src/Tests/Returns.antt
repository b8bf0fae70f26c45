-- ===== src/Tests/Returns.antt =====
-- The blocking calls of radio_firmware/s31_rtos when time runs out in the first round.
use esp32s31_linux_function.Base.{inl, inr, refl, Bool, List, [], ◌∷◌, ℕ, Option}
use esp32s31_linux_function.Rtos.Wait.{Round, expired, wait_remaining}
use esp32s31_linux_function.Rtos.Wait.Laws.{Returned, Ends}
use esp32s31_linux_function.Rtos.Queue.Calls.{Caller, generic_send, receive}
use esp32s31_linux_function.Rtos.Queue.Sync.{semaphore_take}
use esp32s31_linux_function.Rtos.Queue.Calls
use esp32s31_linux_function.Rtos.Event
use esp32s31_linux_function.Rtos.Notify
use esp32s31_linux_function.Rtos.Event.{wait_bits}
use esp32s31_linux_function.Rtos.Notify.{notify_take, notify_wait}
use esp32s31_linux_function.Rtos.Returns.{blocking_calls_return}
use esp32s31_linux_function.Tests.Queue.{full, world_of}
use esp32s31_linux_function.Tests.Event.{world}
use esp32s31_linux_function.Tests.Notify.{idle}

abbrev time_up : {W : Type 0} → List (Round W)
time_up = record { tick = 110; waited = expired; others = λ w. w } ∷ []

time_up-Ends : (W : Type 0) → Ends {S = W} 10 100 time_up
unfolding wait_remaining
time_up-Ends W = inl refl

blocking_calls_return_example :
    ((c : Caller) (p item copy : ℕ)
      → Returned (generic_send c p item 10 copy 100 time_up (world_of full)))
    × ((c : Caller) (p item : ℕ) → Returned (receive c p item 10 100 time_up (world_of full)))
    × ((t p : ℕ) → Returned (semaphore_take t p 10 100 time_up (world_of full)))
    × ((in_isr : Bool) (p want : ℕ) (clear all : Bool)
        → Returned (wait_bits in_isr p want clear all 10 100 time_up world))
    × ((index : ℕ) (clear : Bool) → Returned (notify_take index clear 10 100 (λ s. s) time_up idle))
    × ((index clear_entry clear_exit : ℕ) (out : Option ℕ)
        → Returned (notify_wait index clear_entry clear_exit out 10 100 (λ s. s) time_up idle))
blocking_calls_return_example =
    blocking_calls_return 10 100 time_up (world_of full) time_up world (λ s. s) time_up idle
      (inr (time_up-Ends Calls.World)) (inr (time_up-Ends Event.World))
      (inr (time_up-Ends Notify.World))

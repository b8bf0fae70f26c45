-- ===== src/Rtos/Returns.antt =====
-- The return of the blocking calls of the queues, semaphores, event groups and notifications.
use esp32s31_linux_function.Base.{
  ℕ, ◌≡◌, ◌⊎◌, inl, inr, Bool-cases, refl, Bool, true, false, not, ◌||◌, Option, none, List, ◌==◌,
  if◌then◌else◌,
}
use esp32s31_linux_function.Rtos.Wait.{Round}
use esp32s31_linux_function.Rtos.Wait.Laws.{Returned, Ends, wait_loop_returns}
use esp32s31_linux_function.Rtos.Queue.{valid}
use esp32s31_linux_function.Rtos.Queue.Calls
use esp32s31_linux_function.Rtos.Queue.Calls.{Caller, refuse, generic_send, receive}
use esp32s31_linux_function.Rtos.Queue.Calls.Sending.{generic_send_returns}
use esp32s31_linux_function.Rtos.Queue.Calls.Receiving.{receive_returns}
use esp32s31_linux_function.Rtos.Queue.Sync.{try_take, semaphore_take}
use esp32s31_linux_function.Rtos.Event
use esp32s31_linux_function.Rtos.Event.{wait_bits}
use esp32s31_linux_function.Rtos.Event.Waiting.{wait_bits_returns}
use esp32s31_linux_function.Rtos.Notify
use esp32s31_linux_function.Rtos.Notify.{notify_take, notify_wait}
use esp32s31_linux_function.Rtos.Notify.Waiting.{notify_returns}

semaphore_take_returns :
    (t p timeout start : ℕ) (rounds : List (Round Calls.World)) (w : Calls.World)
    → (timeout ≡ 0) ⊎ Ends timeout start rounds
    → Returned (semaphore_take t p timeout start rounds w)
unfolding semaphore_take
semaphore_take_returns t p timeout start rounds w h =
    elim (Bool-cases (not (valid p w.queue) || t == 0)) [
      | inl e ↦ rw e tt
      | inr e ↦ rw e (wait_loop_returns (try_take t) refuse refuse refuse timeout start rounds w h)
    ]

in_isr_too :
    {W : Type 0} (in_isr : Bool) (timeout start : ℕ) (rounds : List (Round W))
    → (timeout ≡ 0) ⊎ Ends timeout start rounds
    → ((if in_isr then 0 else timeout) ≡ 0) ⊎ Ends (if in_isr then 0 else timeout) start rounds
in_isr_too true timeout start rounds h = inl refl
in_isr_too false timeout start rounds h = h

-- In rounds in which time runs out or the host's wait fails at some point, and in any rounds if the
-- timeout is zero, every blocking call returns: `xQueueGenericSend`, `xQueueReceive` and
-- `xQueueSemaphoreTake` on a queue or on what is none, `xEventGroupWaitBits`,
-- `ulTaskGenericNotifyTake` and `xTaskGenericNotifyWait`, whatever the other contexts do meanwhile.
pub blocking_calls_return :
    (timeout start : ℕ) (queue_rounds : List (Round Calls.World)) (q : Calls.World)
    (event_rounds : List (Round Event.World)) (e : Event.World)
    (between : Notify.World → Notify.World) (notify_rounds : List (Round Notify.World))
    (n : Notify.World)
    → (timeout ≡ 0) ⊎ Ends timeout start queue_rounds
    → (timeout ≡ 0) ⊎ Ends timeout start event_rounds
    → (timeout ≡ 0) ⊎ Ends timeout start notify_rounds
    → ((c : Caller) (p item copy : ℕ)
        → Returned (generic_send c p item timeout copy start queue_rounds q))
      × ((c : Caller) (p item : ℕ) → Returned (receive c p item timeout start queue_rounds q))
      × ((t p : ℕ) → Returned (semaphore_take t p timeout start queue_rounds q))
      × ((in_isr : Bool) (p want : ℕ) (clear all : Bool)
          → Returned (wait_bits in_isr p want clear all timeout start event_rounds e))
      × ((index : ℕ) (clear : Bool)
          → Returned (notify_take index clear timeout start between notify_rounds n))
      × ((index clear_entry clear_exit : ℕ) (out : Option ℕ)
          → Returned
              (notify_wait index clear_entry clear_exit out timeout start between notify_rounds n))
blocking_calls_return timeout start queue_rounds q event_rounds e between notify_rounds n hq he hn =
    (
      (λ c p item copy. generic_send_returns c p item timeout copy start queue_rounds q hq),
      (λ c p item. receive_returns c p item timeout start queue_rounds q hq),
      (λ t p. semaphore_take_returns t p timeout start queue_rounds q hq),
      (λ in_isr p want clear all.
          wait_bits_returns in_isr p want clear all timeout start event_rounds e
            (in_isr_too in_isr timeout start event_rounds he)),
      (λ index clear.
          (notify_returns index 0 0 clear none timeout start between notify_rounds n hn).0),
      (λ index clear_entry clear_exit out.
          (notify_returns index clear_entry clear_exit true out timeout start between notify_rounds
            n hn).1),
    )

-- ===== src/Rtos/Semaphore.antt =====
-- Counting semaphores of radio_firmware/s31_rtos/s31_rtos_queue.c: a history of gives and takes, one
-- attempt each, by tasks and by ISR code.
pub mod Count
use esp32s31_linux_function.Base.{ℕ, ◌+◌, Bool, true, false, none, List, [], ◌∷◌, if◌then◌else◌}
use esp32s31_linux_function.Rtos.Queue.Calls.{
  World, generic_send_from_isr, receive_from_isr, try_send, try_receive,
}
use esp32s31_linux_function.Rtos.Queue.Sync.{try_take}
use esp32s31_linux_function.Rtos.Mutex.{settle}

pub data Call : Type 0 where
  give : (t copy : ℕ) → Call  -- `xQueueGenericSend`
  give_isr : (t copy : ℕ) → Call  -- `xQueueGenericSendFromISR`, `xQueueGiveFromISR`
  take : (t : ℕ) → Call  -- `xQueueSemaphoreTake`
  receive : Call  -- `xQueueReceive`
  receive_isr : Call  -- `xQueueReceiveFromISR`

abbrev pub is_give : Call → Bool
is_give (give t copy) = true
is_give (give_isr t copy) = true
is_give _ = false

unfoldable pub step : ℕ → World → Call → World × Bool
step p w (give t copy) = settle (try_send (record { task = t; in_isr = false }) 0 copy w)
step p w (give_isr t copy) =
    let (w', ret, _) = generic_send_from_isr (record { task = t; in_isr = true }) p 0 none copy w in
    (w', ret)
step p w (take t) = settle (try_take t w)
step p w receive = settle (try_receive 0 w)
step p w receive_isr = let (w', ret, _) = receive_from_isr p 0 none w in (w', ret)

-- The object after a history, with the numbers of gives and of takes that succeeded.
pub record Tally : Type 0 where
  pub world : World
  pub given : ℕ
  pub taken : ℕ

unfoldable pub tally : Tally → Call → World × Bool → Tally
tally s c (w, ret) = record {
  world = w;
  given = if ret then (if is_give c then s.given + 1 else s.given) else s.given;
  taken = if ret then (if is_give c then s.taken else s.taken + 1) else s.taken;
}

unfoldable pub run : ℕ → Tally → List Call → Tally
run p s [] = s
run p s (c ∷ cs) = run p (tally s c (step p s.world c)) cs

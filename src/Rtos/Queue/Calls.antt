-- ===== src/Rtos/Queue/Calls.antt =====
-- The public send, receive and reset calls on a queue. `p` is the pointer that the caller passes,
-- `World` the object there with the memory, the diagnostics and the wakes sent to its waiters.
pub mod Rely
pub mod Sending
pub mod Receiving
pub mod Isr
use esp32s31_linux_function.Base.{
  ℕ, zero, suc, ◌+◌, Bool, true, false, not, ◌&&◌, ◌||◌, Option, none, some, List, ltb, ◌==◌,
  if◌then◌else◌,
}
use esp32s31_linux_function.Rtos.Wait.{
  Round, Attempt, finished, again, Outcome, returned, wait_loop,
}
use esp32s31_linux_function.Rtos.Queue.{
  Queue, Memory, type_mutex, type_sem, send_to_front, overwrite, valid, give_sem, send_locked,
  take_locked,
}
use esp32s31_linux_function.Rtos.Queue.Trace.{Trace, trace_send, trace_receive}

pub record World : Type 0 where
  pub queue : Queue
  pub memory : Memory
  pub trace : Trace
  pub wakes : ℕ

-- Who calls: the current task, and whether radio ISR code runs (`s31_rtos_isr_depth > 0`).
pub record Caller : Type 0 where
  pub task : ℕ
  pub in_isr : Bool

abbrev pub wake_if : Bool → World → World
wake_if b w = if b then record w { wakes = w.wakes + 1 } else w

abbrev pub store : World → Queue → Memory → World
store w q mem = record w { queue = q; memory = mem }

-- An item has been sent, or refused, under the lock: trace, then wake the waiters.
unfoldable pub after_send : ℕ → Bool → World → Queue × Memory × Bool → World × Bool
after_send item from_isr w (q, mem, ret) = (
  wake_if ret (record (store w q mem) { trace = trace_send q mem item from_isr ret w.trace }),
  ret,
)

unfoldable pub after_receive : ℕ → World → Queue × Memory × Bool → World × Bool
after_receive item w (q, mem, ret) =
    (wake_if ret (record (store w q mem) { trace = trace_receive q mem item ret w.trace }), ret)

-- `if (ret && woken) *woken = pdTRUE;`: `none` is the NULL pointer.
abbrev pub promote : Bool → Option Bool → Option Bool
promote ret none = none
promote ret (some b) = some (ret || b)

abbrev as_give : Memory → Queue × Bool → Queue × Memory × Bool
as_give mem (q, done) = (q, mem, done)

-- `xQueueGenericSendFromISR`: the new world, the return value, and `*woken`.
unfoldable pub generic_send_from_isr :
    Caller → ℕ → ℕ → Option Bool → ℕ → World → World × Bool × Option Bool
unfolding valid
generic_send_from_isr c p item woken copy w =
    if valid p w.queue
    then (let (w', ret) = after_send item true w (
          if w.queue.type == type_mutex
          then (w.queue, w.memory, false)
          else if w.queue.type == type_sem
          then as_give w.memory (give_sem w.queue)
          else send_locked c.task w.queue w.memory item copy) in
        (w', ret, promote ret woken))
    else (w, false, woken)

-- `xQueueGiveFromISR`
unfoldable pub give_from_isr : Caller → ℕ → Option Bool → World → World × Bool × Option Bool
give_from_isr c p woken w = generic_send_from_isr c p 0 woken 0 w

abbrev pub as_finished : World × Bool → Attempt World Bool
as_finished (w, b) = finished w b

abbrev pub refuse : World → World × Bool
refuse w = (w, false)

-- One pass of `xQueueGenericSend` under the lock.
unfoldable pub try_send : Caller → ℕ → ℕ → World → Attempt World Bool
try_send c item copy w =
    if (w.queue.type == type_mutex || w.queue.type == type_sem)
      || (ltb w.queue.count w.queue.capacity || copy == overwrite)
    then as_finished (after_send item false w (send_locked c.task w.queue w.memory item copy))
    else again w

-- `xQueueGenericSend`, started at tick `start`
unfoldable pub generic_send :
    Caller → ℕ → ℕ → ℕ → ℕ → ℕ → List (Round World) → World → Outcome World Bool
unfolding valid
generic_send c p item timeout copy start rounds w =
    if not (valid p w.queue)
    then returned w false
    else if c.in_isr
    then (let (w', ret, _) = generic_send_from_isr c p item none copy w in returned w' ret)
    else wait_loop (try_send c item copy) refuse refuse refuse timeout start rounds w

-- `xQueueReceiveFromISR`
unfoldable pub receive_from_isr : ℕ → ℕ → Option Bool → World → World × Bool × Option Bool
unfolding valid
receive_from_isr p item woken w =
    if valid p w.queue
    then (let (w', ret) = after_receive item w (
          if w.queue.type == type_mutex
          then (w.queue, w.memory, false)
          else take_locked w.queue w.memory item) in
        (w', ret, promote ret woken))
    else (w, false, woken)

-- One pass of `xQueueReceive` under the lock.
unfoldable pub try_receive : ℕ → World → Attempt World Bool
try_receive item w =
    if not (w.queue.type == type_mutex) && not (w.queue.count == 0)
    then as_finished (after_receive item w (take_locked w.queue w.memory item))
    else again w

-- `xQueueReceive`
unfoldable pub receive : Caller → ℕ → ℕ → ℕ → ℕ → List (Round World) → World → Outcome World Bool
unfolding valid
receive c p item timeout start rounds w =
    if not (valid p w.queue)
    then returned w false
    else if c.in_isr
    then (let (w', ret, _) = receive_from_isr p item none w in returned w' ret)
    else wait_loop (try_receive item) refuse refuse refuse timeout start rounds w

-- `xQueueGenericReset`
unfoldable pub generic_reset : ℕ → Bool → World → World × Bool
unfolding valid
generic_reset p new_queue w =
    if valid p w.queue
    then (
      wake_if (not new_queue)
          (record w { queue = record (w.queue) { head = 0; count = 0; owner = 0; depth = 0 } }),
      true,
    )
    else (w, false)

-- `uxQueueMessagesWaiting` and its ISR twin
unfoldable pub messages_waiting : ℕ → World → ℕ
unfolding valid
messages_waiting p w =
    if valid p w.queue
    then (if w.queue.type == type_mutex
        then (if w.queue.count == 0 then 1 else 0)
        else w.queue.count)
    else 0

-- `xQueueIsQueueEmptyFromISR`
unfoldable pub is_queue_empty_from_isr : ℕ → World → Bool
unfolding messages_waiting
is_queue_empty_from_isr p w = p == 0 || messages_waiting p w == 0

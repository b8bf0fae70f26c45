-- ===== src/Rtos/Mutex.antt =====
-- What a mutex promises: a recursive lock. The calls that reach a mutex through
-- radio_firmware/s31_rtos/s31_rtos_queue.c are steps on its queue object, one attempt each.
pub mod Refine
pub mod Exclusion
pub mod Nesting
use esp32s31_linux_function.Base.{
  ℕ, suc, ◌+◌, ◌-◌, Bool, true, false, none, List, [], ◌∷◌, ◌==◌, if◌then◌else◌,
}
use esp32s31_linux_function.Rtos.Wait.{Attempt, finished, again}
use esp32s31_linux_function.Rtos.Queue.Calls.{
  World, Caller, generic_send_from_isr, receive_from_isr, try_send, try_receive, generic_reset,
}
use esp32s31_linux_function.Rtos.Queue.Sync.{try_take, give_mutex_recursive}

-- An attempt by a task, or by ISR code that interrupted it. `copy` is the send mode.
pub data Call : Type 0 where
  take : (t : ℕ) → Call  -- `xQueueSemaphoreTake`, `xQueueTakeMutexRecursive`
  give : (t : ℕ) → Call  -- `xQueueGiveMutexRecursive`
  send : (t copy : ℕ) → Call  -- `xQueueGenericSend`
  receive : (t : ℕ) → Call  -- `xQueueReceive`
  isr_send : (t copy : ℕ) → Call  -- `xQueueGenericSendFromISR`
  isr_receive : (t : ℕ) → Call  -- `xQueueReceiveFromISR`

abbrev pub by : Call → ℕ
by (take t) = t
by (give t) = t
by (send t copy) = t
by (receive t) = t
by (isr_send t copy) = t
by (isr_receive t) = t

-- An attempt that finds nothing to do leaves the object and reports failure.
abbrev pub settle : Attempt World Bool → World × Bool
settle (finished w b) = (w, b)
settle (again w) = (w, false)

-- One call on the mutex at `p`.
unfoldable pub step : ℕ → World → Call → World × Bool
step p w (take t) = settle (try_take t w)
step p w (give t) = give_mutex_recursive t p w
step p w (send t copy) = settle (try_send (record { task = t; in_isr = false }) 0 copy w)
step p w (receive t) = settle (try_receive 0 w)
step p w (isr_send t copy) =
    let (w', ret, _) = generic_send_from_isr (record { task = t; in_isr = true }) p 0 none copy w in
    (w', ret)
step p w (isr_receive t) = let (w', ret, _) = receive_from_isr p 0 none w in (w', ret)

-- A history of calls, with what each returned.
unfoldable pub run : ℕ → World → List Call → World × List Bool
run p w [] = (w, [])
run p w (c ∷ cs) = let (w', b) = step p w c in let (w'', bs) = run p w' cs in (w'', b ∷ bs)

-- The lock that the calls implement.
pub data Lock : Type 0 where
  free : Lock
  held : (t depth : ℕ) → Lock

unfoldable pub acquire : ℕ → Lock → Lock × Bool
acquire t free = (held t 1, true)
acquire t (held u n) = if u == t then (held u (n + 1), true) else (held u n, false)

unfoldable pub release : ℕ → Lock → Lock × Bool
release t free = (free, false)
release t (held u n) =
    if u == t then ((if n == 1 then free else held u (n - 1)), true) else (held u n, false)

-- ISR code neither takes nor gives a mutex, and nobody receives from one.
unfoldable pub step_lock : Lock → Call → Lock × Bool
step_lock l (take t) = acquire t l
step_lock l (give t) = release t l
step_lock l (send t copy) = release t l
step_lock l (receive t) = (l, false)
step_lock l (isr_send t copy) = (l, false)
step_lock l (isr_receive t) = (l, false)

unfoldable pub run_lock : Lock → List Call → Lock × List Bool
run_lock l [] = (l, [])
run_lock l (c ∷ cs) = let (l', b) = step_lock l c in let (l'', bs) = run_lock l' cs in (l'', b ∷ bs)

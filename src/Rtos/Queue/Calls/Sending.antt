-- ===== src/Rtos/Queue/Calls/Sending.antt =====
-- `xQueueGenericSend` among other contexts, and that it returns.
use esp32s31_linux_function.Base.{
  ℕ, ◌+◌, ◌≡◌, ◌≢◌, ◌⊎◌, inl, inr, Bool-cases, refl, Bool, true, false, List, arith, ◌==◌, ltb,
  ◌||◌,
}
use esp32s31_linux_function.Rtos.Wait.{Round, again}
use esp32s31_linux_function.Rtos.Wait.Laws.{
  Ensures, Tries, Returned, Ends, wait_loop-Ensures, wait_loop_returns,
}
use esp32s31_linux_function.Rtos.Queue.{Queue, Memory, overwrite, copy_out, valid, send_locked}
use esp32s31_linux_function.Rtos.Queue.Bounds.{IsValid, send_locked-IsValid}
use esp32s31_linux_function.Rtos.Queue.Contents.{contents}
use esp32s31_linux_function.Rtos.Queue.Calls.Rely.{Rely, Obeys, Obeys-Keeps, items}
use esp32s31_linux_function.Rtos.Queue.Fifo
use esp32s31_linux_function.Rtos.Queue.Fifo.{Item}
use esp32s31_linux_function.Rtos.Queue.Send.{send_locked_refines}
use esp32s31_linux_function.Rtos.Queue.Calls.{
  World, Caller, as_finished, after_send, refuse, try_send, generic_send,
}

-- The item was put into a queue that the others had led to, and the waiters were woken once; or
-- the call failed and did nothing itself.
abbrev pub SendResult : (World → World → Type 0) → World → ℕ → ℕ → World → Bool → Type 0
SendResult R w item copy w' true =
    (s : World) × R w s
    × IsValid w'.queue
    × ((items w', true)
        ≡ Fifo.send s.queue.capacity (items s) (copy_out s.memory item s.queue.item_size) copy)
    × (w'.wakes ≡ s.wakes + 1)
SendResult R w item copy w' false = R w w' × IsValid w'.queue

after_send-SendResult :
    (R : World → World → Type 0) (w s : World) (item copy : ℕ) (isr : Bool)
    (r : Queue × Memory × Bool)
    → R w s
    → r.2 ≡ true
    → IsValid r.0
    → (contents r.0 r.1, r.2)
      ≡ Fifo.send s.queue.capacity (items s) (copy_out s.memory item s.queue.item_size) copy
    → SendResult R w item copy (after_send item isr s r).0 (after_send item isr s r).1
unfolding after_send
after_send-SendResult R w s item copy isr (q, mem, true) h t v e = (s, h, v, e, refl)
after_send-SendResult R w s item copy isr (q, mem, false) h t v e = cc

after_send-ret :
    (item : ℕ) (isr : Bool) (s : World) (r : Queue × Memory × Bool)
    → after_send item isr s r ≡ ((after_send item isr s r).0, r.2)
unfolding after_send
after_send-ret item isr s r = refl

-- An attempt that is not put off succeeds.
send_ready :
    (t : ℕ) (s : World) (item copy : ℕ)
    → IsValid s.queue
    → (ltb s.queue.count s.queue.capacity || copy == overwrite) ≡ true
    → (send_locked t s.queue s.memory item copy).2 ≡ true
unfolding send_locked
send_ready t s item copy v e = ground arith

try_send-ready :
    (c : Caller) (item copy : ℕ) (s : World)
    → IsValid s.queue
    → (ltb s.queue.count s.queue.capacity || copy == overwrite) ≡ true
    → try_send c item copy s
      ≡ as_finished (after_send item false s (send_locked c.task s.queue s.memory item copy))
unfolding try_send
try_send-ready c item copy s v e = rw e (ground arith)

try_send-wait :
    (c : Caller) (item copy : ℕ) (s : World)
    → IsValid s.queue
    → (ltb s.queue.count s.queue.capacity || copy == overwrite) ≡ false
    → try_send c item copy s ≡ again s
unfolding try_send
try_send-wait c item copy s v e = rw e (ground arith)

module _ (R : World → World → Type 0) (w : World) where
  try_send-Tries :
      (c : Caller) (item copy : ℕ)
      → item ≢ 0
      → (s : World) → R w s × IsValid s.queue
      → Tries (SendResult R w item copy) (λ s. R w s × IsValid s.queue) (try_send c item copy s)
  try_send-Tries c item copy given s (h, v) =
      elim (Bool-cases (ltb s.queue.count s.queue.capacity || copy == overwrite)) [
        | inl e ↦ rw (try_send-ready c item copy s v e) (
            after_send-SendResult R w s item copy false
              (send_locked c.task s.queue s.memory item copy) h (send_ready c.task s item copy v e)
              (send_locked-IsValid c.task s.memory item copy v)
              (send_locked_refines c.task s.memory item copy v given))
        | inr e ↦ rw (try_send-wait c item copy s v e) (h, v)
      ]

-- A task that sends with any timeout, while the others act within a relation that keeps the queue
-- valid: on success its item went into the queue as the bounded sequence prescribes, in a state
-- that the others had led to, and the waiters were woken once; on failure it did nothing itself;
-- and while it still waits the queue is valid.
pub generic_send_lem :
    (R : World → World → Type 0) (c : Caller) (p item timeout copy start : ℕ)
    (rounds : List (Round World)) (w : World)
    → c.in_isr ≡ false
    → Rely R
    → Obeys R rounds
    → item ≢ 0
    → IsValid w.queue
    → Ensures
        (SendResult R w item copy)
        (λ s. R w s × IsValid s.queue)
        (generic_send c p item timeout copy start rounds w)
unfolding generic_send try_send
generic_send_lem R c p item timeout copy start rounds w task rely obeys given v =
    elim (Bool-cases (valid p w.queue)) [
      | inl e ↦
          rw (e, task)
            (wait_loop-Ensures (try_send c item copy) refuse refuse refuse timeout start
              (SendResult R w item copy) (λ s. R w s × IsValid s.queue)
              (λ s. R w s × IsValid s.queue) (try_send-Tries R w c item copy given) (λ s h. h)
              (λ s h. h) (λ s h. h) rounds w (Obeys-Keeps rely w rounds obeys) (rely.idle w, v))
      | inr e ↦ rw e (rely.idle w, v)
    ]

-- A send returns if its timeout is zero, or if time runs out or its wait fails in some round.
pub generic_send_returns :
    (c : Caller) (p item timeout copy start : ℕ) (rounds : List (Round World)) (w : World)
    → (timeout ≡ 0) ⊎ Ends timeout start rounds
    → Returned (generic_send c p item timeout copy start rounds w)
unfolding generic_send try_send
generic_send_returns c p item timeout copy start rounds w h = elim (Bool-cases (valid p w.queue)) [
  | inl e ↦ rw e (elim (Bool-cases c.in_isr) [
    | inl i ↦ rw i tt
    | inr i ↦
        rw i
          (wait_loop_returns (try_send c item copy) refuse refuse refuse timeout start rounds w h)
  ])
  | inr e ↦ rw e tt
]

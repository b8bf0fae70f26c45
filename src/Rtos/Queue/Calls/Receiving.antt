-- ===== src/Rtos/Queue/Calls/Receiving.antt =====
-- `xQueueReceive` among other contexts, and that it returns.
use esp32s31_linux_function.Base.{
  ℕ, ◌+◌, ◌*◌, ◌≤◌, ◌≡◌, ◌≢◌, ◌⊎◌, inl, inr, Bool-cases, refl, Bool, true, false, some, none, List,
  arith, ◌==◌, if◌then◌else◌,
}
use esp32s31_linux_function.Rtos.Wait.{Round, again}
use esp32s31_linux_function.Rtos.Wait.Laws.{
  Ensures, Tries, Returned, Ends, wait_loop-Ensures, wait_loop_returns,
}
use esp32s31_linux_function.Rtos.Queue.{Queue, Memory, copy_out, valid, take_locked}
use esp32s31_linux_function.Rtos.Queue.Bounds.{IsValid, take_locked-IsValid}
use esp32s31_linux_function.Rtos.Queue.Contents.{contents}
use esp32s31_linux_function.Rtos.Queue.Calls.Rely.{Rely, Obeys, Obeys-Keeps, items}
use esp32s31_linux_function.Rtos.Queue.Fifo
use esp32s31_linux_function.Rtos.Queue.Fifo.{Item}
use esp32s31_linux_function.Rtos.Queue.Take.{take_locked_refines}
use esp32s31_linux_function.Rtos.Queue.Calls.{
  World, Caller, as_finished, after_receive, refuse, try_receive, receive,
}

-- The caller's buffer does not overlap the ring.
abbrev pub Apart : ℕ → Queue → Type 0
Apart item q = (item + q.item_size ≤ q.storage) ⊎ (q.storage + q.capacity * q.item_size ≤ item)

-- The oldest item left a queue that the others had led to and stands in the buffer, and the waiters
-- were woken once; or the call failed and did nothing itself.
abbrev pub ReceiveResult : (World → World → Type 0) → World → ℕ → World → Bool → Type 0
ReceiveResult R w item w' true =
    (s : World) × R w s
    × IsValid w'.queue
    × (some (copy_out w'.memory item s.queue.item_size, items w') ≡ Fifo.take (items s))
    × (w'.wakes ≡ s.wakes + 1)
ReceiveResult R w item w' false = R w w' × IsValid w'.queue

after_receive-ReceiveResult :
    (R : World → World → Type 0) (w s : World) (item : ℕ) (r : Queue × Memory × Bool)
    → R w s
    → r.2 ≡ true
    → IsValid r.0
    → (if r.2 then some (copy_out r.1 item s.queue.item_size, contents r.0 r.1) else none)
      ≡ Fifo.take (items s)
    → ReceiveResult R w item (after_receive item s r).0 (after_receive item s r).1
unfolding after_receive
after_receive-ReceiveResult R w s item (q, mem, true) h t v e = (s, h, v, e, refl)
after_receive-ReceiveResult R w s item (q, mem, false) h t v e = cc

receive_ready :
    (s : World) (item : ℕ)
    → IsValid s.queue
    → (s.queue.count == 0) ≡ false
    → (take_locked s.queue s.memory item).2 ≡ true
unfolding take_locked
receive_ready s item v e = ground arith

try_receive-ready :
    (item : ℕ) (s : World)
    → IsValid s.queue
    → (s.queue.count == 0) ≡ false
    → try_receive item s ≡ as_finished (after_receive item s (take_locked s.queue s.memory item))
unfolding try_receive
try_receive-ready item s v e = rw e (ground arith)

try_receive-wait :
    (item : ℕ) (s : World) → (s.queue.count == 0) ≡ true → try_receive item s ≡ again s
unfolding try_receive
try_receive-wait item s e = rw e (ground arith)

module _ (R : World → World → Type 0) (rely : Rely R) (w : World) where
  still-Apart : (item : ℕ) (s : World) → R w s → Apart item w.queue → Apart item s.queue
  still-Apart item s h a = let (e₀, e₁, e₂) = rely.same_ring w s h in rw (e₀, e₁, e₂) a

  try_receive-Tries :
      (item : ℕ)
      → item ≢ 0
      → Apart item w.queue
      → (s : World) → R w s × IsValid s.queue
      → Tries (ReceiveResult R w item) (λ s. R w s × IsValid s.queue) (try_receive item s)
  try_receive-Tries item given a s (h, v) = elim (Bool-cases (s.queue.count == 0)) [
    | inl e ↦ rw (try_receive-wait item s e) (h, v)
    | inr e ↦ rw (try_receive-ready item s v e) (
        after_receive-ReceiveResult R w s item (take_locked s.queue s.memory item) h
          (receive_ready s item v e) (take_locked-IsValid s.memory item v)
          (take_locked_refines s.memory item v given (still-Apart item s h a)))
  ]

-- A task that receives with any timeout into a buffer outside of the ring, while the others act
-- within a relation that keeps the queue valid: on success it has the oldest item of a state that
-- the others had led to, the rest stays in order, and the waiters were woken once; on failure it did
-- nothing itself; and while it still waits the queue is valid.
pub receive_lem :
    (R : World → World → Type 0) (c : Caller) (p item timeout start : ℕ)
    (rounds : List (Round World)) (w : World)
    → c.in_isr ≡ false
    → Rely R
    → Obeys R rounds
    → item ≢ 0
    → Apart item w.queue
    → IsValid w.queue
    → Ensures
        (ReceiveResult R w item)
        (λ s. R w s × IsValid s.queue)
        (receive c p item timeout start rounds w)
unfolding receive
receive_lem R c p item timeout start rounds w task rely obeys given a v =
    elim (Bool-cases (valid p w.queue)) [
      | inl e ↦
          rw (e, task)
            (wait_loop-Ensures (try_receive item) refuse refuse refuse timeout start
              (ReceiveResult R w item) (λ s. R w s × IsValid s.queue) (λ s. R w s × IsValid s.queue)
              (try_receive-Tries R rely w item given a) (λ s h. h) (λ s h. h) (λ s h. h) rounds w
              (Obeys-Keeps rely w rounds obeys) (rely.idle w, v))
      | inr e ↦ rw e (rely.idle w, v)
    ]

-- A receive returns if its timeout is zero, or if time runs out or its wait fails in some round.
pub receive_returns :
    (c : Caller) (p item timeout start : ℕ) (rounds : List (Round World)) (w : World)
    → (timeout ≡ 0) ⊎ Ends timeout start rounds
    → Returned (receive c p item timeout start rounds w)
unfolding receive
receive_returns c p item timeout start rounds w h = elim (Bool-cases (valid p w.queue)) [
  | inl e ↦ rw e (elim (Bool-cases c.in_isr) [
    | inl i ↦ rw i tt
    | inr i ↦
        rw i (wait_loop_returns (try_receive item) refuse refuse refuse timeout start rounds w h)
  ])
  | inr e ↦ rw e tt
]

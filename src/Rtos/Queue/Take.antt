-- ===== src/Rtos/Queue/Take.antt =====
-- `s31_queue_take_locked` on a valid queue: what it does to the contents of the ring.
use esp32s31_linux_function.Base.{
  ℕ, ◌+◌, ◌-◌, ◌*◌, ◌%◌, ◌≤◌, ◌<◌, ◌≡◌, ◌≢◌, ◌⊎◌, ap, ◌∙◌, true, none, some, arith, if◌then◌else◌,
}
use esp32s31_linux_function.Rtos.Queue.{Queue, Memory, copy_out, memcpy, slot_address, take_locked}
use esp32s31_linux_function.Rtos.Queue.Window.{window, window_congr, window_of_pos}
use native.Mathlib.Decide.{ℕ_discrete}
use esp32s31_linux_function.Rtos.Queue.Bytes.{memcpy_read, memcpy_outside, memcpy-zero}
use esp32s31_linux_function.Rtos.Queue.Fifo
use esp32s31_linux_function.Rtos.Queue.Fifo.{Item}
use esp32s31_linux_function.Rtos.Queue.Contents.{slots, contents}
use esp32s31_linux_function.Rtos.Queue.Bounds.{IsValid, slot_address_lem, slot-le-region}

-- A copy that does not meet the ring leaves every slot as it was.
slots-memcpy :
    (q : Queue) (mem : Memory) (dst src i : ℕ)
    → (dst + q.item_size ≤ q.storage) ⊎ (q.storage + q.capacity * q.item_size ≤ dst)
    → i < q.capacity
    → slots q (memcpy mem dst src q.item_size) i ≡ slots q mem i
slots-memcpy q mem dst src i apart h =
    memcpy_outside mem dst src q.item_size (q.storage + i * q.item_size) q.item_size
      (omega (arith, slot-le-region q i h))

taken :
    {q : Queue} (mem : Memory) (item : ℕ)
    → IsValid q
    → item ≢ 0
    → 0 < q.count
    → take_locked q mem item ≡ (
      record q { head = (q.head + 1) % q.capacity; count = q.count - 1 },
      memcpy mem item (slot_address q q.head) q.item_size,
      true,
    )
unfolding take_locked
taken {q} mem item v given some_left = ground (arith, memcpy-zero mem item (slot_address q q.head))

-- What the copy to the caller's buffer leaves in the buffer and in the ring.
module _ {q : Queue} (mem : Memory) (item : ℕ) (v : IsValid q)
    (apart : (item + q.item_size ≤ q.storage) ⊎ (q.storage + q.capacity * q.item_size ≤ item)) where
  abbrev handed : Memory
  handed = memcpy mem item (slot_address q q.head) q.item_size

  handed_item : copy_out handed item q.item_size ≡ slots q mem q.head
  handed_item =
      memcpy_read mem item (slot_address q q.head) q.item_size
      ∙ ap (λ a. copy_out mem a q.item_size) (slot_address_lem q.head v v.head_in)

  handed_rest :
      (h n : ℕ)
      → h < q.capacity
      → window q.capacity (slots q handed) h n ≡ window q.capacity (slots q mem) h n
  handed_rest h n hh =
      window_congr q.capacity _ _ h n hh
        (λ j. slots-memcpy q mem item (slot_address q q.head) j apart)

-- Taking from a valid queue fails exactly when it is empty. Else the oldest item leaves the
-- sequence, and the buffer, which does not overlap the ring, holds it.
pub take_locked_refines :
    {q : Queue} (mem : Memory) (item : ℕ)
    → IsValid q
    → item ≢ 0
    → (item + q.item_size ≤ q.storage) ⊎ (q.storage + q.capacity * q.item_size ≤ item)
    → let (r, mem', done) = take_locked q mem item in
      (if done then some (copy_out mem' item q.item_size, contents r mem') else none)
      ≡ Fifo.take (contents q mem)
unfolding Fifo.take
take_locked_refines {q} mem item v given apart = elim (ℕ_discrete q.count 0) [
  | yes e ↦ unfold take_locked in (ground (arith, ap (window q.capacity (slots q mem) q.head) e))
  | no ne ↦ rw (taken mem item v given (omega arith)) (
      rw
        (
          handed_item mem item v apart,
          handed_rest mem item v apart ((q.head + 1) % q.capacity) (q.count - 1) (omega arith),
        )
        (rw (window_of_pos q.capacity (slots q mem) q.head q.count (omega arith))))
]

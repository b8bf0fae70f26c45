-- ===== src/Rtos/Queue/Contents.antt =====
-- The abstract view of a queue: the items that its ring holds.
use esp32s31_linux_function.Base.{
  ℕ, ◌+◌, ◌*◌, ◌≤◌, ◌<◌, ◌≡◌, ◌≢◌, ◌⊎◌, inl, inr, List, arith, length,
}
use native.Mathlib.Decide.{dec_lt}
use esp32s31_linux_function.Rtos.Queue.{Queue, Memory, copy_out}
use esp32s31_linux_function.Rtos.Queue.Window.{window, length-window}
use esp32s31_linux_function.Rtos.Queue.Fifo.{Item}

-- The bytes of a slot, and the items of the ring, oldest first.
abbrev pub slots : Queue → Memory → ℕ → Item
slots q mem i = copy_out mem (q.storage + i * q.item_size) q.item_size

abbrev pub contents : Queue → Memory → List Item
contents q mem = window q.capacity (slots q mem) q.head q.count

-- Two slots of a ring do not overlap.
pub mul-step : (s i j : ℕ) → i < j → i * s + s ≤ j * s
mul-step s i j h = grind arith

pub slots_apart : (s i j : ℕ) → i ≢ j → (i * s + s ≤ j * s) ⊎ (j * s + s ≤ i * s)
slots_apart s i j h = elim (dec_lt i j) [
  | yes p ↦ inl (mul-step s i j p)
  | no p ↦ inr (mul-step s j i (omega arith))
]

pub length-contents : (q : Queue) (mem : Memory) → length (contents q mem) ≡ q.count
length-contents q mem = length-window q.capacity (slots q mem) q.head q.count

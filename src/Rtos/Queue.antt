-- ===== src/Rtos/Queue.antt =====
-- radio_firmware/s31_rtos/s31_rtos_queue.c: the queue object and what is done to it under its lock.
-- Addresses are numbers, 0 is NULL, and the memory is one function from addresses to bytes, so
-- that the caller's item may alias the ring.
pub mod Window
pub mod Bytes
pub mod Fifo
pub mod Bounds
pub mod Contents
pub mod Send
pub mod Take
pub mod Trace
pub mod Calls
pub mod Sync
pub mod Create
pub mod Lifetime
use esp32s31_linux_function.Base.{
  ℕ, zero, suc, ◌+◌, ◌-◌, ◌*◌, ◌%◌, Bool, true, false, not, ◌&&◌, ◌||◌, List, [], ◌∷◌, ltb, leb,
  ◌==◌, if◌then◌else◌, u32_mod, add32, sub32,
}

-- `struct s31_queue`. `head` is the index of the oldest item.
pub record Queue : Type 0 where
  pub type : ℕ
  pub item_size : ℕ
  pub capacity : ℕ
  pub count : ℕ
  pub head : ℕ
  pub storage : ℕ
  pub owner : ℕ
  pub depth : ℕ
  pub wait_context : ℕ
  pub is_static : ℕ

abbrev pub type_mutex : ℕ
type_mutex = 1

abbrev pub type_sem : ℕ
type_sem = 2

abbrev pub send_to_front : ℕ
send_to_front = 1

abbrev pub overwrite : ℕ
overwrite = 2

abbrev pub Memory : Type 0
Memory = ℕ → ℕ

-- The two halves of `memcpy`: `n` bytes read from `a`, and a run of bytes written from `a` on.
unfoldable pub copy_out : Memory → ℕ → ℕ → List ℕ
copy_out mem a zero = []
copy_out mem a (suc n) = mem a ∷ copy_out mem (a + 1) n

unfoldable pub copy_in : Memory → ℕ → List ℕ → Memory
copy_in mem a [] x = mem x
copy_in mem a (b ∷ bs) x = if x == a then b else copy_in mem (a + 1) bs x

unfoldable pub memcpy : Memory → ℕ → ℕ → ℕ → Memory
memcpy mem dst src n = copy_in mem dst (copy_out mem src n)

-- `(uint8_t *)q->storage + idx * q->item_size`
abbrev pub slot_address : Queue → ℕ → ℕ
slot_address q idx = add32 q.storage (idx * q.item_size % u32_mod)

-- `s31_queue_valid`: `p` is the pointer, `q` the object there.
unfoldable pub valid : ℕ → Queue → Bool
valid p q = not (p == 0) && not (q.wait_context == 0)

-- The give of a mutex by the task `t`.
unfoldable pub give_mutex : ℕ → Queue → Queue × Bool
give_mutex t q =
    if t == 0 || (not (q.owner == t) || q.depth == 0)
    then (q, false)
    else if q.depth == 1
    then (record q { depth = 0; owner = 0; count = 0 }, true)
    else (record q { depth = q.depth - 1 }, true)

unfoldable pub give_sem : Queue → Queue × Bool
give_sem q =
    if leb q.capacity q.count then (q, false) else (record q { count = add32 q.count 1 }, true)

-- The queue with its head moved, and the slot that the new item goes to.
unfoldable pub choose_slot : Queue → ℕ → Queue × ℕ
choose_slot q copy =
    if copy == send_to_front
    then (record q { head = before }, before)
    else if copy == overwrite && q.count == q.capacity
    then (record q { head = add32 q.head 1 % q.capacity }, q.head)
    else (q, add32 q.head q.count % q.capacity)
  where
    before : ℕ
    before = sub32 (add32 q.head q.capacity) 1 % q.capacity

abbrev count_up : Queue → Queue
count_up q = if ltb q.count q.capacity then record q { count = add32 q.count 1 } else q

unfoldable pub place : Queue → Memory → ℕ → ℕ → Queue × Memory
unfolding choose_slot
place q mem item copy =
    let (r, idx) = choose_slot q copy in
    (
      count_up r,
      if item == 0 || r.item_size == 0
          then mem
          else memcpy mem (slot_address r idx) item r.item_size,
    )

-- `s31_queue_send_locked`, run by the task `t`
unfoldable pub send_locked : ℕ → Queue → Memory → ℕ → ℕ → Queue × Memory × Bool
send_locked t q mem item copy =
    if q.type == type_mutex
    then (let (r, done) = give_mutex t q in (r, mem, done))
    else if q.type == type_sem
    then (let (r, done) = give_sem q in (r, mem, done))
    else if q.capacity == 0 || (leb q.capacity q.count && not (copy == overwrite))
    then (q, mem, false)
    else (let (r, mem') = place q mem item copy in (r, mem', true))

-- `s31_queue_take_locked`
unfoldable pub take_locked : Queue → Memory → ℕ → Queue × Memory × Bool
take_locked q mem item = if q.count == 0 || q.capacity == 0 then (q, mem, false) else (
  record q { head = add32 q.head 1 % q.capacity; count = q.count - 1 },
  (if item == 0 || q.item_size == 0
      then mem
      else memcpy mem item (slot_address q q.head) q.item_size),
  true,
)

-- ===== src/Rtos/Queue/Bounds.antt =====
-- The representation invariant of a queue that carries items: no index, address or counter wraps.
use esp32s31_linux_function.Base.{ℕ, ◌+◌, ◌*◌, ◌^◌, ◌≤◌, ◌<◌, ◌≡◌, ◌≢◌, arith, u32_mod}
use esp32s31_linux_function.Rtos.Queue.{
  Queue, Memory, type_mutex, type_sem, give_mutex, give_sem, place, send_locked, take_locked,
  slot_address,
}

-- A ring of at most 2^31 slots, its head and count in range, its bytes below the end of the
-- address space. Mutexes and semaphores have other invariants.
pub record IsValid (q : Queue) : Type 0 where
  pub not_mutex : q.type ≢ type_mutex
  pub not_sem : q.type ≢ type_sem
  pub capacity_pos : 0 < q.capacity
  pub capacity_small : q.capacity ≤ 2 ^ 31
  pub head_in : q.head < q.capacity
  pub count_in : q.count ≤ q.capacity
  pub region : q.storage + q.capacity * q.item_size < u32_mod

-- A slot's bytes lie inside the ring's storage.
pub slot-le-region :
    (q : Queue) (idx : ℕ)
    → idx < q.capacity
    → idx * q.item_size + q.item_size ≤ q.capacity * q.item_size
slot-le-region q idx h = grind arith

-- The address of a slot is computed without a wrap.
pub slot_address_lem :
    {q : Queue} (idx : ℕ)
    → IsValid q
    → idx < q.capacity
    → slot_address q idx ≡ q.storage + idx * q.item_size
slot_address_lem {q} idx v h = omega (arith, slot-le-region q idx h)

-- Sending keeps the invariant, whatever the mode and the outcome.
pub send_locked-IsValid :
    {q : Queue} (t : ℕ) (mem : Memory) (item copy : ℕ)
    → IsValid q
    → IsValid (send_locked t q mem item copy).0
unfolding send_locked place
send_locked-IsValid t mem item copy v = ground arith

-- Taking keeps the invariant.
pub take_locked-IsValid :
    {q : Queue} (mem : Memory) (item : ℕ) → IsValid q → IsValid (take_locked q mem item).0
unfolding take_locked
take_locked-IsValid mem item v = ground arith

-- No send or take moves the ring or changes its shape.
abbrev pub SameRing : Queue → Queue → Type 0
SameRing q r = (r.storage ≡ q.storage) × (r.capacity ≡ q.capacity) × (r.item_size ≡ q.item_size)

pub send_locked-SameRing :
    (t : ℕ) (q : Queue) (mem : Memory) (item copy : ℕ)
    → SameRing q (send_locked t q mem item copy).0
unfolding send_locked place give_mutex give_sem
send_locked-SameRing t q mem item copy = ground arith

pub take_locked-SameRing :
    (q : Queue) (mem : Memory) (item : ℕ) → SameRing q (take_locked q mem item).0
unfolding take_locked
take_locked-SameRing q mem item = ground arith

-- Sending, whatever the mode and the outcome, and taking keep the invariant of a queue and leave its
-- ring where it is, with the same capacity and item size.
locked_calls-IsValid :
    {q : Queue} (t : ℕ) (mem : Memory) (item copy : ℕ)
    → IsValid q
    → let sent = (send_locked t q mem item copy).0 in
      let taken = (take_locked q mem item).0 in
      IsValid sent × SameRing q sent × IsValid taken × SameRing q taken
locked_calls-IsValid {q} t mem item copy v = (
  send_locked-IsValid t mem item copy v,
  send_locked-SameRing t q mem item copy,
  take_locked-IsValid mem item v,
  take_locked-SameRing q mem item,
)

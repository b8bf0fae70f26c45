-- ===== src/Rtos/Queue/Send.antt =====
-- `s31_queue_send_locked` on a valid queue: what it does to the contents of the ring.
use esp32s31_linux_function.Base.{
  ℕ, suc, ◌+◌, ◌-◌, ◌*◌, ◌%◌, ◌≤◌, ◌<◌, ◌≡◌, ◌≢◌, inl, inr, refl, sym, ap, ap₂, ◌∙◌, ◌||◌, List, [],
  ◌∷◌, ◌++◌, arith, add32, sub32, tail, ◌==◌, if◌then◌else◌, Bool-cases,
}
use esp32s31_linux_function.Rtos.Queue.{
  Queue, Memory, send_to_front, overwrite, copy_out, memcpy, slot_address, place, send_locked,
}
use esp32s31_linux_function.Rtos.Queue.Window.{
  window, window_snoc, window_avoid, back-forward, step-mod,
}
use native.Mathlib.Decide.{dec_lt, ℕ_discrete}
use esp32s31_linux_function.Rtos.Queue.Bytes.{memcpy_read, memcpy_outside, memcpy-zero}
use esp32s31_linux_function.Rtos.Queue.Fifo
use esp32s31_linux_function.Rtos.Queue.Fifo.{Item}
use esp32s31_linux_function.Rtos.Queue.Contents.{slots, contents, slots_apart, length-contents}
use esp32s31_linux_function.Rtos.Queue.Bounds.{IsValid, slot_address_lem}

-- The memory after the item at `item` has been copied to slot `idx`.
abbrev stored : Queue → Memory → ℕ → ℕ → Memory
stored q mem item idx = memcpy mem (slot_address q idx) item q.item_size

module _ {q : Queue} (v : IsValid q) (mem : Memory) (item idx : ℕ)
    (in_ring : idx < q.capacity) where
  -- The item stands in its slot.
  slots-stored : slots q (stored q mem item idx) idx ≡ copy_out mem item q.item_size
  slots-stored =
      rw (← slot_address_lem idx v in_ring) (memcpy_read mem (slot_address q idx) item q.item_size)

  -- The other slots are as before.
  slots_kept :
      (j : ℕ) → j < q.capacity → j ≢ idx → slots q (stored q mem item idx) j ≡ slots q mem j
  slots_kept j hj ne =
      memcpy_outside mem (slot_address q idx) item q.item_size (q.storage + j * q.item_size)
        q.item_size
        (rw (slot_address_lem idx v in_ring) (omega (arith, slots_apart q.item_size j idx ne)))

  -- A walk that ends before the slot does not see the write.
  window-stored :
      (h n d : ℕ)
      → h < q.capacity
      → n ≤ d
      → d < q.capacity
      → (h + d) % q.capacity ≡ idx
      → window q.capacity (slots q (stored q mem item idx)) h n
        ≡ window q.capacity (slots q mem) h n
  window-stored =
      window_avoid q.capacity (slots q mem) (slots q (stored q mem item idx)) idx slots_kept

-- A write past the newest item appends it.
stored_last :
    {q : Queue} (v : IsValid q) (mem : Memory) (item h n : ℕ)
    → h < q.capacity
    → n < q.capacity
    → window q.capacity (slots q (stored q mem item ((h + n) % q.capacity))) h (suc n)
      ≡ window q.capacity (slots q mem) h n ++ (copy_out mem item q.item_size ∷ [])
stored_last {q} v mem item h n hh hn =
    window_snoc q.capacity _ h n hh
    ∙ ap₂ (λ l x. l ++ (x ∷ []))
        (window-stored v mem item idx in_ring h n n hh (omega arith) hn refl)
        (slots-stored v mem item idx in_ring)
  where
    idx : ℕ
    idx = (h + n) % q.capacity

    in_ring : idx < q.capacity
    in_ring = omega arith

-- A write before the oldest item puts it in front.
stored_first :
    {q : Queue} (v : IsValid q) (mem : Memory) (item h n : ℕ)
    → h < q.capacity
    → n < q.capacity
    → window q.capacity
        (slots q (stored q mem item ((h + q.capacity - 1) % q.capacity)))
        ((h + q.capacity - 1) % q.capacity)
        (suc n)
      ≡ copy_out mem item q.item_size ∷ window q.capacity (slots q mem) h n
stored_first {q} v mem item h n hh hn = ap₂ ◌∷◌ (slots-stored v mem item idx in_ring) (
    ap (λ k. window q.capacity (slots q (stored q mem item idx)) k n) (back-forward q.capacity h hh)
    ∙ window-stored v mem item idx in_ring h n (q.capacity - 1) hh (omega arith) (omega arith)
        (ap (λ k. k % q.capacity) (omega arith)))
  where
    idx : ℕ
    idx = (h + q.capacity - 1) % q.capacity

    in_ring : idx < q.capacity
    in_ring = omega arith

-- A write over the oldest item of a full ring drops that one, and appends.
stored_over :
    {q : Queue} (v : IsValid q) (mem : Memory) (item h n : ℕ)
    → h < q.capacity
    → q.capacity ≡ suc n
    → window q.capacity (slots q (stored q mem item h)) ((h + 1) % q.capacity) (suc n)
      ≡ tail (window q.capacity (slots q mem) h (suc n)) ++ (copy_out mem item q.item_size ∷ [])
stored_over {q} v mem item h n hh e =
    ap (λ i. window q.capacity (slots q (stored q mem item i)) ((h + 1) % q.capacity) (suc n))
      (sym round)
    ∙ stored_last v mem item ((h + 1) % q.capacity) n (omega arith) (omega arith)
  where
    round : ((h + 1) % q.capacity + n) % q.capacity ≡ h
    round = step-mod q.capacity h n hh ∙ rw (← e) (grind arith)

-- What `place` writes.
written :
    (q : Queue) (mem : Memory) (item idx : ℕ)
    → item ≢ 0
    → (if item == 0 || q.item_size == 0 then mem else stored q mem item idx) ≡ stored q mem item idx
written q mem item idx h = elim (Bool-cases (q.item_size == 0)) [
  | inl e ↦ ground (
    arith,
    ap (memcpy mem (slot_address q idx) item) {x = q.item_size} {y = 0} (ground arith),
    memcpy-zero mem (slot_address q idx) item,
  )
  | inr e ↦ ground arith
]

-- The three outcomes of `place`: the new queue and the new memory.
module _ {q : Queue} (v : IsValid q) (mem : Memory) (item : ℕ) (given : item ≢ 0) where
  place-front :
      q.count < q.capacity
      → let b = (q.head + q.capacity - 1) % q.capacity in
        place q mem item send_to_front
        ≡ (record q { head = b; count = suc q.count }, stored q mem item b)
  unfolding place
  place-front room =
      ground (arith, back, written q mem item ((q.head + q.capacity - 1) % q.capacity) given)
    where
      back : sub32 (add32 q.head q.capacity) 1 ≡ q.head + q.capacity - 1
      back = omega arith

  place-over :
      q.count ≡ q.capacity
      → place q mem item overwrite
        ≡ (record q { head = (q.head + 1) % q.capacity }, stored q mem item q.head)
  unfolding place
  place-over full = ground (arith, written q mem item q.head given)

  place-back :
      (copy : ℕ)
      → copy ≢ send_to_front
      → q.count < q.capacity
      → place q mem item copy
        ≡ (record q { count = suc q.count }, stored q mem item ((q.head + q.count) % q.capacity))
  unfolding place
  place-back copy back room =
      ground (arith, written q mem item ((q.head + q.count) % q.capacity) given)

abbrev both : Queue × Memory → List Item
both p = contents p.0 p.1

-- What `place` does to the contents.
module _ {q : Queue} (v : IsValid q) (mem : Memory) (item : ℕ) (given : item ≢ 0) where
  place-front_contents :
      q.count < q.capacity
      → both (place q mem item send_to_front) ≡ copy_out mem item q.item_size ∷ contents q mem
  place-front_contents room =
      ap both (place-front v mem item given room)
      ∙ stored_first v mem item q.head q.count v.head_in room

  place-over_contents :
      q.count ≡ q.capacity
      → both (place q mem item overwrite)
        ≡ tail (contents q mem) ++ (copy_out mem item q.item_size ∷ [])
  place-over_contents full =
      ap both (place-over v mem item given full)
      ∙ ap (window q.capacity (slots q (stored q mem item q.head)) ((q.head + 1) % q.capacity)) e
      ∙ stored_over v mem item q.head (q.count - 1) v.head_in (omega arith)
      ∙ ap
          (λ n.
            tail (window q.capacity (slots q mem) q.head n) ++ (copy_out mem item q.item_size ∷ []))
          (sym e)
    where
      e : q.count ≡ suc (q.count - 1)
      e = omega (arith, v.capacity_pos)

  place-back_contents :
      (copy : ℕ)
      → copy ≢ send_to_front
      → q.count < q.capacity
      → both (place q mem item copy) ≡ contents q mem ++ (copy_out mem item q.item_size ∷ [])
  place-back_contents copy back room =
      ap both (place-back v mem item given copy back room)
      ∙ stored_last v mem item q.head q.count v.head_in room

-- Sending an item to a valid queue returns what the bounded sequence returns, and leaves the ring
-- holding that sequence, in each of the three modes.
pub send_locked_refines :
    {q : Queue} (t : ℕ) (mem : Memory) (item copy : ℕ)
    → IsValid q
    → item ≢ 0
    → let (r, mem', done) = send_locked t q mem item copy in
      (contents r mem', done)
      ≡ Fifo.send q.capacity (contents q mem) (copy_out mem item q.item_size) copy
unfolding send_locked Fifo.send
send_locked_refines {q} t mem item copy v given = elim (dec_lt q.count q.capacity) [
  | yes room ↦ elim (ℕ_discrete copy send_to_front) [
    | yes e ↦
        rw e (ground (arith, place-front_contents v mem item given room, length-contents q mem))
    | no back ↦
        ground (arith, place-back_contents v mem item given copy back room, length-contents q mem)
  ]
  | no full ↦ elim (ℕ_discrete copy overwrite) [
    | yes e ↦ rw e (ground (arith, place-over_contents v mem item given, length-contents q mem))
    | no keep ↦ ground (arith, length-contents q mem)
  ]
]

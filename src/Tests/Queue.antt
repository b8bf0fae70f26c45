-- ===== src/Tests/Queue.antt =====
-- Queues of radio_firmware/s31_rtos/s31_rtos_queue.c on concrete inputs.
use esp32s31_linux_function.Base.{
  ℕ, ◌+◌, ◌*◌, ◌%◌, ◌≡◌, inl, refl, ◌∙◌, true, false, none, some, List, [], ◌∷◌, arith, u32_mod,
  ltb, if◌then◌else◌,
}
use esp32s31_linux_function.Rtos.Wait.{
  wait_remaining, Round, woken, expired, returned, blocked, wait_loop,
}
use esp32s31_linux_function.Rtos.Wait.Laws.{Ensures}
use esp32s31_linux_function.Rtos.Wait.Time.{wait_remaining_lem}
use esp32s31_linux_function.Rtos.Queue.{
  Queue, Memory, copy_out, copy_in, memcpy, valid, send_locked, take_locked, place,
}
use esp32s31_linux_function.Rtos.Queue.Fifo
use esp32s31_linux_function.Rtos.Queue.Bounds.{
  IsValid, send_locked-SameRing, take_locked-SameRing, send_locked-IsValid, take_locked-IsValid,
}
use esp32s31_linux_function.Rtos.Queue.Contents.{contents}
use esp32s31_linux_function.Rtos.Queue.Send.{send_locked_refines}
use esp32s31_linux_function.Rtos.Queue.Take.{take_locked_refines}
use esp32s31_linux_function.Rtos.Queue.Trace.{Trace}
use esp32s31_linux_function.Rtos.Queue.Calls.{
  World, Caller, generic_send, receive, try_send, after_send,
}
use esp32s31_linux_function.Rtos.Queue.Calls.Rely.{Rely}
use esp32s31_linux_function.Rtos.Queue.Calls.Sending.{SendResult, generic_send_lem}
use esp32s31_linux_function.Rtos.Queue.Calls.Receiving.{ReceiveResult, receive_lem}
use esp32s31_linux_function.Rtos.Queue.Create.{
  generic_create, create_mutex, create_counting_semaphore, total, queue_bytes, init,
}
use esp32s31_linux_function.Rtos.Queue.Lifetime.{
  HandsOut, IsBalanced, generic_create-IsValid, create-delete,
}

-- Three slots of two bytes at 100; each byte of the memory is its address modulo 256.
abbrev ring : Queue
ring = record {
  type = 0;
  item_size = 2;
  capacity = 3;
  count = 2;
  head = 2;
  storage = 100;
  owner = 0;
  depth = 0;
  wait_context = 9;
  is_static = 0;
}

abbrev pub full : Queue
full = record ring { count = 3 }

abbrev bytes : Memory
bytes a = a % 256

ring-IsValid : IsValid ring
ring-IsValid = omega arith

full-IsValid : IsValid full
full-IsValid = omega arith

contents-ring : contents ring bytes ≡ (104 ∷ 105 ∷ []) ∷ (100 ∷ 101 ∷ []) ∷ []
unfolding copy_out
contents-ring = refl

send_front_test :
    let (q, mem, ok) = send_locked 7 ring bytes 50 1 in
    contents q mem ≡ (50 ∷ 51 ∷ []) ∷ (104 ∷ 105 ∷ []) ∷ (100 ∷ 101 ∷ []) ∷ []
unfolding send_locked place memcpy copy_in copy_out
send_front_test = refl

overwrite_test :
    let (q, mem, ok) = send_locked 7 full bytes 50 2 in
    contents q mem ≡ (100 ∷ 101 ∷ []) ∷ (102 ∷ 103 ∷ []) ∷ (50 ∷ 51 ∷ []) ∷ []
unfolding send_locked place memcpy copy_in copy_out
overwrite_test = refl

send_locked_refines_example :
    let (q, mem, ok) = send_locked 7 full bytes 50 2 in
    (contents q mem, ok) ≡ Fifo.send 3 (contents full bytes) (copy_out bytes 50 2) 2
send_locked_refines_example = send_locked_refines 7 bytes 50 2 full-IsValid (omega arith)

take_locked_refines_example :
    let (q, mem, ok) = take_locked ring bytes 50 in
    (if ok then some (copy_out mem 50 2, contents q mem) else none)
    ≡ Fifo.take (contents ring bytes)
take_locked_refines_example =
    take_locked_refines bytes 50 ring-IsValid (omega arith) (inl (omega arith))

-- The other contexts keep the ring where it is, and keep it valid.
abbrev Others : World → World → Type 0
Others u v =
    (v.queue.storage ≡ u.queue.storage)
    × (v.queue.capacity ≡ u.queue.capacity)
    × (v.queue.item_size ≡ u.queue.item_size)
    × (IsValid u.queue → IsValid v.queue)

Others-Rely : Rely Others
Others-Rely = record {
  idle = λ w. (refl, refl, refl, λ v. v);
  then_more = λ u v w h g. (g.0 ∙ h.0, g.1 ∙ h.1, g.2 ∙ h.2, λ x. g.3 (h.3 x));
  same_ring = λ u v h. (h.0, h.1, h.2);
  stable = λ u v h x. h.3 x;
}

abbrev quiet : Trace
quiet = record {
  enabled = false;
  send_count = 0;
  receive_count = 0;
  rx_send_count = 0;
  rx_receive_count = 0;
  lines = [];
  events = [];
}

abbrev pub world_of : Queue → World
world_of q = record { queue = q; memory = bytes; trace = quiet; wakes = 0 }

abbrev task : Caller
task = record { task = 7; in_isr = false }

-- Another task takes an item while this one waits.
abbrev other_takes : World → World
other_takes w = record w { queue = (take_locked w.queue w.memory 0).0 }

abbrev other_sends : World → World
other_sends w = record w {
  queue = (send_locked 8 w.queue w.memory 60 0).0;
  memory = (send_locked 8 w.queue w.memory 60 0).1;
}

other_takes-Others : (w : World) → Others w (other_takes w)
other_takes-Others w =
    let (e, f, g) = take_locked-SameRing w.queue w.memory 0 in
    (e, f, g, λ v. take_locked-IsValid w.memory 0 v)

other_sends-Others : (w : World) → Others w (other_sends w)
other_sends-Others w =
    let (e, f, g) = send_locked-SameRing 8 w.queue w.memory 60 0 in
    (e, f, g, λ v. send_locked-IsValid 8 w.memory 60 0 v)

abbrev after_take : List (Round World)
after_take = record { tick = 105; waited = woken; others = other_takes } ∷ []

abbrev after_send_rounds : List (Round World)
after_send_rounds = record { tick = 105; waited = woken; others = other_sends } ∷ []

abbrev time_up : List (Round World)
time_up = record { tick = 110; waited = expired; others = λ w. w } ∷ []

abbrev empty : Queue
empty = record ring { count = 0 }

empty-IsValid : IsValid empty
empty-IsValid = omega arith

-- A full queue is waited for, and the item goes in once another task has made room.
send_waits_test :
    (let o = generic_send task 40 50 10 0 100 after_take (world_of full) in
      elim o [ returned w b ↦ b | blocked w ↦ false ])
    ≡ true
unfolding generic_send wait_loop wait_remaining try_send send_locked take_locked after_send
send_waits_test = refl

generic_send_lem_example :
    Ensures
      (SendResult Others (world_of full) 50 0)
      (λ s. Others (world_of full) s × IsValid s.queue)
      (generic_send task 40 50 10 0 100 after_take (world_of full))
generic_send_lem_example =
    generic_send_lem Others task 40 50 10 0 100 after_take (world_of full) refl Others-Rely
      (other_takes-Others, tt) (omega arith) full-IsValid

receive_lem_example :
    Ensures
      (ReceiveResult Others (world_of empty) 50)
      (λ s. Others (world_of empty) s × IsValid s.queue)
      (receive task 40 50 10 100 after_send_rounds (world_of empty))
receive_lem_example =
    receive_lem Others task 40 50 10 100 after_send_rounds (world_of empty) refl Others-Rely
      (other_sends-Others, tt) (omega arith) (inl (omega arith)) empty-IsValid

wait_remaining_lem_example :
    wait_remaining 10 (4_294_967_295 % u32_mod) (4_294_967_299 % u32_mod) ≡ 6
wait_remaining_lem_example =
    wait_remaining_lem 10 4_294_967_295 4_294_967_299 (omega arith) (omega arith) (omega arith)

-- A heap of one block at 4096.
abbrev heap : ℕ → ℕ
heap n = if ltb (4096 + n) u32_mod then 4096 else 0

heap-HandsOut : HandsOut heap
heap-HandsOut n small h = ground arith

abbrev made_queue : Queue
made_queue = init 0 4 8 4136 77

generic_create-IsValid_example :
    IsValid made_queue
    × (valid 4096 made_queue ≡ true)
    × ((mem : Memory) → contents made_queue mem ≡ [])
    × (4096 + queue_bytes ≡ made_queue.storage)
    × (made_queue.storage + 4 * 8 ≡ 4096 + total 4 8)
unfolding generic_create
generic_create-IsValid_example =
    generic_create-IsValid heap 77 4 8 0 [] made_queue heap-HandsOut (omega arith) (omega arith)
      (omega arith) refl

create-delete_example :
    IsBalanced [] (generic_create heap 77 4 8 0 [])
    × IsBalanced [] (create_mutex heap 77 [])
    × IsBalanced [] (create_counting_semaphore heap 77 5 2 [])
create-delete_example = create-delete heap 77 4 8 0 5 2 []

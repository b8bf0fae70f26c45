-- ===== src/Tests/Sync.antt =====
-- Mutexes and semaphores of radio_firmware/s31_rtos/s31_rtos_queue.c on concrete inputs.
use esp32s31_linux_function.Base.{ℕ, ◌+◌, ◌≡◌, inl, refl, true, false, List, [], ◌∷◌, arith}
use esp32s31_linux_function.Rtos.Queue.Trace.{Trace}
use esp32s31_linux_function.Rtos.Queue.Calls.{World}
use esp32s31_linux_function.Rtos.Mutex.{
  Call, take, give, isr_send, run, free, step_lock, run_lock, acquire, release,
}
use esp32s31_linux_function.Rtos.Mutex.Refine.{IsMutex, view, run_refines}
use esp32s31_linux_function.Rtos.Semaphore
use esp32s31_linux_function.Rtos.Semaphore.{Tally}
use esp32s31_linux_function.Rtos.Semaphore.Count.{IsSemaphore, Moves, semaphore_calls_lem}

abbrev quiet : Trace
quiet = record {
  enabled = false;
  send_count = 0;
  receive_count = 0;
  rx_send_count = 0;
  rx_receive_count = 0;
  lines = [];
  events = [];
}

abbrev mutex : ℕ → ℕ → ℕ → World
mutex owner depth count = record {
  queue = record {
    type = 1;
    item_size = 0;
    capacity = 1;
    count = count;
    head = 0;
    storage = 0;
    owner = owner;
    depth = depth;
    wait_context = 9;
    is_static = 0;
  };
  memory = λ a. 0;
  trace = quiet;
  wakes = 0;
}

abbrev unlocked : World
unlocked = mutex 0 0 0

unlocked-IsMutex : IsMutex unlocked.queue
unlocked-IsMutex = record { mutex = refl; context = omega arith; state = inl (refl, refl, refl) }

-- Task 7 takes, task 8 cannot; an ISR cannot give; task 7 gives, then task 8 takes.
abbrev story : List Call
story = take 7 ∷ take 8 ∷ isr_send 7 0 ∷ give 7 ∷ take 8 ∷ []

story_test : (run_lock free story).1 ≡ true ∷ false ∷ false ∷ true ∷ true ∷ []
unfolding run_lock step_lock acquire release
story_test = refl

run_refines_example :
    IsMutex (run 40 unlocked story).0.queue
    × ((view (run 40 unlocked story).0.queue, (run 40 unlocked story).1) ≡ run_lock free story)
run_refines_example =
    run_refines 40 unlocked story (omega arith) (omega arith) (omega arith) unlocked-IsMutex

abbrev counter : World
counter = record unlocked { queue = record (unlocked.queue) { type = 2; capacity = 2; count = 1 } }

counter-IsSemaphore : IsSemaphore counter.queue
counter-IsSemaphore = omega arith

abbrev start : Tally
start = record { world = counter; given = 0; taken = 0 }

abbrev traffic : List Semaphore.Call
traffic =
    Semaphore.give 7 0
    ∷ Semaphore.give_isr 7 0
    ∷ Semaphore.take 8
    ∷ Semaphore.receive_isr
    ∷ Semaphore.take 8
    ∷ []

semaphore_calls_lem_example :
    let s = Semaphore.run 40 start traffic in
    (IsSemaphore (Semaphore.step 40 counter (Semaphore.take 7)).0.queue
      × Moves counter (Semaphore.take 7) (Semaphore.step 40 counter (Semaphore.take 7)))
    × (IsSemaphore s.world.queue × (s.world.queue.count + s.taken + 0 ≡ 1 + 0 + s.given))
semaphore_calls_lem_example =
    semaphore_calls_lem 40 start (Semaphore.take 7) traffic (omega arith) counter-IsSemaphore

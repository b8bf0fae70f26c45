-- ===== src/Tests/Locks.antt =====
-- The libc locks of radio_firmware/s31_linux_locks.c on concrete inputs.
use esp32s31_linux_function.Base.{
  ℕ, zero, suc, ◌+◌, ◌<◌, ◌≡◌, ◌≢◌, refl, sym, ◌∙◌, true, false, none, some, List, [], ◌∷◌, arith,
  ◌==◌, replicate, inl, inr, Bool-cases, u32_mod,
}
use esp32s31_linux_function.Rtos.Ledger.{obtain, release}
use esp32s31_linux_function.Rtos.Wait.{Outcome, returned, blocked, wait_loop}
use esp32s31_linux_function.Rtos.Queue.{type_mutex, valid}
use esp32s31_linux_function.Rtos.Queue.Trace.{trace_receive}
use esp32s31_linux_function.Rtos.Queue.Create.{init, finish, create_mutex, delete}
use esp32s31_linux_function.Rtos.Queue.Calls.{Caller, receive_from_isr, after_receive}
use esp32s31_linux_function.Rtos.Queue.Sync.{try_take, semaphore_take, give_mutex_recursive}
use esp32s31_linux_function.Rtos.Mutex.{Lock, free, held, step_lock}
use esp32s31_linux_function.Locks.Calls.{
  State, Status, taken, not_taken, Host, mutex_recursive, get, lock_take, lock_init, init_once,
  acquire, lock_give, lock_release, close_slot, close_lock, lock_close, retarget_lock_init,
}
use esp32s31_linux_function.Locks.Calls.Lifetime.{AreZeroed, retarget_lock_init-close}
use esp32s31_linux_function.Locks.Calls.Owners.{handle_of, lock_of, IsTable, Unused}
use esp32s31_linux_function.Locks.Calls.Refine.{
  giving, depth_of, OthersSame, Tried, lock_calls_refine,
}
use esp32s31_linux_function.Tests.Queue.{full, world_of}
use esp32s31_linux_function.Locks.{
  World, Scan, vacant, vacant_entry, cleared, scan, set_slot, lock_get, lock_find,
}
use esp32s31_linux_function.Locks.Table.{Absent}

-- One lock has its mutex, in the second slot.
abbrev one_lock : World
one_lock = record {
  locks = set_slot 1 (record { key = 500; handle = 600; type = 4 }) cleared;
  live = 600 ∷ [];
}

scan_test :
    (scan 500 0 none one_lock.locks ≡ Scan.found 600)
    × (scan 501 0 none one_lock.locks ≡ vacant 0)
    × (lock_find 500 one_lock.locks ≡ 600)
unfolding scan set_slot lock_find
scan_test = (refl, refl, refl)

abbrev toy_host : Host
toy_host = record { malloc = λ n. 700; context = 9; lock_memory = 500 }

abbrev task : Caller
task = record { task = 7; in_isr = false }

abbrev isr : Caller
isr = record { task = 7; in_isr = true }

-- Nothing is live, and no lock has a mutex.
abbrev fresh : State
fresh = record {
  table = record { locks = cleared; live = [] };
  objects = λ a. world_of (record full { wait_context = 0 });
}

abbrev shown : Outcome State Status → Lock × Status × List ℕ
shown (returned s b) = (lock_of s 500, b, s.table.live)
shown (blocked s) = (free, not_taken, s.table.live)

abbrev state_of : Outcome State Status → State
state_of (returned s b) = s
state_of (blocked s) = s

-- The first use of a static lock makes the lock and its mutex and takes it; ISR code cannot take it,
-- and closing it gives all three blocks back.
first_use_test :
    let (cell, o) = acquire toy_host task 0 mutex_recursive 0 [] (some 0) fresh in
    (cell ≡ some 500)
    × (shown o ≡ (held 7 1, taken, 9 ∷ 700 ∷ 500 ∷ []))
    × (shown (lock_take toy_host isr 500 0 mutex_recursive 0 [] (state_of o))
        ≡ (held 7 1, not_taken, 9 ∷ 700 ∷ 500 ∷ []))
    × (lock_of (lock_release task cell (state_of o)) 500 ≡ free)
    × ((lock_close cell (state_of o)).1.table.live ≡ [])
unfolding acquire init_once lock_init lock_take get lock_get scan set_slot create_mutex finish init
    obtain semaphore_take valid wait_loop try_take receive_from_isr after_receive lock_release
    lock_give lock_find give_mutex_recursive lock_close close_lock close_slot delete release
    trace_receive
first_use_test = (refl, refl, refl, refl, refl)

-- Lock 500 has the mutex at 600, which task 7 holds.
abbrev held_once : State
held_once = record {
  table = record {
    locks = record { key = 500; handle = 600; type = 4 } ∷ replicate 31 vacant_entry;
    live = 600 ∷ [];
  };
  objects = λ a.
      world_of
        (record full { type = type_mutex; wait_context = 9; owner = 7; depth = 1; count = 1 });
}

find-vacant : (k n : ℕ) → lock_find k (replicate n vacant_entry) ≡ 0
unfolding lock_find
find-vacant k zero = refl
find-vacant k (suc n) = elim (Bool-cases (0 == k)) [
  | inl e ↦ rw e refl
  | inr e ↦ rw e (find-vacant k n)
]

only_one : (k : ℕ) → handle_of held_once k ≢ 0 → 500 ≡ k
unfolding lock_find
only_one k n = elim (Bool-cases (500 == k)) [
  | inl e ↦ ground arith
  | inr e ↦ absurd (n (rw e (find-vacant k 31)))
]

held_once-IsTable : IsTable held_once
unfolding init
held_once-IsTable = record {
  mutexes = λ k p n. record {
    mutex = refl;
    context = omega arith;
    state = inr (omega arith, omega arith, refl);
  };
  apart = λ j k p q n e. sym (only_one j n) ∙ only_one k (λ z. n (e ∙ z));
}

held_once-Unused : Unused toy_host held_once
unfolding lock_find
held_once-Unused j p n e = ground (arith, only_one j n)

held_once_depth : depth_of (lock_of held_once 500) + 1 < u32_mod
unfolding lock_find
held_once_depth = omega arith

lock_calls_refine_example :
    Tried task 500 held_once (lock_take toy_host task 500 0 mutex_recursive 0 [] held_once)
    × (let s' = lock_give task 500 held_once in
        IsTable s'
        × OthersSame 500 held_once s'
        × (lock_of s' 500 ≡ (step_lock (lock_of held_once 500) (giving task)).0))
lock_calls_refine_example =
    lock_calls_refine toy_host task 500 mutex_recursive 0 [] held_once (omega arith) (omega arith)
      held_once-IsTable held_once-Unused held_once_depth

vacant-AreZeroed : (n : ℕ) → AreZeroed (replicate n vacant_entry)
vacant-AreZeroed zero = tt
vacant-AreZeroed (suc n) = ((λ e. refl), vacant-AreZeroed n)

vacant-Absent : (lock n : ℕ) → lock ≢ 0 → Absent lock (replicate n vacant_entry)
vacant-Absent lock zero p = tt
vacant-Absent lock (suc n) p = ((λ e. p (sym e)), vacant-Absent lock n p)

abbrev other_host : Host
other_host = record toy_host { lock_memory = 501 }

retarget_lock_init-close_example :
    let (cell, s1) = retarget_lock_init other_host mutex_recursive (some 0) held_once in
    let (cell', s2) = lock_close cell s1 in (s2.table ≡ held_once.table) × (cell' ≡ some 0)
retarget_lock_init-close_example =
    retarget_lock_init-close other_host mutex_recursive 0 held_once
      ((λ e. absurd (omega arith)), vacant-AreZeroed 31)
      ((λ e. absurd (omega arith)), vacant-Absent 501 31 (omega arith))

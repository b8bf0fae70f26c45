-- ===== src/Rtos/Mutex/Refine.antt =====
-- The queue object of a mutex implements the recursive lock.
use esp32s31_linux_function.Base.{
  ℕ, ◌+◌, ◌≤◌, ◌<◌, ◌≡◌, ◌≢◌, ◌⊎◌, refl, Bool, List, [], ◌∷◌, arith, length, ◌==◌, if◌then◌else◌,
  u32_mod, ap,
}
use esp32s31_linux_function.Rtos.Queue.{Queue, type_mutex, send_locked, give_mutex}
use esp32s31_linux_function.Rtos.Queue.Calls.{
  World, after_send, after_receive, try_send, try_receive, generic_send_from_isr, receive_from_isr,
}
use esp32s31_linux_function.Rtos.Queue.Sync.{try_take, give_mutex_recursive}
use esp32s31_linux_function.Rtos.Mutex.{
  Call, take, give, send, receive, isr_send, isr_receive, by, step, run, Lock, free, held, acquire,
  release, step_lock, run_lock,
}

-- A mutex is free, or it is held and counts one.
pub record IsMutex (q : Queue) : Type 0 where
  pub mutex : q.type ≡ type_mutex
  pub context : q.wait_context ≢ 0
  pub state :
      ((q.owner ≡ 0) × (q.depth ≡ 0) × (q.count ≡ 0))
      ⊎ ((q.owner ≢ 0) × (0 < q.depth) × (q.count ≡ 1))

abbrev pub view : Queue → Lock
view q = if q.owner == 0 then free else held q.owner q.depth

abbrev pub observed : World × Bool → Lock × Bool
observed (w, b) = (view w.queue, b)

-- A call keeps a mutex a mutex, and deepens it by one at most.
pub step-IsMutex :
    (p : ℕ) (w : World) (c : Call)
    → p ≢ 0
    → by c ≢ 0
    → w.queue.depth + 1 < u32_mod
    → IsMutex w.queue
    → IsMutex (step p w c).0.queue × ((step p w c).0.queue.depth ≤ w.queue.depth + 1)
unfolding step
step-IsMutex p w (take t) hp ht hd v = unfold try_take in (ground arith)
step-IsMutex p w (give t) hp ht hd v = unfold give_mutex_recursive in (ground arith)
step-IsMutex p w (send t copy) hp ht hd v =
    unfold try_send after_send send_locked give_mutex in (ground arith)
step-IsMutex p w (receive t) hp ht hd v = unfold try_receive after_receive in (ground arith)
step-IsMutex p w (isr_send t copy) hp ht hd v =
    unfold generic_send_from_isr after_send in (ground arith)
step-IsMutex p w (isr_receive t) hp ht hd v =
    unfold receive_from_isr after_receive in (ground arith)

-- A call returns what the lock returns, and leaves the object showing the lock's new state.
pub step_refines :
    (p : ℕ) (w : World) (c : Call)
    → p ≢ 0
    → by c ≢ 0
    → w.queue.depth + 1 < u32_mod
    → IsMutex w.queue
    → observed (step p w c) ≡ step_lock (view w.queue) c
unfolding step step_lock
step_refines p w (take t) hp ht hd v = unfold try_take acquire in (ground arith)
step_refines p w (give t) hp ht hd v = unfold give_mutex_recursive release in (ground arith)
step_refines p w (send t copy) hp ht hd v =
    unfold try_send after_send send_locked give_mutex release in (ground arith)
step_refines p w (receive t) hp ht hd v = unfold try_receive after_receive in (ground arith)
step_refines p w (isr_send t copy) hp ht hd v =
    unfold generic_send_from_isr after_send in (ground arith)
step_refines p w (isr_receive t) hp ht hd v =
    unfold receive_from_isr after_receive in (ground arith)

-- Every call of a history is made by some task.
abbrev pub ByTasks : List Call → Type 0
ByTasks [] = Unit {0}
ByTasks (c ∷ cs) = (by c ≢ 0) × ByTasks cs

-- A history of calls by tasks, too short for the depth counter to wrap, returns on a mutex what it
-- returns on the lock, and leaves the mutex a mutex that shows the lock's last state.
pub run_refines :
    (p : ℕ) (w : World) (cs : List Call)
    → p ≢ 0
    → ByTasks cs
    → w.queue.depth + length cs < u32_mod
    → IsMutex w.queue
    → IsMutex (run p w cs).0.queue
      × ((view (run p w cs).0.queue, (run p w cs).1) ≡ run_lock (view w.queue) cs)
unfolding run run_lock
run_refines p w [] hp hb hd v = (v, refl)
run_refines p w (c ∷ cs) hp hb hd v =
    let one : IsMutex (step p w c).0.queue × ((step p w c).0.queue.depth ≤ w.queue.depth + 1) =
      step-IsMutex p w c hp hb.0 (omega arith) v in
    let (valid_end, same) = run_refines p (step p w c).0 cs hp hb.1 (omega (arith, one.1)) one.0 in
    (
      valid_end,
      rw (← step_refines p w c hp hb.0 (omega arith) v)
          (ap (λ (r : Lock × List Bool). (r.0, (step p w c).1 ∷ r.1)) same),
    )

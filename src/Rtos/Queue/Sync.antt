-- ===== src/Rtos/Queue/Sync.antt =====
-- Semaphores and mutexes: taking, recursive giving, and asking for the holder.
use esp32s31_linux_function.Base.{
  ℕ, ◌-◌, Bool, true, false, not, ◌&&◌, ◌||◌, List, ◌==◌, if◌then◌else◌, add32,
}
use esp32s31_linux_function.Rtos.Wait.{
  Round, Attempt, finished, again, Outcome, returned, wait_loop,
}
use esp32s31_linux_function.Rtos.Queue.{Queue, type_mutex, valid}
use esp32s31_linux_function.Rtos.Queue.Calls.{World, wake_if, refuse}

-- One pass of `xQueueSemaphoreTake` under the lock, run by the task `t`.
unfoldable pub try_take : ℕ → World → Attempt World Bool
try_take t w =
    if q.type == type_mutex
    then (if q.owner == t
        then finished (record w { queue = record q { depth = add32 q.depth 1 } }) true
        else if q.owner == 0 && q.count == 0
        then finished (record w { queue = record q { owner = t; depth = 1; count = 1 } }) true
        else again w)
    else if q.count == 0
    then again w
    else finished (wake_if true (record w { queue = record q { count = q.count - 1 } })) true
  where
    q : Queue
    q = w.queue

-- `xQueueSemaphoreTake`, which `xQueueTakeMutexRecursive` is
unfoldable pub semaphore_take : ℕ → ℕ → ℕ → ℕ → List (Round World) → World → Outcome World Bool
unfolding valid
semaphore_take t p timeout start rounds w =
    if not (valid p w.queue) || t == 0
    then returned w false
    else wait_loop (try_take t) refuse refuse refuse timeout start rounds w

-- `xQueueGiveMutexRecursive`
unfoldable pub give_mutex_recursive : ℕ → ℕ → World → World × Bool
unfolding valid
give_mutex_recursive t p w =
    if not (valid p q) || not (q.type == type_mutex)
    then (w, false)
    else if q.owner == t && not (q.depth == 0)
    then (
      wake_if true (record w {
        queue =
            if q.depth == 1
            then record q { depth = 0; owner = 0; count = 0 }
            else record q { depth = q.depth - 1 };
      }),
      true,
    )
    else (w, false)
  where
    q : Queue
    q = w.queue

-- `xQueueGetMutexHolder`
unfoldable pub get_mutex_holder : ℕ → World → ℕ
unfolding valid
get_mutex_holder p w =
    if not (valid p w.queue) || not (w.queue.type == type_mutex) then 0 else w.queue.owner

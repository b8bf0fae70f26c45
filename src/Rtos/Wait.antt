-- ===== src/Rtos/Wait.antt =====
-- The waiting loop that the queue, notification and event calls share, and the time that is left
-- of a timeout (`s31_wait_remaining`, `s31_notify_wait_remaining`). The Linux bridge and the other
-- contexts are a script: one entry for each time round the loop that finds nothing to do.
pub mod Time
pub mod Laws
use esp32s31_linux_function.Base.{ℕ, ◌-◌, ◌^◌, Bool, List, [], ◌∷◌, leb, ◌==◌, if◌then◌else◌, sub32}

-- `portMAX_DELAY`
abbrev pub max_delay : ℕ
max_delay = 2 ^ 32 - 1

unfoldable pub wait_remaining : ℕ → ℕ → ℕ → ℕ
wait_remaining timeout start now =
    if timeout == max_delay
    then max_delay
    else if leb timeout (sub32 now start)
    then 0
    else timeout - sub32 now start

-- The sign of what `s31_linux_sync_wait` returns: negative, zero, positive.
pub data Waited : Type 0 where
  interrupted expired woken : Waited

-- What happens after an attempt that found nothing: the tick that the task reads, what its wait
-- returns, and what the other contexts do before the task has the lock again.
pub record Round {ℓ} (S : Type ℓ) : Type ℓ where
  pub tick : ℕ
  pub waited : Waited
  pub others : S → S

-- One pass under the lock.
pub data Attempt {ℓ κ} (S : Type ℓ) (R : Type κ) : Type (ℓ ⊔ κ) where
  finished : S → R → Attempt S R
  again : S → Attempt S R

-- A call returns, or still waits when the script ends.
pub data Outcome {ℓ κ} (S : Type ℓ) (R : Type κ) : Type (ℓ ⊔ κ) where
  returned : S → R → Outcome S R
  blocked : S → Outcome S R

abbrev pub give_back {ℓ κ} : {S : Type ℓ} {R : Type κ} → S × R → Outcome S R
give_back (s, r) = returned s r

-- `for (;;)` of a blocking call that started at tick `start`. `no_wait` is the return at a zero
-- timeout, `late` the one with no time left, `after` the one once the wait has failed.
module _ {ℓ κ} {S : Type ℓ} {R : Type κ} (attempt : S → Attempt S R)
    (no_wait late after : S → S × R) (timeout start : ℕ) where
  unfoldable pub wait_loop : List (Round S) → S → Outcome S R
  wait_loop [] s = elim (attempt s) [
    | finished s' r ↦ returned s' r
    | again s' ↦ if timeout == 0 then give_back (no_wait s') else blocked s'
  ]
  wait_loop (r ∷ rs) s = elim (attempt s) [
    | finished s' x ↦ returned s' x
    | again s' ↦
        if timeout == 0
        then give_back (no_wait s')
        else if wait_remaining timeout start r.tick == 0
        then give_back (late s')
        else elim r.waited [
          | woken ↦ wait_loop rs (r.others s')
          | interrupted ↦ give_back (after (r.others s'))
          | expired ↦ give_back (after (r.others s'))
        ]
  ]

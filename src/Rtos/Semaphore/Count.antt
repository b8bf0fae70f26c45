-- ===== src/Rtos/Semaphore/Count.antt =====
-- A semaphore neither loses nor invents a token, and never exceeds its maximum.
use esp32s31_linux_function.Base.{
  ℕ, ◌+◌, ◌-◌, ◌≤◌, ◌<◌, ◌≡◌, ◌≢◌, refl, Bool, true, false, List, [], ◌∷◌, arith, ◌==◌, leb,
  if◌then◌else◌, u32_mod,
}
use esp32s31_linux_function.Rtos.Queue.{Queue, type_sem, give_sem, send_locked, take_locked}
use esp32s31_linux_function.Rtos.Queue.Calls.{
  World, after_send, after_receive, try_send, try_receive, generic_send_from_isr, receive_from_isr,
}
use esp32s31_linux_function.Rtos.Queue.Sync.{try_take}
use esp32s31_linux_function.Rtos.Semaphore.{
  Call, give, give_isr, take, receive, receive_isr, step, Tally, tally, run,
}

pub record IsSemaphore (q : Queue) : Type 0 where
  pub semaphore : q.type ≡ type_sem
  pub context : q.wait_context ≢ 0
  pub capacity_pos : 0 < q.capacity
  pub capacity_fits : q.capacity < u32_mod
  pub count_in : q.count ≤ q.capacity

-- One call: a token moves exactly when the call succeeds; a give fails exactly at the maximum, a
-- take exactly at none.
abbrev pub Moves : World → Call → World × Bool → Type 0
Moves w (give t copy) r =
    (r.1 ≡ (if leb w.queue.capacity w.queue.count then false else true))
    × (r.0.queue.count ≡ (if r.1 then w.queue.count + 1 else w.queue.count))
Moves w (give_isr t copy) r =
    (r.1 ≡ (if leb w.queue.capacity w.queue.count then false else true))
    × (r.0.queue.count ≡ (if r.1 then w.queue.count + 1 else w.queue.count))
Moves w (take t) r =
    (r.1 ≡ (if w.queue.count == 0 then false else true))
    × (r.0.queue.count ≡ (if r.1 then w.queue.count - 1 else w.queue.count))
Moves w receive r =
    (r.1 ≡ (if w.queue.count == 0 then false else true))
    × (r.0.queue.count ≡ (if r.1 then w.queue.count - 1 else w.queue.count))
Moves w receive_isr r =
    (r.1 ≡ (if w.queue.count == 0 then false else true))
    × (r.0.queue.count ≡ (if r.1 then w.queue.count - 1 else w.queue.count))

-- A call on a semaphore leaves a semaphore, and moves one token or none: a give, by a task or an
-- ISR, succeeds exactly below the maximum and adds one; a take or a receive succeeds exactly when
-- there is a token and removes one.
step-Moves :
    (p : ℕ) (w : World) (c : Call)
    → p ≢ 0
    → IsSemaphore w.queue
    → IsSemaphore (step p w c).0.queue × Moves w c (step p w c)
unfolding step
step-Moves p w (give t copy) hp v =
    unfold try_send after_send send_locked give_sem in (ground arith)
step-Moves p w (give_isr t copy) hp v =
    unfold generic_send_from_isr after_send give_sem in (ground arith)
step-Moves p w (take t) hp v = unfold try_take in (ground arith)
step-Moves p w receive hp v = unfold try_receive after_receive take_locked in (ground arith)
step-Moves p w receive_isr hp v =
    unfold receive_from_isr after_receive take_locked in (ground arith)

-- The sum that no call changes.
abbrev Balanced : Tally → Tally → Type 0
Balanced s s' = s'.world.queue.count + s'.taken + s.given ≡ s.world.queue.count + s.taken + s'.given

tally-Balanced :
    (s : Tally) (c : Call) (r : World × Bool) → Moves s.world c r → Balanced s (tally s c r)
unfolding tally
tally-Balanced s (give t copy) r m = ground arith
tally-Balanced s (give_isr t copy) r m = ground arith
tally-Balanced s (take t) r m = ground arith
tally-Balanced s receive r m = ground arith
tally-Balanced s receive_isr r m = ground arith

-- Over any history of calls the count plus the tokens taken is the first count plus the tokens
-- given, and the count stays within the maximum.
run-count :
    (p : ℕ) (s : Tally) (cs : List Call)
    → p ≢ 0
    → IsSemaphore s.world.queue
    → let s' = run p s cs in
      IsSemaphore s'.world.queue
      × (s'.world.queue.count + s'.taken + s.given ≡ s.world.queue.count + s.taken + s'.given)
unfolding run
run-count p s [] hp v = (v, refl)
run-count p s (c ∷ cs) hp v =
    let moved : IsSemaphore (step p s.world c).0.queue × Moves s.world c (step p s.world c) =
      step-Moves p s.world c hp v in
    let one : Balanced s (tally s c (step p s.world c)) = tally-Balanced s c _ moved.1 in
    let rest : IsSemaphore (run p (tally s c (step p s.world c)) cs).world.queue
        × Balanced (tally s c (step p s.world c)) (run p (tally s c (step p s.world c)) cs) =
      run-count p (tally s c (step p s.world c)) cs hp (unfold tally in (moved.0)) in
    (rest.0, omega (arith, rest.1, one))

-- A call on a semaphore leaves a semaphore, and moves one token or none: a give, by a task or an ISR,
-- succeeds exactly below the maximum and adds one; a take or a receive succeeds exactly when there is a
-- token and removes one. Over any history of calls the count plus the tokens taken is the first count plus
-- the tokens given, and the count stays within the maximum.
pub semaphore_calls_lem :
    (p : ℕ) (s : Tally) (c : Call) (cs : List Call)
    → p ≢ 0
    → IsSemaphore s.world.queue
    → let s' = run p s cs in
      (IsSemaphore (step p s.world c).0.queue × Moves s.world c (step p s.world c))
      × (IsSemaphore s'.world.queue
          × (s'.world.queue.count + s'.taken + s.given ≡ s.world.queue.count + s.taken + s'.given))
semaphore_calls_lem p s c cs hp v = (step-Moves p s.world c hp v, run-count p s cs hp v)

-- ===== src/Rtos/Mutex/Exclusion.antt =====
-- Mutual exclusion and nesting, as a task sees them.
use esp32s31_linux_function.Base.{
  ℕ, ◌≡◌, ◌≢◌, refl, sym, subst, ap, ◌∙◌, Bool, false, List, [], ◌∷◌, arith,
}
use esp32s31_linux_function.Rtos.Queue.{Queue, send_locked, give_mutex}
use esp32s31_linux_function.Rtos.Queue.Calls.{
  World, after_send, after_receive, try_send, try_receive, generic_send_from_isr, receive_from_isr,
}
use esp32s31_linux_function.Rtos.Queue.Sync.{try_take, give_mutex_recursive}
use esp32s31_linux_function.Rtos.Mutex.{
  Call, take, give, send, receive, isr_send, isr_receive, step, run,
}
use esp32s31_linux_function.Rtos.Mutex.Refine.{IsMutex}

-- What a call is allowed to one that does not hold the mutex.
abbrev pub IsLocal : ℕ → Call → Type 0
IsLocal t (take u) = u ≢ t
IsLocal t (give u) = u ≢ t
IsLocal t (send u copy) = u ≢ t
IsLocal t (receive u) = Unit {0}
IsLocal t (isr_send u copy) = Unit {0}
IsLocal t (isr_receive u) = Unit {0}

abbrev pub AllForeign : ℕ → List Call → Type 0
AllForeign t [] = Unit {0}
AllForeign t (c ∷ cs) = IsLocal t c × AllForeign t cs

abbrev pub AllFalse : List Bool → Type 0
AllFalse [] = Unit {0}
AllFalse (b ∷ bs) = (b ≡ false) × AllFalse bs

step_foreign :
    (p t : ℕ) (w : World) (c : Call)
    → p ≢ 0
    → t ≢ 0
    → IsMutex w.queue
    → w.queue.owner ≡ t
    → IsLocal t c
    → ((step p w c).0.queue ≡ w.queue) × ((step p w c).1 ≡ false)
unfolding step
step_foreign p t w (take u) hp ht v e f = unfold try_take in (ground arith)
step_foreign p t w (give u) hp ht v e f = unfold give_mutex_recursive in (ground arith)
step_foreign p t w (send u copy) hp ht v e f =
    unfold try_send after_send send_locked give_mutex in (ground arith)
step_foreign p t w (receive u) hp ht v e f = unfold try_receive after_receive in (ground arith)
step_foreign p t w (isr_send u copy) hp ht v e f =
    unfold generic_send_from_isr after_send in (ground arith)
step_foreign p t w (isr_receive u) hp ht v e f =
    unfold receive_from_isr after_receive in (ground arith)

-- While the task `t` holds a mutex, no history of the other tasks' takes and gives, and of receives
-- and ISR calls by anyone, succeeds in any call or changes the object.
run_excludes :
    (p t : ℕ) (w : World) (cs : List Call)
    → p ≢ 0
    → t ≢ 0
    → IsMutex w.queue
    → w.queue.owner ≡ t
    → AllForeign t cs
    → ((run p w cs).0.queue ≡ w.queue) × AllFalse (run p w cs).1
unfolding run
run_excludes p t w [] hp ht v e f = (refl, tt)
run_excludes p t w (c ∷ cs) hp ht v e f =
    let one : ((step p w c).0.queue ≡ w.queue) × ((step p w c).1 ≡ false) =
      step_foreign p t w c hp ht v e f.0 in
    let (same, failed) =
      run_excludes p t (step p w c).0 cs hp ht (subst IsMutex (sym one.0) v)
        (ap (λ (q : Queue). q.owner) one.0 ∙ e) f.1 in
    (same ∙ one.0, (one.1, failed))

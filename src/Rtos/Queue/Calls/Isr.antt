-- ===== src/Rtos/Queue/Calls/Isr.antt =====
-- The ISR forms of send and receive: the `woken` flag and the wakes.
use esp32s31_linux_function.Base.{
  ℕ, ◌+◌, ◌≡◌, refl, inl, inr, Bool-cases, Bool, true, false, Option, none, some, arith,
  if◌then◌else◌,
}
use esp32s31_linux_function.Rtos.Queue.{Queue, Memory, valid}
use esp32s31_linux_function.Rtos.Queue.Calls.{
  World, Caller, promote, after_send, after_receive, generic_send_from_isr, receive_from_isr,
}

-- `*woken` is set, and the waiters are woken once, exactly on success. A failure leaves both as
-- they were, so a flag that is set is never cleared.
abbrev pub Signals : Option Bool → World → World × Bool × Option Bool → Type 0
Signals none w (w', ret, flag) = (flag ≡ none) × (w'.wakes ≡ (if ret then w.wakes + 1 else w.wakes))
Signals (some b) w (w', ret, flag) =
    (flag ≡ some (if ret then true else b)) × (w'.wakes ≡ (if ret then w.wakes + 1 else w.wakes))

after_send-Signals :
    (item : ℕ) (woken : Option Bool) (w : World) (r : Queue × Memory × Bool)
    → let (w', ret) = after_send item true w r in Signals woken w (w', ret, promote ret woken)
unfolding after_send
after_send-Signals item none w r = ground arith
after_send-Signals item (some b) w r = ground arith

after_receive-Signals :
    (item : ℕ) (woken : Option Bool) (w : World) (r : Queue × Memory × Bool)
    → let (w', ret) = after_receive item w r in Signals woken w (w', ret, promote ret woken)
unfolding after_receive
after_receive-Signals item none w r = ground arith
after_receive-Signals item (some b) w r = ground arith

unsent : (woken : Option Bool) (w : World) → Signals woken w (w, false, woken)
unsent none w = (refl, refl)
unsent (some b) w = (refl, refl)

-- Both ISR calls signal exactly on success, on any object and through any pointer.
isr_calls-Signals :
    (c : Caller) (p item copy : ℕ) (woken : Option Bool) (w : World)
    → Signals woken w (generic_send_from_isr c p item woken copy w)
      × Signals woken w (receive_from_isr p item woken w)
unfolding generic_send_from_isr receive_from_isr
isr_calls-Signals c p item copy woken w = elim (Bool-cases (valid p w.queue)) [
  | inl e ↦ (rw e (after_send-Signals item woken w _), rw e (after_receive-Signals item woken w _))
  | inr e ↦ (rw e (unsent woken w), rw e (unsent woken w))
]

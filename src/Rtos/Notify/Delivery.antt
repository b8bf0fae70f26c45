-- ===== src/Rtos/Notify/Delivery.antt =====
-- What notifying does, and what a wait then receives.
use esp32s31_linux_function.Base.{
  ℕ, ◌+◌, ◌≡◌, ◌≢◌, refl, Bool, true, false, none, some, List, ◌⊎◌, [], ◌∷◌, arith, ◌==◌,
  if◌then◌else◌, bit_and, bit_or, inl, inr, Bool-cases, add32,
}
use esp32s31_linux_function.Base.Bits.{not32}
use esp32s31_linux_function.Rtos.Task.{Tcb, NotifyState, not_waiting, waiting, received}
use esp32s31_linux_function.Rtos.Wait.{Round, expired, returned, wait_loop, wait_remaining}
use esp32s31_linux_function.Rtos.Wait.Laws.{wait_loop_at_once}
use esp32s31_linux_function.Rtos.Notify.{
  World, is_received, act, generic_notify, try_receive_notified, notify_wait, fail,
}

-- The actions of FreeRTOS.
pub data Action : Type 0 where
  no_action set_bits increment set_with_overwrite set_without_overwrite : Action

abbrev pub number : Action → ℕ
number no_action = 0
number set_bits = 1
number increment = 2
number set_with_overwrite = 3
number set_without_overwrite = 4

-- The value that an action leaves.
abbrev pub acted : Action → ℕ → ℕ → ℕ
acted no_action value old = old
acted set_bits value old = bit_or old value
acted increment value old = add32 old 1
acted set_with_overwrite value old = value
acted set_without_overwrite value old = value

-- An action is refused if it must not overwrite the notification that is pending.
abbrev pub refuses : Action → NotifyState → Bool
refuses set_without_overwrite received = true
refuses set_without_overwrite waiting = false
refuses set_without_overwrite not_waiting = false
refuses no_action s = false
refuses set_bits s = false
refuses increment s = false
refuses set_with_overwrite s = false

refuses-is_received : (s : NotifyState) → refuses set_without_overwrite s ≡ is_received s
unfolding is_received
refuses-is_received received = refl
refuses-is_received waiting = refl
refuses-is_received not_waiting = refl

-- The code's numbers mean the actions.
act_lem :
    (a : Action) (value : ℕ) (t : Tcb)
    → act (number a) value t
      ≡ (if refuses a t.notify_state then none else some (acted a value t.notify_value))
unfolding act
act_lem no_action value t = refl
act_lem set_bits value t = refl
act_lem increment value t = refl
act_lem set_with_overwrite value t = refl
act_lem set_without_overwrite value t = simp (refuses-is_received t.notify_state)

-- Notifying a task at index 0 reports the old value. Unless it is refused, and only a notification
-- that must not overwrite a pending one is, it stores what the action says, wakes the task once, and
-- the task's next wait, with any arguments at index 0 and whatever happens after its first look,
-- receives just this and clears the bits of `clear_exit`; a refused one changes nothing.
pub generic_notify_lem :
    (p : ℕ) (a : Action) (value clear_entry clear_exit timeout start : ℕ) (between : World → World)
    (rounds : List (Round World)) (w : World)
    → p ≢ 0
    → let v = acted a value w.task.notify_value in
      (generic_notify p 0 value (number a) (some 0) w ≡ (
        if refuses a w.task.notify_state then (w, false, some w.task.notify_value) else (
          record w {
            task = record (w.task) { notify_value = v; notify_state = received };
            wakes = w.wakes + 1;
          },
          true,
          some w.task.notify_value,
        )))
      × ((refuses a w.task.notify_state ≡ true)
          ⊎ (notify_wait 0 clear_entry clear_exit
                (some 0)
                timeout
                start
                between
                rounds
                (generic_notify p 0 value (number a) none w).0
              ≡ returned
                  (record w {
                    task = record (w.task) {
                      notify_value = bit_and v (not32 clear_exit);
                      notify_state = not_waiting;
                    };
                    wakes = w.wakes + 1;
                  })
                  (true, some v)))
unfolding generic_notify is_received notify_wait try_receive_notified
generic_notify_lem p a value clear_entry clear_exit timeout start between rounds w live =
    let e : (p == 0) ≡ false = ground arith in
    let acts = act_lem a value w.task in
    elim (Bool-cases (refuses a w.task.notify_state)) [
      | inl r ↦ simp (e, acts, r) (refl, inl refl)
      | inr r ↦
          simp (e, acts, r)
            (
              refl,
              inr (
                  wait_loop_at_once (try_receive_notified clear_entry clear_exit (some 0))
                    (λ s. fail (some 0) (between s)) (λ s. fail (some 0) (between s))
                    (fail (some 0)) timeout start rounds _ _ _ refl),
            )
    ]

-- The wait of a task that another notifies with `value` just as the time runs out.
abbrev pub notified_late : ℕ → ℕ → ℕ → Round World
notified_late p value tick = record {
  tick = tick;
  waited = expired;
  others = λ s. (generic_notify p 0 value 3 none s).0;
}

abbrev pub lost : ℕ → World → World
lost value w = record w {
  task = record (w.task) { notify_value = value; notify_state = not_waiting };
  wakes = w.wakes + 1;
}

-- A notification that arrives just as the time of a wait runs out is lost: the wait fails, and so
-- does the next poll, although the task was sent a value and nobody received it.
pub late_notification-lost :
    (p value tick timeout start : ℕ) (between : World → World) (w : World)
    → p ≢ 0
    → timeout ≢ 0
    → wait_remaining timeout start tick ≢ 0
    → is_received w.task.notify_state ≡ false
    → (notify_wait 0 0 0 (some 0) timeout start between (notified_late p value tick ∷ []) w
        ≡ returned (lost value w) (false, some value))
      × ((v : ℕ) × (notify_wait 0 0 0 (some 0) 0 tick (λ s. s) [] (lost value w)
            ≡ returned (lost v w) (false, some v)))
unfolding generic_notify act is_received notify_wait wait_loop try_receive_notified
late_notification-lost p value tick timeout start between w live time left quiet =
    let e : (p == 0) ≡ false = ground arith in
    let f : (timeout == 0) ≡ false = ground arith in
    let g : (wait_remaining timeout start tick == 0) ≡ false = ground arith in
    rw (wait_loop, quiet, f, g, e) (refl, (_, refl))

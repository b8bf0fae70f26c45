-- ===== src/Rtos/Notify.antt =====
-- radio_firmware/s31_rtos/s31_rtos_core.c: task notifications. `World` is the target task, with the
-- wakes that its context was sent.
pub mod Delivery
pub mod Waiting
use esp32s31_linux_function.Base.{
  ℕ, ◌+◌, ◌-◌, Bool, true, false, not, ◌&&◌, ◌||◌, Option, none, some, List, ◌==◌, if◌then◌else◌,
  add32, bit_and, bit_or,
}
use esp32s31_linux_function.Base.Bits.{not32}
use esp32s31_linux_function.Rtos.Task.{Tcb, NotifyState, not_waiting, waiting, received}
use esp32s31_linux_function.Rtos.Wait.{
  Round, Attempt, finished, again, Outcome, returned, wait_loop,
}

pub record World : Type 0 where
  pub task : Tcb
  pub wakes : ℕ

unfoldable pub is_received : NotifyState → Bool
is_received received = true
is_received waiting = false
is_received not_waiting = false

abbrev pub with_state : NotifyState → World → World
with_state s w = record w { task = record (w.task) { notify_state = s } }

abbrev pub with_value : ℕ → World → World
with_value v w = record w { task = record (w.task) { notify_value = v } }

-- `*p = v`, unless `p` is NULL
abbrev pub write_out : Option ℕ → ℕ → Option ℕ
write_out none v = none
write_out (some old) v = some v

-- The `switch (action)` of `xTaskGenericNotify`: the new value, or `none` for pdFAIL.
unfoldable pub act : ℕ → ℕ → Tcb → Option ℕ
unfolding is_received
act action value t =
    if action == 0
    then some t.notify_value
    else if action == 1
    then some (bit_or t.notify_value value)
    else if action == 2
    then some (add32 t.notify_value 1)
    else if action == 3
    then some value
    else if action == 4
    then (if is_received t.notify_state then none else some value)
    else none

-- `xTaskGenericNotify`: the new world, the return value, and `*previous`.
unfoldable pub generic_notify : ℕ → ℕ → ℕ → ℕ → Option ℕ → World → World × Bool × Option ℕ
generic_notify p index value action previous w =
    if p == 0 || not (index == 0) then (w, false, previous) else elim (act action value w.task) [
      | none ↦ (w, false, write_out previous w.task.notify_value)
      | some v ↦ (
        record w {
          task = record (w.task) { notify_value = v; notify_state = received };
          wakes = w.wakes + 1;
        },
        true,
        write_out previous w.task.notify_value,
      )
    ]

-- `vTaskGenericNotifyGiveFromISR`: the new world and `*higher_woken`.
unfoldable pub notify_give_from_isr : ℕ → ℕ → Option Bool → World → World × Option Bool
notify_give_from_isr p index woken w =
    ((generic_notify p index 0 2 none w).0, elim woken [ none ↦ none | some b ↦ some true ])

-- One pass of `ulTaskGenericNotifyTake` under the lock.
unfoldable pub try_take_notified : Bool → World → Attempt World ℕ
try_take_notified clear w =
    if w.task.notify_value == 0
    then again (with_state waiting w)
    else finished
        (with_state not_waiting (with_value (if clear then 0 else w.task.notify_value - 1) w))
        w.task.notify_value

abbrev pub give_up : World → World × ℕ
give_up w = (with_state not_waiting w, 0)

-- `ulTaskGenericNotifyTake` of the current task, started at tick `start`. `between` is what the others
-- do between the two locks of a pass that does not wait.
unfoldable pub notify_take :
    ℕ → Bool → ℕ → ℕ → (World → World) → List (Round World) → World → Outcome World ℕ
notify_take index clear timeout start between rounds w =
    if not (index == 0)
    then returned w 0
    else wait_loop (try_take_notified clear) (λ s. give_up (between s)) (λ s. give_up (between s))
        give_up timeout start rounds w

-- `t->notify_value &= ~clear_entry`, and the state of a task that waits.
abbrev pub prepare : ℕ → World → World
prepare clear_entry w =
    with_state waiting (with_value (bit_and w.task.notify_value (not32 clear_entry)) w)

-- One pass of `xTaskGenericNotifyWait` under the lock: the return value and `*out`.
unfoldable pub try_receive_notified : ℕ → ℕ → Option ℕ → World → Attempt World (Bool × Option ℕ)
unfolding is_received
try_receive_notified clear_entry clear_exit out w =
    if is_received w.task.notify_state
    then finished
        (with_state not_waiting (with_value (bit_and w.task.notify_value (not32 clear_exit)) w))
        (true, write_out out w.task.notify_value)
    else again (prepare clear_entry w)

abbrev pub fail : Option ℕ → World → World × (Bool × Option ℕ)
fail out w = (with_state not_waiting w, (false, write_out out w.task.notify_value))

-- `xTaskGenericNotifyWait` of the current task, started at tick `start`, with `between` as above
unfoldable pub notify_wait :
    ℕ
    → ℕ
    → ℕ
    → Option ℕ
    → ℕ
    → ℕ
    → (World → World)
    → List (Round World)
    → World
    → Outcome World (Bool × Option ℕ)
notify_wait index clear_entry clear_exit out timeout start between rounds w =
    if not (index == 0)
    then returned w (false, out)
    else wait_loop (try_receive_notified clear_entry clear_exit out) (λ s. fail out (between s))
        (λ s. fail out (between s)) (fail out) timeout start rounds w

-- ===== src/Timer.antt =====
-- radio_firmware/s31_linux_timer.c: the esp_timer shim. A handle is NULL, which is 0, or the address of
-- a timer on the list; C leaves any other undefined, and here it is refused as NULL is.
pub mod Alarm
pub mod Dispatch
pub mod Handles
use esp32s31_linux_function.Base.{
  ℕ, zero, suc, ◌+◌, ◌-◌, ◌*◌, ◌/◌, ◌%◌, Bool, true, false, not, ◌&&◌, ◌||◌, Option, none, some,
  List, [], ◌∷◌, leb, ◌==◌, if◌then◌else◌, u64_mod,
}
use esp32s31_linux_function.Rtos.Ledger.{Ledger, obtain, release}

-- `esp_err_t`, as far as the shim returns it
pub data EspErr : Type 0 where
  ok no_mem invalid_arg invalid_state : EspErr

-- `struct esp_timer` with its address
pub record Timer : Type 0 where
  pub handle : ℕ
  pub callback : ℕ
  pub arg : ℕ
  pub alarm_us : ℕ
  pub period_us : ℕ
  pub active : Bool

-- `s31_timers`, the live heap blocks, and the timers that were dispatched, as they stood, with the time
-- at which they were; the latest first.
pub record World : Type 0 where
  pub timers : List Timer
  pub live : Ledger
  pub fired : List (Timer × ℕ)

-- `__wrap_esp_timer_create` of the callback and the argument in `*args`, where the pointers `args` and
-- `out` may be NULL, with what the heap answers: the world, the result, and `*out`.
unfoldable pub create : ℕ → ℕ → ℕ → ℕ → ℕ → World → World × EspErr × ℕ
create args out callback arg block w =
    if args == 0 || (callback == 0 || out == 0)
    then (w, invalid_arg, 0)
    else if block == 0
    then (w, no_mem, 0)
    else (
      record w {
        timers =
            record {
              handle = block;
              callback = callback;
              arg = arg;
              alarm_us = 0;
              period_us = 0;
              active = false;
            }
            ∷ w.timers;
        live = obtain block w.live;
      },
      ok,
      block,
    )

unfoldable pub find : ℕ → List Timer → Option Timer
find h [] = none
find h (t ∷ ts) = if t.handle == h then some t else find h ts

unfoldable pub unlink : ℕ → List Timer → List Timer
unlink h [] = []
unlink h (t ∷ ts) = if t.handle == h then ts else t ∷ unlink h ts

-- The list with the timer at its address replaced.
unfoldable pub put : Timer → List Timer → List Timer
put n [] = []
put n (t ∷ ts) = if t.handle == n.handle then n ∷ ts else t ∷ put n ts

-- `__wrap_esp_timer_delete`
unfoldable pub delete : ℕ → World → World × EspErr
delete h w = elim (find h w.timers) [
  | none ↦ (w, invalid_arg)
  | some t ↦ (record w { timers = unlink h w.timers; live = release h w.live }, ok)
]

-- A call on the timer at `h`.
abbrev pub with_timer : ℕ → World → (Timer → Timer × EspErr) → World × EspErr
with_timer h w f = elim (find h w.timers) [
  | none ↦ (w, invalid_arg)
  | some t ↦ (record w { timers = put (f t).0 w.timers }, (f t).1)
]

abbrev pub add64 : ℕ → ℕ → ℕ
add64 a b = (a + b) % u64_mod

-- `s31_timer_start` on the timer
unfoldable pub arm : ℕ → ℕ → Timer → Timer × EspErr
arm alarm period t =
    if alarm == 0
    then (t, invalid_arg)
    else if t.active
    then (t, invalid_state)
    else (record t { alarm_us = alarm; period_us = period; active = true }, ok)

unfoldable pub timer_start : ℕ → ℕ → ℕ → World → World × EspErr
timer_start h alarm period w = with_timer h w (arm alarm period)

-- The four `__wrap_esp_timer_start_*`, where `now` is what `s31_timer_now_us` returns.
unfoldable pub start_once : ℕ → ℕ → ℕ → World → World × EspErr
start_once now h timeout w = timer_start h (add64 now timeout) 0 w

unfoldable pub start_once_at : ℕ → ℕ → ℕ → World → World × EspErr
start_once_at now h alarm w = if leb alarm now then (w, invalid_arg) else timer_start h alarm 0 w

unfoldable pub start_periodic : ℕ → ℕ → ℕ → World → World × EspErr
start_periodic now h period w = timer_start h (add64 now period) period w

unfoldable pub start_periodic_at : ℕ → ℕ → ℕ → ℕ → World → World × EspErr
start_periodic_at now h period first w =
    if leb first now then (w, invalid_arg) else timer_start h first period w

-- `__wrap_esp_timer_stop`
unfoldable pub disarm : Timer → Timer × EspErr
disarm t = if t.active then (record t { active = false }, ok) else (t, invalid_state)

unfoldable pub stop : ℕ → World → World × EspErr
stop h w = with_timer h w disarm

-- `__wrap_esp_timer_restart`
unfoldable pub rearm : ℕ → ℕ → Timer → Timer × EspErr
rearm now timeout t = if not t.active || timeout == 0 then (t, invalid_state) else (
  record t { alarm_us = add64 now timeout; period_us = if t.period_us == 0 then 0 else timeout },
  ok,
)

unfoldable pub restart : ℕ → ℕ → ℕ → World → World × EspErr
restart now h timeout w = with_timer h w (rearm now timeout)

-- `__wrap_esp_timer_is_active`
unfoldable pub is_active : ℕ → World → Bool
is_active h w = elim (find h w.timers) [ none ↦ false | some t ↦ t.active ]

abbrev pub is_due : ℕ → Timer → Bool
is_due now t = t.active && leb t.alarm_us now

-- The first timer of the list that is due.
unfoldable pub due : ℕ → List Timer → Option Timer
due now [] = none
due now (t ∷ ts) = if is_due now t then some t else due now ts

-- What the dispatch makes of a timer that is due.
unfoldable pub advance : ℕ → Timer → Timer
advance now t = if t.period_us == 0 then record t { active = false } else record t {
  alarm_us =
      add64 t.alarm_us (((now - t.alarm_us) / t.period_us + 1) % u64_mod * t.period_us % u64_mod);
}

-- `s31_linux_timers_tick`: `clock i` is the time that the pass `i` reads, `run` what a callback does,
-- and the first argument how many callbacks are left of the 64.
unfoldable pub dispatch : (ℕ → ℕ) → (ℕ → ℕ → World → World) → ℕ → ℕ → World → World
unfolding advance put
dispatch clock run zero i w = w
dispatch clock run (suc n) i w = elim (due (clock i) w.timers) [
  | none ↦ w
  | some t ↦ dispatch clock run n (i + 1) (
      run t.callback t.arg
        (record w { timers = put (advance (clock i) t) w.timers; fired = (t, clock i) ∷ w.fired }))
]

unfoldable pub timers_tick : (ℕ → ℕ) → (ℕ → ℕ → World → World) → World → World
timers_tick clock run w = dispatch clock run 64 0 w

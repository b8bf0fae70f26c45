-- ===== src/Timer/Dispatch.antt =====
-- The dispatch loop: what it runs, and when it stops.
use esp32s31_linux_function.Base.{
  ℕ, zero, suc, ◌+◌, ◌≤◌, ◌≡◌, sym, ap, subst, true, none, some, List, [], ◌∷◌, arith, inl, inr,
  ◌⊎◌, Bool-cases, some-injective, Option-cases, length,
}
use esp32s31_linux_function.Timer.{Timer, World, is_due, due, put, advance, dispatch, timers_tick}

-- Each timer of the log was active and its alarm had passed.
abbrev pub AllDue : List (Timer × ℕ) → Type 0
AllDue [] = Unit
AllDue ((t, now) ∷ l) = (is_due now t ≡ true) × AllDue l

due-is_due : (now : ℕ) (ts : List Timer) (t : Timer) → due now ts ≡ some t → is_due now t ≡ true
unfolding due
due-is_due now [] t e = absurd (ground arith)
due-is_due now (u ∷ ts) t e = elim (Bool-cases (is_due now u)) [
  | inl d ↦ let same : u ≡ t = some-injective (rw d at e) in rw (sym same) d
  | inr d ↦ due-is_due now ts t (rw d at e)
]

-- The loop stopped because it had run `n` more callbacks, or because no timer was due.
abbrev pub Stopped : (ℕ → ℕ) → ℕ → World → World → Type 0
Stopped clock n w w' =
    (length w'.fired ≡ length w.fired + n)
    ⊎ ((length w'.fired ≤ length w.fired + n) × ((i : ℕ) × (due (clock i) w'.timers ≡ none)))

module _ (clock : ℕ → ℕ) (run : ℕ → ℕ → World → World)
    (quiet : (c a : ℕ) (w : World) → (run c a w).fired ≡ w.fired) where
  dispatch-Stopped :
      (n i : ℕ) (w : World)
      → AllDue w.fired
      → AllDue (dispatch clock run n i w).fired × Stopped clock n w (dispatch clock run n i w)
  unfolding dispatch
  dispatch-Stopped zero i w h = (h, inl (omega arith))
  dispatch-Stopped (suc n) i w h = elim (Option-cases (due (clock i) w.timers)) [
    | inl e ↦ rw (dispatch, e) (h, inr (omega arith, (i, e)))
    | inr (t, e) ↦
        rw (dispatch, e)
          (let w1 : World = record w {
            timers = put (advance (clock i) t) w.timers;
            fired = (t, clock i) ∷ w.fired;
          } in
            let log = quiet t.callback t.arg w1 in
            let due_then : AllDue (run t.callback t.arg w1).fired =
              subst AllDue (sym log) (due-is_due (clock i) w.timers t e, h) in
            let (all, stopped) = dispatch-Stopped n (i + 1) (run t.callback t.arg w1) due_then in
            let longer : length (run t.callback t.arg w1).fired ≡ suc (length w.fired) =
              ap length log in
            (
              all,
              elim stopped [ inl m ↦ inl (omega arith) | inr (m, idle) ↦ inr (omega arith, idle) ],
            ))
  ]

  -- Where callbacks do anything but dispatch: a tick runs only timers that were active and whose alarm
  -- had passed by the time that the pass read, at most 64 of them, and it ends because it has run 64
  -- or because at the time of some pass no timer on the list was due.
  pub timers_tick_lem :
      (w : World)
      → AllDue w.fired
      → AllDue (timers_tick clock run w).fired × Stopped clock 64 w (timers_tick clock run w)
  unfolding timers_tick
  timers_tick_lem w h = dispatch-Stopped 64 0 w h

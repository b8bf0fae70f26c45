-- ===== src/Rtos/Task/Critical.antt =====
-- Critical sections nest: `vPortEnterCritical` and `vPortExitCritical` of the current task, which is
-- never NULL, over the section of the Linux bridge.
use esp32s31_linux_function.Base.{
  ℕ, suc, ◌+◌, ◌-◌, ◌<◌, ◌≡◌, refl, sym, Bool, true, false, not, ◌&&◌, Option, none, some, List, [],
  ◌∷◌, arith, ◌==◌, if◌then◌else◌, add32, u32_mod, inl, inr, Bool-cases, length,
}
use esp32s31_linux_function.Rtos.Task.{Tcb}

-- The calls of the bridge: entering returned these flags, leaving was given those.
pub data HostCall : Type 0 where
  entered left : ℕ → HostCall

-- The current task, and the calls of the bridge, the latest first.
pub record World : Type 0 where
  pub task : Tcb
  pub calls : List HostCall

-- `vPortEnterCritical`; `flags` is what the bridge returns if it is called.
unfoldable pub enter_critical : ℕ → World → World
enter_critical flags w =
    if w.task.critical_depth == 0
    then record w {
      task = record (w.task) { critical_depth = 1; critical_flags = flags };
      calls = entered flags ∷ w.calls;
    }
    else record w { task = record (w.task) { critical_depth = add32 w.task.critical_depth 1 } }

-- `vPortExitCritical`
unfoldable pub exit_critical : World → World
exit_critical w =
    if w.task.critical_depth == 0
    then w
    else if w.task.critical_depth == 1
    then record w {
      task = record (w.task) { critical_depth = 0 };
      calls = left w.task.critical_flags ∷ w.calls;
    }
    else record w { task = record (w.task) { critical_depth = w.task.critical_depth - 1 } }

-- `s31_rtos_can_yield`
unfoldable pub can_yield : Bool → World → Bool
can_yield in_isr w = not in_isr && w.task.critical_depth == 0

pub data Call : Type 0 where
  enter : ℕ → Call
  leave : Call

unfoldable pub run : World → List Call → World
run w [] = w
run w (enter f ∷ cs) = run (enter_critical f w) cs
run w (leave ∷ cs) = run (exit_critical w) cs

-- The bridge's section after its calls: `none` if these do not alternate, or if one that left was not
-- given the flags of the one that entered; else the flags with which it is held, if it is.
unfoldable pub section_after : List HostCall → Option (Option ℕ)
section_after [] = some none
section_after (entered f ∷ cs) = elim (section_after cs) [
  | some none ↦ some (some f)
  | some (some g) ↦ none
  | none ↦ none
]
section_after (left f ∷ cs) = elim (section_after cs) [
  | some (some g) ↦ if g == f then some none else none
  | some none ↦ none
  | none ↦ none
]

abbrev pub held : World → Option ℕ
held w = if w.task.critical_depth == 0 then none else some w.task.critical_flags

abbrev pub IsNested : World → Type 0
IsNested w = section_after w.calls ≡ some (held w)

-- How deep the calls have nested; leaving at depth 0 does nothing.
unfoldable pub depth_after : ℕ → List Call → ℕ
depth_after n [] = n
depth_after n (enter f ∷ cs) = depth_after (suc n) cs
depth_after n (leave ∷ cs) = depth_after (n - 1) cs

enter_critical-IsNested :
    (f : ℕ) (w : World)
    → w.task.critical_depth + 1 < u32_mod
    → IsNested w
    → IsNested (enter_critical f w)
      × ((enter_critical f w).task.critical_depth ≡ suc w.task.critical_depth)
unfolding enter_critical section_after
enter_critical-IsNested f w small h = elim (Bool-cases (w.task.critical_depth == 0)) [
  | inl e ↦ rw e (rw (rw e at h) refl, ground arith)
  | inr e ↦ rw e (ground arith, ground arith)
]

exit_critical-IsNested :
    (w : World)
    → IsNested w
    → IsNested (exit_critical w)
      × ((exit_critical w).task.critical_depth ≡ w.task.critical_depth - 1)
unfolding exit_critical section_after
exit_critical-IsNested w h = elim (Bool-cases (w.task.critical_depth == 0)) [
  | inl e ↦ rw e (ground arith, ground arith)
  | inr e ↦ rw e (elim (Bool-cases (w.task.critical_depth == 1)) [
    | inl g ↦ rw g (rw (rw e at h) (ground arith), ground arith)
    | inr g ↦ rw g (ground arith, ground arith)
  ])
]

-- Over any history of entering and leaving, too short for the depth to wrap, the task enters and
-- leaves the bridge's section in turn, leaves it with the flags of the entering, and holds it exactly
-- while its own sections are open; it may yield exactly when none is and it is in no ISR.
pub run-IsNested :
    (w : World) (cs : List Call)
    → w.task.critical_depth + length cs < u32_mod
    → IsNested w
    → IsNested (run w cs)
      × ((run w cs).task.critical_depth ≡ depth_after w.task.critical_depth cs)
      × (can_yield false (run w cs) ≡ (depth_after w.task.critical_depth cs == 0))
      × (can_yield true (run w cs) ≡ false)
unfolding run depth_after can_yield
run-IsNested w [] small h = (h, refl, refl, refl)
run-IsNested w (enter f ∷ cs) small h =
    let (n, d) = enter_critical-IsNested f w (omega arith) h in
    rw (sym d) (run-IsNested (enter_critical f w) cs (omega arith) n)
run-IsNested w (leave ∷ cs) small h =
    let (n, d) = exit_critical-IsNested w h in
    rw (sym d) (run-IsNested (exit_critical w) cs (omega arith) n)

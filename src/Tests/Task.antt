-- ===== src/Tests/Task.antt =====
-- Tasks of radio_firmware/s31_rtos/s31_rtos_core.c on concrete inputs.
use esp32s31_linux_function.Base.{
  ◌≡◌, refl, true, false, none, some, List, [], ◌∷◌, ◌++◌, arith, ◌==◌, if◌then◌else◌,
}
use esp32s31_linux_function.Rtos.Task.{Answers, zeroed, stack_bytes, copy_name, task_create}
use esp32s31_linux_function.Rtos.Ledger.{obtain, release}
use esp32s31_linux_function.Rtos.Task.Lifetime.{Spawns, task_create-Spawns}
use esp32s31_linux_function.Rtos.Task.Critical
use esp32s31_linux_function.Rtos.Task.Critical.{
  HostCall, entered, left, Call, enter, leave, enter_critical, exit_critical, can_yield, IsNested,
  section_after, depth_after, run-IsNested,
}
use esp32s31_linux_function.Rtos.Task.Locals
use esp32s31_linux_function.Rtos.Task.Locals.{
  Event, sets, returns, deleted, set_local, get_local, out_of_range, get-set_local,
}
use esp32s31_linux_function.Rtos.Task.Destructors.{expected, last_stored, ends, run-destroyed}

-- Everything is granted; the stack is at 5000.
abbrev granted : Answers
granted = record {
  block = 1000;
  notify_context = 2000;
  suspend_context = 3000;
  stack = λ n. 5000;
  linux_task = 7000;
}

abbrev kthread_fails : Answers
kthread_fails = record granted { linux_task = 0 }

stack_bytes_test : (stack_bytes 3584 ≡ 8192) × (stack_bytes 9001 ≡ 9008)
unfolding stack_bytes
stack_bytes_test = (refl, refl)

copy_name_test : copy_name 3 (119 ∷ 105 ∷ 102 ∷ 105 ∷ []) ≡ 119 ∷ 105 ∷ 102 ∷ []
unfolding copy_name
copy_name_test = refl

task_create_test :
    ((task_create granted 64 none 3584 5 23 none false []).live ≡ 5000 ∷ 3000 ∷ 2000 ∷ 1000 ∷ [])
    × ((task_create kthread_fails 64 none 3584 5 23 none false []).live ≡ [])
unfolding task_create stack_bytes obtain release
task_create_test = (refl, refl)

task_create-Spawns_example :
    Spawns granted 64 9001
      (some 0)
      false
      (77 ∷ [])
      (task_create granted 64 none 9001 5 23 (some 0) false (77 ∷ []))
task_create-Spawns_example =
    task_create-Spawns granted 64 none 9001 5 23 (some 0) false (77 ∷ []) (omega arith)

abbrev outside : Critical.World
outside = record { task = zeroed; calls = [] }

-- Two nested sections, one exit too many, and another section.
abbrev nested : List Call
nested = enter 11 ∷ enter 12 ∷ leave ∷ leave ∷ leave ∷ enter 13 ∷ []

nested_test : (Critical.run outside nested).calls ≡ entered 13 ∷ left 11 ∷ entered 11 ∷ []
unfolding Critical.run enter_critical exit_critical
nested_test = refl

outside-IsNested : IsNested outside
unfolding section_after
outside-IsNested = refl

run-IsNested_example :
    IsNested (Critical.run outside nested)
    × ((Critical.run outside nested).task.critical_depth ≡ depth_after 0 nested)
    × (can_yield false (Critical.run outside nested) ≡ (depth_after 0 nested == 0))
    × (can_yield true (Critical.run outside nested) ≡ false)
run-IsNested_example = run-IsNested outside nested (omega arith) outside-IsNested

abbrev fresh : Locals.World
fresh = record { task = zeroed; destroyed = []; endings = []; delete_count = 0; lines = 0 }

-- The destructor that is set after the end is not called.
abbrev life : List Event
life = sets 1 55 900 ∷ sets 3 66 901 ∷ returns ∷ sets 0 77 902 ∷ deleted true ∷ []

expected_test : (ends life ≡ true) × (expected fresh life ≡ (900, 1, 55) ∷ (901, 3, 66) ∷ [])
unfolding ends last_stored
expected_test = (refl, refl)

run-destroyed_example :
    (Locals.run fresh life).destroyed ≡ [] ++ (if ends life then expected fresh life else [])
run-destroyed_example = run-destroyed fresh life refl

-- ===== src/Rtos/Task/Locals.antt =====
-- Thread-local storage with destructors, and deleting tasks: `vTaskSetThreadLocalStoragePointer-
-- AndDelCallback`, `pvTaskGetThreadLocalStoragePointer`, `vTaskDelete` and the end of
-- `s31_rtos_task_entry`. An index is an `int` in two's complement, so from 2^31 on it is negative.
use esp32s31_linux_function.Base.{
  ℕ, ◌+◌, ◌^◌, ◌≡◌, Bool, true, not, ◌&&◌, ◌||◌, List, [], ◌∷◌, ◌++◌, arith, leb, ◌==◌,
  if◌then◌else◌, add32,
}
use esp32s31_linux_function.Rtos.Task.{Tcb}

-- The calls of `vTaskDelete` into the bridge.
pub data Ending : Type 0 where
  exit_current : Ending
  stop : ℕ → Ending

-- A task, the destructors that were called with their index and value, the tasks that the bridge was
-- told to end, and the counters of the diagnostics.
pub record World : Type 0 where
  pub task : Tcb
  pub destroyed : List (ℕ × ℕ × ℕ)
  pub endings : List Ending
  pub delete_count : ℕ
  pub lines : ℕ

abbrev pub out_of_range : ℕ → Bool
out_of_range index = leb (2 ^ 31) index || leb 4 index

unfoldable pub get_local : ℕ → World → ℕ
get_local index w = if out_of_range index then 0 else w.task.tls index

abbrev store : ℕ → ℕ → (ℕ → ℕ) → ℕ → ℕ
store i v f j = if j == i then v else f j

unfoldable pub set_local : ℕ → ℕ → ℕ → World → World
set_local index value dtor w = if out_of_range index then w else record w {
  task = record (w.task) {
    tls = store index value w.task.tls;
    tls_dtor = store index dtor w.task.tls_dtor;
  };
}

-- `for (i = 0; i < 4; i++) if (t->tls_dtor[i]) t->tls_dtor[i](i, t->tls[i]);`
unfoldable pub destroy : Tcb → List ℕ → List (ℕ × ℕ × ℕ)
destroy t [] = []
destroy t (i ∷ is) =
    let rest = destroy t is in if t.tls_dtor i == 0 then rest else (t.tls_dtor i, i, t.tls i) ∷ rest

abbrev pub all_locals : List ℕ
all_locals = 0 ∷ 1 ∷ 2 ∷ 3 ∷ []

unfoldable pub clean_up : World → World
clean_up w = if w.task.tls_cleaned then w else record w {
  task = record (w.task) { tls_cleaned = true };
  destroyed = w.destroyed ++ destroy w.task all_locals;
}

-- `s31_rtos_task_entry`, where `payload` is what the entry of the task does
unfoldable pub task_entry : (World → World) → World → World
task_entry payload w = clean_up (payload w)

-- `vTaskDelete`, where `is_current` is `t == s31_rtos_current()`
unfoldable pub task_delete : Bool → World → World
unfolding clean_up
task_delete is_current w =
    let w' =
      clean_up (record w { delete_count = n; lines = if leb n 32 then w.lines + 1 else w.lines }) in
    record w' {
      endings = (if is_current then exit_current else stop w.task.linux_task) ∷ w'.endings;
    }
  where
    n : ℕ
    n = add32 w.delete_count 1

-- What is read after a store: its value at its index, in range, and everywhere else what was there.
pub get-set_local :
    (i j value dtor : ℕ) (w : World)
    → get_local j (set_local i value dtor w)
      ≡ (if j == i && not (out_of_range i) then value else get_local j w)
unfolding get_local set_local
get-set_local i j value dtor w = ground arith

-- A task sets locals, its entry returns, and it or others delete it, in any order.
pub data Event : Type 0 where
  sets : ℕ → ℕ → ℕ → Event
  returns : Event
  deleted : Bool → Event

unfoldable pub step : World → Event → World
step w (sets i v d) = set_local i v d w
step w returns = task_entry (λ u. u) w
step w (deleted b) = task_delete b w

unfoldable pub run : World → List Event → World
run w [] = w
run w (e ∷ es) = run (step w e) es

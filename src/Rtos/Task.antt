-- ===== src/Rtos/Task.antt =====
-- radio_firmware/s31_rtos/s31_rtos_core.c: the tasks. A task is a Linux kthread with a control block
-- of the firmware's; `World` is the state around one such block.
pub mod Critical
pub mod Lifetime
pub mod Locals
pub mod Destructors
use esp32s31_linux_function.Base.{
  ℕ, zero, suc, ◌+◌, ◌*◌, ◌/◌, ◌≡◌, Bool, true, false, Option, none, some, List, [], ◌∷◌, ltb, ◌==◌,
  if◌then◌else◌, add32, ◌||◌,
}
use esp32s31_linux_function.Rtos.Ledger.{Ledger, obtain, release}

pub data NotifyState : Type 0 where
  not_waiting waiting received : NotifyState

-- `struct s31_tcb`. The name is its bytes up to the NUL; `tls` and `tls_dtor` are functions of the
-- index, of which 0 to 3 are used.
pub record Tcb : Type 0 where
  pub name : List ℕ
  pub entry : ℕ
  pub arg : ℕ
  pub priority : ℕ
  pub linux_task : ℕ
  pub stack_base : ℕ
  pub stack_size : ℕ
  pub tls : ℕ → ℕ
  pub tls_dtor : ℕ → ℕ
  pub critical_depth : ℕ
  pub critical_flags : ℕ
  pub tls_cleaned : Bool
  pub notify_value : ℕ
  pub notify_state : NotifyState
  pub notify_context : ℕ
  pub suspend_context : ℕ

-- `memset(t, 0, sizeof(*t))`
abbrev pub zeroed : Tcb
zeroed = record {
  name = [];
  entry = 0;
  arg = 0;
  priority = 0;
  linux_task = 0;
  stack_base = 0;
  stack_size = 0;
  tls = λ i. 0;
  tls_dtor = λ i. 0;
  critical_depth = 0;
  critical_flags = 0;
  tls_cleaned = false;
  notify_value = 0;
  notify_state = not_waiting;
  notify_context = 0;
  suspend_context = 0;
}

-- The bytes that `strncpy` copies to a buffer of zeros.
unfoldable pub copy_name : ℕ → List ℕ → List ℕ
copy_name zero s = []
copy_name (suc n) [] = []
copy_name (suc n) (c ∷ s) = c ∷ copy_name n s

-- `"s31-task"`
abbrev pub default_name : List ℕ
default_name = 115 ∷ 51 ∷ 49 ∷ 45 ∷ 116 ∷ 97 ∷ 115 ∷ 107 ∷ []

-- The stack that a request of `stack_depth` bytes gets: `(stack_depth + 15U) & ~15U`, at least 8192.
unfoldable pub stack_bytes : ℕ → ℕ
stack_bytes stack_depth = if ltb rounded 8192 then 8192 else rounded
  where
    rounded : ℕ
    rounded = add32 stack_depth 15 / 16 * 16

-- What the heap and the bridge answer to `xTaskCreatePinnedToCore`, 0 for NULL.
pub record Answers : Type 0 where
  pub block : ℕ
  pub notify_context : ℕ
  pub suspend_context : ℕ
  pub stack : ℕ → ℕ
  pub linux_task : ℕ

-- What the call leaves: the block at the address `block` if it succeeds, `*task_handle` unless the pointer
-- is NULL, `s31_scheduler_started`, and what is live.
pub record Spawned : Type 0 where
  pub task : Option Tcb
  pub handle : Option ℕ
  pub scheduler_started : Bool
  pub live : Ledger

-- `s31_rtos_task_release` of a block at address `p`
unfoldable pub task_release : ℕ → Tcb → Ledger → Ledger
task_release p t l =
    if p == 0 then l else release p (release t.suspend_context (release t.notify_context l))

-- `xTaskCreatePinnedToCore`
unfoldable pub task_create :
    Answers → ℕ → Option (List ℕ) → ℕ → ℕ → ℕ → Option ℕ → Bool → Ledger → Spawned
unfolding stack_bytes copy_name
task_create a task_func name stack_depth param prio handle started l =
    if task_func == 0 || stack_depth == 0
    then failed l
    else if a.block == 0
    then failed l
    else if a.notify_context == 0 || a.suspend_context == 0
    then failed (release a.block (release a.suspend_context (release a.notify_context held)))
    else if base == 0
    then failed (release a.block (release a.suspend_context (release a.notify_context held)))
    else if a.linux_task == 0
    then failed (
        release a.block
          (release a.suspend_context (release a.notify_context (release base (obtain base held)))))
    else record {
      task = some (record zeroed {
        name = copy_name 15 (elim name [ none ↦ default_name | some s ↦ s ]);
        entry = task_func;
        arg = param;
        priority = prio;
        notify_context = a.notify_context;
        suspend_context = a.suspend_context;
        stack_base = base;
        stack_size = stack_bytes stack_depth;
        linux_task = a.linux_task;
      });
      handle = elim handle [ none ↦ none | some old ↦ some a.block ];
      scheduler_started = true;
      live = obtain base held;
    }
  where
    failed : Ledger → Spawned
    failed live = record { task = none; handle = handle; scheduler_started = started; live = live }

    held : Ledger
    held = obtain a.suspend_context (obtain a.notify_context (obtain a.block l))

    base : ℕ
    base = a.stack (stack_bytes stack_depth)

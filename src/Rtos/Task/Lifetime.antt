-- ===== src/Rtos/Task/Lifetime.antt =====
-- Creating and releasing tasks: nothing leaks, and the stack is large enough.
use esp32s31_linux_function.Base.{
  ℕ, ◌+◌, ◌≤◌, ◌<◌, ◌≡◌, refl, Option, none, some, List, arith, ◌==◌, u32_mod, ◌||◌, inl, inr,
  Bool-cases, ◌∙◌, ◌%◌, Bool, true,
}
use esp32s31_linux_function.Rtos.Ledger.{Ledger, obtain, release, release-obtain, release-obtain₂}
use esp32s31_linux_function.Rtos.Task.{Answers, Spawned, stack_bytes, task_create, task_release}

-- What creating a task leaves, on failure and on success.
abbrev pub Spawns : Answers → ℕ → ℕ → Option ℕ → Bool → Ledger → Spawned → Type 0
Spawns a task_func stack_depth handle started l s = elim s.task [
  | none ↦ (s.live ≡ l) × (s.handle ≡ handle) × (s.scheduler_started ≡ started)
  | some t ↦
      (s.handle ≡ elim handle [ none ↦ none | some old ↦ some a.block ])
      × (s.scheduler_started ≡ true)
      × (t.entry ≡ task_func)
      × (t.stack_base ≡ a.stack t.stack_size)
      × (8192 ≤ t.stack_size)
      × (stack_depth ≤ t.stack_size)
      × (t.stack_size % 16 ≡ 0)
      × (task_release a.block t (release t.stack_base s.live) ≡ l)
]

stack_bytes-bounds :
    (n : ℕ)
    → n + 15 < u32_mod
    → (8192 ≤ stack_bytes n) × (n ≤ stack_bytes n) × (stack_bytes n % 16 ≡ 0)
unfolding stack_bytes
stack_bytes-bounds n h = (ground arith, ground arith, ground arith)

undone :
    (block notify suspend : ℕ) (l : Ledger)
    → release block
        (release suspend (release notify (obtain suspend (obtain notify (obtain block l)))))
      ≡ l
undone block notify suspend l =
    rw (release-obtain₂ notify suspend (obtain block l)) (release-obtain block l)

-- Creating a task with a stack request of less than 2^32 - 15 bytes, whatever the heap and the bridge
-- answer: a failure leaks nothing and writes nothing; a success writes the new task to the caller's handle
-- if there is one, marks the scheduler as started, and has the given entry and a stack that was allocated with
-- just the size that it states, at least 8192 bytes and the request, a multiple of 16; and once the
-- stack is freed, releasing the task leaves what was live before.
pub task_create-Spawns :
    (a : Answers) (task_func : ℕ) (name : Option (List ℕ)) (stack_depth param prio : ℕ)
    (handle : Option ℕ) (started : Bool) (l : Ledger)
    → stack_depth + 15 < u32_mod
    → Spawns a task_func stack_depth handle started l
        (task_create a task_func name stack_depth param prio handle started l)
unfolding task_create
task_create-Spawns a task_func name stack_depth param prio handle started l fits =
    elim (Bool-cases (task_func == 0 || stack_depth == 0)) [
      | inl e ↦ rw e (refl, refl, refl)
      | inr e ↦ rw e (elim (Bool-cases (a.block == 0)) [
        | inl f ↦ rw f (refl, refl, refl)
        | inr f ↦ rw f (elim (Bool-cases (a.notify_context == 0 || a.suspend_context == 0)) [
          | inl g ↦ rw g (undone a.block a.notify_context a.suspend_context l, refl, refl)
          | inr g ↦ rw g (elim (Bool-cases (a.stack (stack_bytes stack_depth) == 0)) [
            | inl h ↦ rw h (undone a.block a.notify_context a.suspend_context l, refl, refl)
            | inr h ↦ rw h (elim (Bool-cases (a.linux_task == 0)) [
              | inl k ↦
                  rw k (freed ∙ undone a.block a.notify_context a.suspend_context l, refl, refl)
              | inr k ↦ rw k (
                refl,
                refl,
                refl,
                refl,
                size.0,
                size.1,
                size.2,
                unfold task_release in
                    (rw (release-obtain base held, f)
                      (undone a.block a.notify_context a.suspend_context l)),
              )
            ])
          ])
        ])
      ])
    ]
  where
    base : ℕ
    base = a.stack (stack_bytes stack_depth)

    held : Ledger
    held = obtain a.suspend_context (obtain a.notify_context (obtain a.block l))

    freed :
        release a.block
          (release a.suspend_context (release a.notify_context (release base (obtain base held))))
        ≡ release a.block (release a.suspend_context (release a.notify_context held))
    freed = rw (release-obtain base held) refl

    size :
        (8192 ≤ stack_bytes stack_depth)
        × (stack_depth ≤ stack_bytes stack_depth)
        × (stack_bytes stack_depth % 16 ≡ 0)
    size = stack_bytes-bounds stack_depth fits

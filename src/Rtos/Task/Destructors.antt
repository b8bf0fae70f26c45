-- ===== src/Rtos/Task/Destructors.antt =====
-- Which destructors of thread-local storage are called, and when.
use esp32s31_linux_function.Base.{
  ℕ, ◌<◌, ◌≡◌, refl, Bool, true, false, List, [], ◌∷◌, ◌++◌, append-nil, arith, sym, ap, ◌∙◌, ◌==◌,
  if◌then◌else◌, inl, inr, Bool-cases,
}
use esp32s31_linux_function.Rtos.Task.{Tcb}
use esp32s31_linux_function.Rtos.Task.Locals.{
  World, Event, sets, returns, deleted, out_of_range, set_local, destroy, all_locals, clean_up,
  task_entry, task_delete, step, run,
}

-- Does the task end?
unfoldable pub ends : List Event → Bool
ends [] = false
ends (sets i v d ∷ es) = ends es
ends (returns ∷ es) = true
ends (deleted b ∷ es) = true

-- The value and the destructor of the last store at index `i` before the first end, or what was there.
unfoldable pub last_stored : ℕ → ℕ × ℕ → List Event → ℕ × ℕ
last_stored i held [] = held
last_stored i held (sets j v d ∷ es) = last_stored i (if j == i then (v, d) else held) es
last_stored i held (returns ∷ es) = held
last_stored i held (deleted b ∷ es) = held

-- The call of the destructor `d` of the local `i` with the value `v`, unless it is NULL.
abbrev called : ℕ → ℕ × ℕ → List (ℕ × ℕ × ℕ)
called i (v, d) = if d == 0 then [] else (d, i, v) ∷ []

-- The value and the destructor of a local of the task.
abbrev local : ℕ → World → ℕ × ℕ
local i w = (w.task.tls i, w.task.tls_dtor i)

-- The destructors of the four locals, by the last stores before the first end.
abbrev pub expected : World → List Event → List (ℕ × ℕ × ℕ)
expected w es =
    called 0 (last_stored 0 (local 0 w) es)
    ++ (called 1 (last_stored 1 (local 1 w) es)
        ++ (called 2 (last_stored 2 (local 2 w) es) ++ called 3 (last_stored 3 (local 3 w) es)))

local-set_local :
    (i j v d : ℕ) (w : World)
    → i < 4
    → local i (set_local j v d w) ≡ (if j == i then (v, d) else local i w)
unfolding set_local
local-set_local i j v d w lt = elim (Bool-cases (j == i)) [
  | inl e ↦
      let here : (i == j) ≡ true = ground arith in
      let low : out_of_range j ≡ false = ground arith in rw (e, low, here) refl
  | inr e ↦
      let off : (i == j) ≡ false = ground arith in
      elim (Bool-cases (out_of_range j)) [ inl h ↦ rw (e, h) refl | inr h ↦ rw (e, h, off) refl ]
]

expected-sets :
    (j v d : ℕ) (w : World) (es : List Event)
    → expected (set_local j v d w) es ≡ expected w (sets j v d ∷ es)
unfolding last_stored
expected-sets j v d w es =
    rw
      (
        local-set_local 0 j v d w (omega arith),
        local-set_local 1 j v d w (omega arith),
        local-set_local 2 j v d w (omega arith),
        local-set_local 3 j v d w (omega arith),
      )
      refl

-- The loop makes the calls in order.
destroy_next :
    (t : Tcb) (i : ℕ) (is : List ℕ)
    → destroy t (i ∷ is) ≡ called i (t.tls i, t.tls_dtor i) ++ destroy t is
unfolding destroy
destroy_next t i is = elim (Bool-cases (t.tls_dtor i == 0)) [
  | inl e ↦ rw e refl
  | inr e ↦ rw e refl
]

destroy-called :
    (t : Tcb)
    → destroy t all_locals
      ≡ expected (record { task = t; destroyed = []; endings = []; delete_count = 0; lines = 0 }) []
unfolding destroy last_stored
destroy-called t =
    destroy_next t 0 (1 ∷ 2 ∷ 3 ∷ [])
    ∙ ap (λ l. called 0 (t.tls 0, t.tls_dtor 0) ++ l)
        (destroy_next t 1 (2 ∷ 3 ∷ [])
          ∙ ap (λ l. called 1 (t.tls 1, t.tls_dtor 1) ++ l)
              (destroy_next t 2 (3 ∷ [])
                ∙ ap (λ l. called 2 (t.tls 2, t.tls_dtor 2) ++ l)
                    (destroy_next t 3 [] ∙ append-nil (called 3 (t.tls 3, t.tls_dtor 3)))))

set_local-keeps :
    (i v d : ℕ) (w : World)
    → ((set_local i v d w).task.tls_cleaned ≡ w.task.tls_cleaned)
      × ((set_local i v d w).destroyed ≡ w.destroyed)
unfolding set_local
set_local-keeps i v d w = (ground arith, ground arith)

-- The destructors of an end: all of them, or none if the task has ended before.
abbrev CleansUp : World → World → Type 0
CleansUp w w' =
    (w'.task.tls_cleaned ≡ true)
    × (w'.destroyed
        ≡ (if w.task.tls_cleaned then w.destroyed else w.destroyed ++ destroy w.task all_locals))

task_entry-CleansUp : (w : World) → CleansUp w (task_entry (λ u. u) w)
unfolding task_entry clean_up
task_entry-CleansUp w = elim (Bool-cases w.task.tls_cleaned) [
  | inl e ↦ simp e (refl, refl)
  | inr e ↦ simp e (refl, refl)
]

task_delete-CleansUp : (b : Bool) (w : World) → CleansUp w (task_delete b w)
unfolding task_delete clean_up
task_delete-CleansUp b w = elim (Bool-cases w.task.tls_cleaned) [
  | inl e ↦ simp e (refl, refl)
  | inr e ↦ simp e (refl, refl)
]

-- A task that has ended destroys nothing more.
run-cleaned :
    (w : World) (es : List Event) → w.task.tls_cleaned ≡ true → (run w es).destroyed ≡ w.destroyed
unfolding run step
run-cleaned w [] h = refl
run-cleaned w (sets i v d ∷ es) h =
    let (kept, same) = set_local-keeps i v d w in
    run-cleaned (set_local i v d w) es (kept ∙ h) ∙ same
run-cleaned w (returns ∷ es) h =
    let (c, d) = task_entry-CleansUp w in run-cleaned (task_entry (λ u. u) w) es c ∙ (simp h at d)
run-cleaned w (deleted b ∷ es) h =
    let (c, d) = task_delete-CleansUp b w in run-cleaned (task_delete b w) es c ∙ (simp h at d)

-- Over any history of a task that has not ended, of stores, returns and deletions by itself or by
-- others: if the task ends, the destructor that the last store before the first end gave to each of the
-- four locals, or that it had, is called once, unless it is NULL, in the order of the locals, with the
-- index and with the value of that store; nothing else is ever called.
pub run-destroyed :
    (w : World) (es : List Event)
    → w.task.tls_cleaned ≡ false
    → (run w es).destroyed ≡ w.destroyed ++ (if ends es then expected w es else [])
unfolding run step ends last_stored
run-destroyed w [] h = sym (append-nil w.destroyed)
run-destroyed w (sets i v d ∷ es) h =
    let (kept, same) = set_local-keeps i v d w in
    run-destroyed (set_local i v d w) es (kept ∙ h)
    ∙ ap (λ l. l ++ (if ends es then expected (set_local i v d w) es else [])) same
    ∙ ap (λ l. w.destroyed ++ (if ends es then l else [])) (expected-sets i v d w es)
run-destroyed w (returns ∷ es) h =
    let (c, d) = task_entry-CleansUp w in
    run-cleaned (task_entry (λ u. u) w) es c
    ∙ (simp h at d)
    ∙ ap (λ l. w.destroyed ++ l) (destroy-called w.task)
run-destroyed w (deleted b ∷ es) h =
    let (c, d) = task_delete-CleansUp b w in
    run-cleaned (task_delete b w) es c
    ∙ (simp h at d)
    ∙ ap (λ l. w.destroyed ++ l) (destroy-called w.task)

-- ===== src/Rtos/Mutex/Nesting.antt =====
-- A mutex that a task takes several times is free again after as many gives.
use esp32s31_linux_function.Base.{
  ℕ, zero, suc, ◌+◌, ◌-◌, ◌*◌, ◌<◌, ◌≡◌, ◌≢◌, refl, subst, append-nil, ap, ◌∙◌, true, Bool, List,
  [], ◌++◌, arith, length, length-append, replicate, length-replicate, u32_mod,
}
use esp32s31_linux_function.Rtos.Queue.{Queue}
use esp32s31_linux_function.Rtos.Queue.Calls.{World}
use esp32s31_linux_function.Rtos.Mutex.{
  Call, take, give, by, run, Lock, free, held, acquire, release, step_lock, run_lock,
}
use esp32s31_linux_function.Rtos.Mutex.Refine.{IsMutex, view, ByTasks, run_refines}

abbrev prepend : List Bool → Lock × List Bool → Lock × List Bool
prepend bs (l, cs) = (l, bs ++ cs)

module _ (t : ℕ) where
  run_lock-takes :
      (n k : ℕ) (cs : List Call)
      → run_lock (held t k) (replicate n (take t) ++ cs)
        ≡ prepend (replicate n true) (run_lock (held t (k + n)) cs)
  unfolding run_lock step_lock acquire
  run_lock-takes zero k cs = ap (λ j. run_lock (held t j) cs) (omega arith)
  run_lock-takes (suc n) k cs = ground (
    arith,
    run_lock-takes n (k + 1) cs,
    ap (λ j. run_lock (held t j) cs) {x = k + 1 + n} {y = k + suc n} (omega arith),
  )

  run_lock-gives :
      (n : ℕ)
      → run_lock (held t (suc n)) (replicate (suc n) (give t)) ≡ (free, replicate (suc n) true)
  unfolding run_lock step_lock release
  run_lock-gives zero = ground arith
  run_lock-gives (suc n) =
      ground (arith, run_lock-gives n, ap (held t) {x = suc (suc n) - 1} {y = suc n} (omega arith))

  run_lock-nest :
      (n : ℕ)
      → run_lock free (replicate n (take t) ++ replicate n (give t))
        ≡ (free, replicate n true ++ replicate n true)
  unfolding run_lock step_lock acquire
  run_lock-nest zero = refl
  run_lock-nest (suc n) = ground (
    arith,
    run_lock-takes n 1 (replicate (suc n) (give t)),
    run_lock-gives n,
    ap (λ j. run_lock (held t j) (replicate (suc n) (give t))) {x = 1 + n} {y = suc n}
        (omega arith),
  )

  ByTasks-replicate :
      (n : ℕ) (c : Call) (cs : List Call) → by c ≢ 0 → ByTasks cs → ByTasks (replicate n c ++ cs)
  ByTasks-replicate zero c cs h r = r
  ByTasks-replicate (suc n) c cs h r = (h, ByTasks-replicate n c cs h r)

view-zero : (q : Queue) → q.owner ≡ 0 → view q ≡ free
view-zero q e = ground arith

view-free : {q : Queue} → IsMutex q → view q ≡ free → (q.owner ≡ 0) × (q.depth ≡ 0)
view-free v e = ground arith

-- From a free mutex, `n` takes by a task all succeed, as many gives all succeed, and the mutex is
-- free again; `2 * n` calls fit the counters.
pub run-nest :
    (p t n : ℕ) (w : World)
    → p ≢ 0
    → t ≢ 0
    → 2 * n < u32_mod
    → IsMutex w.queue
    → w.queue.owner ≡ 0
    → let (w', results) = run p w (replicate n (take t) ++ replicate n (give t)) in
      (w'.queue.owner ≡ 0) × (w'.queue.depth ≡ 0) × (results ≡ replicate n true ++ replicate n true)
run-nest p t n w hp ht hn v e =
    let (v', same) = run_refines p w calls hp tasks (omega (arith, size)) v in
    let end : (view (run p w calls).0.queue, (run p w calls).1)
        ≡ (free, replicate n true ++ replicate n true) =
      same ∙ ap (λ l. run_lock l calls) (view-zero w.queue e) ∙ run_lock-nest t n in
    let (zero_owner, zero_depth) = view-free v' (ap (λ (r : Lock × List Bool). r.0) end) in
    (zero_owner, zero_depth, ap (λ (r : Lock × List Bool). r.1) end)
  where
    calls : List Call
    calls = replicate n (take t) ++ replicate n (give t)

    tasks : ByTasks calls
    tasks = ByTasks-replicate t n (take t) (replicate n (give t)) ht (
        subst ByTasks (append-nil (replicate n (give t))) (ByTasks-replicate t n (give t) [] ht tt))

    size : length calls ≡ 2 * n
    size = omega (
      arith,
      length-append (replicate n (take t)) (replicate n (give t)),
      length-replicate n (take t),
      length-replicate n (give t),
    )

-- ===== src/Locks/Calls/Refine.antt =====
-- Taking and releasing libc locks, against recursive locks.
use esp32s31_linux_function.Base.{
  ℕ, ◌+◌, ◌<◌, ◌≡◌, ◌≢◌, ◌⊎◌, inl, inr, refl, sym, subst, ap, ◌∙◌, Bool, true, false, not, ◌||◌,
  none, List, [], ◌∷◌, arith, ◌==◌, if◌then◌else◌, Bool-cases, u32_mod,
}
use esp32s31_linux_function.Rtos.Wait.{Round, Outcome, returned, wait_loop, finished, again}
use esp32s31_linux_function.Rtos.Wait.Laws.{Attempt-cases}
use esp32s31_linux_function.Rtos.Queue.{Queue, valid}
use esp32s31_linux_function.Rtos.Queue.Calls
use esp32s31_linux_function.Rtos.Queue.Calls.{
  Caller, refuse, receive_from_isr, give_from_isr, generic_send_from_isr,
}
use esp32s31_linux_function.Rtos.Queue.Sync.{try_take, semaphore_take, give_mutex_recursive}
use esp32s31_linux_function.Rtos.Mutex
use esp32s31_linux_function.Rtos.Mutex.{
  Call, take, give, isr_send, isr_receive, settle, by, step, Lock, free, held, step_lock,
}
use esp32s31_linux_function.Rtos.Mutex.Refine.{IsMutex, view, step-IsMutex, step_refines}
use esp32s31_linux_function.Locks.Calls.Owners.{
  handle_of, lock_of, IsTable, exchanged-lock_of, exchanged-other, exchanged-IsTable, Unused,
  get-Keeps,
}
use esp32s31_linux_function.Locks.Calls.{
  State, put_object, Status, not_taken, status, on_object, Host, get, lock_take, lock_give,
}

-- What a call on a lock is for its mutex: ISR code can neither take nor give one.
abbrev pub taking : Caller → Call
taking c = if c.in_isr then isr_receive c.task else take c.task

abbrev pub giving : Caller → Call
giving c = if c.in_isr then isr_send c.task 0 else give c.task

abbrev pub depth_of : Lock → ℕ
depth_of free = 0
depth_of (held t n) = n

-- The other locks are as they were.
abbrev pub OthersSame : ℕ → State → State → Type 0
OthersSame k s s' = (j : ℕ) → j ≢ 0 → j ≢ k → lock_of s' j ≡ lock_of s j

-- The call returned: there is no mutex for the lock and no lock has changed, or the lock did a step.
abbrev pub Tried : Caller → ℕ → State → Outcome State Status → Type 0
Tried c k s o =
    (s' : State) × (b : Bool) × (o ≡ returned s' (status b))
    × IsTable s'
    × OthersSame k s s'
    × (((handle_of s' k ≡ 0) × (b ≡ false) × (lock_of s' k ≡ lock_of s k))
        ⊎ ((lock_of s' k, b) ≡ step_lock (lock_of s k) (taking c)))

by-taking : (c : Caller) → c.task ≢ 0 → by (taking c) ≢ 0
by-taking c t = elim (Bool-cases c.in_isr) [ inl i ↦ rw i t | inr i ↦ rw i t ]

by-giving : (c : Caller) → c.task ≢ 0 → by (giving c) ≢ 0
by-giving c t = elim (Bool-cases c.in_isr) [ inl i ↦ rw i t | inr i ↦ rw i t ]

giving-free : (c : Caller) → (step_lock free (giving c)).0 ≡ free
unfolding step_lock Mutex.release
giving-free c = elim (Bool-cases c.in_isr) [ inl i ↦ rw i refl | inr i ↦ rw i refl ]

isr_give-step :
    (t h : ℕ) (w : Calls.World)
    → (give_from_isr (record { task = t; in_isr = true }) h none w).0 ≡ (step h w (isr_send t 0)).0
unfolding step give_from_isr
isr_give-step t h w = refl

give_mutex-step :
    (t h : ℕ) (w : Calls.World) → (give_mutex_recursive t h w).0 ≡ (step h w (give t)).0
unfolding step
give_mutex-step t h w = refl

semaphore_take_try :
    (t p start : ℕ) (rounds : List (Round Calls.World)) (w : Calls.World)
    → p ≢ 0
    → t ≢ 0
    → IsMutex w.queue
    → semaphore_take t p 0 start rounds w ≡ (let (w', b) = settle (try_take t w) in returned w' b)
unfolding semaphore_take wait_loop
semaphore_take_try t p start rounds w hp ht m =
    let live : (not (valid p w.queue) || t == 0) ≡ false =
      unfold valid in ground (arith, m.context) in
    rw live (go rounds (Attempt-cases (try_take t w)))
  where
    go :
        (rs : List (Round Calls.World))
        → ((w' : Calls.World) × (b : Bool) × (try_take t w ≡ finished w' b))
          ⊎ ((w' : Calls.World) × (try_take t w ≡ again w'))
        → wait_loop (try_take t) refuse refuse refuse 0 start rs w
          ≡ (let (w', b) = settle (try_take t w) in returned w' b)
    go [] (inl (w', b, e)) = rw (wait_loop, e) refl
    go [] (inr (w', e)) = rw (wait_loop, e) refl
    go (r ∷ rs) (inl (w', b, e)) = rw (wait_loop, e) refl
    go (r ∷ rs) (inr (w', e)) = rw (wait_loop, e) refl

depth-view : (q : Queue) → IsMutex q → depth_of (view q) + 1 < u32_mod → q.depth + 1 < u32_mod
depth-view q m h = elim m.state [
  | inl (o, d, n) ↦ omega arith
  | inr (o, d, n) ↦ let real : (q.owner == 0) ≡ false = ground arith in rw real at h
]

module _ (s : State) (k : ℕ) (v : IsTable s) (p : k ≢ 0)
    (shallow : depth_of (lock_of s k) + 1 < u32_mod) where
  -- A step of the mutex is a step of the lock.
  stepped :
      (call : Call)
      → by call ≢ 0
      → handle_of s k ≢ 0
      → let (w, b) = step (handle_of s k) (s.objects (handle_of s k)) call in
        IsTable (put_object (handle_of s k) w s)
        × OthersSame k s (put_object (handle_of s k) w s)
        × ((lock_of (put_object (handle_of s k) w s) k, b) ≡ step_lock (lock_of s k) call)
  stepped call hb n =
      let o = s.objects (handle_of s k) in
      let m = v.mutexes k p n in
      let there : (handle_of s k == 0) ≡ false = ground arith in
      let shown : lock_of s k ≡ view o.queue = rw there refl in
      let deep : o.queue.depth + 1 < u32_mod =
        depth-view o.queue m (subst (λ l. depth_of l + 1 < u32_mod) shown shallow) in
      let w = (step (handle_of s k) o call).0 in
      (
        exchanged-IsTable s k w v p n (step-IsMutex (handle_of s k) o call n hb deep m).0,
        exchanged-other s k w v p n,
        rw (shown, exchanged-lock_of s k w v p n) (step_refines (handle_of s k) o call n hb deep m),
      )

  -- What `lock_take` does behind the search of the table.
  abbrev take_on : Caller → ℕ → List (Round Calls.World) → Outcome State Status
  take_on c start rounds =
      let h = handle_of s k in
      if h == 0
      then returned s not_taken
      else if c.in_isr
      then (let (w, b, _) = receive_from_isr h 0 none (s.objects h) in
          returned (put_object h w s) (status b))
      else on_object h s (semaphore_take c.task h 0 start rounds (s.objects h))

  take_on-step :
      (c : Caller) (start : ℕ) (rounds : List (Round Calls.World))
      → c.task ≢ 0
      → handle_of s k ≢ 0
      → take_on c start rounds ≡ (
          let (w, b) = step (handle_of s k) (s.objects (handle_of s k)) (taking c) in
          returned (put_object (handle_of s k) w s) (status b))
  unfolding step
  take_on-step c start rounds t n =
      let there : (handle_of s k == 0) ≡ false = ground arith in
      elim (Bool-cases c.in_isr) [
        | inl i ↦ rw (there, i) refl
        | inr i ↦
            rw
              (
                there,
                i,
                semaphore_take_try c.task (handle_of s k) start rounds (s.objects (handle_of s k)) n
                    t (v.mutexes k p n),
              )
              refl
      ]

  take_on-Tried :
      (c : Caller) (start : ℕ) (rounds : List (Round Calls.World))
      → c.task ≢ 0
      → Tried c k s (take_on c start rounds)
  take_on-Tried c start rounds t = elim (Bool-cases (handle_of s k == 0)) [
    | inl z ↦ (s, false, rw z refl, v, (λ j q d. refl), inl (ground arith, refl, refl))
    | inr z ↦
        let n : handle_of s k ≢ 0 = ground arith in
        let (table, others, lock) = stepped (taking c) (by-taking c t) n in
        (_, _, take_on-step c start rounds t n, table, others, inr lock)
  ]

  give-step :
      (c : Caller)
      → handle_of s k ≢ 0
      → lock_give c k s
        ≡ put_object
            (handle_of s k)
            (step (handle_of s k) (s.objects (handle_of s k)) (giving c)).0
            s
  unfolding lock_give
  give-step c n =
      let there : (handle_of s k == 0) ≡ false = ground arith in
      let w = s.objects (handle_of s k) in
      elim (Bool-cases c.in_isr) [
        | inl i ↦ rw (there, i, isr_give-step c.task (handle_of s k) w) refl
        | inr i ↦ rw (there, i, give_mutex-step c.task (handle_of s k) w) refl
      ]

  -- A release is a step of the lock, if there is no mutex for it too.
  give-Steps :
      (c : Caller)
      → c.task ≢ 0
      → let s' = lock_give c k s in
        IsTable s' × OthersSame k s s' × (lock_of s' k ≡ (step_lock (lock_of s k) (giving c)).0)
  unfolding lock_give
  give-Steps c t = elim (Bool-cases (handle_of s k == 0)) [
    | inl z ↦
        let stays : lock_give c k s ≡ s = rw z refl in
        let unheld : lock_of s k ≡ free = rw z refl in
        rw (stays, unheld) (v, (λ j q d. refl), sym (giving-free c))
    | inr z ↦
        let n : handle_of s k ≢ 0 = ground arith in
        let (table, others, lock) = stepped (giving c) (by-giving c t) n in
        rw (give-step c n) (table, others, ap (λ (r : Lock × Bool). r.0) lock)
  ]

-- In a table where each lock that has a mutex has its own, while the heap hands out no block that is
-- one of these, and the lock's nesting is short of the counter's end: trying to take a lock that is not
-- NULL returns at once. If there is no mutex for it and none can be made, the call fails and every lock
-- is as before; else it does and returns what a recursive lock does when the task acquires it, or, in
-- ISR code, fails. Releasing the lock is a release of the recursive lock, or in ISR code nothing.
-- Neither touches another lock, and both leave a table where each lock has its own mutex.
pub lock_calls_refine :
    (host : Host) (c : Caller) (k type start : ℕ) (rounds : List (Round Calls.World)) (s : State)
    → k ≢ 0
    → c.task ≢ 0
    → IsTable s
    → Unused host s
    → depth_of (lock_of s k) + 1 < u32_mod
    → Tried c k s (lock_take host c k 0 type start rounds s)
      × (let s' = lock_give c k s in
          IsTable s' × OthersSame k s s' × (lock_of s' k ≡ (step_lock (lock_of s k) (giving c)).0))
unfolding lock_take
lock_calls_refine host c k type start rounds s p t v u shallow =
    let (table, handle, locks) = get-Keeps host s k type v p u in
    let s1 = (get host k type s).0 in
    let shallow1 : depth_of (lock_of s1 k) + 1 < u32_mod = rw (locks k p) shallow in
    let (s', b, e, v', others, lock) = take_on-Tried s1 k table p shallow1 c start rounds t in
    (
      (s', b, rw (sym handle) e, v', (λ j q d. others j q d ∙ locks j q), rw (locks k p) at lock),
      give-Steps s k v p shallow c t,
    )

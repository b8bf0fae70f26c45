-- ===== src/Locks/Calls/Owners.antt =====
-- The lock that each libc lock is, by the mutex that the table gives it, and what an exchange of one
-- mutex and a search of the table leave of that.
use esp32s31_linux_function.Base.{
  ℕ, ◌≡◌, ◌≢◌, ◌⊎◌, inl, inr, refl, sym, subst, ap, ◌∙◌, false, none, some, arith, ◌==◌,
  if◌then◌else◌, Bool-cases, ==-self,
}
use esp32s31_linux_function.Rtos.Ledger.{Ledger}
use esp32s31_linux_function.Rtos.Queue.{type_mutex}
use esp32s31_linux_function.Rtos.Queue.Create.{queue_bytes, init, finish, create_mutex}
use esp32s31_linux_function.Rtos.Queue.Calls
use esp32s31_linux_function.Rtos.Queue.Calls.{
  Caller, refuse, receive_from_isr, give_from_isr, generic_send_from_isr,
}
use esp32s31_linux_function.Rtos.Mutex.{Lock, free}
use esp32s31_linux_function.Rtos.Mutex.Refine.{IsMutex, view}
use esp32s31_linux_function.Locks.{World, Scan, found, vacant, full, scan, lock_get, lock_find}
use esp32s31_linux_function.Locks.Table.{Gets, lock_get-Gets, Says, scan-Says, find-Absent}
use esp32s31_linux_function.Locks.Calls.{State, put_object, place_created, Host, get}

abbrev pub handle_of : State → ℕ → ℕ
handle_of s k = lock_find k s.table.locks

-- The lock that the mutex of a libc lock shows; one that has no mutex yet is free.
abbrev pub lock_of : State → ℕ → Lock
lock_of s k = if handle_of s k == 0 then free else view (s.objects (handle_of s k)).queue

-- Each lock's handle is a mutex of its own.
pub record IsTable (s : State) : Type 0 where
  pub mutexes : (k : ℕ) → k ≢ 0 → handle_of s k ≢ 0 → IsMutex (s.objects (handle_of s k)).queue
  pub apart : (j k : ℕ) → j ≢ 0 → k ≢ 0 → handle_of s j ≢ 0 → handle_of s j ≡ handle_of s k → j ≡ k

-- The object of one lock is exchanged for another mutex.
module _ (s : State) (k : ℕ) (w : Calls.World) (v : IsTable s) (p : k ≢ 0)
    (n : handle_of s k ≢ 0) where
  abbrev pub exchanged : State
  exchanged = put_object (handle_of s k) w s

  pub exchanged-lock_of : lock_of exchanged k ≡ view w.queue
  exchanged-lock_of =
      let e : (handle_of s k == 0) ≡ false = ground arith in rw (e, ==-self (handle_of s k)) refl

  pub exchanged-other : (j : ℕ) → j ≢ 0 → j ≢ k → lock_of exchanged j ≡ lock_of s j
  exchanged-other j q d = elim (Bool-cases (handle_of s j == 0)) [
    | inl z ↦ rw z refl
    | inr z ↦
        let other : (handle_of s j == handle_of s k) ≡ false =
          not_same (λ e. d (v.apart j k q p (ground arith) e)) in
        rw (z, other) refl
  ]
    where
      not_same : {a b : ℕ} → a ≢ b → (a == b) ≡ false
      not_same h = ground arith

  pub exchanged-IsTable : IsMutex w.queue → IsTable exchanged
  exchanged-IsTable m = record {
    mutexes = λ j q h. elim (Bool-cases (handle_of s j == handle_of s k)) [
      | inl e ↦ rw e m
      | inr e ↦ rw e (v.mutexes j q h)
    ];
    apart = v.apart;
  }

-- A new mutex at an unused address, which the table gives to a lock that had none.
module _ (s : State) (k h : ℕ) (w : Calls.World) (t : World) (v : IsTable s)
    (none_yet : handle_of s k ≡ 0) (fresh : (j : ℕ) → j ≢ 0 → handle_of s j ≢ 0 → handle_of s j ≢ h)
    (made : h ≢ 0) (given : lock_find k t.locks ≡ h)
    (rest : (j : ℕ) → j ≢ 0 → j ≢ k → lock_find j t.locks ≡ handle_of s j) where
  abbrev added : State
  added = record (put_object h w s) { table = t }

  -- A lock is the new one, or it has the handle that it had.
  added-cases : (j : ℕ) → j ≢ 0 → (j ≡ k) ⊎ (lock_find j t.locks ≡ handle_of s j)
  added-cases j q = elim (Bool-cases (j == k)) [
    | inl e ↦ inl (ground arith)
    | inr e ↦ inr (rest j q (ground arith))
  ]

  unused : (j : ℕ) → j ≢ 0 → handle_of s j ≢ 0 → (handle_of s j == h) ≡ false
  unused j q n = let differ : handle_of s j ≢ h = fresh j q n in ground (arith, differ)

  added-IsTable : IsMutex w.queue → IsTable added
  added-IsTable m = record {
    mutexes = λ j q n. elim (added-cases j q) [
      | inl e ↦ rw (e, given, ==-self h) m
      | inr e ↦
          let there : handle_of s j ≢ 0 = λ z. n (e ∙ z) in
          rw (e, unused j q there) (v.mutexes j q there)
    ];
    apart = λ i j q r n e. elim (added-cases i q) [
      | inl a ↦ elim (added-cases j r) [
        | inl b ↦ a ∙ sym b
        | inr b ↦ absurd (
            fresh j r (λ z. n (e ∙ b ∙ z))
              (sym b ∙ sym e ∙ ap (λ x. lock_find x t.locks) a ∙ given))
      ]
      | inr a ↦ elim (added-cases j r) [
        | inl b ↦
            absurd
              (fresh i q (λ z. n (a ∙ z)) (sym a ∙ e ∙ ap (λ x. lock_find x t.locks) b ∙ given))
        | inr b ↦ v.apart i j q r (λ z. n (a ∙ z)) (sym a ∙ e ∙ b)
      ]
    ];
  }

  added-lock_of : view w.queue ≡ free → (j : ℕ) → j ≢ 0 → lock_of added j ≡ lock_of s j
  added-lock_of f j q = elim (added-cases j q) [
    | inl e ↦ let n : (h == 0) ≡ false = ground arith in rw (e, given, n, ==-self h, none_yet) f
    | inr e ↦ elim (Bool-cases (handle_of s j == 0)) [
      | inl z ↦ rw (e, z) refl
      | inr z ↦ rw (e, z, unused j q (ground arith)) refl
    ]
  ]

-- What the table with its objects keeps when a mutex is asked for.
abbrev pub Keeps : State → ℕ → State × ℕ → Type 0
Keeps s k (s', h) =
    IsTable s' × (handle_of s' k ≡ h) × ((j : ℕ) → j ≢ 0 → lock_of s' j ≡ lock_of s j)

same_locks-Keeps :
    (s : State) (k : ℕ) (t : World)
    → IsTable s
    → t.locks ≡ s.table.locks
    → Keeps s k (record s { table = t }, handle_of s k)
same_locks-Keeps s k t v e = (
  record { mutexes = λ j. rw e (v.mutexes j); apart = λ i j. rw e (v.apart i j) },
  rw e refl,
  λ j q. rw e refl,
)

pub Scan-cases :
    (sc : Scan) → ((h : ℕ) × (sc ≡ found h)) ⊎ ((sc ≡ full) ⊎ ((i : ℕ) × (sc ≡ vacant i)))
Scan-cases (found h) = inl (h, refl)
Scan-cases full = inr (inl refl)
Scan-cases (vacant i) = inr (inr (i, refl))

create_mutex-cases :
    (malloc : ℕ → ℕ) (context : ℕ) (l : Ledger)
    → let c = create_mutex malloc context l in
      ((c.pointer ≡ 0) × (c.object ≡ none))
      ⊎ ((c.pointer ≡ malloc queue_bytes)
          × (malloc queue_bytes ≢ 0)
          × (context ≢ 0)
          × (c.object ≡ some (init type_mutex 1 0 0 context)))
unfolding create_mutex finish init
create_mutex-cases malloc context l = elim (Bool-cases (malloc queue_bytes == 0)) [
  | inl m ↦ rw m (inl (refl, refl))
  | inr m ↦ elim (Bool-cases (context == 0)) [
    | inl c ↦ rw (m, c) (inl (refl, refl))
    | inr c ↦ rw (m, c) (inr (refl, ground arith, ground arith, refl))
  ]
]

init-IsMutex :
    (context : ℕ)
    → context ≢ 0
    → IsMutex (init type_mutex 1 0 0 context) × (view (init type_mutex 1 0 0 context) ≡ free)
unfolding init
init-IsMutex context n =
    (record { mutex = refl; context = n; state = inl (refl, refl, refl) }, refl)

-- The heap hands out no block that is a lock's mutex.
abbrev pub Unused : Host → State → Type 0
Unused host s = (j : ℕ) → j ≢ 0 → handle_of s j ≢ 0 → handle_of s j ≢ host.malloc queue_bytes

module _ (host : Host) (s : State) (k type : ℕ) (v : IsTable s) (p : k ≢ 0)
    (u : Unused host s) where
  created-Keeps :
      (t : World) (h : ℕ)
      → Gets k s.table (t, h)
      → handle_of s k ≡ 0
      → h ≡ (create_mutex host.malloc host.context s.table.live).pointer
      → Keeps s k (
        record (place_created (create_mutex host.malloc host.context s.table.live) s) { table = t },
        h,
      )
  created-Keeps t h (there, others, here, stays) absent e =
      elim (create_mutex-cases host.malloc host.context s.table.live) [
        | inl (z, o) ↦
            let (table, handle, locks) = same_locks-Keeps s k t v (stays (e ∙ z)) in
            rw o (table, handle ∙ absent ∙ sym (e ∙ z), locks)
        | inr (z, m, c, o) ↦
            let n : h ≢ 0 = λ y. m (sym (e ∙ z) ∙ y) in
            let fresh : (j : ℕ) → j ≢ 0 → handle_of s j ≢ 0 → handle_of s j ≢ h =
              λ j q r y. u j q r (y ∙ e ∙ z) in
            let (mutex, unheld) = init-IsMutex host.context c in
            rw (o, sym e)
              (
                added-IsTable s k h _ t v absent fresh n (there n) others mutex,
                there n,
                added-lock_of s k h _ t v absent fresh n (there n) others unheld,
              )
      ]

  says : (sc : Scan) → scan k 0 none s.table.locks ≡ sc → Says k 0 none s.table.locks sc
  says sc e = subst (Says k 0 none s.table.locks) e (scan-Says k 0 none s.table.locks)

  stays-Keeps : (h : ℕ) → handle_of s k ≡ h → Keeps s k (s, h)
  stays-Keeps h e = (v, e, λ j q. refl)

  pub get-Keeps : Keeps s k (get host k type s)
  unfolding get lock_get
  get-Keeps =
      let real : (k == 0) ≡ false = ground arith in
      let gets = lock_get-Gets host.malloc host.context k type s.table p in
      elim (Scan-cases (scan k 0 none s.table.locks)) [
        | inl (h, e) ↦ rw (real, e) (stays-Keeps h (says (found h) e))
        | inr (inl e) ↦ rw (real, e) (stays-Keeps 0 (find-Absent k s.table.locks (says full e)))
        | inr (inr (i, e)) ↦
            let absent = find-Absent k s.table.locks (says (vacant i) e).0 in
            rw (real, e) (created-Keeps _ _ (rw (real, e) at gets) absent refl)
      ]

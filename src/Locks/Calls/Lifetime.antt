-- ===== src/Locks/Calls/Lifetime.antt =====
-- Initialising and closing a libc lock.
use esp32s31_linux_function.Base.{
  ℕ, zero, suc, ◌≡◌, ◌≢◌, ◌⊎◌, inl, inr, refl, sym, subst, ap, ◌∙◌, true, false, none, some, List,
  [], ◌∷◌, arith, ◌==◌, if◌then◌else◌, Bool-cases, ==-self,
}
use esp32s31_linux_function.Rtos.Ledger.{Ledger, obtain, release, release-obtain}
use esp32s31_linux_function.Rtos.Queue.{Queue, type_mutex}
use esp32s31_linux_function.Rtos.Queue.Create.{queue_bytes, init, finish, create_mutex, delete}
use esp32s31_linux_function.Locks.{Entry, vacant, vacant_entry, scan, set_slot, lock_get}
use esp32s31_linux_function.Locks.Table.{Free, Absent, Says, scan-Says}
use esp32s31_linux_function.Locks.Calls.Owners.{Scan-cases}
use esp32s31_linux_function.Locks.Calls.{
  State, Host, get, lock_init, retarget_lock_init, close_slot, close_lock, lock_close,
}

-- Free slots are zeroed, as the table's start and every closing leave them.
abbrev pub AreZeroed : List Entry → Type 0
AreZeroed [] = Unit
AreZeroed (e ∷ es) = (e.key ≡ 0 → e ≡ vacant_entry) × AreZeroed es

close-Absent : (lock : ℕ) (es : List Entry) → Absent lock es → close_slot lock es ≡ none
unfolding close_slot
close-Absent lock [] a = refl
close-Absent lock (e ∷ es) a =
    let other : (e.key == lock) ≡ false = ground arith in
    rw (close_slot, other, close-Absent lock es a.1) refl

-- Closing clears the slot that was filled.
close-set_slot :
    (k : ℕ) (n : Entry) (es : List Entry)
    → AreZeroed es
    → Free k es
    → Absent n.key es
    → close_slot n.key (set_slot k n es) ≡ some (n.handle, es)
unfolding close_slot set_slot
close-set_slot k n [] z f a = absurd f
close-set_slot zero n (e ∷ es) z f a =
    rw (set_slot, close_slot, ==-self n.key) (ap (λ x. some (n.handle, x ∷ es)) (sym (z.0 f)))
close-set_slot (suc k) n (e ∷ es) z f a =
    let other : (e.key == n.key) ≡ false = ground arith in
    rw (set_slot, close_slot, other, close-set_slot k n es z.1 f a.1) refl

-- A mutex that is created and deleted leaves what was live before; a failure leaves it at once.
create-delete_mutex :
    (malloc : ℕ → ℕ) (context : ℕ) (l : Ledger)
    → let c = create_mutex malloc context l in
      ((c.pointer ≡ 0) × (c.object ≡ none) × (c.live ≡ l))
      ⊎ ((q : Queue) × (c.pointer ≢ 0) × (c.object ≡ some q) × ((delete c.pointer q c.live).1 ≡ l))
unfolding create_mutex finish init delete
create-delete_mutex malloc context l = elim (Bool-cases (malloc queue_bytes == 0)) [
  | inl m ↦ rw m (inl (refl, refl, refl))
  | inr m ↦ elim (Bool-cases (context == 0)) [
    | inl c ↦ rw (m, c) (inl (refl, refl, release-obtain (malloc queue_bytes) l))
    | inr c ↦
        rw (m, c)
          (inr
            (init type_mutex 1 0 0 context, ground arith, refl, given_back (malloc queue_bytes) m))
  ]
]
  where
    given_back :
        (block : ℕ)
        → (block == 0) ≡ false
        → (delete block (init type_mutex 1 0 0 context) (obtain context (obtain block l))).1 ≡ l
    given_back block m =
        rw m (ap (release block) (release-obtain context (obtain block l)) ∙ release-obtain block l)

module _ (lock : ℕ) (s : State) where
  close_lock-none :
      close_slot lock s.table.locks ≡ none
      → (close_lock lock s).table ≡ record (s.table) { live = release lock s.table.live }
  unfolding close_lock
  close_lock-none e = rw (close_lock, e) refl

  close_lock-some :
      (h : ℕ) (q : Queue) (locks : List Entry) (l : Ledger)
      → close_slot lock s.table.locks ≡ some (h, locks)
      → (s.objects h).queue ≡ q
      → (delete h q s.table.live).1 ≡ l
      → (close_lock lock s).table ≡ record { locks = locks; live = release lock l }
  unfolding close_lock
  close_lock-some h q locks l e o d = simp (close_lock, e, o, d) refl

-- Closing a lock that has asked for its mutex leaves the table, and of what is live all but the lock.
get-close :
    (host : Host) (lock type : ℕ) (s : State)
    → lock ≢ 0
    → AreZeroed s.table.locks
    → Absent lock s.table.locks
    → (close_lock lock (get host lock type s).0).table
      ≡ record (s.table) { live = release lock s.table.live }
unfolding get lock_get
get-close host lock type s p z a =
    let real : (lock == 0) ≡ false = ground arith in
    let unchanged = close_lock-none lock s (close-Absent lock s.table.locks a) in
    elim (Scan-cases (scan lock 0 none s.table.locks)) [
      | inl (h, e) ↦ rw (real, e) unchanged
      | inr (inl e) ↦ rw (real, e) unchanged
      | inr (inr (i, e)) ↦
          rw (real, e)
            (elim (create-delete_mutex host.malloc host.context s.table.live) [
              | inl (n, o, l) ↦ rw (o, n, l) unchanged
              | inr (q, n, o, l) ↦
                  let pointer = (create_mutex host.malloc host.context s.table.live).pointer in
                  let filled : (pointer == 0) ≡ false = ground arith in
                  let free : Free i s.table.locks = free_slot i (
                    subst (Says lock 0 none s.table.locks) e
                      (scan-Says lock 0 none s.table.locks)) in
                  rw (filled, o)
                    (close_lock-some lock _ pointer q s.table.locks s.table.live
                      (close-set_slot i (record { key = lock; handle = pointer; type = type })
                        s.table.locks z free a)
                      (rw (==-self pointer) refl) l)
            ])
    ]
  where
    free_slot : (i : ℕ) → Says lock 0 none s.table.locks (vacant i) → Free i s.table.locks
    free_slot i (absent, inl m) = absurd (ground arith)
    free_slot i (absent, inr (k, at, f)) =
        let same : k ≡ i = omega arith in subst (λ j. Free j s.table.locks) same f

-- `_lock_close` on a cell that has got its lock, in either of two states.
module _ (lock : ℕ) (s got : State) where
  close-null :
      (lock == 0) ≡ true → lock_close (some lock) (if lock == 0 then s else got) ≡ (some lock, s)
  unfolding lock_close
  close-null e = rw e refl

  close-real :
      (lock == 0) ≡ false
      → lock_close (some lock) (if lock == 0 then s else got) ≡ (some 0, close_lock lock got)
  unfolding lock_close
  close-real e = rw e refl

-- `__retarget_lock_init` of a static lock and `_lock_close`, in a table whose free slots are zeroed and
-- which does not know the new lock's address: together they leave the table, and the blocks and sync
-- objects that are live, as they were and the cell NULL, whichever of the three allocations fails and
-- if the table is full.
pub retarget_lock_init-close :
    (host : Host) (type old : ℕ) (s : State)
    → AreZeroed s.table.locks
    → Absent host.lock_memory s.table.locks
    → let (cell, s1) = retarget_lock_init host type (some old) s in
      let (cell', s2) = lock_close cell s1 in (s2.table ≡ s.table) × (cell' ≡ some 0)
unfolding retarget_lock_init lock_init
retarget_lock_init-close host type old s z a =
    let lock = host.lock_memory in
    let s0 : State = record s { table = record (s.table) { live = obtain lock s.table.live } } in
    elim (Bool-cases (lock == 0)) [
      | inl e ↦
          let nothing : obtain lock s.table.live ≡ s.table.live = unfold obtain in rw e refl in
          let null : lock ≡ 0 = ground arith in
          rw (close-null lock s0 (get host lock type s0).0 e)
            (ap (λ l. record (s.table) { live = l }) nothing, ap some null)
      | inr e ↦ rw (close-real lock s0 (get host lock type s0).0 e) (
        get-close host lock type s0 (ground arith) z a
            ∙ ap (λ l. record (s.table) { live = l }) (release-obtain lock s.table.live),
        refl,
      )
    ]

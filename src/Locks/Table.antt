-- ===== src/Locks/Table.antt =====
-- The table of libc locks: a lock has one mutex, and the locks do not disturb each other.
use esp32s31_linux_function.Base.{
  ℕ, zero, suc, ◌+◌, ◌≡◌, ◌≢◌, refl, sym, false, Option, none, some, List, [], ◌∷◌, arith, ◌==◌,
  if◌then◌else◌, inl, inr, ◌⊎◌, Bool-cases, ==-self, some-injective,
}
use esp32s31_linux_function.Rtos.Ledger.{Ledger}
use esp32s31_linux_function.Rtos.Queue.Create.{create_mutex}
use esp32s31_linux_function.Locks.{
  Entry, World, Scan, found, vacant, full, first_free, scan, set_slot, lock_get, lock_find,
}

-- Slot `k` exists and is free.
abbrev pub Free : ℕ → List Entry → Type 0
Free k [] = ⊥
Free zero (e ∷ es) = e.key ≡ 0
Free (suc k) (e ∷ es) = Free k es

-- No slot has the key.
abbrev pub Absent : ℕ → List Entry → Type 0
Absent lock [] = Unit
Absent lock (e ∷ es) = (e.key ≢ lock) × Absent lock es

-- What the scan from slot `i` on says.
abbrev pub Says : ℕ → ℕ → Option ℕ → List Entry → Scan → Type 0
Says lock i free es (found h) = lock_find lock es ≡ h
Says lock i free es (vacant j) =
    Absent lock es × ((free ≡ some j) ⊎ ((k : ℕ) × (j ≡ i + k) × Free k es))
Says lock i free es full = Absent lock es

later :
    (lock i : ℕ) (free : Option ℕ) (e : Entry) (es : List Entry) (s : Scan)
    → (e.key == lock) ≡ false
    → Says lock (i + 1) (first_free free i e.key) es s
    → Says lock i free (e ∷ es) s
unfolding lock_find
later lock i free e es (found h) ne says = rw ne says
later lock i free e es full ne says = (ground arith, says)
later lock i (some f) e es (vacant j) ne (absent, h) = (
  (ground arith, absent),
  elim h [ inl m ↦ inl m | inr (k, at, z) ↦ inr (suc k, omega arith, z) ],
)
later lock i none e es (vacant j) ne (absent, h) = (
  (ground arith, absent),
  elim h [
    | inl m ↦ elim (Bool-cases (e.key == 0)) [
      | inl z ↦ let here : i ≡ j = some-injective (rw z at m) in inr (0, omega arith, ground arith)
      | inr z ↦ absurd (none-some j (rw z at m))
    ]
    | inr (k, at, z) ↦ inr (suc k, omega arith, z)
  ],
)
  where
    none-some : (j : ℕ) → none ≡ some j → ⊥
    none-some j e = ground arith

pub scan-Says :
    (lock i : ℕ) (free : Option ℕ) (es : List Entry) → Says lock i free es (scan lock i free es)
unfolding scan lock_find
scan-Says lock i none [] = tt
scan-Says lock i (some j) [] = (tt, inl refl)
scan-Says lock i none (e ∷ es) = elim (Bool-cases (e.key == lock)) [
  | inl d ↦ rw d (rw d refl)
  | inr d ↦ rw d (later lock i none e es _ d (scan-Says lock (i + 1) (first_free none i e.key) es))
]
scan-Says lock i (some j) (e ∷ es) = elim (Bool-cases (e.key == lock)) [
  | inl d ↦ rw d (rw d refl)
  | inr d ↦ rw d (later lock i (some j) e es _ d (scan-Says lock (i + 1) (some j) es))
]

-- Filling a free slot gives the lock its handle and leaves the other locks theirs.
find-set_slot :
    (k : ℕ) (n : Entry) (es : List Entry)
    → Free k es
    → Absent n.key es
    → lock_find n.key (set_slot k n es) ≡ n.handle
unfolding lock_find set_slot
find-set_slot k n [] z a = absurd z
find-set_slot zero n (e ∷ es) z a = rw (==-self n.key) refl
find-set_slot (suc k) n (e ∷ es) z a =
    let other : (e.key == n.key) ≡ false = ground arith in rw other (find-set_slot k n es z a.1)

find-set_slot_other :
    (k : ℕ) (n : Entry) (es : List Entry) (lock : ℕ)
    → Free k es
    → lock ≢ 0
    → lock ≢ n.key
    → lock_find lock (set_slot k n es) ≡ lock_find lock es
unfolding lock_find set_slot
find-set_slot_other k n [] lock z p q = absurd z
find-set_slot_other zero n (e ∷ es) lock z p q =
    let old : (e.key == lock) ≡ false = ground arith in
    let new : (n.key == lock) ≡ false = ground arith in rw (old, new) refl
find-set_slot_other (suc k) n (e ∷ es) lock z p q = elim (Bool-cases (e.key == lock)) [
  | inl d ↦ rw d refl
  | inr d ↦ rw d (find-set_slot_other k n es lock z p q)
]

pub find-Absent : (lock : ℕ) (es : List Entry) → Absent lock es → lock_find lock es ≡ 0
unfolding lock_find
find-Absent lock [] a = refl
find-Absent lock (e ∷ es) a =
    let other : (e.key == lock) ≡ false = ground arith in rw other (find-Absent lock es a.1)

-- What asking for a lock's mutex does to the table.
abbrev pub Gets : ℕ → World → World × ℕ → Type 0
Gets lock w (w', h) =
    (h ≢ 0 → lock_find lock w'.locks ≡ h)
    × ((k : ℕ) → k ≢ 0 → k ≢ lock → lock_find k w'.locks ≡ lock_find k w.locks)
    × (lock_find lock w.locks ≢ 0 → (w' ≡ w) × (h ≡ lock_find lock w.locks))
    × (h ≡ 0 → w'.locks ≡ w.locks)

stays-Gets :
    (lock : ℕ) (w : World) (h : ℕ)
    → (h ≢ 0 → lock_find lock w.locks ≡ h)
    → (lock_find lock w.locks ≢ 0 → h ≡ lock_find lock w.locks)
    → Gets lock w (w, h)
stays-Gets lock w h there here = (there, (λ k p q. refl), (λ n. (refl, here n)), λ z. refl)

fills-Gets :
    (lock k type h : ℕ) (w : World) (live : Ledger)
    → Free k w.locks
    → Absent lock w.locks
    → Gets lock w (
      record w {
        locks =
            if h == 0
            then w.locks
            else set_slot k (record { key = lock; handle = h; type = type }) w.locks;
        live = live;
      },
      h,
    )
fills-Gets lock k type h w live z a = elim (Bool-cases (h == 0)) [
  | inl e ↦ rw e (
    (λ n. absurd (ground arith)),
    (λ j p q. refl),
    (λ n. absurd (n (find-Absent lock w.locks a))),
    λ y. refl,
  )
  | inr e ↦ rw e (
    (λ n. find-set_slot k (record { key = lock; handle = h; type = type }) w.locks z a),
    (λ j p q.
        find-set_slot_other k (record { key = lock; handle = h; type = type }) w.locks j z p q),
    (λ n. absurd (n (find-Absent lock w.locks a))),
    λ y. absurd (ground arith),
  )
]

-- Asking for the mutex of a lock: a handle that comes back is found from then on; a lock that has one
-- keeps it, and nothing changes; no other lock gains, loses or changes its own; and NULL, because the
-- table is full or the creation failed, leaves the table as it is.
pub lock_get-Gets :
    (malloc : ℕ → ℕ) (context lock type : ℕ) (w : World)
    → lock ≢ 0
    → Gets lock w (lock_get malloc context lock type w)
unfolding lock_get
lock_get-Gets malloc context lock type w live =
    let e : (lock == 0) ≡ false = ground arith in
    rw e (go (scan lock 0 none w.locks) (scan-Says lock 0 none w.locks))
  where
    go :
        (s : Scan)
        → Says lock 0 none w.locks s
        → Gets lock w (elim s [
          | found h ↦ (w, h)
          | full ↦ (w, 0)
          | vacant i ↦
              let c = create_mutex malloc context w.live in
              (
                record w {
                  locks =
                      if c.pointer == 0
                      then w.locks
                      else set_slot i
                          (record { key = lock; handle = c.pointer; type = type })
                          w.locks;
                  live = c.live;
                },
                c.pointer,
              )
        ])
    go (found h) says = stays-Gets lock w h (λ n. says) (λ n. sym says)
    go full absent =
        stays-Gets lock w 0 (λ n. absurd (n refl))
          (λ n. absurd (n (find-Absent lock w.locks absent)))
    go (vacant i) (absent, inl m) = absurd (ground arith)
    go (vacant i) (absent, inr (k, at, z)) =
        let same : i ≡ k = omega arith in
        rw same (
          fills-Gets lock k type (create_mutex malloc context w.live).pointer w
            (create_mutex malloc context w.live).live z absent)

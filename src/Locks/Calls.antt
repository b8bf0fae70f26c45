-- ===== src/Locks/Calls.antt =====
-- The calls of radio_firmware/s31_linux_locks.c on the mutexes behind the table. `lock` is the address
-- of a lock; a `_lock_t *` is a cell, `none` for NULL.
pub mod Owners
pub mod Refine
pub mod Lifetime
use esp32s31_linux_function.Base.{
  ℕ, Bool, true, false, not, ◌&&◌, Option, none, some, List, [], ◌∷◌, ◌==◌, if◌then◌else◌,
}
use esp32s31_linux_function.Rtos.Ledger.{Ledger, obtain, release}
use esp32s31_linux_function.Rtos.Wait.{Round, Outcome, returned, blocked, max_delay}
use esp32s31_linux_function.Rtos.Queue.{Queue}
use esp32s31_linux_function.Rtos.Queue.Create.{Created, create_mutex, delete}
use esp32s31_linux_function.Rtos.Queue.Calls
use esp32s31_linux_function.Rtos.Queue.Calls.{Caller, receive_from_isr, give_from_isr}
use esp32s31_linux_function.Rtos.Queue.Sync.{semaphore_take, give_mutex_recursive}
use esp32s31_linux_function.Locks.{
  Entry, World, Scan, found, vacant, full, scan, vacant_entry, cleared, lock_get, lock_find,
}

-- `S31_MUTEX_NORMAL`, `S31_MUTEX_RECURSIVE`
abbrev pub mutex_normal : ℕ
mutex_normal = 1

abbrev pub mutex_recursive : ℕ
mutex_recursive = 4

-- The table with the heap, and the queue objects by their addresses.
pub record State : Type 0 where
  pub table : World
  pub objects : ℕ → Calls.World

abbrev pub put_object : ℕ → Calls.World → State → State
put_object h w s = record s { objects = λ a. if a == h then w else s.objects a }

-- A mutex that was created has its object at its address.
abbrev pub place_created : Created → State → State
place_created c s = elim c.object [
  | none ↦ s
  | some q ↦ put_object c.pointer (record (s.objects c.pointer) { queue = q }) s
]

-- What 0 and -1 say.
pub data Status : Type 0 where
  taken not_taken : Status

abbrev pub status : Bool → Status
status true = taken
status false = not_taken

-- A waiting call on the object at `h` as one on the state.
abbrev pub on_object : ℕ → State → Outcome Calls.World Bool → Outcome State Status
on_object h s (returned w b) = returned (put_object h w s) (status b)
on_object h s (blocked w) = blocked (put_object h w s)

-- What the heap answers for a mutex and for a lock, and the bridge for the mutex's sync object.
pub record Host : Type 0 where
  pub malloc : ℕ → ℕ
  pub context : ℕ
  pub lock_memory : ℕ

module _ (host : Host) where
  -- `s31_lock_get`, with the object of a mutex that it creates.
  unfoldable pub get : ℕ → ℕ → State → State × ℕ
  unfolding lock_get
  get lock type s =
      let (table, h) = lock_get host.malloc host.context lock type s.table in
      (
        record (if lock == 0 then s else elim (scan lock 0 none s.table.locks) [
          | found a ↦ s
          | full ↦ s
          | vacant i ↦ place_created (create_mutex host.malloc host.context s.table.live) s
        ]) { table = table },
        h,
      )

  -- `s31_lock_take`, started at tick `start`; the rounds are of the mutex that it waits for.
  unfoldable pub lock_take :
      Caller → ℕ → ℕ → ℕ → ℕ → List (Round Calls.World) → State → Outcome State Status
  unfolding get
  lock_take c lock timeout type start rounds s =
      let (s', h) = get lock type s in
      if h == 0
      then returned s' not_taken
      else if c.in_isr
      then (let (w, b, _) = receive_from_isr h 0 none (s'.objects h) in
          returned (put_object h w s') (status b))
      else on_object h s' (semaphore_take c.task h timeout start rounds (s'.objects h))

  -- `_lock_init`: the cell, and the state.
  unfoldable pub lock_init : Option ℕ → State → Option ℕ × State
  lock_init none s = (none, s)
  lock_init (some lock) s = (
    some host.lock_memory,
    record s { table = record (s.table) { live = obtain host.lock_memory s.table.live } },
  )

  -- `if (lock && !*lock) _lock_init(lock);`
  unfoldable pub init_once : Option ℕ → State → Option ℕ × State
  unfolding lock_init
  init_once none s = (none, s)
  init_once (some lock) s = if lock == 0 then lock_init (some lock) s else (some lock, s)

  -- `_lock_acquire` with the timeout `max_delay` and `_lock_try_acquire` with 0, and their recursive
  -- twins by the type: the cell, and what the call comes to.
  unfoldable pub acquire :
      Caller
      → ℕ
      → ℕ
      → ℕ
      → List (Round Calls.World)
      → Option ℕ
      → State
      → Option ℕ × Outcome State Status
  unfolding init_once lock_take
  acquire c timeout type start rounds cell s =
      let (cell', s') = init_once cell s in
      (
        cell',
        elim cell' [
          | none ↦ returned s' not_taken
          | some lock ↦
              if lock == 0
              then returned s' not_taken
              else lock_take c lock timeout type start rounds s'
        ],
      )

  -- `__retarget_lock_init` and its recursive twin
  unfoldable pub retarget_lock_init : ℕ → Option ℕ → State → Option ℕ × State
  unfolding lock_init get
  retarget_lock_init type cell s =
      let (cell', s') = lock_init cell s in
      (cell', elim cell' [ none ↦ s' | some lock ↦ if lock == 0 then s' else (get lock type s').0 ])

  -- `esp_libc_locks_init`, for the address of `__lock___libc_recursive_mutex`.
  unfoldable pub libc_locks_init : ℕ → State → State
  unfolding get
  libc_locks_init libc_lock s =
      (get libc_lock mutex_recursive (record s { table = record (s.table) { locks = cleared } })).0

-- `s31_lock_give`
unfoldable pub lock_give : Caller → ℕ → State → State
unfolding lock_find
lock_give c lock s =
    let h = lock_find lock s.table.locks in
    if h == 0
    then s
    else if c.in_isr
    then put_object h (give_from_isr c h none (s.objects h)).0 s
    else put_object h (give_mutex_recursive c.task h (s.objects h)).0 s

-- `_lock_release`
unfoldable pub lock_release : Caller → Option ℕ → State → State
unfolding lock_give
lock_release c none s = s
lock_release c (some lock) s = if lock == 0 then s else lock_give c lock s

-- The loop of `_lock_close`: the handle in the lock's slot, and the table with that slot cleared.
unfoldable pub close_slot : ℕ → List Entry → Option (ℕ × List Entry)
close_slot lock [] = none
close_slot lock (e ∷ es) = elim (e.key == lock) [
  | true ↦ some (e.handle, vacant_entry ∷ es)
  | false ↦ elim (close_slot lock es) [ none ↦ none | some (h, rest) ↦ some (h, e ∷ rest) ]
]

-- The mutex of the lock is deleted, and the lock's memory given back.
unfoldable pub close_lock : ℕ → State → State
unfolding close_slot
close_lock lock s = elim (close_slot lock s.table.locks) [
  | none ↦ record s { table = record (s.table) { live = release lock s.table.live } }
  | some (h, locks) ↦
      let (q, live) = delete h (s.objects h).queue s.table.live in
      put_object h (record (s.objects h) { queue = q })
        (record s { table = record { locks = locks; live = release lock live } })
]

-- `_lock_close`
unfoldable pub lock_close : Option ℕ → State → Option ℕ × State
unfolding close_lock
lock_close none s = (none, s)
lock_close (some lock) s = if lock == 0 then (some lock, s) else (some 0, close_lock lock s)

-- ===== src/Locks.antt =====
-- radio_firmware/s31_linux_locks.c: the table from libc locks to mutexes. The scan runs in a critical
-- section, so no other context sees it half done.
pub mod Table
pub mod Calls
use esp32s31_linux_function.Base.{
  ℕ, zero, suc, ◌+◌, Option, none, some, List, [], ◌∷◌, ◌==◌, if◌then◌else◌, replicate,
}
use esp32s31_linux_function.Rtos.Ledger.{Ledger}
use esp32s31_linux_function.Rtos.Queue.Create.{Created, create_mutex}

-- `struct s31_lock_entry`; a key of 0 is a free slot.
pub record Entry : Type 0 where
  pub key : ℕ
  pub handle : ℕ
  pub type : ℕ

abbrev pub vacant_entry : Entry
vacant_entry = record { key = 0; handle = 0; type = 0 }

pub record World : Type 0 where
  pub locks : List Entry
  pub live : Ledger

-- What the loop of `s31_lock_get` ends with: the handle of the lock, the first free slot, or neither.
pub data Scan : Type 0 where
  found vacant : ℕ → Scan
  full : Scan

-- `free_slot`, once slot `i` with that key was looked at
abbrev pub first_free : Option ℕ → ℕ → ℕ → Option ℕ
first_free (some j) i key = some j
first_free none i key = if key == 0 then some i else none

-- The loop from slot `i` on.
unfoldable pub scan : ℕ → ℕ → Option ℕ → List Entry → Scan
scan lock i none [] = full
scan lock i (some j) [] = vacant j
scan lock i free (e ∷ es) =
    if e.key == lock then found e.handle else scan lock (i + 1) (first_free free i e.key) es

-- `s31_locks[i] = e`
unfoldable pub set_slot : ℕ → Entry → List Entry → List Entry
set_slot i e [] = []
set_slot zero e (x ∷ xs) = e ∷ xs
set_slot (suc i) e (x ∷ xs) = x ∷ set_slot i e xs

-- `s31_lock_get`, with what the heap and the bridge answer to the creation of a mutex.
unfoldable pub lock_get : (ℕ → ℕ) → ℕ → ℕ → ℕ → World → World × ℕ
lock_get malloc context lock type w =
    if lock == 0 then (w, 0) else elim (scan lock 0 none w.locks) [
      | found h ↦ (w, h)
      | full ↦ (w, 0)
      | vacant i ↦
          let c = create_mutex malloc context w.live in
          (
            record w {
              locks =
                  if c.pointer == 0
                  then w.locks
                  else set_slot i (record { key = lock; handle = c.pointer; type = type }) w.locks;
              live = c.live;
            },
            c.pointer,
          )
    ]

-- `s31_lock_find`
unfoldable pub lock_find : ℕ → List Entry → ℕ
lock_find lock [] = 0
lock_find lock (e ∷ es) = if e.key == lock then e.handle else lock_find lock es

-- The table that `esp_libc_locks_init` clears.
abbrev pub cleared : List Entry
cleared = replicate 32 vacant_entry

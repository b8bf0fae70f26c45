-- ===== src/Rtos/Queue/Lifetime.antt =====
-- Created objects are well formed, failures leak nothing, and deletion gives everything back.
use esp32s31_linux_function.Base.{
  ℕ, ◌+◌, ◌-◌, ◌*◌, ◌/◌, ◌^◌, ◌≤◌, ◌<◌, ◌≡◌, ◌≢◌, refl, Bool, true, false, not, ◌&&◌, ◌||◌, Option,
  none, some, [], arith, ltb, ◌==◌, if◌then◌else◌, u32_mod, add32, inl, inr, Bool-cases,
}
use esp32s31_linux_function.Rtos.Ledger.{Ledger, obtain, release-obtain}
use esp32s31_linux_function.Rtos.Queue.{Queue, Memory, type_mutex, type_sem, valid}
use esp32s31_linux_function.Rtos.Queue.Create.{
  queue_bytes, init, Created, total, finish, generic_create, create_mutex,
  create_counting_semaphore, delete,
}
use esp32s31_linux_function.Rtos.Queue.Bounds.{IsValid}
use esp32s31_linux_function.Rtos.Queue.Contents.{contents}

-- What the heap promises: a block that it hands out lies inside the address space.
abbrev pub HandsOut : (ℕ → ℕ) → Type 0
HandsOut malloc = (n : ℕ) → n < u32_mod → malloc n ≢ 0 → malloc n + n < u32_mod

abbrev pub too_long : ℕ → ℕ → Bool
too_long len item_size = not (item_size == 0) && ltb ((2 ^ 32 - 1 - queue_bytes) / item_size) len

mul-le_of_le-div : (a m s : ℕ) → a ≤ m / s → a * s ≤ m
mul-le_of_le-div a m s h = grind arith

-- The guard of `xQueueGenericCreate` keeps the size from wrapping: what is asked for is the object
-- and all its slots.
total-fits :
    (len item_size : ℕ)
    → too_long len item_size ≡ false
    → (queue_bytes + len * item_size < u32_mod)
      × (total len item_size ≡ queue_bytes + len * item_size)
total-fits len item_size h = elim (Bool-cases (item_size == 0)) [
  | inl z ↦ let e : item_size ≡ 0 = ground arith in rw e (omega arith)
  | inr z ↦
      let small : len * item_size ≤ 2 ^ 32 - 1 - queue_bytes =
        mul-le_of_le-div len (2 ^ 32 - 1 - queue_bytes) item_size (ground arith) in
      omega arith
]

-- What it takes for `xQueueGenericCreate` to succeed.
record Succeeds (malloc : ℕ → ℕ) (context len item_size type : ℕ) (c : Created) (q : Queue)
    : Type 0 where
  some_slots : 0 < len
  fits : too_long len item_size ≡ false
  block : malloc (total len item_size) ≢ 0
  locked : context ≢ 0
  object : q ≡ init type len item_size (add32 (malloc (total len item_size)) queue_bytes) context
  pointer : c.pointer ≡ malloc (total len item_size)

generic_create-Succeeds :
    (malloc : ℕ → ℕ) (context len item_size type : ℕ) (l : Ledger) (q : Queue)
    → (generic_create malloc context len item_size type l).object ≡ some q
    → Succeeds malloc context len item_size type
        (generic_create malloc context len item_size type l)
        q
unfolding generic_create
generic_create-Succeeds malloc context len item_size type l q e = record {
  some_slots = ground arith;
  fits = ground arith;
  block = ground arith;
  locked = ground arith;
  object = ground arith;
  pointer = ground arith;
}

fresh-IsValid :
    (context len item_size type block : ℕ)
    → type ≢ type_mutex
    → type ≢ type_sem
    → 0 < len
    → len ≤ 2 ^ 31
    → block + (queue_bytes + len * item_size) < u32_mod
    → IsValid (init type len item_size (add32 block queue_bytes) context)
unfolding init
fresh-IsValid context len item_size type block m s p small h = ground arith

-- A queue that `xQueueGenericCreate` returns is valid and empty, and its slots lie in the block
-- behind the object; the size that was asked for did not wrap. It needs a plain queue type and at
-- most 2^31 slots.
pub generic_create-IsValid :
    (malloc : ℕ → ℕ) (context len item_size type : ℕ) (l : Ledger) (q : Queue)
    → HandsOut malloc
    → type ≢ type_mutex
    → type ≢ type_sem
    → len ≤ 2 ^ 31
    → (generic_create malloc context len item_size type l).object ≡ some q
    → let block = (generic_create malloc context len item_size type l).pointer in
      IsValid q
      × (valid block q ≡ true)
      × ((mem : Memory) → contents q mem ≡ [])
      × (block + queue_bytes ≡ q.storage)
      × (q.storage + len * item_size ≡ block + total len item_size)
generic_create-IsValid malloc context len item_size type l q heap m s small e =
    let ok : Succeeds malloc context len item_size type
        (generic_create malloc context len item_size type l) q =
      generic_create-Succeeds malloc context len item_size type l q e in
    let (bound, size) = total-fits len item_size ok.fits in
    let room : malloc (total len item_size) + (queue_bytes + len * item_size) < u32_mod =
      omega (arith, heap (total len item_size) (omega arith) ok.block) in
    rw (ok.object, ok.pointer)
      (
        fresh-IsValid context len item_size type (malloc (total len item_size)) m s ok.some_slots
            small room,
        unfold valid init in (ground (arith, ok.block, ok.locked)),
        (λ mem. unfold init in refl),
        unfold init in (omega arith),
        unfold init in (omega arith),
      )

-- A failure returns NULL and leaks nothing; a success can be deleted back to where it began.
abbrev pub Balanced : Ledger → ℕ → Option Queue → Ledger → Type 0
Balanced l p none live = (p ≡ 0) × (live ≡ l)
Balanced l p (some q) live = (p ≢ 0) × ((delete p q live).1 ≡ l)

finish-Balanced :
    (block : ℕ) (q : Queue) (l : Ledger)
    → q.is_static ≡ 0
    → let c = finish block q l in Balanced l c.pointer c.object c.live
unfolding finish delete
finish-Balanced block q l dynamic = elim (Bool-cases (block == 0)) [
  | inl e ↦ rw e (refl, refl)
  | inr e ↦ rw e (elim (Bool-cases (q.wait_context == 0)) [
    | inl f ↦ rw f (refl, release-obtain block l)
    | inr f ↦ rw f (
      ground arith,
      rw (e, dynamic)
          (rw (release-obtain q.wait_context (obtain block l)) (release-obtain block l)),
    )
  ])
]

abbrev pub IsBalanced : Ledger → Created → Type 0
IsBalanced l c = Balanced l c.pointer c.object c.live

if-IsBalanced :
    (l : Ledger) (b : Bool) (c d : Created)
    → IsBalanced l c
    → IsBalanced l d
    → IsBalanced l (if b then c else d)
if-IsBalanced l true c d hc hd = hc
if-IsBalanced l false c d hc hd = hd

-- The dynamic constructors leak nothing when they fail, at the heap or at the bridge, and what they
-- return is deleted without a remainder.
pub create-delete :
    (malloc : ℕ → ℕ) (context len item_size type max initial : ℕ) (l : Ledger)
    → IsBalanced l (generic_create malloc context len item_size type l)
      × IsBalanced l (create_mutex malloc context l)
      × IsBalanced l (create_counting_semaphore malloc context max initial l)
unfolding generic_create create_mutex create_counting_semaphore
create-delete malloc context len item_size type max initial l = (
  if-IsBalanced l (len == 0 || too_long len item_size) _ _ (refl, refl)
      (finish-Balanced (malloc (total len item_size))
        (init type len item_size (add32 (malloc (total len item_size)) queue_bytes) context) l
        refl),
  finish-Balanced (malloc queue_bytes) (init type_mutex 1 0 0 context) l refl,
  if-IsBalanced l (max == 0 || ltb max initial) _ _ (refl, refl)
      (finish-Balanced (malloc queue_bytes)
        (record (init type_sem max 0 0 context) { count = initial }) l refl),
)

-- A static queue that has been deleted is refused by every later call, although its memory stays.
pub deleted-valid : (p : ℕ) (q : Queue) (l : Ledger) → p ≢ 0 → valid p (delete p q l).0 ≡ false
unfolding valid delete
deleted-valid p q l h = ground arith

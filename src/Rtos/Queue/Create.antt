-- ===== src/Rtos/Queue/Create.antt =====
-- Creating and deleting queues, semaphores and mutexes. The heap (`s31_rtos_malloc`, the IDF's
-- `heap_caps_malloc`) is a function from the size asked for to an address, and the Linux bridge's
-- `s31_linux_sync_create` an address; 0 is a failure.
use esp32s31_linux_function.Base.{
  ℕ, ◌-◌, ◌*◌, ◌/◌, ◌^◌, Bool, not, ◌&&◌, ◌||◌, Option, none, some, ltb, ◌==◌, if◌then◌else◌,
  u32_mod, add32, ◌%◌,
}
use esp32s31_linux_function.Rtos.Ledger.{Ledger, obtain, release}
use esp32s31_linux_function.Rtos.Queue.{Queue, type_mutex, type_sem}

-- `sizeof(struct s31_queue)`: ten words.
abbrev pub queue_bytes : ℕ
queue_bytes = 40

-- `s31_queue_init`, given what `s31_linux_sync_create` returned.
unfoldable pub init : ℕ → ℕ → ℕ → ℕ → ℕ → Queue
init type len item_size storage context = record {
  type = type;
  item_size = item_size;
  capacity = len;
  count = 0;
  head = 0;
  storage = storage;
  owner = 0;
  depth = 0;
  wait_context = context;
  is_static = 0;
}

-- What a constructor returns: the pointer, the object behind it, and what is live.
pub record Created : Type 0 where
  pub pointer : ℕ
  pub object : Option Queue
  pub live : Ledger

abbrev pub failed : Ledger → Created
failed l = record { pointer = 0; object = none; live = l }

abbrev pub made : ℕ → Queue → Ledger → Created
made p q l = record { pointer = p; object = some q; live = l }

-- The size that `xQueueGenericCreate` asks for.
abbrev pub total : ℕ → ℕ → ℕ
total len item_size = add32 queue_bytes (len * item_size % u32_mod)

-- The block has been asked for; the object is initialised, or the block is given back.
unfoldable pub finish : ℕ → Queue → Ledger → Created
finish block q l =
    if block == 0
    then failed l
    else if q.wait_context == 0
    then failed (release block (obtain block l))
    else made block q (obtain q.wait_context (obtain block l))

module _ (malloc : ℕ → ℕ) (context : ℕ) where
  -- `xQueueGenericCreate`
  unfoldable pub generic_create : ℕ → ℕ → ℕ → Ledger → Created
  unfolding init finish
  generic_create len item_size type l =
      if len == 0 || (not (item_size == 0) && ltb ((2 ^ 32 - 1 - queue_bytes) / item_size) len)
      then failed l
      else (let block = malloc (total len item_size) in
          finish block (init type len item_size (add32 block queue_bytes) context) l)

  -- `xQueueCreateMutex`
  unfoldable pub create_mutex : Ledger → Created
  unfolding init finish
  create_mutex l = finish (malloc queue_bytes) (init type_mutex 1 0 0 context) l

  -- `xQueueCreateCountingSemaphore`
  unfoldable pub create_counting_semaphore : ℕ → ℕ → Ledger → Created
  unfolding init finish
  create_counting_semaphore max initial l =
      if max == 0 || ltb max initial
      then failed l
      else finish (malloc queue_bytes) (record (init type_sem max 0 0 context) { count = initial })
          l

-- `xQueueGenericCreateStatic`: the caller owns the object at `static_queue` and the storage.
unfoldable pub generic_create_static : ℕ → ℕ → ℕ → ℕ → ℕ → ℕ → Ledger → Created
unfolding init
generic_create_static context len item_size storage static_queue type l =
    if static_queue == 0 || (len == 0 || (not (item_size == 0) && storage == 0))
    then failed l
    else record {
      pointer = if context == 0 then 0 else static_queue;
      object = some (record (init type len item_size storage context) { is_static = 1 });
      live = obtain context l;
    }

-- `xQueueGenericGetStaticBuffers`: `none` is pdFALSE; else what `*storage` gets, if the caller
-- gave `storage`, and what `*static_queue` gets.
unfoldable pub get_static_buffers : ℕ → Queue → Bool → Bool → Option (Option ℕ × ℕ)
get_static_buffers p q storage static_queue =
    if p == 0 || (q.is_static == 0 || not static_queue)
    then none
    else some (if storage then some q.storage else none, p)

-- `vQueueDelete`: the object after it, and what is live.
unfoldable pub delete : ℕ → Queue → Ledger → Queue × Ledger
delete p q l = if p == 0 then (q, l) else (
  record q { wait_context = 0 },
  (if q.is_static == 0 then release p (release q.wait_context l) else release q.wait_context l),
)

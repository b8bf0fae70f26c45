-- ===== src/Connect.antt =====
-- rootfs/wifi_connect.c: the SHA-1 that derives a key from a passphrase, and the HMAC over it. Words
-- have 32 bits, and a block is a memory of 64 bytes.
pub mod Chunks
use esp32s31_linux_function.Base.{
  ℕ, zero, suc, ◌+◌, ◌-◌, ◌*◌, ◌/◌, ◌%◌, ◌^◌, min, bit_and, bit_or, bit_xor, add32, u32_mod,
  u64_mod, Bool, true, false, ltb, leb, ◌==◌, if◌then◌else◌, List, [], ◌∷◌, ◌++◌, length, replicate,
}
use esp32s31_linux_function.Base.Bits.{not32}
use esp32s31_linux_function.Copy.{Memory, store}
use esp32s31_linux_function.Text.{Text, take, drop}

-- The five words of the state.
pub record Words : Type 0 where
  pub a : ℕ
  pub b : ℕ
  pub c : ℕ
  pub d : ℕ
  pub e : ℕ

-- `struct sha1_ctx`
pub record Context : Type 0 where
  pub state : Words
  pub bytes : ℕ
  pub block : Memory

-- `rol`, of fewer than 32 bits
abbrev pub rol : ℕ → ℕ → ℕ
rol value bits = bit_or (value * 2 ^ bits % u32_mod) (value / 2 ^ (32 - bits))

-- Words `i` to 15 of the schedule, put before those in front of them: the newest first.
unfoldable pub load_words : ℕ → ℕ → Memory → List ℕ → List ℕ
load_words zero i block w = w
load_words (suc n) i block w = load_words n (i + 1) block (
    (block (i * 4) * 2 ^ 24
      + block (i * 4 + 1) * 2 ^ 16
      + block (i * 4 + 2) * 2 ^ 8
      + block (i * 4 + 3))
    ∷ w)

abbrev pub word : ℕ → List ℕ → ℕ
word i [] = 0
word zero (x ∷ xs) = x
word (suc i) (x ∷ xs) = word i xs

-- `n` words more of the schedule.
unfoldable pub extend : ℕ → List ℕ → List ℕ
extend zero w = w
extend (suc n) w =
    extend n (rol (bit_xor (bit_xor (bit_xor (word 2 w) (word 7 w)) (word 13 w)) (word 15 w)) 1 ∷ w)

-- `f` and `k` of round `i`
abbrev pub mix : ℕ → ℕ → ℕ → ℕ → ℕ
mix i b c d =
    if ltb i 20
    then bit_or (bit_and b c) (bit_and (not32 b) d)
    else if ltb i 40
    then bit_xor (bit_xor b c) d
    else if ltb i 60
    then bit_or (bit_or (bit_and b c) (bit_and b d)) (bit_and c d)
    else bit_xor (bit_xor b c) d

abbrev pub round_constant : ℕ → ℕ
round_constant i =
    if ltb i 20
    then 0x5a827999
    else if ltb i 40
    then 0x6ed9eba1
    else if ltb i 60
    then 0x8f1bbcdc
    else 0xca62c1d6

-- The rounds, whose schedule stands newest first: round `i` is the one with `i` words behind its own.
unfoldable pub rounds : List ℕ → Words → Words
rounds [] s = s
rounds (x ∷ w) s =
    let t = rounds w s in
    let i = length w in
    record {
      a = (rol t.a 5 + mix i t.b t.c t.d + t.e + round_constant i + x) % u32_mod;
      b = t.a;
      c = rol t.b 30;
      d = t.c;
      e = t.d;
    }

-- `sha1_transform`
unfoldable pub sha1_transform : Words → Memory → Words
unfolding load_words extend rounds
sha1_transform s block =
    let t = rounds (extend 64 (load_words 16 0 block [])) s in
    record {
      a = add32 s.a t.a;
      b = add32 s.b t.b;
      c = add32 s.c t.c;
      d = add32 s.d t.d;
      e = add32 s.e t.e;
    }

-- `sha1_init`; the block's bytes are what they were.
abbrev pub sha1_init : Memory → Context
sha1_init block = record {
  state = record { a = 0x67452301; b = 0xefcdab89; c = 0x98badcfe; d = 0x10325476; e = 0xc3d2e1f0 };
  bytes = 0;
  block = block;
}

-- `memcpy(block + p, input, n)` for the `n` bytes of the list
unfoldable pub copy_to_block : ℕ → Text → Memory → Memory
unfolding store
copy_to_block p [] m = m
copy_to_block p (b ∷ bs) m = copy_to_block (p + 1) bs (store p b m)

-- The block is used up when it is full.
unfoldable pub fill_block : Context → ℕ → Context × ℕ
unfolding sha1_transform
fill_block c used =
    if used == 64 then (record c { state = sha1_transform c.state c.block }, 0) else (c, used)

-- The loop of `sha1_update`, with as many passes as the first argument
unfoldable pub update_loop : ℕ → Context → ℕ → Text → Context
unfolding take drop copy_to_block fill_block
update_loop zero c used input = c
update_loop (suc n) c used [] = c
update_loop (suc n) c used (b ∷ bs) =
    let n_taken = min (64 - used) (length (b ∷ bs)) in
    let (c', used') =
      fill_block (record c { block = copy_to_block used (take n_taken (b ∷ bs)) c.block })
        (used + n_taken) in
    update_loop n c' used' (drop n_taken (b ∷ bs))

-- `sha1_update`
unfoldable pub sha1_update : Context → Text → Context
unfolding update_loop
sha1_update c input =
    update_loop (length input) (record c { bytes = (c.bytes + length input) % u64_mod })
      (c.bytes % 64) input

-- The 8 bytes of a number, the highest first.
abbrev pub big_endian : ℕ → ℕ → Text
big_endian zero v = []
big_endian (suc n) v = v / 2 ^ (8 * n) % 2 ^ 8 ∷ big_endian n v

-- `sha1_final`
unfoldable pub sha1_final : Context → Text
unfolding sha1_update
sha1_final c =
    let used = c.bytes % 64 in
    let padlen = if ltb used 56 then 56 - used else 120 - used in
    let s =
      (sha1_update c
        (0x80 ∷ (replicate (padlen - 1) 0 ++ big_endian 8 (c.bytes * 8 % u64_mod)))).state in
    big_endian 4 s.a
    ++ (big_endian 4 s.b ++ (big_endian 4 s.c ++ (big_endian 4 s.d ++ big_endian 4 s.e)))

-- `sha1_init`, `sha1_update` of some pieces, `sha1_final`
unfoldable pub digest : List Text → Context → Text
unfolding sha1_final
digest [] c = sha1_final c
digest (piece ∷ pieces) c = digest pieces (sha1_update c piece)

-- A key against 64 bytes of the same value.
unfoldable pub pad : ℕ → ℕ → Text → Text
pad zero v key = []
pad (suc n) v [] = v ∷ pad n v []
pad (suc n) v (k ∷ ks) = bit_xor v k ∷ pad n v ks

-- `hmac_sha1`; `blocks` are the contents of the block that each of its three hashes starts with.
unfoldable pub hmac_sha1 : (ℕ → Memory) → Text → Text → Text
unfolding digest pad
hmac_sha1 blocks key input =
    let short = if ltb 64 (length key) then digest (key ∷ []) (sha1_init (blocks 0)) else key in
    digest
      (pad 64 0x5c short ∷ (digest (pad 64 0x36 short ∷ (input ∷ [])) (sha1_init (blocks 1)) ∷ []))
      (sha1_init (blocks 2))

-- `block[i] ^= u[i]`
unfoldable pub xor_bytes : Text → Text → Text
xor_bytes [] u = []
xor_bytes (b ∷ bs) [] = b ∷ bs
xor_bytes (b ∷ bs) (c ∷ cs) = bit_xor b c ∷ xor_bytes bs cs

-- The inner loop of `derive_pmk`, for `n` rounds.
unfoldable pub derive_loop : ℕ → (ℕ → Memory) → Text → Text → Text → Text
unfolding hmac_sha1 xor_bytes
derive_loop zero blocks pass u block = block
derive_loop (suc n) blocks pass u block =
    let u' = hmac_sha1 blocks pass u in derive_loop n blocks pass u' (xor_bytes block u')

-- One of the two blocks of the key.
unfoldable pub derive_block : (ℕ → Memory) → Text → Text → ℕ → Text
unfolding derive_loop
derive_block blocks pass ssid index =
    let u = hmac_sha1 blocks pass (ssid ++ big_endian 4 index) in derive_loop 4095 blocks pass u u

-- `derive_pmk`: all of the first block, and what room is left of the second.
unfoldable pub derive_pmk : (ℕ → Memory) → Text → Text → Text
unfolding derive_block take
derive_pmk blocks pass ssid =
    derive_block blocks pass ssid 1 ++ take 12 (derive_block blocks pass ssid 2)

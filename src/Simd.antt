-- ===== src/Simd.antt =====
-- rootfs/esp_simd.c: calls that run vector routines on the hart that has them, or the C library's
-- routines on any; and of rootfs/s31_xespv_memops.S the two routines for comparing and adding bytes. The
-- vector unit, the other routines, the C library and sched_setaffinity are parameters.
pub mod Bytes
pub mod Vector
use esp32s31_linux_function.Base.{
  ℕ, zero, suc, ◌+◌, ◌-◌, ◌*◌, ◌/◌, ◌%◌, ◌&&◌, leb, Bool, true, false, Option, none, some, ltb,
  ◌==◌, if◌then◌else◌,
}
use esp32s31_linux_function.Copy.{Memory, store}

-- `esp_simd_thread_state`: 0, 1, or a negative error number.
pub data ThreadState : Type 0 where
  fresh active : ThreadState
  refused : ℕ → ThreadState

-- `esp_simd_init`, given how `sched_setaffinity` fails, if it does: the state, and the error number that
-- it returns negated, `none` for 0.
unfoldable pub simd_init : Option ℕ → ThreadState → ThreadState × Option ℕ
simd_init failure active = (active, none)
simd_init none fresh = (active, none)
simd_init none (refused e) = (active, none)
simd_init (some e) fresh = (refused e, some e)
simd_init (some e) (refused e') = (refused e, some e)

-- `esp_simd_active`
unfoldable pub simd_active : ThreadState → Bool
simd_active fresh = false
simd_active active = true
simd_active (refused e) = false

-- A call with `SIMD_OR_RETURN`, from `esp_simd_memcpy` to `esp_simd_strlcpy`, on its arguments.
unfoldable pub wrapped {ℓ κ} :
    {A : Type ℓ} {R : Type κ} → (A → R) → (A → R) → Option ℕ → A → ThreadState → ThreadState × R
unfolding simd_init
wrapped fallback vector failure args s =
    let (s', error) = simd_init failure s in
    (s', elim error [ none ↦ vector args | some e ↦ fallback args ])

-- A loop `for (i = 0; i < n; i++) out[i] = f(lhs[i], rhs[i]);`
unfoldable pub zip_bytes : (ℕ → ℕ → ℕ) → Memory → ℕ → ℕ → ℕ → ℕ → Memory
unfolding store
zip_bytes f m out lhs rhs zero = m
zip_bytes f m out lhs rhs (suc n) =
    zip_bytes f (store out (f (m lhs) (m rhs)) m) (out + 1) (lhs + 1) (rhs + 1) n

abbrev pub same_byte : ℕ → ℕ → ℕ
same_byte a b = if a == b then 0xFF else 0

abbrev pub add_saturated : ℕ → ℕ → ℕ
add_saturated a b = if ltb 255 (a + b) then 255 else a + b

-- The vector unit: the address that a 128-bit access to a pointer uses, and what `esp.vcmp.eq.u8` and
-- `esp.vadd.u8` give for the bytes of a lane.
pub record VectorUnit : Type 0 where
  pub base : ℕ → ℕ
  pub vcmp_eq_u8 : ℕ → ℕ → ℕ
  pub vadd_u8 : ℕ → ℕ → ℕ

-- `esp.vld.128.ip`: the sixteen lanes at `p`
unfoldable pub load_lanes : VectorUnit → Memory → ℕ → ℕ → ℕ
load_lanes u m p i = m (u.base p + i)

-- `esp.vst.128.ip`: the sixteen lanes `q` to `p`
unfoldable pub store_lanes : VectorUnit → (ℕ → ℕ) → ℕ → Memory → Memory
store_lanes u q p m x = if leb (u.base p) x && ltb x (u.base p + 16) then q (x - u.base p) else m x

-- `s31_xespv_eq16`: both operands are loaded before the result is stored.
unfoldable pub eq16 : VectorUnit → Memory → ℕ → ℕ → ℕ → Memory
unfolding load_lanes store_lanes
eq16 u m out lhs rhs =
    store_lanes u (λ i. u.vcmp_eq_u8 (load_lanes u m lhs i) (load_lanes u m rhs i)) out m

-- `sltiu t1,t0,256; bnez t1,.Lva_store; li t0,255`
abbrev pub clamped_sum : ℕ → ℕ → ℕ
clamped_sum a b = if ltb (a + b) 256 then a + b else 255

-- One block of `.Lva_vec`
unfoldable pub add_block : VectorUnit → Memory → ℕ → ℕ → ℕ → Memory
unfolding load_lanes store_lanes
add_block u m out lhs rhs =
    store_lanes u (λ i. u.vadd_u8 (load_lanes u m lhs i) (load_lanes u m rhs i)) out m

-- `.Lva_vec`, for that many blocks
unfoldable pub add_blocks : VectorUnit → Memory → ℕ → ℕ → ℕ → ℕ → Memory
unfolding add_block
add_blocks u m out lhs rhs zero = m
add_blocks u m out lhs rhs (suc k) =
    add_blocks u (add_block u m out lhs rhs) (out + 16) (lhs + 16) (rhs + 16) k

-- `s31_xespv_add_sat_u8`: blocks while sixteen bytes are left, if all three pointers are multiples of 16,
-- and then `.Lva_byte`, which is a loop as above
unfoldable pub vector_add_sat_u8 : VectorUnit → Memory → ℕ → ℕ → ℕ → ℕ → Memory
unfolding add_blocks zip_bytes
vector_add_sat_u8 u m out lhs rhs n =
    if out % 16 == 0 && (lhs % 16 == 0 && rhs % 16 == 0)
    then zip_bytes clamped_sum (add_blocks u m out lhs rhs (n / 16)) (out + 16 * (n / 16))
        (lhs + 16 * (n / 16)) (rhs + 16 * (n / 16)) (n % 16)
    else zip_bytes clamped_sum m out lhs rhs n

-- `esp_simd_eq_u8x16`
unfoldable pub eq_u8x16 :
    VectorUnit → Option ℕ → Memory → ℕ → ℕ → ℕ → ThreadState → ThreadState × Memory
unfolding simd_init zip_bytes eq16
eq_u8x16 u failure m out lhs rhs s =
    let (s', error) = simd_init failure s in
    (s', elim error [ none ↦ eq16 u m out lhs rhs | some e ↦ zip_bytes same_byte m out lhs rhs 16 ])

-- `esp_simd_add_sat_u8`
unfoldable pub add_sat_u8 :
    VectorUnit → Option ℕ → Memory → ℕ → ℕ → ℕ → ℕ → ThreadState → ThreadState × Memory
unfolding simd_init zip_bytes vector_add_sat_u8
add_sat_u8 u failure m out lhs rhs count s =
    let (s', error) = simd_init failure s in
    (
      s',
      elim error [
        | none ↦ vector_add_sat_u8 u m out lhs rhs count
        | some e ↦ zip_bytes add_saturated m out lhs rhs count
      ],
    )

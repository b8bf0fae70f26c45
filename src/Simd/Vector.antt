-- ===== src/Simd/Vector.antt =====
-- The two vector routines of rootfs/s31_xespv_memops.S, and the calls of rootfs/esp_simd.c over them.
use esp32s31_linux_function.Base.{
  ℕ, zero, suc, ◌+◌, ◌-◌, ◌*◌, ◌/◌, ◌%◌, ◌≡◌, refl, sym, subst, inl, inr, Bool, true, false,
  Bool-cases, Option, none, some, arith, min, ◌&&◌, ◌||◌, leb, ltb, ◌==◌, if◌then◌else◌,
}
use esp32s31_linux_function.Copy.{Memory}
use esp32s31_linux_function.Simd.{
  ThreadState, fresh, active, refused, simd_init, simd_active, zip_bytes, same_byte, add_saturated,
  VectorUnit, load_lanes, store_lanes, eq16, clamped_sum, add_block, add_blocks, vector_add_sat_u8,
  eq_u8x16, add_sat_u8,
}
use esp32s31_linux_function.Simd.Bytes.{Readable, Zipped, zip_bytes-Zipped, Zipped-then, Zipped-as}

-- What the documentation says of the unit: an access to an aligned pointer goes just there, comparing
-- gives a mask, and adding bytes saturates.
abbrev pub IsDocumented : VectorUnit → Type 0
IsDocumented u =
    ((p : ℕ) → p % 16 ≡ 0 → u.base p ≡ p)
    × ((a b : ℕ) → u.vcmp_eq_u8 a b ≡ (if a == b then 0xFF else 0))
    × ((a b : ℕ) → u.vadd_u8 a b ≡ min 255 (a + b))

abbrev pub saturated : ℕ → ℕ → ℕ
saturated a b = min 255 (a + b)

-- Both routines store lanes of what they loaded.
lanes-Zipped :
    (u : VectorUnit) (f : ℕ → ℕ → ℕ) (m : Memory) (out lhs rhs : ℕ)
    → u.base out ≡ out
    → u.base lhs ≡ lhs
    → u.base rhs ≡ rhs
    → Zipped f
        (store_lanes u (λ i. f (load_lanes u m lhs i) (load_lanes u m rhs i)) out m)
        m
        out
        lhs
        rhs
        16
unfolding load_lanes store_lanes
lanes-Zipped u f m out lhs rhs o l r = (
  (λ i lt.
      let inside : (leb out (out + i) && ltb (out + i) (out + 16)) ≡ true = ground arith in
      let lane : out + i - out ≡ i = omega arith in rw (o, l, r, inside, lane) refl),
  (λ x h.
      let outside : (leb out x && ltb x (out + 16)) ≡ false = elim h [
        | inl p ↦ ground arith
        | inr p ↦ ground arith
      ] in
      rw (o, outside) refl),
)

eq16-Zipped :
    (u : VectorUnit) (m : Memory) (out lhs rhs : ℕ)
    → IsDocumented u
    → out % 16 ≡ 0
    → lhs % 16 ≡ 0
    → rhs % 16 ≡ 0
    → Zipped same_byte (eq16 u m out lhs rhs) m out lhs rhs 16
unfolding eq16
eq16-Zipped u m out lhs rhs (at, compares, adds) o l r =
    Zipped-as u.vcmp_eq_u8 same_byte (eq16 u m out lhs rhs) m out lhs rhs 16 compares
      (lanes-Zipped u u.vcmp_eq_u8 m out lhs rhs (at out o) (at lhs l) (at rhs r))

add_block-Zipped :
    (u : VectorUnit) (m : Memory) (out lhs rhs : ℕ)
    → IsDocumented u
    → out % 16 ≡ 0
    → lhs % 16 ≡ 0
    → rhs % 16 ≡ 0
    → Zipped saturated (add_block u m out lhs rhs) m out lhs rhs 16
unfolding add_block
add_block-Zipped u m out lhs rhs (at, compares, adds) o l r =
    Zipped-as u.vadd_u8 saturated (add_block u m out lhs rhs) m out lhs rhs 16 adds
      (lanes-Zipped u u.vadd_u8 m out lhs rhs (at out o) (at lhs l) (at rhs r))

shifted : (out p a b n : ℕ) → n ≡ a + b → Readable out p n → Readable (out + a) (p + a) b
shifted out p a b n e h = elim h [ inl q ↦ inl (omega arith) | inr q ↦ inr (omega arith) ]

add_blocks-Zipped :
    (u : VectorUnit) (m : Memory) (out lhs rhs k : ℕ)
    → IsDocumented u
    → out % 16 ≡ 0
    → lhs % 16 ≡ 0
    → rhs % 16 ≡ 0
    → Readable out lhs (16 * k)
    → Readable out rhs (16 * k)
    → Zipped saturated (add_blocks u m out lhs rhs k) m out lhs rhs (16 * k)
unfolding add_blocks
add_blocks-Zipped u m out lhs rhs zero d o l r hl hr = ((λ i lt. absurd (omega arith)), λ x h. refl)
add_blocks-Zipped u m out lhs rhs (suc k) d o l r hl hr =
    let size : 16 + 16 * k ≡ 16 * suc k = omega arith in
    let m1 = add_block u m out lhs rhs in
    let rest =
      add_blocks-Zipped u m1 (out + 16) (lhs + 16) (rhs + 16) k d (omega arith) (omega arith)
        (omega arith) (shifted out lhs 16 (16 * k) (16 * suc k) (sym size) hl)
        (shifted out rhs 16 (16 * k) (16 * suc k) (sym size) hr) in
    subst (Zipped saturated (add_blocks u m out lhs rhs (suc k)) m out lhs rhs) size (
      Zipped-then saturated (add_blocks u m out lhs rhs (suc k)) m1 m out lhs rhs 16 (16 * k)
        (subst (Readable out lhs) (sym size) hl) (subst (Readable out rhs) (sym size) hr)
        (add_block-Zipped u m out lhs rhs d o l r) rest)

clamped-Zipped :
    (m : Memory) (out lhs rhs n : ℕ)
    → Readable out lhs n
    → Readable out rhs n
    → Zipped saturated (zip_bytes clamped_sum m out lhs rhs n) m out lhs rhs n
clamped-Zipped m out lhs rhs n l r =
    Zipped-as clamped_sum saturated (zip_bytes clamped_sum m out lhs rhs n) m out lhs rhs n
      (λ a b. ground arith) (zip_bytes-Zipped clamped_sum m out lhs rhs n l r)

vector_add_sat_u8-Zipped :
    (u : VectorUnit) (m : Memory) (out lhs rhs n : ℕ)
    → IsDocumented u
    → Readable out lhs n
    → Readable out rhs n
    → Zipped saturated (vector_add_sat_u8 u m out lhs rhs n) m out lhs rhs n
unfolding vector_add_sat_u8
vector_add_sat_u8-Zipped u m out lhs rhs n d l r =
    elim (Bool-cases (out % 16 == 0 && (lhs % 16 == 0 && rhs % 16 == 0))) [
      | inr e ↦ rw e (clamped-Zipped m out lhs rhs n l r)
      | inl e ↦ rw e (by_blocks (ground arith) (ground arith) (ground arith))
    ]
  where
    k : ℕ
    k = 16 * (n / 16)

    size : k + n % 16 ≡ n
    size = omega arith

    start : (p : ℕ) → Readable out p n → Readable out p k
    start p h = elim h [ inl q ↦ inl q | inr q ↦ inr (omega arith) ]

    by_blocks :
        out % 16 ≡ 0
        → lhs % 16 ≡ 0
        → rhs % 16 ≡ 0
        → Zipped saturated
            (zip_bytes clamped_sum
              (add_blocks u m out lhs rhs (n / 16))
              (out + k)
              (lhs + k)
              (rhs + k)
              (n % 16))
            m
            out
            lhs
            rhs
            n
    by_blocks x y z =
        let m1 = add_blocks u m out lhs rhs (n / 16) in
        let m2 = zip_bytes clamped_sum m1 (out + k) (lhs + k) (rhs + k) (n % 16) in
        subst (Zipped saturated m2 m out lhs rhs) size (
          Zipped-then saturated m2 m1 m out lhs rhs k (n % 16)
            (subst (Readable out lhs) (sym size) l) (subst (Readable out rhs) (sym size) r)
            (add_blocks-Zipped u m out lhs rhs (n / 16) d x y z (start lhs l) (start rhs r))
            (clamped-Zipped m1 (out + k) (lhs + k) (rhs + k) (n % 16)
              (shifted out lhs k (n % 16) n (sym size) l)
              (shifted out rhs k (n % 16) n (sym size) r)))

abbrev pub is_none : Option ℕ → Bool
is_none none = true
is_none (some e) = false

-- With a vector unit as documented, whether the thread can be moved to its hart or not, and whatever
-- came before: a call is active afterwards just if it was or the move succeeds. `esp_simd_eq_u8x16` on
-- pointers that are multiples of 16 gives 0xFF for each pair of equal bytes and 0 for each other pair;
-- `esp_simd_add_sat_u8` gives the sum of each pair, or 255 if it is more, at any pointers and lengths;
-- both leave the rest of the memory alone. Each operand starts at the result or behind its start, or ends
-- before it.
pub simd_calls_lem :
    (u : VectorUnit) (failure : Option ℕ) (s : ThreadState) (m : Memory)
    (mask a b out lhs rhs n : ℕ)
    → IsDocumented u
    → mask % 16 ≡ 0
    → a % 16 ≡ 0
    → b % 16 ≡ 0
    → Readable mask a 16
    → Readable mask b 16
    → Readable out lhs n
    → Readable out rhs n
    → let (s1, m1) = eq_u8x16 u failure m mask a b s in
      let (s2, m2) = add_sat_u8 u failure m out lhs rhs n s in
      Zipped (λ x y. if x == y then 0xFF else 0) m1 m mask a b 16
      × Zipped (λ x y. min 255 (x + y)) m2 m out lhs rhs n
      × (s1 ≡ s2)
      × (simd_active s1 ≡ simd_active s || is_none failure)
unfolding eq_u8x16 add_sat_u8 simd_init simd_active
simd_calls_lem u failure s m mask a b out lhs rhs n d pm pa pb la lb l r = by_error failure s
  where
    compared : Zipped same_byte (eq16 u m mask a b) m mask a b 16
    compared = eq16-Zipped u m mask a b d pm pa pb

    added : Zipped saturated (vector_add_sat_u8 u m out lhs rhs n) m out lhs rhs n
    added = vector_add_sat_u8-Zipped u m out lhs rhs n d l r

    compared_bytes : Zipped same_byte (zip_bytes same_byte m mask a b 16) m mask a b 16
    compared_bytes = zip_bytes-Zipped same_byte m mask a b 16 la lb

    added_bytes : Zipped saturated (zip_bytes add_saturated m out lhs rhs n) m out lhs rhs n
    added_bytes =
        Zipped-as add_saturated saturated (zip_bytes add_saturated m out lhs rhs n) m out lhs rhs n
          (λ x y. ground arith) (zip_bytes-Zipped add_saturated m out lhs rhs n l r)

    by_error :
        (failure : Option ℕ) (s : ThreadState)
        → let (s1, m1) = eq_u8x16 u failure m mask a b s in
          let (s2, m2) = add_sat_u8 u failure m out lhs rhs n s in
          Zipped same_byte m1 m mask a b 16
          × Zipped saturated m2 m out lhs rhs n
          × (s1 ≡ s2)
          × (simd_active s1 ≡ simd_active s || is_none failure)
    by_error none fresh = (compared, added, refl, refl)
    by_error none active = (compared, added, refl, refl)
    by_error none (refused e) = (compared, added, refl, refl)
    by_error (some e) active = (compared, added, refl, refl)
    by_error (some e) fresh = (compared_bytes, added_bytes, refl, refl)
    by_error (some e) (refused e') = (compared_bytes, added_bytes, refl, refl)

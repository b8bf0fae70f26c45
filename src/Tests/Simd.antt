-- ===== src/Tests/Simd.antt =====
-- The SIMD calls of rootfs/esp_simd.c on concrete inputs.
use esp32s31_linux_function.Base.{
  ◌+◌, ◌*◌, ◌/◌, ◌==◌, if◌then◌else◌, ◌≡◌, refl, inl, arith, none, some, min, ◌||◌,
}
use esp32s31_linux_function.Copy.{Memory, store}
use esp32s31_linux_function.Simd.{
  fresh, active, refused, simd_init, simd_active, wrapped, zip_bytes, eq_u8x16, add_sat_u8,
  VectorUnit, vector_add_sat_u8, add_blocks, add_block, eq16, load_lanes, store_lanes,
}
use esp32s31_linux_function.Simd.Bytes.{Zipped}
use esp32s31_linux_function.Simd.Vector.{IsDocumented, is_none, simd_calls_lem}

-- Each byte holds its address.
abbrev addresses : Memory
addresses x = x

-- A unit that ignores the low four bits of an address.
abbrev unit : VectorUnit
unit = record {
  base = λ p. p / 16 * 16;
  vcmp_eq_u8 = λ a b. if a == b then 0xFF else 0;
  vadd_u8 = λ a b. min 255 (a + b);
}

unit-IsDocumented : IsDocumented unit
unit-IsDocumented = ((λ p h. omega arith), (λ a b. refl), λ a b. refl)

-- On a thread that cannot be moved the C loops run, here with the result in place of an operand.
fallback_test :
    ((add_sat_u8 unit (some 22) addresses 100 100 154 4 fresh).1 101 ≡ 255)
    × ((add_sat_u8 unit (some 22) addresses 100 100 154 4 fresh).1 100 ≡ 254)
    × ((eq_u8x16 unit (some 22) addresses 10 40 40 fresh).1 25 ≡ 0xFF)
    × ((eq_u8x16 unit (some 22) addresses 10 40 41 fresh).1 25 ≡ 0)
unfolding add_sat_u8 eq_u8x16 simd_init zip_bytes store
fallback_test = (refl, refl, refl, refl)

-- A failure is tried again by the next call, and a thread that was moved stays.
states_test :
    (wrapped (λ n. n + 1) (λ n. n + 2) (some 22) 5 fresh ≡ (refused 22, 6))
    × (wrapped (λ n. n + 1) (λ n. n + 2) none 5 (refused 22) ≡ (active, 7))
    × (wrapped (λ n. n + 1) (λ n. n + 2) (some 22) 5 active ≡ (active, 7))
unfolding wrapped simd_init
states_test = (refl, refl, refl)

-- On a thread that moves: two blocks and three bytes, and at odd pointers bytes alone. Comparing at a
-- pointer that is no multiple of 16 misses the first bytes of the result.
vector_test :
    ((add_sat_u8 unit none addresses 64 96 160 35 fresh).1 98 ≡ 255)
    × ((add_sat_u8 unit none addresses 16 32 80 35 fresh).1 17 ≡ 114)
    × ((add_sat_u8 unit none addresses 1 34 80 4 fresh).1 2 ≡ 116)
    × ((eq_u8x16 unit none addresses 16 48 48 fresh).1 31 ≡ 0xFF)
    × ((eq_u8x16 unit none addresses 24 48 48 fresh).1 39 ≡ 39)
unfolding add_sat_u8 eq_u8x16 simd_init zip_bytes store vector_add_sat_u8 add_blocks add_block eq16
    load_lanes store_lanes
vector_test = (refl, refl, refl, refl, refl)

simd_calls_lem_example :
    let (s1, m1) = eq_u8x16 unit none addresses 16 48 80 fresh in
    let (s2, m2) = add_sat_u8 unit none addresses 10 40 80 35 fresh in
    Zipped (λ x y. if x == y then 0xFF else 0) m1 addresses 16 48 80 16
    × Zipped (λ x y. min 255 (x + y)) m2 addresses 10 40 80 35
    × (s1 ≡ s2)
    × (simd_active s1 ≡ simd_active fresh || is_none none)
simd_calls_lem_example =
    simd_calls_lem unit none fresh addresses 16 48 80 10 40 80 35 unit-IsDocumented (omega arith)
      (omega arith) (omega arith) (inl (omega arith)) (inl (omega arith)) (inl (omega arith))
      (inl (omega arith))

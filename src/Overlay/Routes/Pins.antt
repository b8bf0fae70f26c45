-- ===== src/Overlay/Routes/Pins.antt =====
-- What a route assignment does to a blob.
use esp32s31_linux_function.Base.{
  ℕ, zero, suc, ◌+◌, ◌/◌, ◌^◌, ◌≤◌, ◌<◌, ◌≡◌, refl, sym, ap, subst, Bool, true, false, ◌||◌, Option,
  some, List, [], ◌∷◌, leb, ltb, ◌==◌, if◌then◌else◌, arith, length, inl, inr, Bool-cases,
  Option-cases, bit_and, ◌⊎◌, ◌≢◌,
}
use native.Mathlib.Nat.{pow-suc}
use esp32s31_linux_function.Base.Bits.{
  test_bit, test_bit-le, not32, test_bit-bit_and, test_bit-bit_or, test_bit-not32,
}
use esp32s31_linux_function.Base.Masks.{test_bit-zero}
use esp32s31_linux_function.Text.{Text, cut}
use esp32s31_linux_function.Overlay.{enoent, eexist, valid_gpio}
use esp32s31_linux_function.Overlay.Routes.{
  Fdt, Result, done, failed, route_name, pinmux, prop_is, pin_word, is_matrix, with_pin,
  patch_nodes, patch_route,
}

test_bit-small : (k i x : ℕ) → x < 2 ^ k → k ≤ i → test_bit i x ≡ 0
unfolding test_bit
test_bit-small zero i x h p = let z : x ≡ 0 = omega arith in rw z (test_bit-zero i)
test_bit-small (suc k) zero x h p = absurd (omega arith)
test_bit-small (suc k) (suc i) x h p =
    test_bit-small k i (x / 2) (omega (arith, pow-suc 2 k)) (omega arith)

-- The eight low bits of 0xFF.
low_byte : (i : ℕ) → i < 8 → test_bit i 0xFF ≡ 1
unfolding test_bit
low_byte zero h = refl
low_byte (suc zero) h = refl
low_byte (suc (suc zero)) h = refl
low_byte (suc (suc (suc zero))) h = refl
low_byte (suc (suc (suc (suc zero)))) h = refl
low_byte (suc (suc (suc (suc (suc zero))))) h = refl
low_byte (suc (suc (suc (suc (suc (suc zero)))))) h = refl
low_byte (suc (suc (suc (suc (suc (suc (suc zero))))))) h = refl
low_byte (suc (suc (suc (suc (suc (suc (suc (suc i)))))))) h = absurd (omega arith)

-- The pin takes the low byte, and the configuration above it stays.
with_pin-bits :
    (old gpio i : ℕ)
    → gpio < 256
    → i < 32
    → test_bit i (with_pin old gpio) ≡ (if ltb i 8 then test_bit i gpio else test_bit i old)
unfolding with_pin
with_pin-bits old gpio i small h = elim (Bool-cases (ltb i 8)) [
  | inl low ↦ rw low (
      omega (
        arith,
        test_bit-bit_or i (bit_and old (not32 0xFF)) gpio,
        test_bit-bit_and i old (not32 0xFF),
        test_bit-not32 i 0xFF (omega arith) h,
        low_byte i (ground arith),
        test_bit-le i old,
      ))
  | inr high ↦ rw high (
      omega (
        arith,
        test_bit-bit_or i (bit_and old (not32 0xFF)) gpio,
        test_bit-bit_and i old (not32 0xFF),
        test_bit-not32 i 0xFF (omega arith) h,
        test_bit-small 8 i 0xFF (omega arith) (ground arith),
        test_bit-small 8 i gpio (omega arith) (ground arith),
        test_bit-le i old,
      ))
]

-- The pins that a route may take: not GPIO26 to GPIO33, GPIO34 and GPIO41. The pins of the console, GPIO58
-- and GPIO59, are among them.
abbrev pub IsAccepted : ℕ → Type 0
IsAccepted gpio = (gpio < 62) × ((gpio < 26) ⊎ (33 < gpio)) × (gpio ≢ 34) × (gpio ≢ 41)

valid_gpio-IsAccepted : (gpio : ℕ) → valid_gpio gpio ≡ true → IsAccepted gpio
unfolding valid_gpio
valid_gpio-IsAccepted gpio h = (
  ground arith,
  elim (Bool-cases (ltb gpio 26)) [ inl e ↦ inl (ground arith) | inr e ↦ inr (ground arith) ],
  (λ e. absurd (ground arith)),
  (λ e. absurd (ground arith)),
)

done-injective {ℓ} : {A : Type ℓ} {a b : A} → done a ≡ done b → a ≡ b
done-injective {a = a} e = ap (λ r. elim r [ done x ↦ x | failed x ↦ a ]) e

abbrev is_done {ℓ} : {A : Type ℓ} → Result A → Bool
is_done (done a) = true
is_done (failed e) = false

done-failed {ℓ} : {A : Type ℓ} (r : Result A) {a : A} → is_done r ≡ false → r ≡ done a → ⊥
done-failed r h e = absurd (ground (arith, h, ap is_done e))

module _ (F : Fdt) where
  -- The blob differs by one pin, set in place at a node of the route.
  pub record OnePin (route : Text) (gpio : ℕ) (b b' : F.Blob) : Type 0 where
    pub node : ℕ
    pub old : ℕ
    pub on_route : prop_is F b node route_name route ≡ true
    pub matrix : is_matrix F b node ≡ true
    pub word : pin_word F b node ≡ some old
    pub set : F.setprop_u32 b node pinmux (with_pin old gpio) ≡ some b'

  -- How many pins the loop has set.
  abbrev Set : Text → ℕ → F.Blob → ℕ → Result (F.Blob × ℕ) → Type 0
  Set route gpio b found (failed e) = Unit
  Set route gpio b found (done (b', n)) =
      (found ≤ n) × (n ≡ found → b' ≡ b) × (n ≡ found + 1 → OnePin route gpio b b')

  patch_nodes-Set :
      (route : Text) (gpio : ℕ) (ns : List ℕ) (b : F.Blob) (found : ℕ)
      → Set route gpio b found (patch_nodes F route gpio ns b found)
  unfolding patch_nodes
  patch_nodes-Set route gpio [] b found = (omega arith, (λ e. refl), λ e. absurd (omega arith))
  patch_nodes-Set route gpio (n ∷ ns) b found = elim (Bool-cases (prop_is F b n route_name route)) [
    | inr o ↦ rw (patch_nodes, o) (patch_nodes-Set route gpio ns b found)
    | inl o ↦
        rw (patch_nodes, o)
          (elim (Bool-cases (is_matrix F b n)) [
            | inr m ↦ rw m tt
            | inl m ↦ rw m (elim (Option-cases (pin_word F b n)) [
              | inl w ↦ rw w tt
              | inr (old, w) ↦
                  rw w (elim (Option-cases (F.setprop_u32 b n pinmux (with_pin old gpio))) [
                    | inl s ↦ rw s tt
                    | inr (b1, s) ↦ rw s (
                        one_more (patch_nodes F route gpio ns b1 (found + 1))
                          (patch_nodes-Set route gpio ns b1 (found + 1))
                          (record {
                            node = n;
                            old = old;
                            on_route = o;
                            matrix = m;
                            word = w;
                            set = s;
                          }))
                  ])
            ])
          ])
  ]
    where
      one_more :
          {b1 : F.Blob} (r : Result (F.Blob × ℕ))
          → Set route gpio b1 (found + 1) r
          → OnePin route gpio b b1
          → Set route gpio b found r
      one_more (failed e) h p = tt
      one_more {b1} (done (b', k)) (at_least, none_more, one) p = (
        omega arith,
        (λ e. absurd (omega arith)),
        (λ e. subst (OnePin route gpio b) (sym (none_more e)) p),
      )

  -- A route assignment that succeeds sets one pin in place, in the blob as it was given: at a node that
  -- has the route's name, is a matrix route and had a four-byte pin configuration. The pin is one that
  -- the code accepts, below 62 and none of GPIO26 to GPIO34 and GPIO41, but GPIO58 and GPIO59 among them;
  -- it takes the low byte of the configuration, whose other bits stay.
  pub patch_route-OnePin :
      (strtoul : Text → Option ℕ) (b : F.Blob) (assignment : Text) (b' : F.Blob)
      → patch_route F strtoul b assignment ≡ done b'
      → (route number : Text) × (gpio : ℕ) × (cut b'=' assignment ≡ some (route, number))
        × (strtoul number ≡ some gpio)
        × IsAccepted gpio
        × (p : OnePin route gpio b b') × ((i : ℕ)
            → i < 32
            → test_bit i (with_pin p.old gpio)
              ≡ (if ltb i 8 then test_bit i gpio else test_bit i p.old))
  unfolding patch_route
  patch_route-OnePin strtoul b assignment b' = elim (Option-cases (cut b'=' assignment)) [
    | inl c ↦ rw (patch_route, c) (λ e. absurd (ground arith))
    | inr ((route, number), c) ↦
        rw (patch_route, c)
          (elim (Bool-cases (length route == 0 || leb 64 (length route))) [
            | inl l ↦ rw l (λ e. absurd (ground arith))
            | inr l ↦ rw l (elim (Option-cases (strtoul number)) [
              | inl n ↦ rw n (λ e. absurd (ground arith))
              | inr (gpio, n) ↦ rw n (elim (Bool-cases (valid_gpio gpio)) [
                | inr v ↦ rw v (λ e. absurd (ground arith))
                | inl v ↦ rw v (λ e. (
                  route,
                  number,
                  gpio,
                  refl,
                  n,
                  valid_gpio-IsAccepted gpio v,
                  pinned route gpio (patch_nodes F route gpio (F.nodes b) b 0)
                      (patch_nodes-Set route gpio (F.nodes b) b 0) e,
                  (λ i h.
                      with_pin-bits _ gpio i (omega (arith, (valid_gpio-IsAccepted gpio v).0)) h),
                ))
              ])
            ])
          ])
  ]
    where
      pinned :
          (route : Text) (gpio : ℕ) (r : Result (F.Blob × ℕ))
          → Set route gpio b 0 r
          → (elim r as (λ x. Result F.Blob) [
            | failed e ↦ failed e
            | done (b1, found) ↦
                if found == 1 then done b1 else failed (if found == 0 then enoent else eexist)
          ])
            ≡ done b'
          → OnePin route gpio b b'
      pinned route gpio (failed e) s h = absurd (ground arith)
      pinned route gpio (done (b1, n)) (at_least, none_more, one) h = elim (Bool-cases (n == 1)) [
        | inl e ↦ subst (OnePin route gpio b) (done-injective (rw e at h)) (one (ground arith))
        | inr e ↦ absurd (done-failed _ refl (rw e at h))
      ]

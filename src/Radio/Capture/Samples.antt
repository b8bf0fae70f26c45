-- ===== src/Radio/Capture/Samples.antt =====
-- What a sample of a transmission says of the call that it was taken of.
use esp32s31_linux_function.Base.{
  ℕ, ◌+◌, ◌≤◌, ◌<◌, ◌≡◌, ◌≢◌, ltb, refl, ap, ◌∙◌, bit_and, Bool, true, not, ◌||◌, List, [], ◌∷◌,
  arith, inl, inr, Bool-cases, ◌⊎◌,
}
use esp32s31_linux_function.Base.Int.{ℤ}
use esp32s31_linux_function.Copy.{Memory}
use esp32s31_linux_function.Netlink.{u16_at}
use esp32s31_linux_function.Radio.Config.{copied}
use esp32s31_linux_function.Radio.Capture.{
  Sample, is_hpsram, u32_at, Look, protected_data, is_protected_data, frame_of, look, sample_of,
}

-- `n` bytes from `p` lie in the high-performance SRAM.
abbrev pub InHpsram : ℕ → ℕ → Type 0
InHpsram p n = (0x2f000000 ≤ p) × (p + n ≤ 0x2f800000)

-- A call of either wrapper, with the memory that it finds and what the driver's function does.
pub data Transmit : Type 0 where
  set_tx_desc : (ℕ → ℕ → ℕ → ℕ → ℕ → Memory → Memory) → ℕ → ℕ → ℕ → ℕ → ℕ → Memory → Transmit
  tx_frame : (ℕ → ℕ → Memory → Memory × ℤ) → ℕ → ℕ → Memory → Transmit

-- The buffer that a call is given, and the memory in which its sample is taken: the driver writes the
-- descriptor before it is sampled, and sends the frame afterwards.
abbrev pub buffer_of : Transmit → ℕ
buffer_of (set_tx_desc real ic eb tid flags control m) = eb
buffer_of (tx_frame real eb queue m) = eb

abbrev pub seen : Transmit → Memory
seen (set_tx_desc real ic eb tid flags control m) = real ic eb tid flags control m
seen (tx_frame real eb queue m) = m

abbrev pub Occurs : Transmit → List Transmit → Type 0
Occurs t [] = ⊥
Occurs t (x ∷ xs) = (t ≡ x) ⊎ Occurs t xs

-- What the sample says is so in memory `m` of the buffer `eb`: the buffer, its descriptor, its pointer to
-- the frame and the frame behind the eight bytes in front lie in the SRAM, the copies are of that
-- descriptor and that frame, and the frame is of protected data.
abbrev pub IsSampleOf : Memory → ℕ → Sample → Type 0
IsSampleOf m eb s =
    (s.eb ≡ eb)
    × InHpsram eb 56
    × InHpsram (u32_at m (eb + 52)) 72
    × ((i : ℕ) → i < 72 → s.desc i ≡ m (u32_at m (eb + 52) + i))
    × InHpsram (u32_at m (eb + 4)) 8
    × (s.frame ≡ u32_at m (u32_at m (eb + 4) + 4) + 8)
    × InHpsram s.frame 48
    × ((i : ℕ) → i < 48 → s.header i ≡ m (s.frame + i))
    × (s.length ≡ u16_at m (eb + 22))
    × (bit_and (m s.frame) 0x0c ≡ 0x08)
    × (bit_and (m (s.frame + 1)) 0x40 ≢ 0)

-- The sample was taken of one of these calls.
abbrev pub IsSampled : List Transmit → Sample → Type 0
IsSampled ts s = (t : Transmit) × Occurs t ts × IsSampleOf (seen t) (buffer_of t) s

-- What the checks find holds of the call.
abbrev pub Found : Look → Memory → ℕ → Type 0
Found (protected_data desc frame) m eb =
    InHpsram eb 56
    × InHpsram (u32_at m (eb + 52)) 72
    × (desc ≡ u32_at m (eb + 52))
    × InHpsram (u32_at m (eb + 4)) 8
    × (frame ≡ u32_at m (u32_at m (eb + 4) + 4) + 8)
    × InHpsram frame 48
    × (is_protected_data m frame ≡ true)
Found l m eb = Unit

in_hpsram : (p n : ℕ) → n < 100 → is_hpsram p n ≡ true → InHpsram p n
unfolding is_hpsram
in_hpsram p n hn e = (ground arith, ground arith)

-- A frame that is not NULL comes from a pointer into the SRAM.
frame_of-pointer :
    (m : Memory) (eb : ℕ)
    → is_hpsram (frame_of m eb) 56 ≡ true
    → InHpsram (u32_at m (eb + 4)) 8
      × (frame_of m eb ≡ u32_at m (u32_at m (eb + 4) + 4))
      × InHpsram (frame_of m eb + 8) 48
frame_of-pointer m eb c =
    let (above, below) = in_hpsram (frame_of m eb) 56 (omega arith) c in
    elim (Bool-cases (is_hpsram (u32_at m (eb + 4)) 8)) [
      | inl e ↦
          (in_hpsram (u32_at m (eb + 4)) 8 (omega arith) e, rw e refl, (omega arith, omega arith))
      | inr e ↦ let null : frame_of m eb ≡ 0 = rw e refl in absurd (omega arith)
    ]

pub look-Found : (enabled : Bool) (m : Memory) (eb : ℕ) → Found (look enabled m eb) m eb
unfolding look
look-Found enabled m eb = elim (Bool-cases (is_hpsram eb 56)) [
  | inr a ↦ rw a tt
  | inl a ↦ elim (Bool-cases (is_hpsram (u32_at m (eb + 52)) 72)) [
    | inr b ↦ rw a (rw b tt)
    | inl b ↦ elim (Bool-cases (is_hpsram (frame_of m eb) 56)) [
      | inr c ↦ rw a (rw b (rw c tt))
      | inl c ↦ elim (Bool-cases (not enabled || not (is_protected_data m (frame_of m eb + 8)))) [
        | inl d ↦ rw a (rw b (rw c (rw d tt)))
        | inr d ↦
            let (pointer, same, inside) = frame_of-pointer m eb c in
            rw a (
              rw b (
                rw c (
                  rw d (
                    in_hpsram eb 56 (omega arith) a,
                    in_hpsram (u32_at m (eb + 52)) 72 (omega arith) b,
                    refl,
                    pointer,
                    ap (λ x. x + 8) same,
                    inside,
                    ground arith,
                  ))))
      ]
    ]
  ]
]

-- The sample of a call whose checks pass.
pub sample_of-IsSampleOf :
    (m : Memory) (eb desc frame flags control tid : ℕ)
    → Found (protected_data desc frame) m eb
    → IsSampleOf m eb (sample_of m eb desc frame flags control tid)
sample_of-IsSampleOf m eb desc frame flags control tid
      (at_eb, at_desc, same, pointer, here, at_frame, both) =
    (
      refl,
      at_eb,
      at_desc,
      (λ i lt. copied_below desc 72 i lt ∙ ap (λ p. m (p + i)) same),
      pointer,
      here,
      at_frame,
      copied_below frame 48,
      refl,
      ground arith,
      (λ z. absurd (ground arith)),
    )
  where
    copied_below : (p n i : ℕ) → i < n → copied (λ j. m (p + j)) n i ≡ m (p + i)
    copied_below p n i lt = let e : ltb i n ≡ true = ground arith in rw e refl

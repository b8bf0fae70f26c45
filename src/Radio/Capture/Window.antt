-- ===== src/Radio/Capture/Window.antt =====
-- What the samples and the counters of a window of transmissions say.
use esp32s31_linux_function.Base.{
  ℕ, ◌+◌, ◌≤◌, ◌<◌, ◌≡◌, refl, ap, ◌∙◌, subst, true, false, leb, ◌==◌, add32, u32_mod, List, [],
  ◌∷◌, length, arith, inl, inr, Bool-cases, ◌⊎◌,
}
use esp32s31_linux_function.Radio.Capture.{
  TxCapture, put_at, Look, bad_eb, bad_desc, bad_frame, nondata, protected_data, look, sample_of,
  record_look, observe, fresh_window, wrap_set_tx_desc, wrap_lmac_tx_frame,
}
use esp32s31_linux_function.Radio.Capture.Samples.{
  Transmit, set_tx_desc, tx_frame, buffer_of, seen, Occurs, IsSampled, Found, look-Found,
  sample_of-IsSampleOf,
}

abbrev pub refused : TxCapture → ℕ
refused c = c.bad_eb_count + c.bad_desc_count + c.bad_frame_count + c.nondata_count

-- Every call is counted where it belongs, unless the samples are full, and the samples are good.
abbrev pub IsSound : List Transmit → TxCapture → Type 0
IsSound ts c =
    (c.sample_count ≤ 24)
    × (refused c + c.sample_count ≤ c.call_count)
    × ((24 ≤ c.sample_count) ⊎ (refused c + c.sample_count ≡ c.call_count))
    × ((i : ℕ) → i < c.sample_count → IsSampled ts (c.samples i))

record_look-IsSound :
    (ts : List Transmit) (t : Transmit) (l : Look) (flags control tid : ℕ) (c : TxCapture)
    → Occurs t ts
    → c.call_count + 1 < u32_mod
    → Found l (seen t) (buffer_of t)
    → IsSound ts c
    → IsSound ts (
        record_look l
          (seen t)
          (buffer_of t)
          flags
          control
          tid
          (record c { call_count = add32 c.call_count 1 }))
      × (TxCapture.call_count (
            record_look l
              (seen t)
              (buffer_of t)
              flags
              control
              tid
              (record c { call_count = add32 c.call_count 1 }))
          ≡ c.call_count + 1)
unfolding record_look
record_look-IsSound ts t bad_eb flags control tid c o small f (most, sum, full, good) =
    ((most, omega arith, ground arith, good), ground arith)
record_look-IsSound ts t bad_desc flags control tid c o small f (most, sum, full, good) =
    ((most, omega arith, ground arith, good), ground arith)
record_look-IsSound ts t bad_frame flags control tid c o small f (most, sum, full, good) =
    ((most, omega arith, ground arith, good), ground arith)
record_look-IsSound ts t nondata flags control tid c o small f (most, sum, full, good) =
    ((most, omega arith, ground arith, good), ground arith)
record_look-IsSound ts t (protected_data desc frame) flags control tid c o small f
      (most, sum, full, good) =
    elim (Bool-cases (leb 24 c.sample_count)) [
      | inl e ↦ rw e ((most, omega arith, inl (ground arith), good), ground arith)
      | inr e ↦ rw e (
        (
          ground arith,
          omega arith,
          ground arith,
          λ i lt. with_sample i lt (Bool-cases (i == c.sample_count)),
        ),
        ground arith,
      )
    ]
  where
    with_sample :
        (i : ℕ)
        → i < c.sample_count + 1
        → ((i == c.sample_count) ≡ true) ⊎ ((i == c.sample_count) ≡ false)
        → IsSampled ts (
            put_at c.sample_count
              (sample_of (seen t) (buffer_of t) desc frame flags control tid)
              c.samples
              i)
    with_sample i lt (inl e) =
        rw e (t, o, sample_of-IsSampleOf (seen t) (buffer_of t) desc frame flags control tid f)
    with_sample i lt (inr e) = rw e (good i (ground arith))

abbrev transmit : Transmit → TxCapture → TxCapture
transmit (set_tx_desc real ic eb tid flags control m) c =
    let (m', c') = wrap_set_tx_desc real ic eb tid flags control m c in c'
transmit (tx_frame real eb queue m) c = let (r, c') = wrap_lmac_tx_frame real eb queue m c in c'

unfoldable pub transmit_all : List Transmit → TxCapture → TxCapture
transmit_all [] c = c
transmit_all (t ∷ ts) c = transmit_all ts (transmit t c)

abbrev IsCounted : List Transmit → ℕ → TxCapture → Type 0
IsCounted ts n c = IsSound ts c × (c.call_count ≡ n)

transmit-IsCounted :
    (ts : List Transmit) (t : Transmit) (n : ℕ) (c : TxCapture)
    → Occurs t ts
    → n + 1 < u32_mod
    → IsCounted ts n c
    → IsCounted ts (n + 1) (transmit t c)
unfolding wrap_set_tx_desc wrap_lmac_tx_frame observe
transmit-IsCounted ts (set_tx_desc real ic eb tid flags control m) n c o small (sound, e) =
    let m' = real ic eb tid flags control m in
    let (sound', e') =
      record_look-IsSound ts (set_tx_desc real ic eb tid flags control m) (look c.enabled m' eb)
        flags control tid c o (omega arith) (look-Found c.enabled m' eb) sound in
    (sound', e' ∙ ap (λ x. x + 1) e)
transmit-IsCounted ts (tx_frame real eb queue m) n c o small (sound, e) =
    let (sound', e') =
      record_look-IsSound ts (tx_frame real eb queue m) (look c.enabled m eb) 0x4c4d4143 queue queue
        c o (omega arith) (look-Found c.enabled m eb) sound in
    (sound', e' ∙ ap (λ x. x + 1) e)

transmit_all-IsCounted :
    (all ts : List Transmit) (n : ℕ) (c : TxCapture)
    → ((t : Transmit) → Occurs t ts → Occurs t all)
    → n + length ts < u32_mod
    → IsCounted all n c
    → IsCounted all (n + length ts) (transmit_all ts c)
unfolding transmit_all
transmit_all-IsCounted all [] n c among small h = subst (λ x. IsCounted all x c) (omega arith) h
transmit_all-IsCounted all (t ∷ ts) n c among small h =
    let rest =
      transmit_all-IsCounted all ts (n + 1) (transmit t c) (λ u o. among u (inr o)) (omega arith)
        (transmit-IsCounted all t n c (among t (inl refl)) (omega arith) h) in
    subst (λ x. IsCounted all x (transmit_all ts (transmit t c))) (omega arith) rest

-- Over any calls of the two wrappers since the station connected, fewer than 2^32, the calls are counted
-- exactly, and each but those that find the samples full is either refused or sampled. At most 24 are
-- sampled, and each sample is of one of the calls: the buffer, the descriptor and the frame of that call
-- lie in the SRAM, the sample holds the first 72 bytes of the one and 48 of the other, and the frame is
-- of protected data.
pub fresh_window-IsSound :
    (c : TxCapture) (ts : List Transmit)
    → length ts < u32_mod
    → IsSound ts (transmit_all ts (fresh_window c))
      × (TxCapture.call_count (transmit_all ts (fresh_window c)) ≡ length ts)
unfolding fresh_window
fresh_window-IsSound c ts small =
    let (sound, e) =
      transmit_all-IsCounted ts ts 0 (fresh_window c) (λ t o. o) (omega arith)
        ((omega arith, omega arith, inr refl, λ i lt. absurd (omega arith)), refl) in
    (sound, e ∙ omega arith)

-- ===== src/Netlink/Ssid.antt =====
-- The loop over the information elements in rootfs/wifi_scan.c: its end, its bounds and what it reads.
use esp32s31_linux_function.Base.{
  ℕ, zero, suc, ◌+◌, ◌-◌, ◌≤◌, ◌≡◌, refl, ap, ap₂, ◌∙◌, Bool, false, ◌&&◌, Option, none, some, ◌∷◌,
  leb, ◌==◌, length, arith, Bool-cases, inl, inr, some-injective,
}
use esp32s31_linux_function.Copy.{Memory}
use esp32s31_linux_function.Text.{Text}
use esp32s31_linux_function.Netlink.Attributes.{SameFrom}
use esp32s31_linux_function.Netlink.Scan.{bytes_from, ssid_loop}

-- Whether the loop goes on at `ie`, and whether it has found the SSID there.
abbrev goes_on : Memory → ℕ → ℕ → Bool
goes_on m ie stop = leb (ie + 2) stop && leb (ie + 2 + m (ie + 1)) stop

abbrev is_ssid : Memory → ℕ → Bool
is_ssid m ie = m ie == 0 && leb (m (ie + 1)) 32

-- More passes than there are bytes change nothing.
ssid_loop_enough :
    (n k : ℕ) (m : Memory) (ie stop : ℕ)
    → stop - ie ≤ n
    → ssid_loop (n + k) m ie stop ≡ ssid_loop n m ie stop
unfolding ssid_loop
ssid_loop_enough zero zero m ie stop h = refl
ssid_loop_enough zero (suc k) m ie stop h =
    let over : goes_on m ie stop ≡ false = ground arith in
    let count : 0 + suc k ≡ suc k = omega arith in rw (count, ssid_loop, over) refl
ssid_loop_enough (suc n) k m ie stop h =
    let count : suc n + k ≡ suc (n + k) = omega arith in
    rw count (elim (Bool-cases (goes_on m ie stop)) [
      | inr over ↦ rw (ssid_loop, over) refl
      | inl on ↦
          rw (ssid_loop, on)
            (elim (Bool-cases (is_ssid m ie)) [
              | inl hit ↦ rw hit refl
              | inr miss ↦
                  rw miss (ssid_loop_enough n k m (ie + (2 + m (ie + 1))) stop (omega arith))
            ])
    ])

length-bytes_from : (m : Memory) (p n : ℕ) → length (bytes_from m p n) ≡ n
unfolding bytes_from
length-bytes_from m p zero = refl
length-bytes_from m p (suc n) = ap suc (length-bytes_from m (p + 1) n)

bytes_from-SameFrom :
    (d e : Memory) (p n a b : ℕ)
    → SameFrom a b d e
    → a ≤ p
    → p + n ≤ a + b
    → bytes_from d p n ≡ bytes_from e p n
unfolding bytes_from
bytes_from-SameFrom d e p zero a b same lo hi = refl
bytes_from-SameFrom d e p (suc n) a b same lo hi =
    ap₂ (λ c t. c ∷ t) (same p lo (omega arith))
      (bytes_from-SameFrom d e (p + 1) n a b same (omega arith) (omega arith))

ssid_loop_bound :
    (n : ℕ) (m : Memory) (ie stop : ℕ) (t : Text) → ssid_loop n m ie stop ≡ some t → length t ≤ 32
unfolding ssid_loop
ssid_loop_bound zero m ie stop t = λ e. absurd (ground arith)
ssid_loop_bound (suc n) m ie stop t = elim (Bool-cases (goes_on m ie stop)) [
  | inr over ↦ rw (ssid_loop, over) (λ e. absurd (ground arith))
  | inl on ↦
      rw (ssid_loop, on)
        (elim (Bool-cases (is_ssid m ie)) [
          | inl hit ↦ rw hit (λ e.
              let at = ap length (some-injective e) in
              let size = length-bytes_from m (ie + 2) (m (ie + 1)) in ground arith)
          | inr miss ↦ rw miss (ssid_loop_bound n m (ie + (2 + m (ie + 1))) stop t)
        ])
]

ssid_loop-SameFrom :
    (n : ℕ) (d e : Memory) (a ie stop : ℕ)
    → a ≤ ie
    → SameFrom a (stop - a) d e
    → ssid_loop n d ie stop ≡ ssid_loop n e ie stop
unfolding ssid_loop
ssid_loop-SameFrom zero d e a ie stop lo same = refl
ssid_loop-SameFrom (suc n) d e a ie stop lo same = elim (Bool-cases (leb (ie + 2) stop)) [
  | inr over ↦ rw (ssid_loop, over) refl
  | inl room ↦
      let size : d (ie + 1) ≡ e (ie + 1) = same (ie + 1) (omega arith) (ground arith) in
      let id : d ie ≡ e ie = same ie lo (ground arith) in
      let going : goes_on d ie stop ≡ goes_on e ie stop =
        ap (λ x. leb (ie + 2) stop && leb (ie + 2 + x) stop) size in
      let hits : is_ssid d ie ≡ is_ssid e ie = ap₂ (λ x y. x == 0 && leb y 32) id size in
      elim (Bool-cases (goes_on e ie stop)) [
        | inr over ↦ rw (ssid_loop, going, over) refl
        | inl on ↦
            rw (ssid_loop, going, on)
              (elim (Bool-cases (is_ssid e ie)) [
                | inl hit ↦
                    rw (hits, hit)
                      (ap some (
                        ap (bytes_from d (ie + 2)) size
                        ∙ bytes_from-SameFrom d e (ie + 2) (e (ie + 1)) a (stop - a) same
                            (omega arith) (ground arith)))
                | inr miss ↦
                    rw (hits, miss)
                      (ap (λ x. ssid_loop n d (ie + (2 + x)) stop) size
                        ∙ ssid_loop-SameFrom n d e a (ie + (2 + e (ie + 1))) stop (omega arith)
                            same)
              ])
      ]
]

abbrev pub IsShort : Option Text → Type 0
IsShort none = Unit
IsShort (some t) = length t ≤ 32

short : (o : Option Text) → ((t : Text) → o ≡ some t → length t ≤ 32) → IsShort o
short none h = tt
short (some t) h = h t refl

-- The loop over the information elements ends within as many passes as they have bytes; it reads no byte
-- outside of them, so that a memory with the same elements gives the same; and the SSID that it copies has
-- 32 bytes at most, so that it and its NUL fit the array.
pub ssid_loop_lem :
    (m e : Memory) (ie stop k : ℕ)
    → SameFrom ie (stop - ie) e m
    → (ssid_loop (stop - ie + k) m ie stop ≡ ssid_loop (stop - ie) m ie stop)
      × (ssid_loop (stop - ie) e ie stop ≡ ssid_loop (stop - ie) m ie stop)
      × IsShort (ssid_loop (stop - ie) m ie stop)
ssid_loop_lem m e ie stop k same = (
  ssid_loop_enough (stop - ie) k m ie stop (omega arith),
  ssid_loop-SameFrom (stop - ie) e m ie ie stop (omega arith) same,
  short (ssid_loop (stop - ie) m ie stop) (ssid_loop_bound (stop - ie) m ie stop),
)

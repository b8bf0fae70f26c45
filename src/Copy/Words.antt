-- ===== src/Copy/Words.antt =====
-- The copy by words against one by bytes, and memset.
use esp32s31_linux_function.Base.{
  ℕ, zero, suc, ◌+◌, ◌-◌, ◌*◌, ◌/◌, ◌%◌, ◌^◌, ◌≤◌, ◌<◌, ◌≡◌, refl, sym, ap, ◌∙◌, subst, true, false,
  ◌&&◌, leb, ◌==◌, ◌⊎◌, inl, inr, Bool-cases, arith, ==-self, ◌≢◌,
}
use esp32s31_linux_function.Copy.{Memory, store, copy_bytes, copy_word, copy_words, copy, fill}

-- `n` bytes from `s` in `m` stand at `d` in `m'`, and the rest of the memory is the same.
abbrev pub Copied : Memory → Memory → ℕ → ℕ → ℕ → Type 0
Copied m' m d s n =
    ((x i : ℕ) → i < n → x ≡ d + i → m' x ≡ m (s + i))
    × ((x : ℕ) → (x < d) ⊎ (d + n ≤ x) → m' x ≡ m x)

abbrev pub Disjoint : ℕ → ℕ → ℕ → Type 0
Disjoint d s n = (d + n ≤ s) ⊎ (s + n ≤ d)

Copied-then :
    (m2 m1 m : Memory) (d s a b : ℕ)
    → Disjoint d s (a + b)
    → Copied m1 m d s a
    → Copied m2 m1 (d + a) (s + a) b
    → Copied m2 m d s (a + b)
Copied-then m2 m1 m d s a b apart (in1, out1) (in2, out2) = (
  (λ x i lt e. elim (cases i) [
    | inl p ↦ out2 x (inl (omega arith)) ∙ in1 x i p e
    | inr (j, q) ↦
        let here : s + a + j ≡ s + i = omega arith in
        in2 x j (omega arith) (omega arith) ∙ ap m1 here ∙ out1 (s + i) (apart_from i lt)
  ]),
  (λ x h.
      out2 x (elim h [ inl p ↦ inl (omega arith) | inr p ↦ inr (omega arith) ])
      ∙ out1 x (elim h [ inl p ↦ inl p | inr p ↦ inr (omega arith) ])),
)
  where
    cases : (i : ℕ) → (i < a) ⊎ ((j : ℕ) × (i ≡ a + j))
    cases i = elim (Bool-cases (leb a i)) [
      | inl p ↦ inr (i - a, ground arith)
      | inr p ↦ inl (ground arith)
    ]

    apart_from : (i : ℕ) → i < a + b → (s + i < d) ⊎ (d + a ≤ s + i)
    apart_from i lt = elim apart [ inl p ↦ inr (omega arith) | inr p ↦ inl (omega arith) ]

byte-Copied : (m : Memory) (d s : ℕ) → Copied (store d (m s) m) m d s 1
unfolding store
byte-Copied m d s = (
  (λ x i lt e.
      let at : (x == d) ≡ true = ground arith in
      let here : s ≡ s + i = omega arith in rw at (ap m here)),
  (λ x h.
      let off : (x == d) ≡ false = elim h [ inl p ↦ ground arith | inr p ↦ ground arith ] in
      rw off refl),
)

word_at : (m : Memory) (d s x i : ℕ) → i < 4 → x ≡ d + i → copy_word m d s x ≡ m (s + i)
unfolding copy_word store
word_at m d s x zero lt e =
    let a : (x == d + 3) ≡ false = ground arith in
    let b : (x == d + 2) ≡ false = ground arith in
    let c : (x == d + 1) ≡ false = ground arith in
    let f : (x == d) ≡ true = ground arith in
    let here : s ≡ s + 0 = omega arith in rw (a, b, c, f) (ap m here)
word_at m d s x (suc zero) lt e =
    let a : (x == d + 3) ≡ false = ground arith in
    let b : (x == d + 2) ≡ false = ground arith in
    let c : (x == d + 1) ≡ true = ground arith in rw (a, b, c) refl
word_at m d s x (suc (suc zero)) lt e =
    let a : (x == d + 3) ≡ false = ground arith in
    let b : (x == d + 2) ≡ true = ground arith in rw (a, b) refl
word_at m d s x (suc (suc (suc zero))) lt e =
    let a : (x == d + 3) ≡ true = ground arith in rw a refl
word_at m d s x (suc (suc (suc (suc i)))) lt e = absurd (omega arith)

word-Copied : (m : Memory) (d s : ℕ) → Copied (copy_word m d s) m d s 4
unfolding copy_word store
word-Copied m d s = (
  (λ x i lt e. word_at m d s x i lt e),
  (λ x h.
      let a : (x == d + 3) ≡ false = elim h [ inl p ↦ ground arith | inr p ↦ ground arith ] in
      let b : (x == d + 2) ≡ false = elim h [ inl p ↦ ground arith | inr p ↦ ground arith ] in
      let c : (x == d + 1) ≡ false = elim h [ inl p ↦ ground arith | inr p ↦ ground arith ] in
      let f : (x == d) ≡ false = elim h [ inl p ↦ ground arith | inr p ↦ ground arith ] in
      rw (a, b, c, f) refl),
)

shifted : (d s a b n : ℕ) → n ≡ a + b → Disjoint d s n → Disjoint (d + a) (s + a) b
shifted d s a b n e apart = elim apart [ inl p ↦ inl (omega arith) | inr p ↦ inr (omega arith) ]

bytes-Copied : (m : Memory) (d s n : ℕ) → Disjoint d s n → Copied (copy_bytes m d s n) m d s n
unfolding copy_bytes
bytes-Copied m d s zero apart = ((λ x i lt e. absurd (omega arith)), λ x h. refl)
bytes-Copied m d s (suc n) apart =
    let size : 1 + n ≡ suc n = omega arith in
    let rest =
      bytes-Copied (store d (m s) m) (d + 1) (s + 1) n
        (shifted d s 1 n (suc n) (omega arith) apart) in
    subst (Copied (copy_bytes m d s (suc n)) m d s) size (
      Copied-then (copy_bytes m d s (suc n)) (store d (m s) m) m d s 1 n
        (subst (Disjoint d s) (sym size) apart) (byte-Copied m d s) rest)

words-Copied :
    (m : Memory) (d s k : ℕ) → Disjoint d s (4 * k) → Copied (copy_words m d s k) m d s (4 * k)
unfolding copy_words
words-Copied m d s zero apart = ((λ x i lt e. absurd (omega arith)), λ x h. refl)
words-Copied m d s (suc k) apart =
    let size : 4 + 4 * k ≡ 4 * suc k = omega arith in
    let rest =
      words-Copied (copy_word m d s) (d + 4) (s + 4) k
        (shifted d s 4 (4 * k) (4 * suc k) (omega arith) apart) in
    subst (Copied (copy_words m d s (suc k)) m d s) size (
      Copied-then (copy_words m d s (suc k)) (copy_word m d s) m d s 4 (4 * k)
        (subst (Disjoint d s) (sym size) apart) (word-Copied m d s) rest)

-- What memcpy does between areas that do not overlap, aligned or not.
pub copy-Copied : (m : Memory) (d s n : ℕ) → Disjoint d s n → Copied (copy m d s n) m d s n
unfolding copy
copy-Copied m d s n apart = elim (Bool-cases (leb 4 n && (d % 4 == 0 && s % 4 == 0))) [
  | inl e ↦ rw e by_words
  | inr e ↦ rw e (bytes-Copied m d s n apart)
]
  where
    k : ℕ
    k = n / 4

    size : 4 * k + n % 4 ≡ n
    size = omega arith

    first : Copied (copy_words m d s k) m d s (4 * k)
    first =
        words-Copied m d s k (elim apart [ inl p ↦ inl (omega arith) | inr p ↦ inr (omega arith) ])

    by_words : Copied (copy_bytes (copy_words m d s k) (d + 4 * k) (s + 4 * k) (n % 4)) m d s n
    by_words =
        let rest =
          bytes-Copied (copy_words m d s k) (d + 4 * k) (s + 4 * k) (n % 4)
            (shifted d s (4 * k) (n % 4) n (omega arith) apart) in
        subst (Copied (copy_bytes (copy_words m d s k) (d + 4 * k) (s + 4 * k) (n % 4)) m d s) size
          (Copied-then (copy_bytes (copy_words m d s k) (d + 4 * k) (s + 4 * k) (n % 4))
            (copy_words m d s k) m d s (4 * k) (n % 4) (subst (Disjoint d s) (sym size) apart) first
            rest)

-- The `n` bytes from `d` are the low byte of `c`, and the rest of the memory is the same.
abbrev pub Filled : Memory → Memory → ℕ → ℕ → ℕ → Type 0
Filled m' m d c n =
    ((x : ℕ) → d ≤ x → x < d + n → m' x ≡ c % 2 ^ 8)
    × ((x : ℕ) → (x < d) ⊎ (d + n ≤ x) → m' x ≡ m x)

pub store_at : (d v : ℕ) (m : Memory) → store d v m d ≡ v
unfolding store
store_at d v m = rw (==-self d) refl

pub store_off : (d v : ℕ) (m : Memory) (x : ℕ) → x ≢ d → store d v m x ≡ m x
unfolding store
store_off d v m x n = let off : (x == d) ≡ false = ground arith in rw off refl

fill-Filled : (m : Memory) (d c n : ℕ) → Filled (fill m d c n) m d c n
unfolding fill
fill-Filled m d c zero = ((λ x a b. absurd (omega arith)), λ x h. refl)
fill-Filled m d c (suc n) =
    let (inside, outside) = fill-Filled (store d (c % 2 ^ 8) m) (d + 1) c n in
    (
      (λ x a b. elim (Bool-cases (x == d)) [
        | inl e ↦
            let here : x ≡ d = ground arith in
            rw here (outside d (inl (omega arith)) ∙ store_at d (c % 2 ^ 8) m)
        | inr e ↦ inside x (ground arith) (omega arith)
      ]),
      (λ x h.
          outside x (elim h [ inl p ↦ inl (omega arith) | inr p ↦ inr (omega arith) ])
          ∙ store_off d (c % 2 ^ 8) m x (elim h [
            | inl p ↦ (λ e. absurd (omega arith))
            | inr p ↦ (λ e. absurd (omega arith))
          ])),
    )

-- Between areas that do not overlap, memcpy puts the source's bytes at the destination and leaves the
-- rest of the memory alone, whether the pointers are aligned, so that it copies words, or not; and
-- memset puts the low byte of its argument into each byte of the area and leaves the rest alone.
pub copy-fill_lem :
    (m : Memory) (d s c n : ℕ)
    → Disjoint d s n
    → Copied (copy m d s n) m d s n × Filled (fill m d c n) m d c n
copy-fill_lem m d s c n apart = (copy-Copied m d s n apart, fill-Filled m d c n)

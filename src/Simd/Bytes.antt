-- ===== src/Simd/Bytes.antt =====
-- The byte loops of the SIMD calls, against what they say of each byte.
use esp32s31_linux_function.Base.{
  ℕ, zero, suc, ◌+◌, ◌-◌, leb, Bool-cases, ◌≤◌, ◌<◌, ◌≡◌, refl, ap, ap₂, ◌∙◌, ◌⊎◌, inl, inr, arith,
}
use esp32s31_linux_function.Copy.{Memory, store}
use esp32s31_linux_function.Copy.Words.{store_at, store_off}
use esp32s31_linux_function.Simd.{zip_bytes}

-- An operand starts at the result or behind its start, or ends before it.
abbrev pub Readable : ℕ → ℕ → ℕ → Type 0
Readable out p n = (out ≤ p) ⊎ (p + n ≤ out)

-- The `n` bytes from `out` are `f` of the operands' bytes as they were, the rest is the same.
abbrev pub Zipped : (ℕ → ℕ → ℕ) → Memory → Memory → ℕ → ℕ → ℕ → ℕ → Type 0
Zipped f m' m out lhs rhs n =
    ((i : ℕ) → i < n → m' (out + i) ≡ f (m (lhs + i)) (m (rhs + i)))
    × ((x : ℕ) → (x < out) ⊎ (out + n ≤ x) → m' x ≡ m x)

next : (out p n : ℕ) → Readable out p (suc n) → Readable (out + 1) (p + 1) n
next out p n h = elim h [ inl a ↦ inl (omega arith) | inr a ↦ inr (omega arith) ]

-- A byte that is read later has not been written.
unwritten :
    (out p n i v : ℕ) (m : Memory)
    → Readable out p (suc n)
    → i < n
    → store out v m (p + 1 + i) ≡ m (p + suc i)
unwritten out p n i v m h k =
    let there : p + 1 + i ≡ p + suc i = omega arith in
    store_off out v m (p + 1 + i)
      (elim h [ inl a ↦ (λ e. absurd (omega arith)) | inr a ↦ (λ e. absurd (omega arith)) ])
    ∙ ap m there

pub zip_bytes-Zipped :
    (f : ℕ → ℕ → ℕ) (m : Memory) (out lhs rhs n : ℕ)
    → Readable out lhs n
    → Readable out rhs n
    → Zipped f (zip_bytes f m out lhs rhs n) m out lhs rhs n
unfolding zip_bytes
zip_bytes-Zipped f m out lhs rhs zero l r = ((λ i k. absurd (omega arith)), λ x h. refl)
zip_bytes-Zipped f m out lhs rhs (suc n) l r =
    let v = f (m lhs) (m rhs) in
    let (inside, outside) =
      zip_bytes-Zipped f (store out v m) (out + 1) (lhs + 1) (rhs + 1) n (next out lhs n l)
        (next out rhs n r) in
    (
      each v refl inside outside,
      (λ x h.
          outside x (elim h [ inl p ↦ inl (omega arith) | inr p ↦ inr (omega arith) ])
          ∙ store_off out v m x (elim h [
            | inl p ↦ (λ e. absurd (omega arith))
            | inr p ↦ (λ e. absurd (omega arith))
          ])),
    )
  where
    each :
        (v : ℕ)
        → v ≡ f (m lhs) (m rhs)
        → ((i : ℕ)
            → i < n
            → zip_bytes f (store out v m) (out + 1) (lhs + 1) (rhs + 1) n (out + 1 + i)
              ≡ f (store out v m (lhs + 1 + i)) (store out v m (rhs + 1 + i)))
        → ((x : ℕ)
            → (x < out + 1) ⊎ (out + 1 + n ≤ x)
            → zip_bytes f (store out v m) (out + 1) (lhs + 1) (rhs + 1) n x ≡ store out v m x)
        → (i : ℕ) → i < suc n
        → zip_bytes f (store out v m) (out + 1) (lhs + 1) (rhs + 1) n (out + i)
          ≡ f (m (lhs + i)) (m (rhs + i))
    each v q inside outside zero k =
        let a : out + 0 ≡ out = omega arith in
        let b : lhs + 0 ≡ lhs = omega arith in
        let c : rhs + 0 ≡ rhs = omega arith in
        rw (a, b, c) (outside out (inl (omega arith)) ∙ store_at out v m ∙ q)
    each v q inside outside (suc i) k =
        let at : out + suc i ≡ out + 1 + i = omega arith in
        rw at (
          inside i (omega arith)
          ∙ ap₂ f (unwritten out lhs n i v m l (omega arith))
              (unwritten out rhs n i v m r (omega arith)))

-- First `a` bytes and then `b`: what is read later has not been written.
pub Zipped-then :
    (f : ℕ → ℕ → ℕ) (m2 m1 m : Memory) (out lhs rhs a b : ℕ)
    → Readable out lhs (a + b)
    → Readable out rhs (a + b)
    → Zipped f m1 m out lhs rhs a
    → Zipped f m2 m1 (out + a) (lhs + a) (rhs + a) b
    → Zipped f m2 m out lhs rhs (a + b)
Zipped-then f m2 m1 m out lhs rhs a b l r (in1, out1) (in2, out2) = (
  (λ i lt. elim (Bool-cases (leb a i)) [
    | inr p ↦ out2 (out + i) (inl (ground arith)) ∙ in1 i (ground arith)
    | inl p ↦
        let at : out + i ≡ out + a + (i - a) = ground arith in
        let left : lhs + a + (i - a) ≡ lhs + i = ground arith in
        let right : rhs + a + (i - a) ≡ rhs + i = ground arith in
        ap m2 at
        ∙ in2 (i - a) (ground arith)
        ∙ ap₂ f (ap m1 left ∙ out1 (lhs + i) (kept lhs i l (ground arith) lt))
            (ap m1 right ∙ out1 (rhs + i) (kept rhs i r (ground arith) lt))
  ]),
  (λ x h.
      out2 x (elim h [ inl p ↦ inl (omega arith) | inr p ↦ inr (omega arith) ])
      ∙ out1 x (elim h [ inl p ↦ inl p | inr p ↦ inr (omega arith) ])),
)
  where
    kept :
        (p i : ℕ) → Readable out p (a + b) → a ≤ i → i < a + b → (p + i < out) ⊎ (out + a ≤ p + i)
    kept p i h above lt = elim h [ inl q ↦ inr (omega arith) | inr q ↦ inl (omega arith) ]

-- The same of a function that gives the same bytes.
pub Zipped-as :
    (f g : ℕ → ℕ → ℕ) (m' m : Memory) (out lhs rhs n : ℕ)
    → ((a b : ℕ) → f a b ≡ g a b)
    → Zipped f m' m out lhs rhs n
    → Zipped g m' m out lhs rhs n
Zipped-as f g m' m out lhs rhs n same (inside, outside) =
    ((λ i lt. inside i lt ∙ same (m (lhs + i)) (m (rhs + i))), outside)

-- ===== src/Rtos/Queue/Bytes.antt =====
-- The memory laws of `memcpy`: what a copy leaves behind, in the destination and outside of it.
use esp32s31_linux_function.Base.{
  ℕ, zero, suc, ◌+◌, ◌≤◌, ◌<◌, ◌≡◌, ◌⊎◌, inl, inr, refl, sym, ap, ap₂, ◌∙◌, List, [], ◌∷◌, arith,
  length,
}
use esp32s31_linux_function.Rtos.Queue.{Memory, copy_out, copy_in, memcpy}

pub length-copy_out : (mem : Memory) (a n : ℕ) → length (copy_out mem a n) ≡ n
unfolding copy_out
length-copy_out mem a zero = refl
length-copy_out mem a (suc n) = ap suc (length-copy_out mem (a + 1) n)

-- A byte outside of the run that is written keeps its value.
pub copy_in_outside :
    (mem : Memory) (a : ℕ) (bs : List ℕ) (x : ℕ)
    → (x < a) ⊎ (a + length bs ≤ x)
    → copy_in mem a bs x ≡ mem x
unfolding copy_in
copy_in_outside mem a [] x h = refl
copy_in_outside mem a (b ∷ bs) x h = ground (arith, copy_in_outside mem (a + 1) bs x)

-- A read depends on no byte but those that it reads.
pub copy_out_congr :
    (m n : Memory) (a len : ℕ)
    → ((x : ℕ) → a ≤ x → x < a + len → m x ≡ n x)
    → copy_out m a len ≡ copy_out n a len
unfolding copy_out
copy_out_congr m n a zero h = refl
copy_out_congr m n a (suc len) h =
    ap₂ ◌∷◌ (h a (omega arith) (omega arith))
      (copy_out_congr m n (a + 1) len (λ x p q. h x (omega arith) (omega arith)))

-- What was written is read back.
pub copy_out-copy_in :
    (mem : Memory) (a : ℕ) (bs : List ℕ) → copy_out (copy_in mem a bs) a (length bs) ≡ bs
unfolding copy_out
copy_out-copy_in mem a [] = refl
copy_out-copy_in mem a (b ∷ bs) = ap₂ ◌∷◌ head (rest ∙ copy_out-copy_in mem (a + 1) bs)
  where
    head : copy_in mem a (b ∷ bs) a ≡ b
    head = unfold copy_in in (ground arith)

    later : (x : ℕ) → a + 1 ≤ x → copy_in mem a (b ∷ bs) x ≡ copy_in mem (a + 1) bs x
    later x p = unfold copy_in in (ground arith)

    rest :
        copy_out (copy_in mem a (b ∷ bs)) (a + 1) (length bs)
        ≡ copy_out (copy_in mem (a + 1) bs) (a + 1) (length bs)
    rest = copy_out_congr _ _ (a + 1) (length bs) (λ x p q. later x p)

-- The destination of a `memcpy` reads as the source did before.
pub memcpy_read :
    (mem : Memory) (dst src n : ℕ) → copy_out (memcpy mem dst src n) dst n ≡ copy_out mem src n
unfolding memcpy
memcpy_read mem dst src n =
    ap (copy_out (copy_in mem dst (copy_out mem src n)) dst) (sym (length-copy_out mem src n))
    ∙ copy_out-copy_in mem dst (copy_out mem src n)

-- A region that the destination does not meet reads as before.
pub memcpy_outside :
    (mem : Memory) (dst src n a len : ℕ)
    → (a + len ≤ dst) ⊎ (dst + n ≤ a)
    → copy_out (memcpy mem dst src n) a len ≡ copy_out mem a len
unfolding memcpy
memcpy_outside mem dst src n a len h =
    copy_out_congr _ _ a len λ x p q. copy_in_outside mem dst (copy_out mem src n) x (apart x p q)
  where
    apart : (x : ℕ) → a ≤ x → x < a + len → (x < dst) ⊎ (dst + length (copy_out mem src n) ≤ x)
    apart x p q = elim h [
      | inl l ↦ inl (omega arith)
      | inr r ↦ inr (omega (arith, length-copy_out mem src n))
    ]

-- A copy of no bytes changes nothing.
pub memcpy-zero : (mem : Memory) (dst src : ℕ) → memcpy mem dst src 0 ≡ mem
unfolding memcpy copy_out copy_in
memcpy-zero mem dst src = refl

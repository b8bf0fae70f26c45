-- ===== src/Rtos/Queue/Window.antt =====
-- Walks round a ring of `cap` slots: the slots are any function of the index.
use esp32s31_linux_function.Base.{
  ℕ, zero, suc, ◌+◌, ◌-◌, ◌%◌, ◌≤◌, ◌<◌, ◌≡◌, ◌≢◌, refl, ap, ap₂, ◌∙◌, List, [], ◌∷◌, ◌++◌, arith,
  length,
}
use native.Mathlib.Nat.{mod-add-mod, mod-eq_of_lt, mod-eq-sub-mod, add-zero}
use native.Mathlib.Decide.{dec_lt}

-- The index before and the index after a step.
pub step-mod : (cap h d : ℕ) → h < cap → ((h + 1) % cap + d) % cap ≡ (h + suc d) % cap
step-mod cap h d p = rw mod-add-mod (ap (λ k. k % cap) (omega arith))

-- Fewer than `cap` steps, and at least one, do not come back to the start.
pub add-mod-ne : (cap h d : ℕ) → h < cap → 0 < d → d < cap → (h + d) % cap ≢ h
add-mod-ne cap h d hh hd hc = elim (dec_lt (h + d) cap) [
  | yes p ↦ omega (arith, mod-eq_of_lt p)
  | no p ↦ omega (
    arith,
    mod-eq-sub-mod {n = h + d} {m = cap} (omega arith),
    mod-eq_of_lt {n = h + d - cap} {m = cap} (omega arith),
  )
]

-- A step back, then one forward.
pub back-forward : (cap h : ℕ) → h < cap → ((h + cap - 1) % cap + 1) % cap ≡ h
back-forward zero h p = absurd (omega arith)
back-forward (suc c) zero p = grind arith
back-forward (suc c) (suc h) p = grind arith

module _ {ℓ} {A : Type ℓ} (cap : ℕ) where
  -- The `n` slots from `h` on.
  abbrev pub window : (ℕ → A) → ℕ → ℕ → List A
  window f h zero = []
  window f h (suc n) = f h ∷ window f ((h + 1) % cap) n

  pub length-window : (f : ℕ → A) (h n : ℕ) → length (window f h n) ≡ n
  length-window f h zero = refl
  length-window f h (suc n) = ap suc (length-window f ((h + 1) % cap) n)

  -- The last slot of a walk.
  pub window_snoc :
      (f : ℕ → A) (h n : ℕ)
      → h < cap
      → window f h (suc n) ≡ window f h n ++ (f ((h + n) % cap) ∷ [])
  window_snoc f h zero p = ap (λ k. f k ∷ []) (rw (add-zero, mod-eq_of_lt p))
  window_snoc f h (suc n) p =
      ap (λ l. f h ∷ l)
        (window_snoc f ((h + 1) % cap) n (omega arith)
          ∙ ap (λ k. window f ((h + 1) % cap) n ++ (f k ∷ [])) (step-mod cap h n p))

  -- A slot that lies `d` steps ahead, past the walk, is not met.
  pub window_avoid :
      (f g : ℕ → A) (idx : ℕ)
      → ((j : ℕ) → j < cap → j ≢ idx → g j ≡ f j)
      → (h n d : ℕ) → h < cap
      → n ≤ d
      → d < cap
      → (h + d) % cap ≡ idx
      → window g h n ≡ window f h n
  window_avoid f g idx same h zero d hh hn hd e = refl
  window_avoid f g idx same h (suc n) zero hh hn hd e = absurd (omega arith)
  window_avoid f g idx same h (suc n) (suc d) hh hn hd e =
      ap₂ ◌∷◌ (same h hh (omega (arith, add-mod-ne cap h (suc d) hh (omega arith) hd))) (
        window_avoid f g idx same ((h + 1) % cap) n d (omega arith) (omega arith) (omega arith)
          (step-mod cap h d hh ∙ e))

  pub window_congr :
      (f g : ℕ → A) (h n : ℕ)
      → h < cap
      → ((j : ℕ) → j < cap → f j ≡ g j)
      → window f h n ≡ window g h n
  window_congr f g h zero hh same = refl
  window_congr f g h (suc n) hh same =
      ap₂ ◌∷◌ (same h hh) (window_congr f g ((h + 1) % cap) n (omega arith) same)

  -- The code tests for an empty ring, the walk matches on `suc`.
  pub window_of_pos :
      (f : ℕ → A) (h n : ℕ) → 0 < n → window f h n ≡ f h ∷ window f ((h + 1) % cap) (n - 1)
  window_of_pos f h zero p = absurd (omega arith)
  window_of_pos f h (suc n) p = ap (λ k. window f h (suc k)) (omega arith)

-- ===== src/Rtos/Event/Waiting.antt =====
-- `xEventGroupWaitBits` among other contexts: what it returns and consumes, and that it returns.
use esp32s31_linux_function.Base.{
  ℕ, ◌≡◌, ◌⊎◌, inl, inr, refl, Bool, true, false, ◌&&◌, List, [], ◌∷◌, arith, if◌then◌else◌,
  Bool-cases, bit_and, leb,
}
use esp32s31_linux_function.Base.Bits.{not32}
use esp32s31_linux_function.Rtos.Wait.{Round}
use esp32s31_linux_function.Rtos.Wait.Laws.{
  Ensures, Tries, Keeps, Returned, Ends, wait_loop-Ensures, wait_loop_returns,
}
use esp32s31_linux_function.Rtos.Event.{
  World, is_group, eg_match, print_if, consume, try_wait, unmatched, recheck, wait_bits,
}

-- What the other contexts may do to the group, as a relation on its bits.
abbrev pub Obeys : (ℕ → ℕ → Type 0) → List (Round World) → Type 0
Obeys R [] = Unit
Obeys R (r ∷ rs) = ((w : World) → R w.group.bits (r.others w).group.bits) × Obeys R rs

-- The call looked at the group when it held `r`, to which the others had led, and returns that. If
-- `r` satisfies the wait and the caller asked for it, exactly the wanted bits are cleared, in the
-- same look; in every other case the bits are left alone.
abbrev pub WaitResult : (ℕ → ℕ → Type 0) → ℕ → ℕ → Bool → Bool → World → ℕ → Type 0
WaitResult R began want clear all w' r =
    R began r
    × (w'.group.bits ≡ (if eg_match r want all && clear then bit_and r (not32 want) else r))

-- Counting and printing the start of a wait leaves the bits.
started :
    (R : ℕ → ℕ → Type 0) (b : Bool) (n : ℕ) (w : World)
    → ((a : ℕ) → R a a)
    → R w.group.bits (print_if b (record w { wait_count = n })).group.bits
started R true n w idle = idle w.group.bits
started R false n w idle = idle w.group.bits

module _ (R : ℕ → ℕ → Type 0) (began want : ℕ) (clear all : Bool) where
  -- The attempt found the wait unsatisfied.
  abbrev Unsatisfied : World → Type 0
  Unsatisfied s = R began s.group.bits × (eg_match s.group.bits want all ≡ false)

  try_wait-Tries :
      (s : World)
      → R began s.group.bits
      → Tries (WaitResult R began want clear all) Unsatisfied (try_wait want clear all s)
  unfolding try_wait
  try_wait-Tries s h = elim (Bool-cases (eg_match s.group.bits want all)) [
    | inl e ↦ rw e (finish e)
    | inr e ↦ rw e (h, e)
  ]
    where
      finish :
          eg_match s.group.bits want all ≡ true
          → WaitResult R began want clear all
              (print_if (leb s.wait_count 64) (consume want clear s))
              s.group.bits
      finish e = (h, ground arith)

  unmatched-WaitResult :
      (s : World) → Unsatisfied s → WaitResult R began want clear all s s.group.bits
  unmatched-WaitResult s (h, e) = (h, rw e refl)

  recheck-WaitResult :
      (s : World)
      → R began s.group.bits
      → WaitResult R began want clear all (recheck want clear all s).0 (recheck want clear all s).1
  unfolding recheck
  recheck-WaitResult s h = (h, ground arith)

-- What the others do to the group.
Obeys-Keeps :
    (R : ℕ → ℕ → Type 0) (began want : ℕ) (all : Bool) (rounds : List (Round World))
    → ((a b c : ℕ) → R a b → R b c → R a c)
    → Obeys R rounds
    → Keeps
        (λ (s : World). R began s.group.bits × (eg_match s.group.bits want all ≡ false))
        (λ s. R began s.group.bits)
        rounds
Obeys-Keeps R began want all [] trans o = tt
Obeys-Keeps R began want all (r ∷ rs) trans o = (
  (λ s h. trans began s.group.bits (r.others s).group.bits h.0 (o.0 s)),
  Obeys-Keeps R began want all rs trans o.1,
)

-- A wait on a live group with any timeout, in a task or an ISR, while the others change the bits
-- within a reflexive and transitive relation: if it returns, it returns the bits that it saw in one
-- look, to which the others had led, and it clears exactly the wanted bits if those satisfy the wait
-- and the caller asked for it, also when the wait itself had timed out; otherwise it clears nothing.
-- While it still waits it has cleared nothing.
pub wait_bits_lem :
    (R : ℕ → ℕ → Type 0) (in_isr : Bool) (p want : ℕ) (clear all : Bool) (timeout start : ℕ)
    (rounds : List (Round World)) (w : World)
    → ((a : ℕ) → R a a)
    → ((a b c : ℕ) → R a b → R b c → R a c)
    → Obeys R rounds
    → is_group p w.group ≡ true
    → Ensures
        (WaitResult R w.group.bits want clear all)
        (λ s. R w.group.bits s.group.bits × (eg_match s.group.bits want all ≡ false))
        (wait_bits in_isr p want clear all timeout start rounds w)
unfolding wait_bits
wait_bits_lem R in_isr p want clear all timeout start rounds w idle trans obeys live = rw live (
    wait_loop-Ensures (try_wait want clear all) unmatched unmatched (recheck want clear all) _ start
      (WaitResult R w.group.bits want clear all) (λ s. R w.group.bits s.group.bits)
      (λ s. R w.group.bits s.group.bits × (eg_match s.group.bits want all ≡ false))
      (try_wait-Tries R w.group.bits want clear all)
      (unmatched-WaitResult R w.group.bits want clear all)
      (unmatched-WaitResult R w.group.bits want clear all)
      (recheck-WaitResult R w.group.bits want clear all) rounds _
      (Obeys-Keeps R w.group.bits want all rounds trans obeys) (started R _ _ w idle))

-- A wait returns if its timeout is zero, in an ISR always, or if time runs out or the bridge's wait
-- fails in some round.
pub wait_bits_returns :
    (in_isr : Bool) (p want : ℕ) (clear all : Bool) (timeout start : ℕ)
    (rounds : List (Round World)) (w : World)
    → ((if in_isr then 0 else timeout) ≡ 0) ⊎ Ends (if in_isr then 0 else timeout) start rounds
    → Returned (wait_bits in_isr p want clear all timeout start rounds w)
unfolding wait_bits
wait_bits_returns in_isr p want clear all timeout start rounds w h =
    elim (Bool-cases (is_group p w.group)) [
      | inl live ↦ rw live (
          wait_loop_returns (try_wait want clear all) unmatched unmatched (recheck want clear all) _
            start rounds _ h)
      | inr dead ↦ rw dead tt
    ]

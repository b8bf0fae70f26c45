-- ===== src/Rtos/Wait/Laws.antt =====
-- The rules of the waiting loop: an invariant that the other contexts keep, and termination.
use esp32s31_linux_function.Base.{
  ℕ, false, ◌≡◌, ◌≢◌, ◌⊎◌, inl, inr, refl, List, [], ◌∷◌, arith, ◌==◌, Bool-cases,
}
use esp32s31_linux_function.Rtos.Wait.{
  wait_remaining, Waited, interrupted, expired, woken, Round, Attempt, finished, again, Outcome,
  returned, blocked, wait_loop,
}

-- What holds of a return, and what holds while the call still waits.
abbrev pub Ensures {ℓ κ ℓ'} :
    {S : Type ℓ} {R : Type κ} → (S → R → Type ℓ') → (S → Type ℓ') → Outcome S R → Type ℓ'
Ensures Q P (returned s r) = Q s r
Ensures Q P (blocked s) = P s

-- The call came back.
abbrev pub Returned {ℓ κ} : {S : Type ℓ} {R : Type κ} → Outcome S R → Type 0
Returned (returned s r) = Unit
Returned (blocked s) = ⊥

-- The same of one attempt.
abbrev pub Tries {ℓ κ ℓ'} :
    {S : Type ℓ} {R : Type κ} → (S → R → Type ℓ') → (S → Type ℓ') → Attempt S R → Type ℓ'
Tries Q P (finished s r) = Q s r
Tries Q P (again s) = P s

-- From what holds after an attempt the other contexts lead to what holds before the next one.
abbrev pub Keeps {ℓ ℓ'} :
    {S : Type ℓ} → (S → Type ℓ') → (S → Type ℓ') → List (Round S) → Type (ℓ ⊔ ℓ')
Keeps N P [] = Unit
Keeps N P (r ∷ rs) = ((s : _) → N s → P (r.others s)) × Keeps N P rs

-- Some round ends the wait: the time is up, or the bridge reports no wake.
abbrev pub Ends {ℓ} : {S : Type ℓ} → ℕ → ℕ → List (Round S) → Type 0
Ends timeout start [] = ⊥
Ends timeout start (r ∷ rs) =
    (wait_remaining timeout start r.tick ≡ 0) ⊎ ((r.waited ≢ woken) ⊎ Ends timeout start rs)

pub Attempt-cases {ℓ κ} :
    {S : Type ℓ} {R : Type κ} (a : Attempt S R)
    → ((s : S) × (r : R) × (a ≡ finished s r)) ⊎ ((s : S) × (a ≡ again s))
Attempt-cases (finished s r) = inl (s, r, refl)
Attempt-cases (again s) = inr (s, refl)

Waited-cases : (w : Waited) → (w ≡ woken) ⊎ ((w ≡ interrupted) ⊎ (w ≡ expired))
Waited-cases woken = inl refl
Waited-cases interrupted = inr (inl refl)
Waited-cases expired = inr (inr refl)

module _ {ℓ κ} {S : Type ℓ} {R : Type κ} (attempt : S → Attempt S R)
    (no_wait late after : S → S × R) (timeout start : ℕ) where
  -- The invariant rule: `P` holds before each attempt, `N` after one that found nothing to do, and `O`
  -- once the others have acted after that.
  pub wait_loop_rule {ℓ'} :
      (Q : S → R → Type ℓ') (P N O : S → Type ℓ')
      → ((s : S) → O s → P s)
      → ((s : S) → P s → Tries Q N (attempt s))
      → ((s : S) → N s → Q (no_wait s).0 (no_wait s).1)
      → ((s : S) → N s → Q (late s).0 (late s).1)
      → ((s : S) → O s → Q (after s).0 (after s).1)
      → (rounds : List (Round S)) (s : S) → Keeps N O rounds
      → P s
      → Ensures Q N (wait_loop attempt no_wait late after timeout start rounds s)
  unfolding wait_loop
  wait_loop_rule Q P N O ho ha hn hl hf [] s k p = elim (Attempt-cases (attempt s)) [
    | inl (s', x, e) ↦ rw (e, wait_loop) (rw e at (ha s p))
    | inr (s', e) ↦
        let p' : N s' = rw e at (ha s p) in
        rw (e, wait_loop)
          (elim (Bool-cases (timeout == 0)) [ inl z ↦ rw z (hn s' p') | inr z ↦ rw z p' ])
  ]
  wait_loop_rule Q P N O ho ha hn hl hf (r ∷ rs) s k p = elim (Attempt-cases (attempt s)) [
    | inl (s', x, e) ↦ rw (e, wait_loop) (rw e at (ha s p))
    | inr (s', e) ↦
        let p' : N s' = rw e at (ha s p) in
        let o : O (r.others s') = k.0 s' p' in
        rw (e, wait_loop)
          (elim (Bool-cases (timeout == 0)) [
            | inl z ↦ rw z (hn s' p')
            | inr z ↦ rw z (elim (Bool-cases (wait_remaining timeout start r.tick == 0)) [
              | inl t ↦ rw t (hl s' p')
              | inr t ↦ rw t (elim (Waited-cases r.waited) [
                | inl w ↦ rw w (
                    wait_loop_rule Q P N O ho ha hn hl hf rs (r.others s') k.1 (ho (r.others s') o))
                | inr (inl w) ↦ rw w (hf (r.others s') o)
                | inr (inr w) ↦ rw w (hf (r.others s') o)
              ])
            ])
          ])
  ]

  -- The same with one invariant before each attempt.
  pub wait_loop-Ensures {ℓ'} :
      (Q : S → R → Type ℓ') (P N : S → Type ℓ')
      → ((s : S) → P s → Tries Q N (attempt s))
      → ((s : S) → N s → Q (no_wait s).0 (no_wait s).1)
      → ((s : S) → N s → Q (late s).0 (late s).1)
      → ((s : S) → P s → Q (after s).0 (after s).1)
      → (rounds : List (Round S)) (s : S) → Keeps N P rounds
      → P s
      → Ensures Q N (wait_loop attempt no_wait late after timeout start rounds s)
  wait_loop-Ensures Q P N = wait_loop_rule Q P N P (λ s p. p)

  -- An attempt that finishes at once is the whole call.
  pub wait_loop_at_once :
      (rounds : List (Round S)) (s s' : S) (r : R)
      → attempt s ≡ finished s' r
      → wait_loop attempt no_wait late after timeout start rounds s ≡ returned s' r
  unfolding wait_loop
  wait_loop_at_once [] s s' r e = rw (e, wait_loop) refl
  wait_loop_at_once (x ∷ xs) s s' r e = rw (e, wait_loop) refl

  -- The call returns if the timeout is zero, or if some round ends the wait.
  pub wait_loop_returns :
      (rounds : List (Round S)) (s : S)
      → (timeout ≡ 0) ⊎ Ends timeout start rounds
      → Returned (wait_loop attempt no_wait late after timeout start rounds s)
  unfolding wait_loop
  wait_loop_returns [] s h = elim (Attempt-cases (attempt s)) [
    | inl (s', x, e) ↦ rw (e, wait_loop) tt
    | inr (s', e) ↦ rw (e, wait_loop) (elim h [ inl z ↦ rw z tt | inr z ↦ absurd z ])
  ]
  wait_loop_returns (r ∷ rs) s h = elim (Attempt-cases (attempt s)) [
    | inl (s', x, e) ↦ rw (e, wait_loop) tt
    | inr (s', e) ↦
        rw (e, wait_loop)
          (elim (Bool-cases (timeout == 0)) [
            | inl z ↦ rw z tt
            | inr z ↦ rw z (elim (Bool-cases (wait_remaining timeout start r.tick == 0)) [
              | inl t ↦ rw t tt
              | inr t ↦ rw t (elim (Waited-cases r.waited) [
                | inl w ↦ rw w (wait_loop_returns rs (r.others s') (later z t w))
                | inr (inl w) ↦ rw w tt
                | inr (inr w) ↦ rw w tt
              ])
            ])
          ])
  ]
    where
      later :
          (timeout == 0) ≡ false
          → (wait_remaining timeout start r.tick == 0) ≡ false
          → r.waited ≡ woken
          → (timeout ≡ 0) ⊎ Ends timeout start rs
      later z t w = elim h [
        | inl e ↦ absurd (ground arith)
        | inr (inl e) ↦ absurd (ground arith)
        | inr (inr (inl e)) ↦ absurd (e w)
        | inr (inr (inr e)) ↦ inr e
      ]

-- ===== src/Rtos/Notify/Waiting.antt =====
-- The waiting calls for notifications among other contexts: what they take, and that they return.
use esp32s31_linux_function.Base.{
  ℕ, ◌-◌, ◌≡◌, ◌≢◌, refl, sym, ap, ◌∙◌, subst, false, Bool, true, not, Option, List, [], ◌∷◌, arith,
  ◌==◌, if◌then◌else◌, bit_and, inl, inr, ◌⊎◌, Bool-cases,
}
use esp32s31_linux_function.Base.Bits.{not32}
use esp32s31_linux_function.Rtos.Task.{Tcb, not_waiting, waiting, received}
use esp32s31_linux_function.Rtos.Wait.{Round}
use esp32s31_linux_function.Rtos.Wait.Laws.{
  Ensures, Tries, Keeps, Returned, Ends, wait_loop-Ensures, wait_loop_rule, wait_loop_returns,
}
use esp32s31_linux_function.Rtos.Notify.{
  World, is_received, with_state, with_value, write_out, try_take_notified, give_up, notify_take,
  try_receive_notified, fail, notify_wait,
}

-- Each step of the others is in a relation.
abbrev pub Obeys : (World → World → Type 0) → List (Round World) → Type 0
Obeys R [] = Unit
Obeys R (r ∷ rs) = ((w : World) → R w (r.others w)) × Obeys R rs

Obeys-Keeps :
    (R : World → World → Type 0) (w : World) (rounds : List (Round World))
    → ((a b c : World) → R a b → R b c → R a c)
    → Obeys R rounds
    → Keeps (R w) (R w) rounds
Obeys-Keeps R w [] trans o = tt
Obeys-Keeps R w (r ∷ rs) trans o =
    ((λ s h. trans w s (r.others s) h (o.0 s)), Obeys-Keeps R w rs trans o.1)

-- A take that returns `r` saw the value `r` in a state that the others had led to: from a positive
-- value it takes one, or all; at zero it takes nothing.
abbrev pub TakeResult : (World → World → Type 0) → World → Bool → World → ℕ → Type 0
TakeResult R w clear w' r =
    (s : World) × R w s
    × (w'
        ≡ with_state not_waiting (if r == 0 then s else with_value (if clear then 0 else r - 1) s))
    × ((r ≢ 0) → s.task.notify_value ≡ r)

-- What a pass that finds no notification leaves: the bits of `clear_entry` are clear, and the task is
-- marked as waiting.
abbrev pub entered : ℕ → World → World
entered clear_entry s = record s {
  task = record (s.task) {
    notify_value = bit_and s.task.notify_value (not32 clear_entry);
    notify_state = waiting;
  };
}

-- The states that a wait goes through from `w`: the others act, and the task enters where no
-- notification is pending.
pub data Led (R : World → World → Type 0) (clear_entry : ℕ) (w : World) : World → Type 0 where
  begins : Led R clear_entry w w
  others_act : {a b : World} → Led R clear_entry w a → R a b → Led R clear_entry w b
  enters :
      {a : World}
      → Led R clear_entry w a
      → a.task.notify_state ≢ received
      → Led R clear_entry w (entered clear_entry a)

-- `s` is what a pass left that found no notification.
abbrev pub HasEntered : (World → World → Type 0) → ℕ → World → World → Type 0
HasEntered R clear_entry w s =
    (a : World) × Led R clear_entry w a
    × (a.task.notify_state ≢ received)
    × (s ≡ entered clear_entry a)

-- A step of the others after such a pass.
abbrev pub IsAfter : (World → World → Type 0) → ℕ → World → World → Type 0
IsAfter R clear_entry w s = (b : World) × HasEntered R clear_entry w b × R b s

-- A wait that succeeds saw a notification: it hands over that value and clears just the bits of
-- `clear_exit`. One that fails has entered, and after a step of the others it hands over the value and
-- changes the state alone.
abbrev pub WaitResult :
    (World → World → Type 0) → ℕ → World → ℕ → Option ℕ → World → Bool × Option ℕ → Type 0
WaitResult R clear_entry w clear_exit out w' (true, written) =
    (s : World) × Led R clear_entry w s
    × (s.task.notify_state ≡ received)
    × (written ≡ write_out out s.task.notify_value)
    × (w' ≡ with_state not_waiting (with_value (bit_and s.task.notify_value (not32 clear_exit)) s))
WaitResult R clear_entry w clear_exit out w' (false, written) =
    (s : World) × IsAfter R clear_entry w s
    × (written ≡ write_out out s.task.notify_value)
    × (w' ≡ with_state not_waiting s)

is_received-received : (t : Tcb) → is_received t.notify_state ≡ true → t.notify_state ≡ received
unfolding is_received
is_received-received t h = go t.notify_state h
  where
    go : (s : _) → is_received s ≡ true → s ≡ received
    go received e = refl
    go waiting e = absurd (ground arith)
    go not_waiting e = absurd (ground arith)

not_received : (t : Tcb) → is_received t.notify_state ≡ false → t.notify_state ≢ received
unfolding is_received
not_received t h e = let c : true ≡ false = ap is_received (sym e) ∙ h in absurd (ground arith)

module _ (R : World → World → Type 0) (w : World) where
  try_take_notified-Tries :
      (clear : Bool)
      → ((s : World) → R w s → R w (with_state waiting s))
      → (s : World) → R w s
      → Tries (TakeResult R w clear) (R w) (try_take_notified clear s)
  unfolding try_take_notified
  try_take_notified-Tries clear marks s h = elim (Bool-cases (s.task.notify_value == 0)) [
    | inl e ↦ simp e (marks s h)
    | inr e ↦ simp e (s, h, refl, λ n. refl)
  ]

  try_receive_notified-Tries :
      (clear_entry clear_exit : ℕ) (out : Option ℕ) (s : World)
      → Led R clear_entry w s
      → Tries
          (WaitResult R clear_entry w clear_exit out)
          (HasEntered R clear_entry w)
          (try_receive_notified clear_entry clear_exit out s)
  unfolding try_receive_notified
  try_receive_notified-Tries clear_entry clear_exit out s h =
      elim (Bool-cases (is_received s.task.notify_state)) [
        | inl e ↦ simp e (s, h, is_received-received s.task e, refl, refl)
        | inr e ↦ simp e (s, h, not_received s.task e, refl)
      ]

  after-Led : (clear_entry : ℕ) (s : World) → IsAfter R clear_entry w s → Led R clear_entry w s
  after-Led clear_entry s (b, (a, led, n, e), step) =
      others_act (subst (Led R clear_entry w) (sym e) (enters led n)) step

  Obeys-IsAfter :
      (clear_entry : ℕ) (rounds : List (Round World))
      → Obeys R rounds
      → Keeps (HasEntered R clear_entry w) (IsAfter R clear_entry w) rounds
  Obeys-IsAfter clear_entry [] o = tt
  Obeys-IsAfter clear_entry (r ∷ rs) o = ((λ s h. (s, h, o.0 s)), Obeys-IsAfter clear_entry rs o.1)

give_up-TakeResult :
    (R : World → World → Type 0) (w : World) (clear : Bool) (s : World)
    → R w s
    → TakeResult R w clear (give_up s).0 (give_up s).1
give_up-TakeResult R w clear s h = (s, h, refl, λ n. absurd (n refl))

-- `ulTaskGenericNotifyTake` at index 0 with any timeout, while the others act within a reflexive and
-- transitive relation that also admits marking the task as waiting: if it returns a positive number,
-- that is the value in a state which the others had led to, and it takes one from it, or all of it;
-- if it returns 0 it takes nothing.
pub notify_take_lem :
    (R : World → World → Type 0) (clear : Bool) (timeout start : ℕ) (between : World → World)
    (rounds : List (Round World)) (w : World)
    → ((a : World) → R a a)
    → ((a b c : World) → R a b → R b c → R a c)
    → ((s : World) → R s (with_state waiting s))
    → ((s : World) → R s (between s))
    → Obeys R rounds
    → Ensures (TakeResult R w clear) (R w) (notify_take 0 clear timeout start between rounds w)
unfolding notify_take
notify_take_lem R clear timeout start between rounds w idle trans marks acts obeys =
    wait_loop-Ensures (try_take_notified clear) (λ s. give_up (between s))
      (λ s. give_up (between s)) give_up timeout start (TakeResult R w clear) (R w) (R w)
      (try_take_notified-Tries R w clear (λ s h. trans w s (with_state waiting s) h (marks s)))
      given_up given_up (give_up-TakeResult R w clear) rounds w (Obeys-Keeps R w rounds trans obeys)
      (idle w)
  where
    given_up :
        (s : World) → R w s → TakeResult R w clear (give_up (between s)).0 (give_up (between s)).1
    given_up s h = give_up-TakeResult R w clear (between s) (trans w s (between s) h (acts s))

-- `xTaskGenericNotifyWait` at index 0 with any timeout, while each step of the others is in a relation:
-- the call goes only through states that these steps lead to and those in which, where no notification
-- is pending, the bits of `clear_entry` are cleared and the task is marked as waiting. If it succeeds, a
-- notification was pending in one of these states: the call hands over its value and clears just the
-- bits of `clear_exit`. If it fails, it has found no notification and cleared the bits of `clear_entry`;
-- after a step of the others it hands over the value that there is then and leaves it.
pub notify_wait_lem :
    (R : World → World → Type 0) (clear_entry clear_exit : ℕ) (out : Option ℕ) (timeout start : ℕ)
    (between : World → World) (rounds : List (Round World)) (w : World)
    → ((s : World) → R s (between s))
    → Obeys R rounds
    → Ensures
        (WaitResult R clear_entry w clear_exit out)
        (HasEntered R clear_entry w)
        (notify_wait 0 clear_entry clear_exit out timeout start between rounds w)
unfolding notify_wait
notify_wait_lem R clear_entry clear_exit out timeout start between rounds w acts obeys =
    wait_loop_rule (try_receive_notified clear_entry clear_exit out) (λ s. fail out (between s))
      (λ s. fail out (between s)) (fail out) timeout start
      (WaitResult R clear_entry w clear_exit out) (Led R clear_entry w) (HasEntered R clear_entry w)
      (IsAfter R clear_entry w) (after-Led R w clear_entry)
      (try_receive_notified-Tries R w clear_entry clear_exit out)
      (λ s h. (between s, (s, h, acts s), refl, refl))
      (λ s h. (between s, (s, h, acts s), refl, refl)) (λ s h. (s, h, refl, refl)) rounds w
      (Obeys-IsAfter R w clear_entry rounds obeys) begins

-- Both calls return if their timeout is zero, or if time runs out or the bridge's wait fails in some
-- round.
pub notify_returns :
    (index clear_entry clear_exit : ℕ) (clear : Bool) (out : Option ℕ) (timeout start : ℕ)
    (between : World → World) (rounds : List (Round World)) (w : World)
    → (timeout ≡ 0) ⊎ Ends timeout start rounds
    → Returned (notify_take index clear timeout start between rounds w)
      × Returned (notify_wait index clear_entry clear_exit out timeout start between rounds w)
unfolding notify_take notify_wait
notify_returns index clear_entry clear_exit clear out timeout start between rounds w h =
    elim (Bool-cases (not (index == 0))) [
      | inl e ↦ rw e (tt, tt)
      | inr e ↦ rw e (
        wait_loop_returns (try_take_notified clear) (λ s. give_up (between s))
            (λ s. give_up (between s)) give_up timeout start rounds w h,
        wait_loop_returns (try_receive_notified clear_entry clear_exit out)
            (λ s. fail out (between s)) (λ s. fail out (between s)) (fail out) timeout start rounds
            w h,
      )
    ]

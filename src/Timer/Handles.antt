-- ===== src/Timer/Handles.antt =====
-- The calls on one timer, and that they leave the others alone.
use esp32s31_linux_function.Base.{
  ℕ, ◌≡◌, ◌≢◌, refl, sym, subst, ap, ◌∙◌, true, false, some, List, [], ◌∷◌, arith, ◌==◌,
  if◌then◌else◌, inl, inr, Bool-cases, some-injective, ==-self, ◌||◌,
}
use esp32s31_linux_function.Rtos.Ledger.{release-obtain}
use esp32s31_linux_function.Timer.{
  Timer, World, EspErr, with_timer, ok, invalid_state, create, find, unlink, put, delete, arm,
  timer_start, disarm, stop, is_active,
}

find-handle : (h : ℕ) (ts : List Timer) (t : Timer) → find h ts ≡ some t → t.handle ≡ h
unfolding find
find-handle h [] t e = absurd (ground arith)
find-handle h (u ∷ ts) t e = elim (Bool-cases (u.handle == h)) [
  | inl d ↦ let same : u ≡ t = some-injective (rw d at e) in rw (sym same) (ground arith)
  | inr d ↦ find-handle h ts t (rw d at e)
]

-- A timer is found as it was put.
find-put :
    (t' : Timer) (ts : List Timer) (t : Timer)
    → find t'.handle ts ≡ some t
    → find t'.handle (put t' ts) ≡ some t'
unfolding find put
find-put t' [] t e = absurd (ground arith)
find-put t' (u ∷ ts) t e = elim (Bool-cases (u.handle == t'.handle)) [
  | inl d ↦ rw d (rw (==-self t'.handle) refl)
  | inr d ↦ rw d (rw d (find-put t' ts t (rw d at e)))
]

find-put_other :
    (k : ℕ) (t' : Timer) (ts : List Timer) → k ≢ t'.handle → find k (put t' ts) ≡ find k ts
unfolding find put
find-put_other k t' [] ne = refl
find-put_other k t' (u ∷ ts) ne = elim (Bool-cases (u.handle == t'.handle)) [
  | inl d ↦
      let here : (t'.handle == k) ≡ false = ground arith in
      let there : (u.handle == k) ≡ false = ground arith in rw d (rw (here, there) refl)
  | inr d ↦ rw d (elim (Bool-cases (u.handle == k)) [
    | inl c ↦ rw c refl
    | inr c ↦ rw c (find-put_other k t' ts ne)
  ])
]

-- A call on a timer that is on the list.
with_timer-found :
    (h : ℕ) (w : World) (f : Timer → Timer × EspErr) (t : Timer)
    → find h w.timers ≡ some t
    → (f t).0.handle ≡ h
    → let (s, e) = with_timer h w f in
      (e ≡ (f t).1)
      × (find h s.timers ≡ some (f t).0)
      × ((k : ℕ) → k ≢ h → find k s.timers ≡ find k w.timers)
with_timer-found h w f t found same =
    rw (with_timer, found)
      (
        refl,
        subst (λ a. find a (put (f t).0 w.timers) ≡ some (f t).0) same
            (find-put (f t).0 w.timers t (subst (λ a. find a w.timers ≡ some t) (sym same) found)),
        (λ k ne. find-put_other k (f t).0 w.timers (λ e. ne (e ∙ same))),
      )

arm_lem :
    (alarm period : ℕ) (t : Timer)
    → alarm ≢ 0
    → ((arm alarm period t).0.handle ≡ t.handle)
      × ((arm alarm period t).0.active ≡ true)
      × ((arm alarm period t).1 ≡ (if t.active then invalid_state else ok))
      × ((arm alarm period t).0 ≡ (
          if t.active then t else record t { alarm_us = alarm; period_us = period; active = true }))
unfolding arm
arm_lem alarm period t h =
    let e : (alarm == 0) ≡ false = ground arith in
    elim (Bool-cases t.active) [
      | inl a ↦ simp (e, a) (refl, refl, refl, refl)
      | inr a ↦ simp (e, a) (refl, refl, refl, refl)
    ]

disarm_lem :
    (t : Timer)
    → t.active ≡ true
    → ((disarm t).0.handle ≡ t.handle) × ((disarm t).0.active ≡ false) × ((disarm t).1 ≡ ok)
unfolding disarm
disarm_lem t a = simp a (refl, refl, refl)

is_active-found :
    (h : ℕ) (w : World) (t : Timer) → find h w.timers ≡ some t → is_active h w ≡ t.active
unfolding is_active
is_active-found h w t e = rw (is_active, e) refl

-- A new timer is inactive, deleting it leaves the list and the heap as before, and the other timers are
-- found as before. Creating with a NULL pointer, without a callback or without memory changes nothing.
create-delete_timer :
    (args out callback arg block : ℕ) (w : World)
    → let (w', e, h) = create args out callback arg block w in
      (e ≡ ok
        → (is_active h w' ≡ false)
          × (delete h w' ≡ (w, ok))
          × ((k : ℕ) → k ≢ h → find k w'.timers ≡ find k w.timers))
      × (e ≢ ok → w' ≡ w)
      × ((e ≡ ok → (callback ≢ 0) × (block ≢ 0))
          × (args ≢ 0 → out ≢ 0 → callback ≢ 0 → block ≢ 0 → e ≡ ok))
unfolding create delete is_active find unlink
create-delete_timer args out callback arg block w =
    elim (Bool-cases (args == 0 || (callback == 0 || out == 0))) [
      | inl e ↦ rw e (
        (λ n. absurd (ground arith)),
        (λ n. refl),
        ((λ n. absurd (ground arith)), λ a o c b. absurd (ground arith)),
      )
      | inr e ↦ rw e (elim (Bool-cases (block == 0)) [
        | inl d ↦ rw d (
          (λ n. absurd (ground arith)),
          (λ n. refl),
          ((λ n. absurd (ground arith)), λ a o c b. absurd (ground arith)),
        )
        | inr d ↦ rw d (
          (λ n. (
            rw (is_active, ==-self block) refl,
            rw (delete, ==-self block) (rw (release-obtain block w.live) (rw (==-self block) refl)),
            (λ k ne. let other : (block == k) ≡ false = ground arith in rw other refl),
          )),
          (λ n. absurd (n refl)),
          ((λ n. (ground arith, ground arith)), λ a o c b. refl),
        )
      ])
    ]

-- Starting a timer that is on the list, with an alarm that is not 0: an inactive one becomes active with
-- that alarm and period, and a stop then makes it inactive again; an active one is refused. Either way
-- no other timer changes.
start-stop :
    (h alarm period : ℕ) (w : World) (t : Timer)
    → find h w.timers ≡ some t
    → alarm ≢ 0
    → let (s, e) = timer_start h alarm period w in
      let (u, f) = stop h s in
      (e ≡ (if t.active then invalid_state else ok))
      × (find h s.timers
          ≡ some (
              if t.active
              then t
              else record t { alarm_us = alarm; period_us = period; active = true }))
      × (f ≡ ok)
      × (is_active h s ≡ true)
      × (is_active h u ≡ false)
      × ((k : ℕ)
          → k ≢ h
          → (find k s.timers ≡ find k w.timers) × (find k u.timers ≡ find k w.timers))
unfolding timer_start stop
start-stop h alarm period w t found some_alarm =
    let on = find-handle h w.timers t found in
    let (kept, armed, result, what) = arm_lem alarm period t some_alarm in
    let (e1, f1, o1) = with_timer-found h w (arm alarm period) t found (kept ∙ on) in
    let s = (with_timer h w (arm alarm period)).0 in
    let t1 = (arm alarm period t).0 in
    let (kept1, stopped, accepted) = disarm_lem t1 armed in
    let (e2, f2, o2) = with_timer-found h s disarm t1 f1 (kept1 ∙ (kept ∙ on)) in
    let u = (with_timer h s disarm).0 in
    (
      e1 ∙ result,
      f1 ∙ ap some what,
      e2 ∙ accepted,
      is_active-found h s t1 f1 ∙ armed,
      is_active-found h u (disarm t1).0 f2 ∙ stopped,
      (λ k ne. (o1 k ne, o2 k ne ∙ o1 k ne)),
    )

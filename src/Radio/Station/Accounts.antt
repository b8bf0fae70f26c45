-- ===== src/Radio/Station/Accounts.antt =====
-- The parts of the requests' tasks, by what they settle of the log and leave of the start.
use esp32s31_linux_function.Base.{
  ℕ, zero, suc, ◌+◌, ◌≡◌, refl, true, false, if◌then◌else◌, List, [], ◌∷◌, arith, inl, inr,
  Bool-cases,
}
use esp32s31_linux_function.Base.Int.{ℤ, pos, negsuc, is_zero}
use esp32s31_linux_function.Radio.Driver.{Call, LogEntry, called, Log, Driver, enter_all}
use esp32s31_linux_function.Radio.Station.{
  preparations, Station, Pending, no_operation, scan_operation, connect_operation, is_pending, run,
  report, failure, begin, prepare_driver, first_call,
}
use esp32s31_linux_function.Radio.Station.Reach.{opened, settled, sum, waiting}

-- From `w` to `w'` one operation `op'` is settled, nothing is requested and the start is as before.
abbrev pub Settles : Pending → Pending → Station → Station → Type 0
Settles op' op w w' =
    (sum (opened op) w'.log ≡ sum (opened op) w.log)
    × (sum (settled op) w'.log ≡ waiting op op' + sum (settled op) w.log)
    × (w'.pending ≡ w.pending)
    × (w'.start_complete ≡ w.start_complete)
    × (w'.start_requested ≡ w.start_requested)

-- How the reports and the calls of the operations count.
weights :
    (op' op : Pending) (rc : ℤ)
    → is_pending op' ≡ true
    → (opened op (failure op' rc) ≡ 0)
      × (settled op (failure op' rc) ≡ waiting op op')
      × (opened op (called (first_call op') rc) ≡ 0)
      × (settled op (called (first_call op') rc) ≡ (if is_zero rc then waiting op op' else 0))
weights no_operation op rc p = absurd (ground arith)
weights scan_operation no_operation rc p = (refl, refl, refl, ground arith)
weights scan_operation scan_operation rc p = (refl, refl, refl, refl)
weights scan_operation connect_operation rc p = (refl, refl, refl, ground arith)
weights connect_operation no_operation rc p = (refl, refl, refl, ground arith)
weights connect_operation scan_operation rc p = (refl, refl, refl, ground arith)
weights connect_operation connect_operation rc p = (refl, refl, refl, refl)

pub report-Settles :
    (op' op : Pending) (rc : ℤ) (w : Station)
    → is_pending op' ≡ true
    → is_zero rc ≡ false
    → Settles op' op w (report op' rc w)
report-Settles op' op rc w p e =
    let (a, b, _, _) = weights op' op rc p in rw e (omega arith, omega arith, refl, refl, refl)

pub run-Settles :
    (d : Driver) (op' op : Pending) (w : Station)
    → is_pending op' ≡ true
    → Settles op' op w (run d op' w)
unfolding run
run-Settles d op' op w p =
    let rc = d w.log (first_call op') in
    let (a, b, k, n) = weights op' op rc p in
    elim (Bool-cases (is_zero rc)) [
      | inl e ↦
          let n' : settled op (called (first_call op') rc) ≡ waiting op op' = rw n (rw e refl) in
          rw e (omega arith, omega arith, refl, refl, refl)
      | inr e ↦
          let n' : settled op (called (first_call op') rc) ≡ 0 = rw n (rw e refl) in
          rw e (omega arith, omega arith, refl, refl, refl)
    ]

-- A value of `s31_wifi_start_operation` but 0 has the operation settled by the task.
pub begin-Settles :
    (d : Driver) (op' op : Pending) (w : Station) (rc : ℤ)
    → is_pending op' ≡ true
    → is_zero rc ≡ false
    → Settles op' op w (begin d op' (w, rc))
unfolding begin
begin-Settles d op' op w (pos zero) p e = absurd (ground arith)
begin-Settles d op' op w (pos (suc n)) p e = run-Settles d op' op w p
begin-Settles d op' op w (negsuc n) p e = report-Settles op' op (pos (suc n)) w p refl

-- Calls that count for nothing.
abbrev AreNeutral : (LogEntry → ℕ) → List Call → Type 0
AreNeutral f [] = Unit
AreNeutral f (c ∷ cs) = ((rc : ℤ) → f (called c rc) ≡ 0) × AreNeutral f cs

enter_all-sum :
    (f : LogEntry → ℕ) (d : Driver) (cs : List Call) (log : Log)
    → AreNeutral f cs
    → sum f (enter_all d cs log).0 ≡ sum f log
unfolding enter_all
enter_all-sum f d [] log h = refl
enter_all-sum f d (c ∷ cs) log (h, hs) = elim (Bool-cases (is_zero (d log c))) [
  | inl e ↦
      let rest = enter_all-sum f d cs (called c (d log c) ∷ log) hs in
      let n = h (d log c) in rw (e, enter_all) (omega arith)
  | inr e ↦ let n = h (d log c) in rw (e, enter_all) (omega arith)
]

preparations-AreNeutral :
    (op : Pending)
    → AreNeutral (opened op) preparations
      × AreNeutral (settled op) preparations
      × (waiting op no_operation ≡ 0)
preparations-AreNeutral no_operation = (
  (
    (λ rc. refl),
    ((λ rc. refl), ((λ rc. refl), ((λ rc. refl), ((λ rc. refl), ((λ rc. refl), tt))))),
  ),
  (
    (λ rc. refl),
    ((λ rc. refl), ((λ rc. refl), ((λ rc. refl), ((λ rc. refl), ((λ rc. refl), tt))))),
  ),
  refl,
)
preparations-AreNeutral scan_operation = (
  (
    (λ rc. refl),
    ((λ rc. refl), ((λ rc. refl), ((λ rc. refl), ((λ rc. refl), ((λ rc. refl), tt))))),
  ),
  (
    (λ rc. refl),
    ((λ rc. refl), ((λ rc. refl), ((λ rc. refl), ((λ rc. refl), ((λ rc. refl), tt))))),
  ),
  refl,
)
preparations-AreNeutral connect_operation = (
  (
    (λ rc. refl),
    ((λ rc. refl), ((λ rc. refl), ((λ rc. refl), ((λ rc. refl), ((λ rc. refl), tt))))),
  ),
  (
    (λ rc. refl),
    ((λ rc. refl), ((λ rc. refl), ((λ rc. refl), ((λ rc. refl), ((λ rc. refl), tt))))),
  ),
  refl,
)

-- Preparing the driver settles nothing and leaves the start alone.
pub prepare_driver-Settles :
    (d : Driver) (op : Pending) (w : Station) → Settles no_operation op w (prepare_driver d w).0
unfolding prepare_driver
prepare_driver-Settles d op w =
    let (a, b, n) = preparations-AreNeutral op in
    elim (Bool-cases w.prepared) [
      | inl e ↦ rw e (refl, omega arith, refl, refl, refl)
      | inr e ↦
          let o = enter_all-sum (opened op) d preparations w.log a in
          let s = enter_all-sum (settled op) d preparations w.log b in
          rw e (o, omega arith, refl, refl, refl)
    ]

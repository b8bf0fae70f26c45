-- ===== src/Radio/Station/Submit.antt =====
-- What a task that asks for an operation makes of the station, on every path.
use esp32s31_linux_function.Base.{
  subst, ◌≢◌, ◌∷◌, zero, suc, ◌+◌, ◌≡◌, refl, sym, ap, ◌∙◌, Bool, true, false, ◌&&◌, arith, ◌⊎◌,
  inl, inr, Bool-cases,
}
use esp32s31_linux_function.Base.Int.{ℤ, pos, negsuc, neg, is_zero}
use esp32s31_linux_function.Radio.Driver.{start, called, Driver, Log}
use esp32s31_linux_function.Radio.Station.{
  Station, Pending, no_operation, scan_operation, connect_operation, is_pending, begin, call,
  start_operation, submit, after_start, report,
}
use esp32s31_linux_function.Radio.Station.Reach.{
  opened, settled, sum, waiting, may_start, Accounts, IsSettled, IsExpecting,
}
use esp32s31_linux_function.Radio.Station.Accounts.{Settles, report-Settles, begin-Settles}

-- The account of `op` where an operation `op'` has been asked for and not begun yet.
abbrev pub Owes : Pending → Pending → Station → Type 0
Owes op op' w =
    sum (opened op) w.log ≡ sum (settled op) w.log + waiting op w.pending + waiting op op'

-- What steps keep; without STA_START what waits goes on waiting.
abbrev pub Keeps : Bool → Station → Station → Type 0
Keeps b w w' =
    IsSettled w
    → IsSettled w'
      × ((op : Pending) → Accounts op w → Accounts op w')
      × (b ≡ false → is_pending w.pending ≡ true → w'.pending ≡ w.pending)
      × (IsExpecting w → IsExpecting w')

-- The operation has begun, has failed with a report or waits, and what waited before goes on waiting.
abbrev pub Submitted : Pending → Station → Station → Type 0
Submitted op' w w' =
    IsSettled w'
    × ((op : Pending) → Owes op op' w → Accounts op w')
    × (is_pending w.pending ≡ true → w'.pending ≡ w.pending)
    × (IsExpecting w → IsExpecting w')

pub Settles-Submitted :
    (op' : Pending) (w w' : Station)
    → IsSettled w
    → ((op : Pending) → Settles op' op w w')
    → Submitted op' w w'
Settles-Submitted op' w w' s h =
    let (_, _, p, c, r) = h no_operation in
    (
      elim s [ inl a ↦ inl (c ∙ a) | inr a ↦ inr (p ∙ a) ],
      (λ op owes. let (a, b, _, _, _) = h op in let q = ap (waiting op) p in omega arith),
      (λ _. p),
      elim [ inl a ↦ inl (r ∙ a) | inr a ↦ inr (p ∙ a) ],
    )

pub none_pending : (p : Pending) → is_pending p ≡ false → p ≡ no_operation
none_pending no_operation e = refl
none_pending scan_operation e = absurd (ground arith)
none_pending connect_operation e = absurd (ground arith)

start-neutral :
    (op : Pending) (rc : ℤ)
    → (opened op (called start rc) ≡ 0)
      × (settled op (called start rc) ≡ 0)
      × (waiting op no_operation ≡ 0)
start-neutral no_operation rc = (refl, refl, refl)
start-neutral scan_operation rc = (refl, refl, refl)
start-neutral connect_operation rc = (refl, refl, refl)

neg-nonzero : (z : ℤ) → is_zero z ≡ false → is_zero (neg z) ≡ false
neg-nonzero (pos zero) e = e
neg-nonzero (pos (suc n)) e = refl
neg-nonzero (negsuc n) e = refl

pub true≢false : true ≢ false
true≢false e = absurd (ground arith)

not_pending : (w : Station) → w.pending ≡ no_operation → is_pending w.pending ≡ true → ⊥
not_pending w none q = true≢false (sym q ∙ ap is_pending none)

-- A start that has failed, the last thing in the log, is not followed by STA_START.
no_start :
    (b : Bool) (rc : ℤ) (log : Log)
    → is_zero rc ≡ false
    → (b && may_start (called start rc ∷ log)) ≡ false
no_start true rc log e = e
no_start false rc log e = refl

-- The ways through `s31_wifi_start_operation`.
pub start_operation-cases :
    (d : Driver) (during : Station → Station) (op : Pending) (w : Station)
    → ((w.start_complete ≡ true) × (start_operation d during op w ≡ (w, pos 1)))
      ⊎ ((is_pending w.pending ≡ true) × (start_operation d during op w ≡ (w, negsuc 0)))
      ⊎ ((w.start_complete ≡ false)
          × (w.pending ≡ no_operation)
          × (((w.start_requested ≡ true)
                × (start_operation d during op w ≡ (record w { pending = op }, pos 0)))
              ⊎ (start_operation d during op w ≡ (
                  let (v, rc) = call d start (record w { pending = op }) in
                  after_start rc (during v)))))
unfolding start_operation
start_operation-cases d during op w = elim (Bool-cases w.start_complete) [
  | inl c ↦ inl (c, rw c refl)
  | inr c ↦ elim (Bool-cases (is_pending w.pending)) [
    | inl q ↦ inr (inl (q, rw (c, q) refl))
    | inr q ↦ inr (
        inr (
          c,
          none_pending w.pending q,
          elim (Bool-cases w.start_requested) [
            | inl r ↦ inl (r, rw (c, q, r) refl)
            | inr r ↦ inr (rw (c, q, r) refl)
          ],
        ))
  ]
]

submit-cases :
    (d : Driver) (during : Station → Station) (op : Pending) (w : Station) (rc : ℤ)
    → ((is_zero rc ≡ true)
        × (submit d during op (w, rc) ≡ begin d op (start_operation d during op w)))
      ⊎ ((is_zero rc ≡ false) × (submit d during op (w, rc) ≡ report op rc w))
unfolding submit
submit-cases d during op w rc = elim (Bool-cases (is_zero rc)) [
  | inl e ↦ inl (e, rw e refl)
  | inr e ↦ inr (e, rw e refl)
]

module _ (d : Driver) (op' : Pending) (p : is_pending op' ≡ true) where
  -- The driver's start has returned, and `x` is what other contexts have made of the station.
  after_start-Submitted :
      (w x : Station) (rc : ℤ)
      → w.pending ≡ no_operation
      → IsSettled x
      → ((op : Pending) → Owes op op' w → Accounts op x)
      → (is_zero rc ≡ false → x.pending ≡ op')
      → Submitted op' w (begin d op' (after_start rc x))
  unfolding after_start begin
  after_start-Submitted w x rc none s accounts waits = elim (Bool-cases (is_zero rc)) [
    | inl e ↦ rw (e, after_start) (s, accounts, (λ q. absurd (not_pending w none q)), λ _. inl refl)
    | inr e ↦
        let y : Station = record x { pending = no_operation } in
        let (s', accounts', _, expecting) =
          Settles-Submitted op' y (begin d op' (y, neg rc)) (inr refl)
            (λ op. begin-Settles d op' op y (neg rc) p (neg-nonzero rc e)) in
        rw (e, after_start)
          (
            s',
            (λ op owes. accounts' op (owing op owes e)),
            (λ q. absurd (not_pending w none q)),
            λ _. expecting (inr refl),
          )
  ]
    where
      owing :
          (op : Pending)
          → Owes op op' w
          → is_zero rc ≡ false
          → Owes op op' (record x { pending = no_operation })
      owing op owes e =
          let a = accounts op owes in
          let b = ap (waiting op) (waits e) in let (_, _, n) = start-neutral op rc in omega arith

  -- The operation waits for a start that has been asked for.
  waiting-Submitted :
      (w : Station)
      → w.start_complete ≡ false
      → w.pending ≡ no_operation
      → w.start_requested ≡ true
      → Submitted op' w (begin d op' (record w { pending = op' }, pos 0))
  unfolding begin
  waiting-Submitted w c none r = (
    inl c,
    (λ op owes.
        let (_, _, n) = start-neutral op (pos 0) in let q = ap (waiting op) none in omega arith),
    (λ q. absurd (not_pending w none q)),
    (λ _. inl r),
  )

  started_operation-Submitted :
      (b : Bool) (during : Station → Station) (w : Station)
      → IsSettled w
      → ((v : Station) → Keeps (b && may_start v.log) v (during v))
      → Submitted op' w (begin d op' (start_operation d during op' w))
  started_operation-Submitted b during w s keeps = elim (start_operation-cases d during op' w) [
    | inl (c, e) ↦ subst to (sym e) (
        Settles-Submitted op' w (begin d op' (w, pos 1)) s
          (λ op. begin-Settles d op' op w (pos 1) p refl))
    | inr (inl (q, e)) ↦ subst to (sym e) (
        Settles-Submitted op' w (begin d op' (w, negsuc 0)) s
          (λ op. begin-Settles d op' op w (negsuc 0) p refl))
    | inr (inr (c, none, inl (r, e))) ↦ subst to (sym e) (waiting-Submitted w c none r)
    | inr (inr (c, none, inr e)) ↦
        let rc = d w.log start in
        let v : Station = record w { pending = op'; log = called start rc ∷ w.log } in
        let (s', accounts, waits, _) = keeps v (inl c) in
        subst to (sym e) (
          after_start-Submitted w (during v) rc none s'
            (λ op owes. accounts op (
              let (_, _, n) = start-neutral op rc in
              let (a, k, _) = start-neutral op rc in let q = ap (waiting op) none in omega arith))
            (λ z. waits (no_start b rc w.log z) p))
  ]
    where
      to : Station × ℤ → Type 0
      to r = Submitted op' w (begin d op' r)

  pub submit-Submitted :
      (b : Bool) (during : Station → Station) (w : Station) (rc : ℤ)
      → IsSettled w
      → ((v : Station) → Keeps (b && may_start v.log) v (during v))
      → Submitted op' w (submit d during op' (w, rc))
  submit-Submitted b during w rc s keeps = elim (submit-cases d during op' w rc) [
    | inl (z, e) ↦ subst (Submitted op' w) (sym e) (started_operation-Submitted b during w s keeps)
    | inr (z, e) ↦
        subst (Submitted op' w) (sym e)
          (Settles-Submitted op' w (report op' rc w) s (λ op. report-Settles op' op rc w p z))
  ]

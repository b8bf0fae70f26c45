-- ===== src/Radio/Station/Requests.antt =====
-- The tasks and the events against the account of the requests, and over any steps of a station.
use esp32s31_linux_function.Base.{
  ◌+◌, ◌≡◌, refl, sym, ap, ◌∙◌, subst, Bool, true, false, ◌&&◌, arith, ◌⊎◌, inl, inr, Bool-cases,
}
use esp32s31_linux_function.Base.Int.{ℤ, is_zero}
use esp32s31_linux_function.Radio.Driver.{
  called, Driver, asked_scan, asked_connect, set_config, reg_netstack_buf_cb,
}
use esp32s31_linux_function.Radio.Capture.Keys.{fresh_keys}
use esp32s31_linux_function.Radio.Config.{ConnectParams, sta_config}
use esp32s31_linux_function.Radio.Station.{
  Station, Pending, no_operation, scan_operation, connect_operation, is_pending, call, note, submit,
  report, run, prepare_driver, sta_start, scan_task, connect_task,
}
use esp32s31_linux_function.Radio.Station.Reach.{
  opened, settled, sum, waiting, may_start, Accounts, IsSettled, IsExpecting,
}
use esp32s31_linux_function.Radio.Station.Accounts.{
  Settles, report-Settles, run-Settles, prepare_driver-Settles,
}
use esp32s31_linux_function.Radio.Station.Submit.{
  true≢false, none_pending, Keeps, Submitted, Settles-Submitted, submit-Submitted,
}

-- As much is settled as is requested, and the start is as before.
abbrev pub Balances : Pending → Station → Station → Type 0
Balances op w w' =
    (sum (opened op) w'.log + sum (settled op) w.log
      ≡ sum (opened op) w.log + sum (settled op) w'.log)
    × (w'.pending ≡ w.pending)
    × (w'.start_complete ≡ w.start_complete)
    × (w'.start_requested ≡ w.start_requested)

pub Balances-Keeps :
    (b : Bool) (w w' : Station) → ((op : Pending) → Balances op w w') → Keeps b w w'
Balances-Keeps b w w' h s =
    let (_, p, c, r) = h no_operation in
    (
      elim s [ inl a ↦ inl (c ∙ a) | inr a ↦ inr (p ∙ a) ],
      (λ op e. let (a, _, _, _) = h op in let q = ap (waiting op) p in omega arith),
      (λ _ _. p),
      elim [ inl a ↦ inl (r ∙ a) | inr a ↦ inr (p ∙ a) ],
    )

-- An operation has been asked for, and the driver prepared.
abbrev Asks : Pending → Pending → Station → Station → Type 0
Asks op' op w w' =
    (sum (opened op) w'.log ≡ waiting op op' + sum (opened op) w.log)
    × (sum (settled op) w'.log ≡ sum (settled op) w.log)
    × (w'.pending ≡ w.pending)
    × (w'.start_complete ≡ w.start_complete)
    × (w'.start_requested ≡ w.start_requested)

Asks-Keeps :
    (b : Bool) (op' : Pending) (w v u : Station)
    → ((op : Pending) → Asks op' op w v)
    → (IsSettled v → Submitted op' v u)
    → Keeps b w u
Asks-Keeps b op' w v u h go s =
    let (_, _, p, c, r) = h no_operation in
    let (s', accounts, waits, expects) =
      go (elim s [ inl a ↦ inl (c ∙ a) | inr a ↦ inr (p ∙ a) ]) in
    (
      s',
      (λ op e.
          accounts op (let (a, k, _, _, _) = h op in let q = ap (waiting op) p in omega arith)),
      (λ _ q. waits (ap is_pending p ∙ q) ∙ p),
      (λ x. expects (elim x [ inl a ↦ inl (r ∙ a) | inr a ↦ inr (p ∙ a) ])),
    )

-- How the entries of the tasks count.
asked-weights :
    (op : Pending)
    → (waiting op no_operation ≡ 0)
      × (opened op asked_scan ≡ waiting op scan_operation)
      × (settled op asked_scan ≡ 0)
      × (opened op asked_connect ≡ waiting op connect_operation)
      × (settled op asked_connect ≡ 0)
asked-weights no_operation = (refl, refl, refl, refl, refl)
asked-weights scan_operation = (refl, refl, refl, refl, refl)
asked-weights connect_operation = (refl, refl, refl, refl, refl)

config-weights :
    (op : Pending) (params : ConnectParams) (rc : ℤ)
    → (opened op (called (set_config (sta_config params)) rc) ≡ 0)
      × (settled op (called (set_config (sta_config params)) rc) ≡ 0)
config-weights no_operation params rc = (refl, refl)
config-weights scan_operation params rc = (refl, refl)
config-weights connect_operation params rc = (refl, refl)

connect_task-cases :
    (d : Driver) (during : Station → Station) (params : ConnectParams) (w : Station)
    → let (v, rc) = prepare_driver d (note asked_connect w) in
      (connect_task d during params w
        ≡ submit d during connect_operation (call d (set_config (sta_config params)) v))
      ⊎ ((is_zero rc ≡ false) × (connect_task d during params w ≡ report connect_operation rc v))
unfolding connect_task
connect_task-cases d during params w =
    elim (Bool-cases (is_zero (prepare_driver d (note asked_connect w)).1)) [
      | inl e ↦ inl (rw e refl)
      | inr e ↦ inr (e, rw e refl)
    ]

module _ (d : Driver) (b : Bool) (during : Station → Station)
    (keeps : (v : Station) → Keeps (b && may_start v.log) v (during v)) where
  pub scan_task-Keeps : (w : Station) → Keeps b w (scan_task d during w)
  unfolding scan_task
  scan_task-Keeps w =
      let (v, rc) = prepare_driver d (note asked_scan w) in
      Asks-Keeps b scan_operation w v (submit d during scan_operation (v, rc)) asks
        (λ s. submit-Submitted d scan_operation refl b during v rc s keeps)
    where
      asks : (op : Pending) → Asks scan_operation op w (prepare_driver d (note asked_scan w)).0
      asks op =
          let (a, k, p, c, r) = prepare_driver-Settles d op (note asked_scan w) in
          let (n, o, z, _, _) = asked-weights op in (omega arith, omega arith, p, c, r)

  pub connect_task-Keeps :
      (params : ConnectParams) (w : Station) → Keeps b w (connect_task d during params w)
  connect_task-Keeps params w = elim (connect_task-cases d during params w) [
    | inl e ↦ subst (Keeps b w) (sym e) (
        Asks-Keeps b connect_operation w v' (submit d during connect_operation (v', rc')) configured
          (λ s. submit-Submitted d connect_operation refl b during v' rc' s keeps))
    | inr (z, e) ↦ subst (Keeps b w) (sym e) (
        Asks-Keeps b connect_operation w v (report connect_operation rc v) asks (λ s.
          Settles-Submitted connect_operation v (report connect_operation rc v) s
            (λ op. report-Settles connect_operation op rc v refl z)))
  ]
    where
      v : Station
      v = (prepare_driver d (note asked_connect w)).0

      rc : ℤ
      rc = (prepare_driver d (note asked_connect w)).1

      v' : Station
      v' = (call d (set_config (sta_config params)) v).0

      rc' : ℤ
      rc' = (call d (set_config (sta_config params)) v).1

      asks : (op : Pending) → Asks connect_operation op w v
      asks op =
          let (a, k, p, c, r) = prepare_driver-Settles d op (note asked_connect w) in
          let (n, _, _, o, z) = asked-weights op in (omega arith, omega arith, p, c, r)

      configured : (op : Pending) → Asks connect_operation op w v'
      configured op =
          let (a, k, p, c, r) = asks op in
          let (o, z) = config-weights op params rc' in (omega arith, omega arith, p, c, r)

-- The ways through STA_START.
sta_start-cases :
    (d : Driver) (w : Station)
    → let (v, rc) =
        call d reg_netstack_buf_cb
          (record w { pending = no_operation; start_complete = true; keys = fresh_keys w.keys }) in
      ((is_pending w.pending ≡ false) × (sta_start d w ≡ v))
      ⊎ ((is_pending w.pending ≡ true) × (sta_start d w ≡ run d w.pending v))
      ⊎ ((is_pending w.pending ≡ true)
          × (is_zero rc ≡ false)
          × (sta_start d w ≡ report w.pending rc v))
unfolding sta_start
sta_start-cases d w = elim (Bool-cases (is_pending w.pending)) [
  | inr p ↦ inl (p, rw p refl)
  | inl p ↦ elim (Bool-cases (is_zero (d w.log reg_netstack_buf_cb))) [
    | inl e ↦ inr (inl (p, rw (p, e) refl))
    | inr e ↦ inr (inr (p, e, rw (p, e) refl))
  ]
]

callback-weights :
    (op : Pending) (rc : ℤ)
    → (opened op (called reg_netstack_buf_cb rc) ≡ 0)
      × (settled op (called reg_netstack_buf_cb rc) ≡ 0)
      × (waiting op no_operation ≡ 0)
callback-weights no_operation rc = (refl, refl, refl)
callback-weights scan_operation rc = (refl, refl, refl)
callback-weights connect_operation rc = (refl, refl, refl)

pub sta_start-Keeps : (d : Driver) (w : Station) → Keeps true w (sta_start d w)
sta_start-Keeps d w s = elim (sta_start-cases d w) [
  | inl (p, e) ↦ subst To (sym e) (
    inr refl,
    (λ op a.
        let (o, k, n) = callback-weights op rc in
        let q = ap (waiting op) (none_pending w.pending p) in omega arith),
    (λ q _. absurd (true≢false q)),
    λ _. inr refl,
  )
  | inr (inl (p, e)) ↦
      subst To (sym e) (begun (run d w.pending v) (λ op. run-Settles d w.pending op v p))
  | inr (inr (p, z, e)) ↦
      subst To (sym e) (begun (report w.pending rc v) (λ op. report-Settles w.pending op rc v p z))
]
  where
    rc : ℤ
    rc = d w.log reg_netstack_buf_cb

    v : Station
    v =
        (call d reg_netstack_buf_cb
          (record w { pending = no_operation; start_complete = true; keys = fresh_keys w.keys })).0

    To : Station → Type 0
    To u =
        IsSettled u
        × ((op : Pending) → Accounts op w → Accounts op u)
        × (true ≡ false → is_pending w.pending ≡ true → u.pending ≡ w.pending)
        × (IsExpecting w → IsExpecting u)

    begun : (u : Station) → ((op : Pending) → Settles w.pending op v u) → To u
    begun u h =
        let (_, _, p, c, r) = h no_operation in
        (
          inr p,
          (λ op a.
              let (x, y, _, _, _) = h op in
              let (o, k, n) = callback-weights op rc in let q = ap (waiting op) p in omega arith),
          (λ q _. absurd (true≢false q)),
          λ _. inr p,
        )

-- ===== src/Radio/Station/Reached.antt =====
-- The account of the requests over any steps of a station.
use esp32s31_linux_function.Base.{
  ℕ, ◌≡◌, refl, sym, ap, ◌∙◌, subst, Bool, true, false, ◌&&◌, not, arith, ◌⊎◌, inl, inr, Bool-cases,
  List, [], ◌∷◌, ◌||◌, some,
}
use esp32s31_linux_function.Base.Int.{ℤ, pos, negsuc, is_zero}
use esp32s31_linux_function.Radio.Driver.{
  called, Driver, Ap, scan_done, sta_connected, scan_complete, connected, disconnected, reg_rxcb,
  set_tx_done_cb, disconnect,
}
use esp32s31_linux_function.Radio.Capture.{no_samples}
use esp32s31_linux_function.Radio.Capture.Keys.{no_counts, no_keys}
use esp32s31_linux_function.Radio.Station.{
  scan_task, connect_task, Station, Pending, no_operation, scan_operation, connect_operation,
  is_pending, note, disconnect_task,
}
use esp32s31_linux_function.Radio.Station.Events.{
  ScanAnswer, finish_scan, station_connected, Event, sta_started, scan_is_done, sta_is_connected,
  sta_is_disconnected, other_event, wifi_event, aps_of,
}
use esp32s31_linux_function.Radio.Station.Reach.{
  opened, settled, may_start, Accounts, IsSettled, IsExpecting, Steps, finished, event, scan_asked,
  connect_asked, disconnect_asked, after, is_start,
}
use esp32s31_linux_function.Radio.Station.Submit.{Keeps, true≢false}
use esp32s31_linux_function.Radio.Station.Requests.{
  Balances, Balances-Keeps, scan_task-Keeps, connect_task-Keeps, sta_start-Keeps,
}

-- A report after SCAN_DONE balances it, and one after STA_CONNECTED.
scan-Balances :
    (w : Station) (aps : List Ap) (rc : ℤ) (op : Pending)
    → Balances op w (note (scan_complete aps rc) (note scan_done w))
scan-Balances w aps rc no_operation = (omega arith, refl, refl, refl)
scan-Balances w aps rc scan_operation = (omega arith, refl, refl, refl)
scan-Balances w aps rc connect_operation = (omega arith, refl, refl, refl)

finish_scan-Balances :
    (a : ScanAnswer) (w : Station) (op : Pending)
    → Balances op w (finish_scan a (note scan_done w) 0).0
unfolding finish_scan
finish_scan-Balances a w op = elim (Bool-cases (not a.got_records || not a.got_aps)) [
  | inl e ↦ rw e (scan-Balances w [] (negsuc 0) op)
  | inr e ↦ elim (Bool-cases (is_zero a.rc)) [
    | inl z ↦ rw (e, z) (scan-Balances w (aps_of a.records) (pos 0) op)
    | inr z ↦ rw (e, z) (scan-Balances w [] a.rc op)
  ]
]

-- How the entries of the other events count.
event-weights :
    (op : Pending) (bssid : List ℕ) (channel : ℕ) (rc : ℤ)
    → (opened op (connected (some bssid) channel rc) ≡ 0)
      × (settled op (connected (some bssid) channel rc) ≡ opened op sta_connected)
      × (settled op sta_connected ≡ 0)
      × (opened op (disconnected channel) ≡ 0)
      × (settled op (disconnected channel) ≡ 0)
event-weights no_operation bssid channel rc = (refl, refl, refl, refl, refl)
event-weights scan_operation bssid channel rc = (refl, refl, refl, refl, refl)
event-weights connect_operation bssid channel rc = (refl, refl, refl, refl, refl)

call-weights :
    (op : Pending) (rc : ℤ)
    → (opened op (called reg_rxcb rc) ≡ 0)
      × (settled op (called reg_rxcb rc) ≡ 0)
      × (opened op (called set_tx_done_cb rc) ≡ 0)
      × (settled op (called set_tx_done_cb rc) ≡ 0)
      × (opened op (called disconnect rc) ≡ 0)
      × (settled op (called disconnect rc) ≡ 0)
call-weights no_operation rc = (refl, refl, refl, refl, refl, refl)
call-weights scan_operation rc = (refl, refl, refl, refl, refl, refl)
call-weights connect_operation rc = (refl, refl, refl, refl, refl, refl)

station_connected-Balances :
    (d : Driver) (bssid : List ℕ) (channel : ℕ) (w : Station) (op : Pending)
    → Balances op w (station_connected d bssid channel (note sta_connected w))
unfolding station_connected
station_connected-Balances d bssid channel w op =
    let rc = d (sta_connected ∷ w.log) reg_rxcb in
    let (a1, a2, _, _, _, _) = call-weights op rc in
    elim (Bool-cases (is_zero (d (sta_connected ∷ w.log) reg_rxcb))) [
      | inl e ↦ rw e (
          let rc' = d (called reg_rxcb rc ∷ (sta_connected ∷ w.log)) set_tx_done_cb in
          let (_, _, b1, b2, _, _) = call-weights op rc' in
          let (x, y, z, _, _) = event-weights op bssid channel rc' in
          (omega arith, refl, refl, refl))
      | inr e ↦ rw e (
          let (x, y, z, _, _) = event-weights op bssid channel rc in
          (omega arith, refl, refl, refl))
    ]

disconnect_task-Balances :
    (d : Driver) (w : Station) (op : Pending) → Balances op w (disconnect_task d w)
unfolding disconnect_task
disconnect_task-Balances d w op =
    let rc = d w.log disconnect in
    let (_, _, _, _, a, b) = call-weights op rc in
    elim (Bool-cases (is_zero (d w.log disconnect))) [
      | inl e ↦ rw e (omega arith, refl, refl, refl)
      | inr e ↦
          rw e
            (let (_, _, _, x, y) = event-weights op [] 0 (pos 0) in (omega arith, refl, refl, refl))
    ]

disconnected-Balances :
    (w : Station) (reason : ℕ) (op : Pending) → Balances op w (note (disconnected reason) w)
disconnected-Balances w reason op =
    let (_, _, _, x, y) = event-weights op [] reason (pos 0) in (omega arith, refl, refl, refl)

event-Keeps :
    (d : Driver) (b : Bool) (e : Event) (w : Station)
    → (is_start e ≡ false) ⊎ (b ≡ true)
    → Keeps b w (after d e w)
unfolding wifi_event
event-Keeps d b sta_started w h = elim h [
  | inl e ↦ absurd (true≢false e)
  | inr e ↦ subst (λ b. Keeps b w (after d sta_started w)) (sym e) (sta_start-Keeps d w)
]
event-Keeps d b (scan_is_done a) w h =
    Balances-Keeps b w (finish_scan a (note scan_done w) 0).0 (finish_scan-Balances a w)
event-Keeps d b (sta_is_connected bssid channel) w h =
    Balances-Keeps b w (station_connected d bssid channel (note sta_connected w))
      (station_connected-Balances d bssid channel w)
event-Keeps d b (sta_is_disconnected reason) w h =
    Balances-Keeps b w (note (disconnected reason) w) (disconnected-Balances w reason)
event-Keeps d b other_event w h = Balances-Keeps b w w (λ op. (omega arith, refl, refl, refl))

Keeps-then : (b : Bool) (u v w : Station) → Keeps b u v → Keeps b v w → Keeps b u w
Keeps-then b u v w f g s =
    let (s1, a1, p1, x1) = f s in
    let (s2, a2, p2, x2) = g s1 in
    (
      s2,
      (λ op e. a2 op (a1 op e)),
      (λ z q. p2 z (ap is_pending (p1 z q) ∙ q) ∙ p1 z q),
      λ x. x2 (x1 x),
    )

Steps-Keeps : (d : Driver) (b : Bool) (w w' : Station) → Steps d b w w' → Keeps b w w'
Steps-Keeps d b w w' finished = λ s. (s, (λ op a. a), (λ z q. refl), λ x. x)
Steps-Keeps d b w w' (event e h rest) =
    Keeps-then b w (after d e w) w' (event-Keeps d b e w h) (Steps-Keeps d b (after d e w) w' rest)
Steps-Keeps d b w w' (scan_asked during nested rest) =
    Keeps-then b w (scan_task d during w) w'
      (scan_task-Keeps d b during
        (λ v. Steps-Keeps d (b && may_start v.log) v (during v) (nested v)) w)
      (Steps-Keeps d b (scan_task d during w) w' rest)
Steps-Keeps d b w w' (connect_asked during params nested rest) =
    Keeps-then b w (connect_task d during params w) w'
      (connect_task-Keeps d b during
        (λ v. Steps-Keeps d (b && may_start v.log) v (during v) (nested v)) params w)
      (Steps-Keeps d b (connect_task d during params w) w' rest)
Steps-Keeps d b w w' (disconnect_asked rest) =
    Keeps-then b w (disconnect_task d w) w'
      (Balances-Keeps b w (disconnect_task d w) (disconnect_task-Balances d w))
      (Steps-Keeps d b (disconnect_task d w) w' rest)

-- The static variables before anything happens; no capture has begun.
abbrev pub boot : Station
boot = record {
  prepared = false;
  start_requested = false;
  start_complete = false;
  rx_registered = false;
  pending = no_operation;
  tx = no_samples;
  keys = no_keys;
  lmac = no_counts;
  log = [];
}

-- Whatever Linux asks for, the driver reports and other contexts do while a task waits for the driver's
-- start, as long as a start that fails is not followed by STA_START: of scans and of connections, the
-- requests and the driver's results together are as many as the reports to Linux, the operations that
-- the driver has accepted and the one that waits for STA_START. Nothing waits once the station has
-- started, and nothing waits but for a start that the driver has accepted.
pub Steps-Accounts :
    (d : Driver) (w : Station)
    → Steps d true boot w
    → Accounts scan_operation w × Accounts connect_operation w × IsSettled w × IsExpecting w
Steps-Accounts d w h =
    let (s, accounts, _, expects) = Steps-Keeps d true boot w h (inl refl) in
    (accounts scan_operation refl, accounts connect_operation refl, s, expects (inr refl))

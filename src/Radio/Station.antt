-- ===== src/Radio/Station.antt =====
-- The station's start in radio_firmware/radio_stack.c: preparing the driver, starting it for a scan or a
-- connection, and the driver's STA_START event. The driver runs other contexts while `esp_wifi_start`
-- waits; its other calls are one step with the code around them.
pub mod Events
pub mod Reach
mod Accounts
mod Submit
mod Requests
pub mod Reached
pub mod Failed
pub mod Scans
use esp32s31_linux_function.Base.{
  ℕ, zero, suc, ◌+◌, Bool, true, false, not, ◌&&◌, if◌then◌else◌, Option, none, some, List, [], ◌∷◌,
}
use esp32s31_linux_function.Base.Int.{ℤ, pos, negsuc, neg, is_zero, is_positive, is_negative}
use esp32s31_linux_function.Radio.Driver.{
  Call, set_storage, set_country, set_mode, set_protocol, set_ps, set_bandwidth, start, scan_start,
  connect, disconnect, set_config, reg_netstack_buf_cb, reg_rxcb, set_tx_done_cb, LogEntry,
  asked_scan, asked_connect, called, sta_connected, scan_complete, connected, disconnected, Log,
  Driver, enter, enter_all,
}
use esp32s31_linux_function.Radio.Capture.{TxCapture, fresh_window}
use esp32s31_linux_function.Radio.Capture.Keys.{KeyCapture, LmacCounts, fresh_keys, no_counts}
use esp32s31_linux_function.Radio.Config.{ConnectParams, sta_config}

-- `enum s31_wifi_pending_operation`
pub data Pending : Type 0 where
  no_operation scan_operation connect_operation : Pending

-- The station's static variables, with the log of what has happened.
pub record Station : Type 0 where
  pub prepared : Bool
  pub start_requested : Bool
  pub start_complete : Bool
  pub rx_registered : Bool
  pub pending : Pending
  pub tx : TxCapture
  pub keys : KeyCapture
  pub lmac : LmacCounts
  pub log : Log

abbrev pub is_pending : Pending → Bool
is_pending no_operation = false
is_pending scan_operation = true
is_pending connect_operation = true

-- A call of the driver, and a report to Linux or another entry of the log.
abbrev pub call : Driver → Call → Station → Station × ℤ
call d c w = (record w { log = called c (d w.log c) ∷ w.log }, d w.log c)

abbrev pub note : LogEntry → Station → Station
note e w = record w { log = e ∷ w.log }

-- The calls of `s31_wifi_prepare`, with arguments that never change.
abbrev pub preparations : List Call
preparations =
    set_storage ∷ (set_country ∷ (set_mode ∷ (set_protocol ∷ (set_ps ∷ (set_bandwidth ∷ [])))))

-- `s31_wifi_prepare`
unfoldable pub prepare_driver : Driver → Station → Station × ℤ
unfolding enter_all
prepare_driver d w =
    if w.prepared
    then (w, pos 0)
    else let (log, rc) = enter_all d preparations w.log in
      (record w { log = log; prepared = is_zero rc }, rc)

-- `s31_wifi_start_operation` after `esp_wifi_start` returned.
unfoldable pub after_start : ℤ → Station → Station × ℤ
after_start rc w =
    if is_zero rc
    then (record w { start_requested = true }, pos 0)
    else (record w { pending = no_operation }, neg rc)

-- `s31_wifi_start_operation`, with what other contexts do while `esp_wifi_start` waits
unfoldable pub start_operation : Driver → (Station → Station) → Pending → Station → Station × ℤ
unfolding after_start
start_operation d during operation w =
    if w.start_complete
    then (w, pos 1)
    else if is_pending w.pending
    then (w, negsuc 0)
    else if w.start_requested
    then (record w { pending = operation }, pos 0)
    else let (w', rc) = call d start (record w { pending = operation }) in
      after_start rc (during w')

-- The driver's call that begins an operation.
abbrev pub first_call : Pending → Call
first_call no_operation = scan_start
first_call scan_operation = scan_start
first_call connect_operation = connect

-- The report that an operation failed with `rc`, none for 0.
abbrev pub failure : Pending → ℤ → LogEntry
failure no_operation rc = scan_complete [] rc
failure scan_operation rc = scan_complete [] rc
failure connect_operation rc = connected none 0 rc

abbrev pub report : Pending → ℤ → Station → Station
report operation rc w = if is_zero rc then w else note (failure operation rc) w

-- Beginning an operation now.
unfoldable pub run : Driver → Pending → Station → Station
run d operation w = let (w', rc) = call d (first_call operation) w in report operation rc w'

-- `s31_wifi_event` for STA_START
unfoldable pub sta_start : Driver → Station → Station
unfolding run
sta_start d w =
    let (w', rc) =
      call d reg_netstack_buf_cb
        (record w { pending = no_operation; start_complete = true; keys = fresh_keys w.keys }) in
    if not (is_pending w.pending)
    then w'
    else if is_zero rc
    then run d w.pending w'
    else report w.pending rc w'

-- What a task does by the value of `s31_wifi_start_operation`.
unfoldable pub begin : Driver → Pending → Station × ℤ → Station
unfolding run
begin d operation (w, start_rc) =
    if is_positive start_rc
    then run d operation w
    else if is_negative start_rc
    then report operation (neg start_rc) w
    else w

-- What both tasks do when the call before has returned.
unfoldable pub submit : Driver → (Station → Station) → Pending → Station × ℤ → Station
unfolding start_operation begin
submit d during operation (w, rc) =
    if is_zero rc
    then begin d operation (start_operation d during operation w)
    else report operation rc w

-- `s31_radio_wifi_scan_task`
unfoldable pub scan_task : Driver → (Station → Station) → Station → Station
unfolding submit prepare_driver
scan_task d during w = submit d during scan_operation (prepare_driver d (note asked_scan w))

-- `s31_radio_wifi_connect_task`
unfoldable pub connect_task : Driver → (Station → Station) → ConnectParams → Station → Station
unfolding submit prepare_driver
connect_task d during params w =
    let (w', rc) = prepare_driver d (note asked_connect w) in
    if is_zero rc
    then submit d during connect_operation (call d (set_config (sta_config params)) w')
    else report connect_operation rc w'

-- `s31_radio_wifi_disconnect_task`
unfoldable pub disconnect_task : Driver → Station → Station
disconnect_task d w =
    let (w', rc) = call d disconnect w in if is_zero rc then w' else note (disconnected 0) w'

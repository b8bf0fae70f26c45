-- ===== src/Radio/Station/Events.antt =====
-- The driver's events in radio_firmware/radio_stack.c: a scan that is done, a connection that is made or
-- lost, and the dispatch of the events. A buffer of scan results is a count of live blocks.
use esp32s31_linux_function.Base.{
  ℕ, zero, suc, ◌+◌, ◌-◌, Bool, true, not, ◌||◌, if◌then◌else◌, some, List, [], ◌∷◌, ◌++◌,
  replicate, ◌==◌,
}
use esp32s31_linux_function.Base.Int.{ℤ, pos, negsuc, is_zero}
use esp32s31_linux_function.Text.{Text, take}
use esp32s31_linux_function.Radio.Driver.{
  Ap, reg_rxcb, set_tx_done_cb, scan_done, sta_connected, scan_complete, connected, disconnected,
  Driver,
}
use esp32s31_linux_function.Radio.Capture.{fresh_window}
use esp32s31_linux_function.Radio.Capture.Keys.{no_counts}
use esp32s31_linux_function.Radio.Station.{Station, call, note, sta_start}

-- The fields of `wifi_ap_record_t` that are read; the `ssid` has 33 bytes.
pub record ApRecord : Type 0 where
  pub bssid : Text
  pub ssid : Text
  pub primary : ℕ
  pub rssi : ℕ
  pub authmode : ℕ

-- `strnlen`
unfoldable pub strnlen : Text → ℕ → ℕ
strnlen s zero = 0
strnlen [] (suc n) = 0
strnlen (c ∷ s) (suc n) = if c == 0 then 0 else suc (strnlen s n)

-- One pass of the loop over the records.
unfoldable pub ap_of : ApRecord → Ap
unfolding take strnlen
ap_of r =
    let n = strnlen r.ssid 32 in
    record {
      bssid = r.bssid;
      ssid = take n r.ssid ++ replicate (32 - n) 0;
      ssid_length = n;
      channel = r.primary;
      signal = r.rssi;
      authmode = r.authmode;
    }

unfoldable pub aps_of : List ApRecord → List Ap
unfolding ap_of
aps_of [] = []
aps_of (r ∷ rs) = ap_of r ∷ aps_of rs

-- The live blocks of a heap.
abbrev pub allocate : Bool → ℕ → ℕ
allocate got live = if got then live + 1 else live

-- `heap_caps_free`, which does nothing with NULL.
abbrev pub free : Bool → ℕ → ℕ
free got live = if got then live - 1 else live

-- What the driver and the heap answer to SCAN_DONE: whether each buffer is given, and the records.
pub record ScanAnswer : Type 0 where
  pub got_records : Bool
  pub got_aps : Bool
  pub records : List ApRecord
  pub rc : ℤ

-- `s31_wifi_event` for SCAN_DONE, with the live blocks of the heap. The driver is told that the buffer has
-- room for 32 records and hands over at most those: `records` is what it has written.
unfoldable pub finish_scan : ScanAnswer → Station → ℕ → Station × ℕ
unfolding aps_of
finish_scan a w live =
    let live = allocate a.got_aps (allocate a.got_records live) in
    let freed = free a.got_aps (free a.got_records live) in
    if not a.got_records || not a.got_aps
    then (note (scan_complete [] (negsuc 0)) w, freed)
    else if is_zero a.rc
    then (note (scan_complete (aps_of a.records) (pos 0)) w, freed)
    else (note (scan_complete [] a.rc) w, freed)

-- What the driver answers to the registrations, the second only made if the first succeeded.
abbrev pub register : Driver → Station → Station × ℤ
register d w =
    let (w', rc) = call d reg_rxcb w in
    if is_zero rc then call d set_tx_done_cb (record w' { rx_registered = true }) else (w', rc)

-- `s31_wifi_event` for STA_CONNECTED
unfoldable pub station_connected : Driver → List ℕ → ℕ → Station → Station
unfolding fresh_window
station_connected d bssid channel w =
    let (w', rc) = register d (record w { tx = fresh_window w.tx; lmac = no_counts }) in
    note (connected (some bssid) channel rc) w'

-- The events; the others are ignored.
pub data Event : Type 0 where
  sta_started : Event
  scan_is_done : ScanAnswer → Event
  sta_is_connected : List ℕ → ℕ → Event
  sta_is_disconnected : ℕ → Event
  other_event : Event

-- `s31_wifi_event`
unfoldable pub wifi_event : Driver → Event → Station → ℕ → Station × ℕ
unfolding sta_start finish_scan station_connected
wifi_event d sta_started w live = (sta_start d w, live)
wifi_event d (scan_is_done a) w live = finish_scan a (note scan_done w) live
wifi_event d (sta_is_connected bssid channel) w live =
    (station_connected d bssid channel (note sta_connected w), live)
wifi_event d (sta_is_disconnected reason) w live = (note (disconnected reason) w, live)
wifi_event d other_event w live = (w, live)

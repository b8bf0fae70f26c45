-- ===== src/Radio/Station/Reach.antt =====
-- The states of the station that any requests and events reach, and the requests in the log.
use esp32s31_linux_function.Base.{ℕ, ◌+◌, ◌≡◌, Bool, true, false, ◌&&◌, if◌then◌else◌, [], ◌∷◌, ◌⊎◌}
use esp32s31_linux_function.Base.Int.{is_zero}
use esp32s31_linux_function.Radio.Driver.{
  start, scan_start, connect, LogEntry, asked_scan, asked_connect, called, scan_done, sta_connected,
  scan_complete, connected, Log, Driver,
}
use esp32s31_linux_function.Radio.Config.{ConnectParams}
use esp32s31_linux_function.Radio.Station.{
  Station, Pending, no_operation, scan_operation, connect_operation, scan_task, connect_task,
  disconnect_task,
}
use esp32s31_linux_function.Radio.Station.Events.{Event, sta_started, wifi_event}

-- Whether the driver may still report STA_START: not when its start, the last call, has failed.
abbrev pub may_start : Log → Bool
may_start (called start rc ∷ log) = is_zero rc
may_start log = true

abbrev pub is_start : Event → Bool
is_start sta_started = true
is_start e = false

-- The station after an event.
abbrev pub after : Driver → Event → Station → Station
after d e w = let (w', live) = wifi_event d e w 0 in w'

-- What a driver and Linux can make of a station. The flag says whether STA_START may occur; what other
-- contexts do while a task waits for the driver's start is reached as well.
pub data Steps (d : Driver) : Bool → Station → Station → Type 0 where
  finished : {b : Bool} {w : Station} → Steps d b w w
  event :
      {b : Bool} {w w' : Station} (e : Event)
      → (is_start e ≡ false) ⊎ (b ≡ true)
      → Steps d b (after d e w) w'
      → Steps d b w w'
  scan_asked :
      {b : Bool} {w w' : Station} (during : Station → Station)
      → ((v : Station) → Steps d (b && may_start v.log) v (during v))
      → Steps d b (scan_task d during w) w'
      → Steps d b w w'
  connect_asked :
      {b : Bool} {w w' : Station} (during : Station → Station) (params : ConnectParams)
      → ((v : Station) → Steps d (b && may_start v.log) v (during v))
      → Steps d b (connect_task d during params w) w'
      → Steps d b w w'
  disconnect_asked :
      {b : Bool} {w w' : Station} → Steps d b (disconnect_task d w) w' → Steps d b w w'

-- What of the log stands for a request of an operation, or a result of one that was begun.
abbrev pub opened : Pending → LogEntry → ℕ
opened scan_operation asked_scan = 1
opened scan_operation scan_done = 1
opened connect_operation asked_connect = 1
opened connect_operation sta_connected = 1
opened op e = 0

-- What of it settles one: a report to Linux, or the driver's acceptance of the operation.
abbrev pub settled : Pending → LogEntry → ℕ
settled scan_operation (scan_complete aps rc) = 1
settled scan_operation (called scan_start rc) = if is_zero rc then 1 else 0
settled connect_operation (connected bssid channel rc) = 1
settled connect_operation (called connect rc) = if is_zero rc then 1 else 0
settled op e = 0

abbrev pub sum : (LogEntry → ℕ) → Log → ℕ
sum f [] = 0
sum f (e ∷ log) = f e + sum f log

-- Whether the operation waits for STA_START.
abbrev pub waiting : Pending → Pending → ℕ
waiting scan_operation scan_operation = 1
waiting connect_operation connect_operation = 1
waiting op pending = 0

-- Every request and every result is settled once, or waits.
abbrev pub Accounts : Pending → Station → Type 0
Accounts operation w =
    sum (opened operation) w.log ≡ sum (settled operation) w.log + waiting operation w.pending

-- A station that has started has nothing waiting for its start.
abbrev pub IsSettled : Station → Type 0
IsSettled w = (w.start_complete ≡ false) ⊎ (w.pending ≡ no_operation)

-- Nothing waits but for a start that the driver has accepted.
abbrev pub IsExpecting : Station → Type 0
IsExpecting w = (w.start_requested ≡ true) ⊎ (w.pending ≡ no_operation)

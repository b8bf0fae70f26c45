-- ===== src/Radio/Driver.antt =====
-- The vendor's driver as radio_firmware/radio_stack.c sees it: calls with a return code. What happens is
-- a log, the newest entry first, and a driver answers a call by all that has happened before it.
use esp32s31_linux_function.Base.{ℕ, true, false, Option, List, [], ◌∷◌}
use esp32s31_linux_function.Radio.Config.{StaConfig}
use esp32s31_linux_function.Base.Int.{ℤ, pos, is_zero}

-- The calls, with the arguments that are not always the same.
pub data Call : Type 0 where
  set_storage set_country set_mode set_protocol set_ps set_bandwidth : Call
  start scan_start connect disconnect internal_tx : Call
  set_config : StaConfig → Call
  reg_netstack_buf_cb reg_rxcb set_tx_done_cb : Call

-- `struct s31_wifi_ap`
pub record Ap : Type 0 where
  pub bssid : List ℕ
  pub ssid : List ℕ
  pub ssid_length : ℕ
  pub channel : ℕ
  pub signal : ℕ
  pub authmode : ℕ

-- What happens: Linux asks for a scan or a connection, the driver reports an event, the glue calls the
-- driver, and it reports to Linux.
pub data LogEntry : Type 0 where
  asked_scan asked_connect : LogEntry
  scan_done sta_connected : LogEntry
  called : Call → ℤ → LogEntry
  scan_complete : List Ap → ℤ → LogEntry
  connected : Option (List ℕ) → ℕ → ℤ → LogEntry
  disconnected : ℕ → LogEntry

abbrev pub Log : Type 0
Log = List LogEntry

abbrev pub Driver : Type 0
Driver = Log → Call → ℤ

-- A call of the driver.
abbrev pub enter : Driver → Call → Log → Log × ℤ
enter d c log = (called c (d log c) ∷ log, d log c)

-- Calls in sequence, up to the first that fails.
unfoldable pub enter_all : Driver → List Call → Log → Log × ℤ
enter_all d [] log = (log, pos 0)
enter_all d (c ∷ cs) log = elim (is_zero (d log c)) [
  | true ↦ enter_all d cs (called c (d log c) ∷ log)
  | false ↦ (called c (d log c) ∷ log, d log c)
]

-- ===== src/Tests/Radio.antt =====
-- The station's start and the radio's bring-up of radio_firmware/radio_stack.c on concrete inputs.
use esp32s31_linux_function.Base.{
  ℕ, ◌+◌, ◌*◌, ◌≡◌, refl, true, false, ◌&&◌, ◌||◌, ◌==◌, List, [], ◌∷◌, ◌⊎◌, inl, inr, Bool-cases,
  if◌then◌else◌, arith,
}
use esp32s31_linux_function.Base.Int.{ℤ, pos, negsuc, is_negative, is_zero}
use esp32s31_linux_function.Radio.Driver.{
  start, asked_scan, scan_start, called, Driver, Ap, scan_complete,
}
use esp32s31_linux_function.Radio.Config.{ConnectParams, sta_config, wifi_auth_wpa2_psk}
use esp32s31_linux_function.Radio.Config.Digits.{IsHexDigit, digit_value, sta_config-Digits}
use esp32s31_linux_function.Radio.Capture.{
  TxCapture, no_samples, fresh_window, observe, look, record_look, is_hpsram, wrap_lmac_tx_frame,
}
use esp32s31_linux_function.Radio.Capture.Samples.{Transmit, tx_frame}
use esp32s31_linux_function.Radio.Capture.Window.{transmit_all, IsSound, fresh_window-IsSound}
use esp32s31_linux_function.Radio.Station.{
  Station, scan_operation, connect_operation, no_operation, note, start_operation, submit, report,
  run, scan_task,
}
use esp32s31_linux_function.Radio.Station.Events.{
  ApRecord, ScanAnswer, sta_started, scan_is_done, finish_scan,
}
use esp32s31_linux_function.Radio.Station.Reach.{
  Steps, finished, event, scan_asked, after, may_start, Accounts, IsSettled, IsExpecting,
}
use esp32s31_linux_function.Radio.Station.Reached.{boot, Steps-Accounts}
use esp32s31_linux_function.Radio.Station.Failed.{failed_start_lem}
use esp32s31_linux_function.Radio.Station.Scans.{AreAps, finish_scan_lem}
use esp32s31_linux_function.Radio.Init.{bt_controller_init, Vendor, stack_task}
use esp32s31_linux_function.Radio.Init.Order.{IsBroughtUp, stack_task-IsBroughtUp}

-- A driver that accepts everything, and one whose start fails with ESP_FAIL.
abbrev willing : Driver
willing log c = pos 0

abbrev failing : Driver
failing log start = negsuc 0
failing log c = pos 0

-- STA_START while the task waits for the driver, where it may occur.
abbrev starts : Station → Station
starts v = if may_start v.log then after willing sta_started v else v

starts_reached : (v : Station) → Steps willing (true && may_start v.log) v (starts v)
starts_reached v = elim (Bool-cases (may_start v.log)) [
  | inl e ↦ rw e (event sta_started (inr refl) finished)
  | inr e ↦ rw e finished
]

abbrev two_records : List ApRecord
two_records =
    record {
      bssid = 1 ∷ 2 ∷ 3 ∷ 4 ∷ 5 ∷ 6 ∷ [];
      ssid = b'n' ∷ b'e' ∷ b't' ∷ 0 ∷ 7 ∷ [];
      primary = 6;
      rssi = 200;
      authmode = 3;
    }
    ∷ (record {
      bssid = 6 ∷ 5 ∷ 4 ∷ 3 ∷ 2 ∷ 1 ∷ [];
      ssid = 0 ∷ [];
      primary = 11;
      rssi = 190;
      authmode = 0;
    }
        ∷ [])

abbrev two_found : ScanAnswer
two_found = record { got_records = true; got_aps = true; records = two_records; rc = pos 0 }

-- A scan is asked for, the driver starts meanwhile and does it.
abbrev scanned : Station
scanned = after willing (scan_is_done two_found) (scan_task willing starts boot)

scanned_reached : Steps willing true boot scanned
scanned_reached =
    scan_asked starts starts_reached (event (scan_is_done two_found) (inl refl) finished)

Steps-Accounts_example :
    Accounts scan_operation scanned
    × Accounts connect_operation scanned
    × IsSettled scanned
    × IsExpecting scanned
Steps-Accounts_example = Steps-Accounts willing scanned scanned_reached

failed_start_lem_example :
    let rc = failing [] start in
    let v = record boot { pending = scan_operation; log = called start rc ∷ [] } in
    ((is_negative rc ≡ false)
      × (submit failing (λ u. u) scan_operation (boot, pos 0)
          ≡ report scan_operation rc (record v { pending = no_operation })))
    ⊎ ((is_negative rc ≡ true)
        × (submit failing (λ u. u) scan_operation (boot, pos 0)
            ≡ run failing scan_operation (record v { pending = no_operation })))
failed_start_lem_example = failed_start_lem failing (λ u. u) scan_operation boot refl refl refl refl

-- The driver that has not started is asked to scan.
failed_start_test :
    (scan_task failing (λ u. u) (record boot { prepared = true })).log
    ≡ called scan_start (pos 0) ∷ (called start (negsuc 0) ∷ (asked_scan ∷ []))
unfolding scan_task submit start_operation run
failed_start_test = refl

finish_scan_lem_example :
    (aps : List Ap) × (rc : ℤ) × (finish_scan two_found boot 5
      ≡ (note (scan_complete aps rc) boot, 5))
    × (((true ≡ true) × (rc ≡ pos 0) × AreAps two_records aps)
        ⊎ ((true ≡ false) × (is_zero rc ≡ false) × (aps ≡ [])))
finish_scan_lem_example = finish_scan_lem two_found boot 5

-- A key of the bytes 5, 6, ...
abbrev with_key : ConnectParams
with_key = record {
  ssid = λ i. b'x';
  ssid_length = 4;
  bssid = λ i. 0;
  channel = 6;
  psk = λ i. i + 5;
  password = λ i. 0;
  password_length = 0;
  has_bssid = false;
  has_psk = true;
  has_password = false;
}

sta_config-Digits_example :
    let c = sta_config with_key in
    IsHexDigit (c.password 20)
    × IsHexDigit (c.password 21)
    × (digit_value (c.password 20) * 16 + digit_value (c.password 21) ≡ 15)
    × (c.password 64 ≡ 0)
    × (c.authmode ≡ wifi_auth_wpa2_psk)
    × (c.disable_wpa3_compatible_mode ≡ true)
sta_config-Digits_example = sta_config-Digits with_key 10 0 refl refl (omega arith) (omega arith)

-- A buffer in the SRAM that is its own descriptor, and the frame that it points to is itself as well.
abbrev protected_frame : ℕ → ℕ
protected_frame a =
    if a == 0x2f000007 || a == 0x2f000037
    then 0x2f
    else if a == 0x2f000008
    then 0x08
    else if a == 0x2f000009
    then 0x40
    else 0

-- Two transmissions, of a buffer outside the SRAM and of that one.
abbrev two_frames : List Transmit
two_frames =
    tx_frame (λ eb queue m. (m, pos 0)) 0x1000 2 (λ a. 0)
    ∷ (tx_frame (λ eb queue m. (m, pos 0)) 0x2f000000 2 protected_frame ∷ [])

sample_test :
    let c = transmit_all two_frames (fresh_window no_samples) in
    (c.sample_count ≡ 1) × (c.bad_eb_count ≡ 1) × (c.call_count ≡ 2)
unfolding transmit_all fresh_window wrap_lmac_tx_frame observe look record_look is_hpsram
sample_test = (refl, refl, refl)

fresh_window-IsSound_example :
    IsSound two_frames (transmit_all two_frames (fresh_window no_samples))
    × (TxCapture.call_count (transmit_all two_frames (fresh_window no_samples)) ≡ 2)
fresh_window-IsSound_example = fresh_window-IsSound no_samples two_frames (omega arith)

-- Wi-Fi comes up and Bluetooth does not.
abbrev half_working : Vendor
half_working t bt_controller_init = pos 3
half_working t c = pos 0

stack_task-IsBroughtUp_example : IsBroughtUp (stack_task half_working [])
stack_task-IsBroughtUp_example = stack_task-IsBroughtUp half_working

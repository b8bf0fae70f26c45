-- ===== src/Radio/Frames.antt =====
-- The frames in radio_firmware/radio_stack.c: those that Linux sends through the driver and through the
-- Bluetooth controller, and those that the driver hands over, whose buffers go back to it.
use esp32s31_linux_function.Base.{
  ℕ, ◌+◌, Bool, ◌&&◌, leb, ◌==◌, if◌then◌else◌, Option, none, some, List, ◌∷◌,
}
use esp32s31_linux_function.Base.Int.{ℤ, pos, negsuc, is_zero}
use esp32s31_linux_function.Copy.{Memory}
use esp32s31_linux_function.Radio.Driver.{internal_tx, Driver}
use esp32s31_linux_function.Radio.Capture.{count_ipv4}
use esp32s31_linux_function.Radio.Station.{Station, call}

-- `ipv4` of `s31_radio_wifi_try_send`, by the type of the Ethernet frame
abbrev pub is_ipv4 : Memory → ℕ → ℕ → Bool
is_ipv4 m frame length = leb 14 length && (m (frame + 12) == 0x08 && m (frame + 13) == 0x00)

-- `s31_radio_wifi_try_send`
unfoldable pub wifi_try_send : Driver → Memory → ℕ → ℕ → Station → Station × ℤ
wifi_try_send d m frame length w =
    call d internal_tx (if is_ipv4 m frame length then record w { tx = count_ipv4 w.tx } else w)

-- `s31_radio_vhci_try_send`: the packet that is sent, if any, and the value
unfoldable pub vhci_try_send : Bool → ℕ → ℕ → Option (ℕ × ℕ) × ℤ
vhci_try_send available frame length =
    if available then (some (frame, length), pos 0) else (none, negsuc 0)

-- The driver's receive buffers that have gone back to it, the newest first, and how often Linux has asked
-- for a pause.
pub record RxState : Type 0 where
  pub freed : List ℕ
  pub throttles : ℕ

-- `s31_radio_wifi_free_rx_buffer`
abbrev pub free_rx_buffer : ℕ → RxState → RxState
free_rx_buffer eb s = if eb == 0 then s else record s { freed = eb ∷ s.freed }

-- `s31_wifi_rx`; Linux's bridge answers with a value, and 0 asks for a pause.
unfoldable pub wifi_rx : (ℕ → ℕ → ℕ → ℤ) → ℕ → ℕ → ℕ → RxState → RxState × ℤ
wifi_rx receive buffer length eb s =
    let rc = receive buffer eb length in
    let s' = free_rx_buffer eb s in
    (if is_zero rc then record s' { throttles = s'.throttles + 1 } else s', rc)

-- ===== src/Radio/Init.antt =====
-- The bring-up in radio_firmware/radio_stack.c: the task that initialises Wi-Fi and then Bluetooth, and the
-- tasks that enable and disable the controller. What they do is a trace, the newest first; the
-- variants without Linux and without Bluetooth are left out.
pub mod Order
use esp32s31_linux_function.Base.{ℕ, Bool, true, false, if◌then◌else◌, List, ◌∷◌}
use esp32s31_linux_function.Base.Int.{ℤ, is_zero}

-- The fields of the Wi-Fi configuration that the task sets.
pub record WifiInitConfig : Type 0 where
  pub static_rx_buf_num : ℕ
  pub dynamic_rx_buf_num : ℕ
  pub ampdu_rx_enable : ℕ
  pub rx_ba_win : ℕ
  pub nvs_enable : ℕ

abbrev pub wifi_cfg : WifiInitConfig
wifi_cfg = record {
  static_rx_buf_num = 64;
  dynamic_rx_buf_num = 64;
  ampdu_rx_enable = 1;
  rx_ba_win = 6;
  nvs_enable = 0;
}

-- The calls that have a return code.
pub data InitCall : Type 0 where
  psa_crypto_init coex_adapter_register coex_pre_init event_loop_create handler_register : InitCall
  bt_controller_init bt_controller_enable bt_controller_disable vhci_register_callback : InitCall
  wifi_init : WifiInitConfig → InitCall

pub data Act : Type 0 where
  pmu_init drop_log_level replace_adapters set_lpclk use_internal_stacks : Act
  called : InitCall → ℤ → Act
  wifi_reported bt_reported bt_enable_reported bt_disable_reported : ℤ → Act
  heap_reported : Act

abbrev pub History : Type 0
History = List Act

-- The driver answers a call by what has happened before it.
abbrev pub Vendor : Type 0
Vendor = History → InitCall → ℤ

abbrev pub call : Vendor → InitCall → History → History × ℤ
call v c t = (called c (v t c) ∷ t, v t c)

-- The call that is made if the one before succeeded.
abbrev pub and_then : Vendor → InitCall → History × ℤ → History × ℤ
and_then v c (t, rc) = if is_zero rc then call v c t else (t, rc)

-- An early failure is reported at once.
abbrev pub fail_early : History × ℤ → History
fail_early (t, rc) = wifi_reported rc ∷ t

-- The end of `s31_radio_stack_task`: Bluetooth, once Wi-Fi is there.
abbrev pub report_bt : History × ℤ → History
report_bt (t, rc) = bt_reported rc ∷ t

unfoldable pub init_bt : Vendor → History × ℤ → History
init_bt v (t, rc) = if is_zero rc then report_bt (call v bt_controller_init (set_lpclk ∷ t)) else t

-- Its middle: the event loop, Wi-Fi and the handler of its events, reported together.
abbrev pub report_wifi : History × ℤ → History × ℤ
report_wifi (t, rc) = (wifi_reported rc ∷ t, rc)

unfoldable pub init_wifi : Vendor → History × ℤ → History
unfolding init_bt
init_wifi v (t, rc) =
    if is_zero rc
    then init_bt v (
        report_wifi (
          and_then v handler_register
            (and_then v (wifi_init wifi_cfg) (call v event_loop_create t))))
    else fail_early (t, rc)

-- Its beginning: the coexistence of both, after the key store.
unfoldable pub init_coex : Vendor → History × ℤ → History
unfolding init_wifi
init_coex v (t, rc) =
    if is_zero rc then init_wifi v (call v coex_pre_init t) else fail_early (t, rc)

unfoldable pub init_radio : Vendor → History × ℤ → History
unfolding init_coex
init_radio v (t, rc) =
    if is_zero rc
    then init_coex v (call v coex_adapter_register (replace_adapters ∷ t))
    else fail_early (t, rc)

-- `s31_radio_stack_task`
unfoldable pub stack_task : Vendor → History → History
unfolding init_radio
stack_task v t = init_radio v (call v psa_crypto_init (drop_log_level ∷ (pmu_init ∷ t)))

-- `s31_radio_bt_enable_task`
unfoldable pub bt_enable_task : Vendor → History → History
bt_enable_task v t =
    let (t', rc) =
      and_then v vhci_register_callback (call v bt_controller_enable (use_internal_stacks ∷ t)) in
    heap_reported ∷ (bt_enable_reported rc ∷ t')

-- `s31_radio_bt_disable_task`
unfoldable pub bt_disable_task : Vendor → History → History
bt_disable_task v t =
    let (t', rc) = call v bt_controller_disable (use_internal_stacks ∷ t) in
    bt_disable_reported rc ∷ (heap_reported ∷ t')

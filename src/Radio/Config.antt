-- ===== src/Radio/Config.antt =====
-- The station configuration that s31_radio_wifi_connect_task builds. An array is a function from the
-- index, and one that starts as zeros is zero where nothing was written.
use esp32s31_linux_function.Base.{
  ℕ, zero, suc, ◌+◌, ◌-◌, ◌*◌, ◌/◌, ◌%◌, Bool, true, false, ltb, if◌then◌else◌,
}
use esp32s31_linux_function.Copy.{Memory, store}
pub mod Digits

-- `struct s31_wifi_connect_params`
pub record ConnectParams : Type 0 where
  pub ssid : Memory
  pub ssid_length : ℕ
  pub bssid : Memory
  pub channel : ℕ
  pub psk : Memory
  pub password : Memory
  pub password_length : ℕ
  pub has_bssid : Bool
  pub has_psk : Bool
  pub has_password : Bool

pub data AuthMode : Type 0 where
  wifi_auth_open wifi_auth_wpa2_psk : AuthMode

-- The fields of `wifi_config_t` that are set.
pub record StaConfig : Type 0 where
  pub ssid : Memory
  pub channel : ℕ
  pub bssid_set : Bool
  pub bssid : Memory
  pub password : Memory
  pub authmode : AuthMode
  pub disable_wpa3_compatible_mode : Bool

-- `memcpy` of `n` bytes into an array of zeros.
abbrev pub copied : Memory → ℕ → Memory
copied src n i = if ltb i n then src i else 0

-- `hex[n]`
abbrev pub hex_digit : ℕ → ℕ
hex_digit n = if ltb n 10 then b'0' + n else b'a' + (n - 10)

-- The loop that writes the key as hexadecimal digits, `n` bytes from index `i`.
unfoldable pub hex_loop : ℕ → ℕ → Memory → Memory → Memory
unfolding store
hex_loop zero i psk password = password
hex_loop (suc n) i psk password =
    hex_loop n (i + 1) psk
      (store (i * 2 + 1) (hex_digit (psk i % 16)) (store (i * 2) (hex_digit (psk i / 16)) password))

-- The configuration as it stands before `esp_wifi_set_config`.
unfoldable pub sta_config : ConnectParams → StaConfig
unfolding hex_loop
sta_config p = record {
  ssid = copied p.ssid p.ssid_length;
  channel = p.channel;
  bssid_set = p.has_bssid;
  bssid = if p.has_bssid then copied p.bssid 6 else λ i. 0;
  password =
      if p.has_password
      then copied p.password p.password_length
      else if p.has_psk
      then hex_loop 32 0 p.psk (λ i. 0)
      else λ i. 0;
  authmode =
      if p.has_password
      then wifi_auth_open
      else if p.has_psk
      then wifi_auth_wpa2_psk
      else wifi_auth_open;
  disable_wpa3_compatible_mode = if p.has_password then false else p.has_psk;
}

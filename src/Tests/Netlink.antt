-- ===== src/Tests/Netlink.antt =====
-- The attributes of rootfs/wifi_scan.c on concrete inputs.
use esp32s31_linux_function.Base.{
  ℕ, ◌-◌, ◌≤◌, ◌<◌, arith, zero, suc, ◌+◌, ◌≡◌, refl, none, some, List, [], ◌∷◌,
}
use esp32s31_linux_function.Copy.{Memory, store}
use esp32s31_linux_function.Base.Int.{pos, negsuc}
use esp32s31_linux_function.Netlink.{find_loop, find_attr, align_len}
use esp32s31_linux_function.Netlink.Build.{Message, attr_bytes, add_attr, trigger_message}
use esp32s31_linux_function.Netlink.Found.{IsAttr, add-find_attr}
use esp32s31_linux_function.Netlink.Scan.{
  Numbers, error_message, done_message, data_message, Received, datagram, walk, receive_all,
  recv_ack, resolve_family, bytes_from, ssid_loop, print_bss, dump_scan,
}
use esp32s31_linux_function.Netlink.Foreign.{own_only, loops-own_only}
use esp32s31_linux_function.Netlink.Ssid.{IsShort, ssid_loop_lem}
use esp32s31_linux_function.Netlink.Attributes.{
  attributes, first_of, IsWithin, SameFrom, find_attr_lem,
}

-- Those bytes, and zeros behind them.
abbrev bytes : List ℕ → Memory
bytes [] i = 0
bytes (b ∷ bs) zero = b
bytes (b ∷ bs) (suc i) = bytes bs i

-- An attribute of type 1 with one byte, and one of type 2, marked as nested, with two.
abbrev message : Memory
message = bytes (5 ∷ 0 ∷ 1 ∷ 0 ∷ 77 ∷ 0 ∷ 0 ∷ 0 ∷ 6 ∷ 0 ∷ 2 ∷ 0x80 ∷ 88 ∷ 99 ∷ [])

find_test :
    (find_attr message 0 14 1 ≡ some 0)
    × (find_attr message 0 14 2 ≡ some 8)
    × (find_attr message 0 13 2 ≡ none)
    × (find_attr message 0 14 3 ≡ none)
unfolding find_attr find_loop
find_test = (refl, refl, refl, refl)

find_attr_lem_example :
    (find_attr message 0 14 2 ≡ first_of message 2 (attributes 14 message 0 14))
    × IsWithin message 0 14 2 (find_attr message 0 14 2)
    × ((k : ℕ) → find_loop (14 + k) message 0 14 2 ≡ find_attr message 0 14 2)
    × ((e : Memory) → SameFrom 0 14 message e → find_attr message 0 14 2 ≡ find_attr e 0 14 2)
find_attr_lem_example = find_attr_lem message 0 14 2

-- An empty message behind its headers.
abbrev headers : Message
headers = record { bytes = λ i. 0; nlmsg_len = 20 }

-- The message with three bytes more.
abbrev three_more : Message
three_more = record { bytes = attr_bytes 20 5 (bytes (1 ∷ 2 ∷ 3 ∷ [])) 3 (λ i. 0); nlmsg_len = 28 }

three_added : add_attr align_len 256 5 (bytes (1 ∷ 2 ∷ 3 ∷ [])) 3 headers ≡ some three_more
unfolding add_attr
three_added = refl

add-find_attr_example :
    (find_attr three_more.bytes 20 8 5 ≡ some 20)
    × IsAttr three_more.bytes 20 5 (bytes (1 ∷ 2 ∷ 3 ∷ [])) 3
    × ((x : ℕ) → x < 20 → three_more.bytes x ≡ 0)
    × (28 ≤ 256)
add-find_attr_example =
    add-find_attr align_len 256 5 (bytes (1 ∷ 2 ∷ 3 ∷ [])) 3 headers three_more (omega arith)
      (omega arith) three_added

-- The nested list has one empty SSID.
trigger_test :
    elim (trigger_message align_len 3 0x802d 7 headers) [
      | none ↦ []
      | some m ↦ bytes_from m.bytes 20 16
    ]
    ≡ 8 ∷ 0 ∷ 3 ∷ 0 ∷ 7 ∷ 0 ∷ 0 ∷ 0 ∷ 8 ∷ 0 ∷ 0x2d ∷ 0x80 ∷ 4 ∷ 0 ∷ 1 ∷ 0 ∷ []
unfolding trigger_message add_attr attr_bytes store bytes_from
trigger_test = refl

abbrev numbers : Numbers
numbers = record {
  ctrl_attr_family_id = 1;
  attr_bss = 47;
  bss_bssid = 1;
  bss_frequency = 2;
  bss_signal_mbm = 7;
  bss_information_elements = 6;
}

-- A foreign message, one without an access point, and the end.
abbrev arrivals : List Received
arrivals =
    datagram (
      record {
        seq = 8;
        kind = error_message (negsuc 4);
        memory = message;
        attributes = 0;
        payload = 14;
      }
      ∷ (record { seq = 9; kind = data_message; memory = message; attributes = 0; payload = 14 }
          ∷ []))
    ∷ (datagram (
          record { seq = 9; kind = done_message; memory = message; attributes = 0; payload = 0 }
          ∷ [])
        ∷ [])

dump_test : dump_scan numbers 9 arrivals ≡ some (pos 0, record { count = 1; lines = none ∷ [] })
unfolding dump_scan receive_all walk print_bss find_attr find_loop
dump_test = refl

loops-own_only_example :
    (recv_ack 9 (own_only 9 arrivals) ≡ recv_ack 9 arrivals)
    × (resolve_family numbers 9 (own_only 9 arrivals) ≡ resolve_family numbers 9 arrivals)
    × (dump_scan numbers 9 (own_only 9 arrivals) ≡ dump_scan numbers 9 arrivals)
loops-own_only_example = loops-own_only numbers 9 arrivals

-- A supported-rates element and an SSID of three bytes behind it.
abbrev elements : Memory
elements = bytes (1 ∷ 2 ∷ 130 ∷ 132 ∷ 0 ∷ 3 ∷ b'n' ∷ b'e' ∷ b't' ∷ [])

ssid_test : ssid_loop 9 elements 0 9 ≡ some (b'n' ∷ b'e' ∷ b't' ∷ [])
unfolding ssid_loop bytes_from
ssid_test = refl

ssid_loop_lem_example :
    (ssid_loop (9 - 0 + 5) elements 0 9 ≡ ssid_loop (9 - 0) elements 0 9)
    × (ssid_loop (9 - 0) elements 0 9 ≡ ssid_loop (9 - 0) elements 0 9)
    × IsShort (ssid_loop (9 - 0) elements 0 9)
ssid_loop_lem_example = ssid_loop_lem elements elements 0 9 5 (λ x a b. refl)

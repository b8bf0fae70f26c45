-- ===== src/Netlink/Scan.antt =====
-- rootfs/wifi_scan.c: the loops that receive the kernel's answers, and what is printed of an access point.
-- The sockets are given by what each `recv` delivers, with the messages of a datagram as
-- NLMSG_OK and NLMSG_NEXT walk over them.
use esp32s31_linux_function.Base.{
  ℕ, zero, suc, ◌+◌, ◌-◌, ◌*◌, ◌^◌, Bool, true, false, ◌&&◌, Option, none, some, List, [], ◌∷◌, leb,
  ◌==◌, if◌then◌else◌, ◌⊎◌, inl, inr,
}
use esp32s31_linux_function.Base.Int.{ℤ, pos, negsuc, neg}
use esp32s31_linux_function.Copy.{Memory}
use esp32s31_linux_function.Text.{Text}
use esp32s31_linux_function.Netlink.{u16_at, find_attr}

-- The attributes' numbers in the kernel's headers.
pub record Numbers : Type 0 where
  pub ctrl_attr_family_id : ℕ
  pub attr_bss : ℕ
  pub bss_bssid : ℕ
  pub bss_frequency : ℕ
  pub bss_signal_mbm : ℕ
  pub bss_information_elements : ℕ

-- `nlmsg_type`, with the code of an error.
pub data Kind : Type 0 where
  error_message : ℤ → Kind
  done_message data_message : Kind

-- A message: its header, and the attributes behind the generic header.
pub record Reply : Type 0 where
  pub seq : ℕ
  pub kind : Kind
  pub memory : Memory
  pub attributes : ℕ
  pub payload : ℕ

-- What `recv` delivers: an errno, or a datagram.
pub data Received : Type 0 where
  failed : ℕ → Received
  datagram : List Reply → Received

module _ {ℓ} {S R : Type ℓ} (seq : ℕ) (act : Reply → S → S ⊎ R) (fail_with : ℕ → S → R) where
  -- The messages of a datagram in turn; those with another sequence number are skipped.
  unfoldable pub walk : List Reply → S → S ⊎ R
  walk [] s = inl s
  walk (r ∷ rs) s = elim (r.seq == seq) [
    | true ↦ elim (act r s) [ inl s' ↦ walk rs s' | inr x ↦ inr x ]
    | false ↦ walk rs s
  ]

  -- `for (;;)` over what `recv` delivers, `none` while the answer is still open.
  unfoldable pub receive_all : List Received → S → Option R
  unfolding walk
  receive_all [] s = none
  receive_all (failed errno ∷ rest) s = some (fail_with errno s)
  receive_all (datagram rs ∷ rest) s = elim (walk rs s) [
    | inl s' ↦ receive_all rest s'
    | inr x ↦ some x
  ]

-- `recv_ack`
abbrev pub ack : Reply → Bool → Bool ⊎ ℤ
ack r s = elim (r.kind) [
  | error_message code ↦ inr code
  | done_message ↦ inl s
  | data_message ↦ inl s
]

unfoldable pub recv_ack : ℕ → List Received → Option ℤ
unfolding receive_all
recv_ack seq arrivals = receive_all seq ack (λ errno s. neg (pos errno)) arrivals true

-- The number behind CTRL_ATTR_FAMILY_ID, if it is there.
abbrev pub family_of : Numbers → Reply → Bool → Bool ⊎ ℤ
family_of k r s = elim (find_attr r.memory r.attributes r.payload k.ctrl_attr_family_id) [
  | none ↦ inl s
  | some q ↦ if leb 6 (u16_at r.memory q) then inr (pos (u16_at r.memory (q + 4))) else inl s
]

abbrev pub resolve : Numbers → Reply → Bool → Bool ⊎ ℤ
resolve k r s = elim (r.kind) [
  | error_message code ↦ inr (negsuc 0)
  | done_message ↦ family_of k r s
  | data_message ↦ family_of k r s
]

-- `resolve_family`, once the request is sent
unfoldable pub resolve_family : Numbers → ℕ → List Received → Option ℤ
unfolding receive_all find_attr
resolve_family k seq arrivals = receive_all seq (resolve k) (λ errno s. negsuc 0) arrivals true

unfoldable pub bytes_from : Memory → ℕ → ℕ → Text
bytes_from m p zero = []
bytes_from m p (suc n) = m p ∷ bytes_from m (p + 1) n

-- The loop of `print_bss` over the information elements from `ie` to `stop`, with as many passes as the first
-- argument: the SSID, `none` where it stays hidden.
unfoldable pub ssid_loop : ℕ → Memory → ℕ → ℕ → Option Text
unfolding bytes_from
ssid_loop zero m ie stop = none
ssid_loop (suc n) m ie stop = elim (leb (ie + 2) stop && leb (ie + 2 + m (ie + 1)) stop) [
  | false ↦ none
  | true ↦ elim (m ie == 0 && leb (m (ie + 1)) 32) [
    | true ↦ some (bytes_from m (ie + 2) (m (ie + 1)))
    | false ↦ ssid_loop n m (ie + (2 + m (ie + 1))) stop
  ]
]

-- A printed access point.
pub record BssLine : Type 0 where
  pub bssid : Text
  pub frequency : Option ℕ
  pub signal : Option ℕ
  pub ssid : Option Text

-- The payload of a found attribute: where it starts, and its length.
abbrev pub u32_payload : Memory → Option ℕ → Option ℕ
u32_payload m none = none
u32_payload m (some q) = some (u16_at m (q + 4) + u16_at m (q + 6) * 2 ^ 16)

abbrev pub ssid_of : Memory → Option ℕ → Option Text
ssid_of m none = none
ssid_of m (some q) = ssid_loop (u16_at m q - 4) m (q + 4) (q + u16_at m q)

-- `print_bss`
unfoldable pub print_bss : Numbers → Reply → Option BssLine
unfolding find_attr ssid_loop bytes_from
print_bss k r =
    let m = r.memory in
    elim (find_attr m r.attributes r.payload k.attr_bss) [
      | none ↦ none
      | some bss ↦
          let inside = find_attr m (bss + 4) (u16_at m bss - 4) in
          elim (inside k.bss_bssid) [
            | none ↦ none
            | some bssid ↦
                if leb 10 (u16_at m bssid)
                then some (record {
                  bssid = bytes_from m (bssid + 4) 6;
                  frequency = u32_payload m (inside k.bss_frequency);
                  signal = u32_payload m (inside k.bss_signal_mbm);
                  ssid = ssid_of m (inside k.bss_information_elements);
                })
                else none
          ]
    ]

-- The count of the answers and what has been printed of them, the newest first.
pub record Dump : Type 0 where
  pub count : ℕ
  pub lines : List (Option BssLine)

abbrev pub dump : Numbers → Reply → Dump → Dump ⊎ (ℤ × Dump)
dump k r s = elim (r.kind) [
  | error_message code ↦ inr (negsuc 0, s)
  | done_message ↦ inr (if s.count == 0 then pos 2 else pos 0, s)
  | data_message ↦ inl (record { count = s.count + 1; lines = print_bss k r ∷ s.lines })
]

-- `dump_scan`, once the request is sent
unfoldable pub dump_scan : Numbers → ℕ → List Received → Option (ℤ × Dump)
unfolding receive_all print_bss
dump_scan k seq arrivals =
    receive_all seq (dump k) (λ errno s. (negsuc 0, s)) arrivals (record { count = 0; lines = [] })

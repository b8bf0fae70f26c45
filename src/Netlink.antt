-- ===== src/Netlink.antt =====
-- rootfs/wifi_scan.c: the search for an attribute of a netlink message, which the children use. A message is a memory of bytes,
-- and a pointer into it an address.
pub mod Attributes
pub mod Build
pub mod Found
pub mod Scan
pub mod Foreign
pub mod Ssid
use esp32s31_linux_function.Base.{
  ℕ, zero, suc, ◌+◌, ◌-◌, ◌*◌, ◌/◌, ◌%◌, ◌^◌, Bool, true, false, ◌&&◌, Option, none, some, List, [],
  ◌∷◌, leb, ◌==◌, if◌then◌else◌,
}
use esp32s31_linux_function.Copy.{Memory}

-- A `uint16_t` in the byte order of the machine.
abbrev pub u16_at : Memory → ℕ → ℕ
u16_at m p = m p + m (p + 1) * 2 ^ 8

-- `NLA_ALIGN_LEN(len)`
abbrev pub align_len : ℕ → ℕ
align_len len = (len + 3) / 4 * 4

-- `attr->nla_type & NLA_TYPE_MASK`, the low 14 bits
abbrev pub type_at : Memory → ℕ → ℕ
type_at m p = u16_at m (p + 2) % 2 ^ 14

-- The condition of the loop of `find_attr`.
abbrev pub is_attr : Memory → ℕ → ℕ → Bool
is_attr m p length = leb 4 length && leb 4 (u16_at m p) && leb (u16_at m p) length

-- The loop of `find_attr` at `p`, with as many passes as the first argument. The length that is left is
-- 0 where the program's is negative.
unfoldable pub find_loop : ℕ → Memory → ℕ → ℕ → ℕ → Option ℕ
find_loop zero m p length type = none
find_loop (suc n) m p length type = elim (is_attr m p length) [
  | false ↦ none
  | true ↦ elim (type_at m p == type) [
    | true ↦ some p
    | false ↦ find_loop n m (p + align_len (u16_at m p)) (length - align_len (u16_at m p)) type
  ]
]

-- `find_attr(data, length, type)`, `none` for NULL
unfoldable pub find_attr : Memory → ℕ → ℕ → ℕ → Option ℕ
unfolding find_loop
find_attr m start length type = find_loop length m start length type

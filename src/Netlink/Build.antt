-- ===== src/Netlink/Build.antt =====
-- rootfs/wifi_scan.c: the building of a message. A message is the memory that holds it and the length in
-- its header; `align` is NLMSG_ALIGN of the kernel's headers.
use esp32s31_linux_function.Base.{
  ℕ, ◌+◌, ◌-◌, ◌*◌, ◌/◌, ◌%◌, ◌^◌, ◌&&◌, Option, none, some, leb, ltb, if◌then◌else◌,
}
use esp32s31_linux_function.Copy.{Memory, store}
use esp32s31_linux_function.Netlink.{align_len}

pub record Message : Type 0 where
  pub bytes : Memory
  pub nlmsg_len : ℕ

-- `*(uint16_t *)p = v`
abbrev pub put16 : ℕ → ℕ → Memory → Memory
put16 p v m = store (p + 1) (v / 2 ^ 8 % 2 ^ 8) (store p (v % 2 ^ 8) m)

-- What memcpy or memset of `n` bytes at `p` leaves.
abbrev pub written : ℕ → (ℕ → ℕ) → ℕ → Memory → Memory
written p src n m x = if leb p x && ltb x (p + n) then src (x - p) else m x

-- The attribute at `p`, its padding included.
unfoldable pub attr_bytes : ℕ → ℕ → (ℕ → ℕ) → ℕ → Memory → Memory
attr_bytes p type src length m =
    written (p + (4 + length)) (λ i. 0) (align_len (4 + length) - (4 + length))
      (written (p + 4) src length (put16 p (4 + length) (put16 (p + 2) type m)))

-- `add_attr`, `none` for -1
unfoldable pub add_attr : (ℕ → ℕ) → ℕ → ℕ → (ℕ → ℕ) → ℕ → Message → Option Message
unfolding attr_bytes
add_attr align capacity type src length m =
    if ltb capacity (align m.nlmsg_len + align_len (4 + length))
    then none
    else some (record {
      bytes = attr_bytes (align m.nlmsg_len) type src length m.bytes;
      nlmsg_len = align m.nlmsg_len + align_len (4 + length);
    })

-- `&ifindex`
abbrev pub u32_bytes : ℕ → ℕ → ℕ
u32_bytes v i = v / 2 ^ (8 * i) % 2 ^ 8

-- The message of `trigger_scan` from its headers on, `none` for -1; the kernel's numbers of the interface's
-- attribute and of the nested list of SSIDs are arguments.
unfoldable pub trigger_message : (ℕ → ℕ) → ℕ → ℕ → ℕ → Message → Option Message
unfolding add_attr
trigger_message align attr_ifindex attr_scan_ssids ifindex m =
    elim (add_attr align 256 attr_ifindex (u32_bytes ifindex) 4 m) [
      | none ↦ none
      | some m1 ↦ elim (add_attr align 256 attr_scan_ssids (λ i. 0) 0 m1) [
        | none ↦ none
        | some m2 ↦ elim (add_attr align 256 1 (λ i. 0) 0 m2) [
          | none ↦ none
          | some m3 ↦ some (record m3 {
            bytes = put16 (align m1.nlmsg_len) (m3.nlmsg_len - align m1.nlmsg_len) m3.bytes;
          })
        ]
      ]
    ]

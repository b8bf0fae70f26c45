-- ===== src/Ble.antt =====
-- rootfs/ble_scan.c: BLE discovery over the management socket. A buffer is a function from the index to
-- the byte there, and a pointer into it an index.
pub mod Names
pub mod Devices
use esp32s31_linux_function.Base.{
  ℕ, zero, suc, ◌+◌, ◌-◌, ◌*◌, ◌/◌, ◌%◌, ◌^◌, min, Bool, true, false, not, ◌&&◌, ◌||◌, Option, none,
  some, List, [], ◌∷◌, ◌++◌, leb, ltb, ◌==◌, if◌then◌else◌, length, bit_or,
}

abbrev pub Buffer : Type 0
Buffer = ℕ → ℕ

-- `get_le16(data + i)`
unfoldable pub get_le16 : Buffer → ℕ → ℕ
get_le16 bytes i = bit_or (bytes i) (bytes (i + 1) * 2 ^ 8 % 2 ^ 16)

-- `put_le16`, as the two bytes.
unfoldable pub put_le16 : ℕ → List ℕ
put_le16 value = value % 2 ^ 8 ∷ value / 2 ^ 8 % 2 ^ 8 ∷ []

-- The bytes that `mgmt_command` writes.
unfoldable pub command : ℕ → ℕ → List ℕ → List ℕ
unfolding put_le16
command opcode index parameters =
    put_le16 opcode ++ (put_le16 index ++ (put_le16 (length parameters) ++ parameters))

-- What a pass of a waiting loop meets: the deadline, a failed or empty poll, a failed read, or an event
-- with its length.
pub data Arrival : Type 0 where
  deadline poll_timeout poll_error read_error : Arrival
  event : ℕ → Buffer → Arrival

-- The status that an event brings for the command, if it is its reply: MGMT_EV_CMD_COMPLETE or
-- MGMT_EV_CMD_STATUS.
unfoldable pub reply : ℕ → ℕ → ℕ → Buffer → Option ℕ
unfolding get_le16
reply opcode index len e =
    if ltb len 9 || not (get_le16 e 2 == index)
    then none
    else if get_le16 e 0 == 0x0001 && get_le16 e 6 == opcode
    then some (e 8)
    else if get_le16 e 0 == 0x0002 && get_le16 e 6 == opcode
    then some (e 8)
    else none

pub data Answer : Type 0 where
  accepted timed_out system_error unfinished : Answer
  rejected : ℕ → Answer

-- `mgmt_command` once it has written the command.
unfoldable pub await : ℕ → ℕ → List Arrival → Answer
unfolding reply
await opcode index [] = unfinished
await opcode index (deadline ∷ more) = timed_out
await opcode index (poll_timeout ∷ more) = timed_out
await opcode index (poll_error ∷ more) = system_error
await opcode index (read_error ∷ more) = await opcode index more
await opcode index (event len e ∷ more) = elim (reply opcode index len e) [
  | none ↦ await opcode index more
  | some status ↦ if status == 0 then accepted else rejected status
]

-- `value >= 0x20 && value < 0x7f ? value : '.'`
unfoldable pub printable : ℕ → ℕ
printable value = if leb 0x20 value && ltb value 0x7F then value else b'.'

-- The loop that copies `n` bytes of a name from index `i`.
unfoldable pub name_bytes : Buffer → ℕ → ℕ → List ℕ
unfolding printable
name_bytes bytes i zero = []
name_bytes bytes i (suc n) = printable (bytes i) ∷ name_bytes bytes (i + 1) n

-- `copy_len`
abbrev pub copy_len : ℕ → ℕ → ℕ
copy_len field_len size = if leb size (field_len - 1) then size - 1 else field_len - 1

-- A pass of the loop of `advertisement_name` at a field of that length and type, whose bytes would give
-- the name `found`, where `rest` are the passes behind it.
unfoldable pub name_pass : ℕ → ℕ → List ℕ → List ℕ → (List ℕ → List ℕ) → List ℕ
name_pass field_len type found name rest =
    elim ((type == 0x08 || type == 0x09) && ltb 1 field_len) [
      | false ↦ rest name
      | true ↦ elim (type == 0x09) [ true ↦ found | false ↦ rest found ]
    ]

-- The loop from `offset`, for a buffer `name` of `size` bytes, with as many passes as the first argument.
unfoldable pub name_loop : ℕ → Buffer → ℕ → ℕ → ℕ → List ℕ → List ℕ
unfolding name_bytes name_pass
name_loop zero bytes len size offset name = name
name_loop (suc n) bytes len size offset name =
    elim (leb len offset || (bytes offset == 0 || leb len (offset + bytes offset))) [
      | true ↦ name
      | false ↦
          name_pass (bytes offset) (bytes (offset + 1))
            (name_bytes bytes (offset + 2) (copy_len (bytes offset) size)) name
            (name_loop n bytes len size (offset + bytes offset + 1))
    ]

-- `advertisement_name(data + start, length, name, size)`
unfoldable pub advertisement_name : Buffer → ℕ → ℕ → List ℕ
unfolding name_loop
advertisement_name bytes len size = name_loop len bytes len size 0 []

-- `struct seen_device`
pub record Device : Type 0 where
  pub address : List ℕ
  pub type : ℕ

unfoldable pub same_bytes : List ℕ → List ℕ → Bool
same_bytes [] [] = true
same_bytes [] (y ∷ ys) = false
same_bytes (x ∷ xs) [] = false
same_bytes (x ∷ xs) (y ∷ ys) = x == y && same_bytes xs ys

unfoldable pub already_seen : List Device → Device → Bool
unfolding same_bytes
already_seen [] d = false
already_seen (e ∷ es) d = e.type == d.type && same_bytes e.address d.address || already_seen es d

-- A line that is printed.
pub record Line : Type 0 where
  pub device : Device
  pub rssi : ℕ
  pub name : List ℕ

-- The six bytes of an address at index `i`.
abbrev pub address_at : Buffer → ℕ → List ℕ
address_at e i = e i ∷ e (i + 1) ∷ e (i + 2) ∷ e (i + 3) ∷ e (i + 4) ∷ e (i + 5) ∷ []

abbrev pub max_devices : ℕ
max_devices = 128

abbrev pub device_of : Buffer → Device
device_of e = record { address = address_at e 6; type = e 12 }

-- The tests of `handle_device` on the lengths.
unfoldable pub malformed : Buffer → ℕ → Bool
unfolding get_le16
malformed e len =
    ltb len 20
    || ltb len (get_le16 e 4 + 6)
    || ltb (get_le16 e 4) 14
    || ltb (get_le16 e 4) (get_le16 e 18 + 14)

-- `handle_device` on an event of `len` bytes: the devices and the line that it prints, if it does. The
-- rssi is the byte, of which the program prints the value in two's complement.
unfoldable pub handle_device : Buffer → ℕ → List Device → List Device × Option Line
unfolding malformed already_seen advertisement_name get_le16
handle_device e len devices =
    if malformed e len || already_seen devices (device_of e) then (devices, none) else (
      if ltb (length devices) max_devices then devices ++ (device_of e ∷ []) else devices,
      some (record {
        device = device_of e;
        rssi = e 13;
        name = advertisement_name (λ i. e (20 + i)) (get_le16 e 18) 64;
      }),
    )

-- One event in the loop of `main`.
unfoldable pub scan_event : List Device → ℕ → Buffer → List Device × Option Line
unfolding get_le16 handle_device
scan_event devices len e =
    if leb 6 len && get_le16 e 0 == 0x0012 && get_le16 e 2 == 0
    then handle_device e len devices
    else (devices, none)

-- The loop of `main`: the devices, and the lines printed in order.
unfoldable pub scan : List Device → List Arrival → List Device × List Line
unfolding scan_event
scan devices [] = (devices, [])
scan devices (deadline ∷ more) = (devices, [])
scan devices (poll_timeout ∷ more) = (devices, [])
scan devices (poll_error ∷ more) = (devices, [])
scan devices (read_error ∷ more) = scan devices more
scan devices (event len e ∷ more) =
    let (devices', line) = scan_event devices len e in
    let (last, lines) = scan devices' more in
    (last, elim line [ none ↦ lines | some l ↦ l ∷ lines ])

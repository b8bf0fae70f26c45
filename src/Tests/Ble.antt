-- ===== src/Tests/Ble.antt =====
-- The BLE scan of rootfs/ble_scan.c on concrete inputs.
use esp32s31_linux_function.Base.{
  ℕ, zero, suc, ◌+◌, ◌<◌, ◌≤◌, ◌≡◌, refl, List, [], ◌∷◌, arith, length,
}
use esp32s31_linux_function.Ble.{
  Buffer, get_le16, command, put_le16, accepted, timed_out, rejected, reply, await, event,
  read_error, deadline, printable, name_bytes, name_pass, name_loop, advertisement_name, scan,
  max_devices,
}
use esp32s31_linux_function.Ble.Names.{fields, best}
use esp32s31_linux_function.Ble.Names.Bounds.{Agree, advertisement_name_lem}
use esp32s31_linux_function.Ble.Devices.{Distinct, devices_of, scan_lem}

-- Those bytes, and zeros behind them.
abbrev buffer : List ℕ → Buffer
buffer [] i = 0
buffer (b ∷ bs) zero = b
buffer (b ∷ bs) (suc i) = buffer bs i

-- Flags, a shortened name `AB`, and a complete name `ABC` with an unprintable byte.
abbrev advertisement : List ℕ
advertisement = 2 ∷ 1 ∷ 6 ∷ 3 ∷ 8 ∷ b'A' ∷ b'B' ∷ 5 ∷ 9 ∷ b'A' ∷ 7 ∷ b'B' ∷ b'C' ∷ []

name_test : advertisement_name (buffer advertisement) 13 64 ≡ b'A' ∷ b'.' ∷ b'B' ∷ b'C' ∷ []
unfolding advertisement_name name_loop name_pass name_bytes printable
name_test = refl

-- A buffer of three bytes cuts the name, and data that ends before the last field leaves the other.
cut_name_test :
    (advertisement_name (buffer advertisement) 13 3 ≡ b'A' ∷ b'.' ∷ [])
    × (advertisement_name (buffer advertisement) 12 64 ≡ b'A' ∷ b'B' ∷ [])
unfolding advertisement_name name_loop name_pass name_bytes printable
cut_name_test = (refl, refl)

advertisement_name_lem_example :
    let d = buffer advertisement in
    (advertisement_name d 13 64 ≡ best d 64 [] (fields 13 d 13 0))
    × (length (advertisement_name d 13 64) < 64)
    × ((k : ℕ) → name_loop (13 + k) d 13 64 0 [] ≡ advertisement_name d 13 64)
    × ((e : Buffer) → Agree 13 d e → advertisement_name e 13 64 ≡ advertisement_name d 13 64)
advertisement_name_lem_example = advertisement_name_lem (buffer advertisement) 13 64 (omega arith)

-- The event of a device with that advertisement.
abbrev found : Buffer
found = buffer (
    0x12 ∷ 0 ∷ 0 ∷ 0 ∷ 27 ∷ 0 ∷ 6 ∷ 5 ∷ 4 ∷ 3 ∷ 2 ∷ 1 ∷ 1 ∷ 200 ∷ 0 ∷ 0 ∷ 0 ∷ 0 ∷ 13 ∷ 0
    ∷ advertisement)

-- The device is printed once although two events report it, and not from an event that is too short.
scan_test :
    let (devices, lines) = scan [] (
      event 32 found
      ∷ event 33 found
      ∷ read_error
      ∷ event 33 found
      ∷ deadline
      ∷ event 33 found
      ∷ []) in
    (length devices ≡ 1) × (length lines ≡ 1)
unfolding scan
scan_test = (refl, refl)

scan_lem_example :
    let (devices, lines) = scan [] (event 33 found ∷ event 33 found ∷ []) in
    (length devices ≤ max_devices)
    × Distinct devices
    × (length lines ≤ max_devices → devices ≡ devices_of lines)
scan_lem_example = scan_lem (event 33 found ∷ event 33 found ∷ [])

-- The command that starts the discovery, and its reply among other events.
start_discovery_test : command 0x0023 0 (6 ∷ []) ≡ 0x23 ∷ 0 ∷ 0 ∷ 0 ∷ 1 ∷ 0 ∷ 6 ∷ []
unfolding command put_le16
start_discovery_test = refl

await_test :
    (await 0x0023 0
        (event 33 found ∷ event 9 (buffer (1 ∷ 0 ∷ 0 ∷ 0 ∷ 3 ∷ 0 ∷ 0x23 ∷ 0 ∷ 0 ∷ [])) ∷ [])
      ≡ accepted)
    × (await 0x0023 0 (event 9 (buffer (2 ∷ 0 ∷ 0 ∷ 0 ∷ 3 ∷ 0 ∷ 0x23 ∷ 0 ∷ 11 ∷ [])) ∷ [])
        ≡ rejected 11)
    × (await 0x0023 0 (event 33 found ∷ deadline ∷ []) ≡ timed_out)
unfolding await reply get_le16
await_test = (refl, refl, refl)

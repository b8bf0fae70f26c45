-- ===== src/Ble/Devices.antt =====
-- The devices that a scan remembers and prints.
use esp32s31_linux_function.Base.{
  ℕ, ◌+◌, ◌≤◌, ◌<◌, ◌≡◌, refl, sym, ap, ◌∙◌, Bool, true, false, ◌&&◌, ◌||◌, Option, none, some,
  List, [], ◌∷◌, ◌++◌, append-nil, append_assoc, leb, ltb, ◌==◌, if◌then◌else◌, arith, length,
  length-append, inl, inr, Bool-cases,
}
use esp32s31_linux_function.Ble.{
  Buffer, get_le16, Device, Line, Arrival, deadline, poll_timeout, poll_error, read_error, event,
  same_bytes, already_seen, device_of, max_devices, malformed, advertisement_name, handle_device,
  scan_event, scan,
}
use esp32s31_linux_function.Ble.Names.Bounds.{Agree, advertisement_name_lem}

abbrev same_device : Device → Device → Bool
same_device e d = e.type == d.type && same_bytes e.address d.address

abbrev Apart : Device → List Device → Type 0
Apart e [] = Unit
Apart e (d ∷ ds) = (same_device e d ≡ false) × Apart e ds

-- No device is remembered twice.
abbrev pub Distinct : List Device → Type 0
Distinct [] = Unit
Distinct (d ∷ ds) = Apart d ds × Distinct ds

Apart-snoc :
    (e : Device) (ds : List Device) (d : Device)
    → Apart e ds
    → same_device e d ≡ false
    → Apart e (ds ++ (d ∷ []))
Apart-snoc e [] d a s = (s, tt)
Apart-snoc e (x ∷ ds) d a s = (a.0, Apart-snoc e ds d a.1 s)

Distinct-snoc :
    (ds : List Device) (d : Device)
    → Distinct ds
    → already_seen ds d ≡ false
    → Distinct (ds ++ (d ∷ []))
unfolding already_seen
Distinct-snoc [] d h s = (tt, tt)
Distinct-snoc (e ∷ ds) d h s =
    (Apart-snoc e ds d h.0 (ground arith), Distinct-snoc ds d h.1 (ground arith))

abbrev pub devices_of : List Line → List Device
devices_of [] = []
devices_of (l ∷ ls) = l.device ∷ devices_of ls

-- What a step makes of the devices: they stay, or a device that is reported is added if there is room.
abbrev Steps : List Device → List Device × Option Line → Type 0
Steps ds (ds', none) = ds' ≡ ds
Steps ds (ds', some l) =
    (already_seen ds l.device ≡ false)
    × (ds' ≡ (if ltb (length ds) max_devices then ds ++ (l.device ∷ []) else ds))

handle_device-Steps : (e : Buffer) (len : ℕ) (ds : List Device) → Steps ds (handle_device e len ds)
unfolding handle_device
handle_device-Steps e len ds =
    elim (Bool-cases (malformed e len || already_seen ds (device_of e))) [
      | inl b ↦ rw b refl
      | inr b ↦ rw b (ground arith, refl)
    ]

scan_event-Steps : (ds : List Device) (len : ℕ) (e : Buffer) → Steps ds (scan_event ds len e)
unfolding scan_event
scan_event-Steps ds len e =
    elim (Bool-cases (leb 6 len && get_le16 e 0 == 0x0012 && get_le16 e 2 == 0)) [
      | inl b ↦ rw b (handle_device-Steps e len ds)
      | inr b ↦ rw b refl
    ]

-- What a scan from these devices leaves and prints.
abbrev Scanned : List Device → List Device × List Line → Type 0
Scanned ds (last, lines) =
    (length last ≤ max_devices)
    × Distinct last
    × (length ds + length lines ≤ max_devices → last ≡ ds ++ devices_of lines)

one_more :
    (ds ds' : List Device) (line : Option Line) (last : List Device) (lines : List Line)
    → Steps ds (ds', line)
    → Scanned ds' (last, lines)
    → Scanned ds (last, elim line [ none ↦ lines | some l ↦ l ∷ lines ])
one_more ds ds' none last lines e (few, apart, all) =
    (few, apart, (λ h. all (rw e h) ∙ ap (λ x. x ++ devices_of lines) e))
one_more ds ds' (some l) last lines (fresh, e) (few, apart, all) = (
  few,
  apart,
  (λ h.
      let room : ltb (length ds) max_devices ≡ true = ground arith in
      let grown : ds' ≡ ds ++ (l.device ∷ []) = rw room at e in
      let count : length ds' ≡ length ds + 1 = ap length grown ∙ length-append ds (l.device ∷ []) in
      all (omega arith)
      ∙ ap (λ x. x ++ devices_of lines) grown
      ∙ append_assoc ds (l.device ∷ []) (devices_of lines)),
)

Steps-keeps :
    (ds ds' : List Device) (line : Option Line)
    → length ds ≤ max_devices
    → Distinct ds
    → Steps ds (ds', line)
    → (length ds' ≤ max_devices) × Distinct ds'
Steps-keeps ds ds' none few apart e = rw e (few, apart)
Steps-keeps ds ds' (some l) few apart (fresh, e) = elim (Bool-cases (ltb (length ds) max_devices)) [
  | inl room ↦
      let grown : ds' ≡ ds ++ (l.device ∷ []) = rw room at e in
      let less : length ds < max_devices = ground arith in
      let count : length ds' ≡ length ds + 1 = ap length grown ∙ length-append ds (l.device ∷ []) in
      (omega arith, rw grown (Distinct-snoc ds l.device apart fresh))
  | inr full ↦ rw (e, full) (few, apart)
]

scan-Scanned :
    (ds : List Device) (arrivals : List Arrival)
    → length ds ≤ max_devices
    → Distinct ds
    → Scanned ds (scan ds arrivals)
unfolding scan
scan-Scanned ds [] few apart = (few, apart, λ h. sym (append-nil ds))
scan-Scanned ds (deadline ∷ more) few apart = (few, apart, λ h. sym (append-nil ds))
scan-Scanned ds (poll_timeout ∷ more) few apart = (few, apart, λ h. sym (append-nil ds))
scan-Scanned ds (poll_error ∷ more) few apart = (few, apart, λ h. sym (append-nil ds))
scan-Scanned ds (read_error ∷ more) few apart = scan-Scanned ds more few apart
scan-Scanned ds (event len e ∷ more) few apart =
    let steps = scan_event-Steps ds len e in
    let ds' = (scan_event ds len e).0 in
    let (few', apart') = Steps-keeps ds ds' (scan_event ds len e).1 few apart steps in
    one_more ds ds' (scan_event ds len e).1 (scan ds' more).0 (scan ds' more).1 steps
      (scan-Scanned ds' more few' apart')

-- A scan of any events remembers no device twice and no more than 128; and if it prints at most 128
-- lines, these are for the remembered devices, one for each and in their order.
pub scan_lem :
    (arrivals : List Arrival)
    → let (devices, lines) = scan [] arrivals in
      (length devices ≤ max_devices)
      × Distinct devices
      × (length lines ≤ max_devices → devices ≡ devices_of lines)
scan_lem arrivals =
    let (few, apart, all) = scan-Scanned [] arrivals (omega arith) tt in
    (few, apart, λ h. all (omega arith))

get_le16-Agree :
    (len : ℕ) (d e : Buffer) (i : ℕ) → Agree len d e → i + 1 < len → get_le16 d i ≡ get_le16 e i
unfolding get_le16
get_le16-Agree len d e i h p = rw (h i (omega arith), h (i + 1) p) refl

-- With as many bytes as the tests ask for, what they read.
malformed-Agree : (d e : Buffer) (len : ℕ) → Agree len d e → malformed d len ≡ malformed e len
unfolding malformed
malformed-Agree d e len h = elim (Bool-cases (ltb len 20)) [
  | inl short ↦ rw short refl
  | inr long ↦
      let p : 19 < len = ground arith in
      let param : get_le16 d 4 ≡ get_le16 e 4 = get_le16-Agree len d e 4 h (omega arith) in
      let eir : get_le16 d 18 ≡ get_le16 e 18 = get_le16-Agree len d e 18 h p in
      rw (long, param, eir) refl
]

device_of-Agree : (len : ℕ) (d e : Buffer) → Agree len d e → 19 < len → device_of d ≡ device_of e
device_of-Agree len d e h p =
    rw
      (
        h 6 (omega arith),
        h 7 (omega arith),
        h 8 (omega arith),
        h 9 (omega arith),
        h 10 (omega arith),
        h 11 (omega arith),
        h 12 (omega arith),
      )
      refl

-- An event is handled alike whatever lies behind its `len` bytes.
handle_device-Agree :
    (d e : Buffer) (len : ℕ) (devices : List Device)
    → Agree len d e
    → handle_device d len devices ≡ handle_device e len devices
unfolding handle_device malformed
handle_device-Agree d e len devices h = elim (Bool-cases (malformed e len)) [
  | inl bad ↦
      let bad' : malformed d len ≡ true = malformed-Agree d e len h ∙ bad in rw (bad, bad') refl
  | inr good ↦
      let good' : malformed d len ≡ false = malformed-Agree d e len h ∙ good in
      let p : 19 < len = ground arith in
      let same : device_of d ≡ device_of e = device_of-Agree len d e h p in
      let eir : get_le16 d 18 ≡ get_le16 e 18 = get_le16-Agree len d e 18 h p in
      let within : get_le16 e 18 + 20 ≤ len = ground arith in
      let (best, fits, enough, agree) =
        advertisement_name_lem (λ i. d (20 + i)) (get_le16 e 18) 64 (omega arith) in
      let name : advertisement_name (λ i. d (20 + i)) (get_le16 e 18) 64
          ≡ advertisement_name (λ i. e (20 + i)) (get_le16 e 18) 64 =
        sym (agree (λ i. e (20 + i)) (λ i q. h (20 + i) (omega arith))) in
      rw (good, good', same, eir, h 13 (omega arith), name) refl
]

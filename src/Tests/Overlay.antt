-- ===== src/Tests/Overlay.antt =====
-- The overlay manager of rootfs/s31_overlay.c on concrete inputs.
use esp32s31_linux_function.Base.{
  ℕ, ◌<◌, ◌≡◌, refl, true, false, Option, none, some, List, [], ◌∷◌, ◌++◌, arith, ltb,
  if◌then◌else◌, length, replicate,
}
use esp32s31_linux_function.Base.Bits.{test_bit}
use esp32s31_linux_function.Text.{Text, same, take, until, cut, tokens, fgets, starts_with, drop}
use esp32s31_linux_function.Text.Lines.{lines_text}
use esp32s31_linux_function.Overlay.{
  Answers, Files, config_len, all_bytes, valid_name, valid_gpio, first_word, update_config,
  write_persist, read_persist, keep_lines, print_lines, read_lines, read_line, read_ended,
  read_overlay,
}
use esp32s31_linux_function.Overlay.Lines.{IsOverlayLine}
use esp32s31_linux_function.Overlay.Update.{others, updated, fit, update_config-updated}
use esp32s31_linux_function.Overlay.Routes.{
  Fdt, done, route_name, route_kind, matrix_input, pinmux, fdt32, with_pin, prop_is, pin_word,
  is_matrix, patch_nodes, patch_route,
}
use esp32s31_linux_function.Overlay.Routes.Pins.{OnePin, IsAccepted, patch_route-OnePin}
use esp32s31_linux_function.Overlay.Commands.{
  removed, Driver, Io, World, is_volatile, build_spec, read_current, patch_all, apply_spec,
  apply_all, record_config, record_update, apply, restore_lines, restore,
}
use esp32s31_linux_function.Overlay.Commands.Recorded.{IsEmptied, restored, apply-restore}

-- Two overlays: `lcd`, and `i2c` with a route.
abbrev lcd : Text
lcd = b'l' ∷ b'c' ∷ b'd' ∷ []

abbrev i2c : Text
i2c = b'i' ∷ b'2' ∷ b'c' ∷ []

abbrev sda : Text
sda = b's' ∷ b'd' ∷ b'a' ∷ []

abbrev assignment : Text
assignment = sda ++ (b'=' ∷ b'5' ∷ [])

abbrev i2c_line : Text
i2c_line = i2c ++ (b' ' ∷ assignment)

lcd-IsOverlayLine : IsOverlayLine lcd
unfolding first_word valid_name all_bytes until
lcd-IsOverlayLine = record {
  line = (refl, (refl, (refl, tt)));
  one_line = (refl, (refl, (refl, tt)));
  name = refl;
  short = omega arith;
}

i2c_line-IsOverlayLine : IsOverlayLine i2c_line
unfolding first_word valid_name all_bytes until
i2c_line-IsOverlayLine = record {
  line = (refl, (refl, (refl, (refl, (refl, (refl, (refl, (refl, (refl, tt)))))))));
  one_line = (refl, (refl, (refl, (refl, (refl, (refl, (refl, (refl, (refl, tt)))))))));
  name = refl;
  short = omega arith;
}

valid_gpio_test :
    (valid_gpio 25 ≡ true)
    × (valid_gpio 26 ≡ false)
    × (valid_gpio 58 ≡ true)
    × (valid_gpio 62 ≡ false)
unfolding valid_gpio
valid_gpio_test = (refl, refl, refl, refl)

valid_name_test :
    (valid_name i2c ≡ true) × (valid_name (b'I' ∷ []) ≡ false) × (valid_name [] ≡ false)
unfolding valid_name all_bytes
valid_name_test = (refl, refl, refl)

abbrev both : List Text
both = i2c_line ∷ lcd ∷ []

update_config-updated_example :
    update_config (lines_text both) config_len i2c (some i2c)
    ≡ fit config_len (lines_text (updated i2c (some i2c) both))
update_config-updated_example =
    update_config-updated both config_len i2c (some i2c)
      (i2c_line-IsOverlayLine.line, (lcd-IsOverlayLine.line, tt)) (omega arith)

updated_test : updated i2c (some i2c) both ≡ lcd ∷ i2c ∷ []
unfolding others first_word same until
updated_test = refl

abbrev works : Answers
works = record {
  mkdir_fails = false;
  open_fails = false;
  print_fails = λ i. false;
  commit_fails = false;
}

abbrev no_files : Files
no_files = record { persisted = none; temporary = none }

-- A line of 500 bytes with a name of three is stored and read back cut off.
abbrev long_line : Text
long_line = i2c ++ (b' ' ∷ replicate 496 b'x')

long_line_test :
    (let (f', e) = write_persist works (lines_text (long_line ∷ [])) no_files in
      elim f'.persisted [ none ↦ none | some file ↦ read_persist file config_len ])
    ≡ some (lines_text (take 499 long_line ∷ []))
unfolding write_persist print_lines read_persist read_lines read_line read_ended read_overlay
    lines_text tokens fgets take first_word until cut valid_name all_bytes starts_with drop
long_line_test = refl

-- A blob of one node, whose pin configuration is the blob.
abbrev toy_fdt : Fdt
toy_fdt = record {
  Blob = ℕ;
  nodes = λ b. 7 ∷ [];
  getprop = λ b n p.
      if same p route_name
      then some (sda ++ (0 ∷ []))
      else if same p route_kind
      then some (matrix_input ++ (0 ∷ []))
      else if same p pinmux
      then some (0 ∷ 0 ∷ 18 ∷ b ∷ [])
      else none;
  setprop_u32 = λ b n p v. some v;
}

abbrev five : Text → Option ℕ
five t = some 5

patched : patch_route toy_fdt five 9 assignment ≡ done 0x1205
unfolding patch_route patch_nodes prop_is pin_word is_matrix with_pin fdt32 cut valid_gpio same
    until
patched = refl

patch_route-OnePin_example :
    (route number : Text) × (gpio : ℕ) × (cut b'=' assignment ≡ some (route, number))
    × (five number ≡ some gpio)
    × IsAccepted gpio
    × (p : OnePin toy_fdt route gpio 9 0x1205) × ((i : ℕ)
        → i < 32
        → test_bit i (with_pin p.old gpio)
          ≡ (if ltb i 8 then test_bit i gpio else test_bit i p.old))
patch_route-OnePin_example = patch_route-OnePin toy_fdt five 9 assignment 0x1205 patched

abbrev toy_driver : Driver ℕ
toy_driver = record {
  State = List ℕ;
  remove_all = λ s. removed [];
  remove_name = λ s n. removed [];
  write = λ s b. some (s ++ (b ∷ []));
}

abbrev toy_io : Io ℕ
toy_io = record {
  load = λ name. some 9;
  strtoul = five;
  read_current_fails = false;
  write_current_fails = false;
  persist = works;
  open_persist_fails = false;
}

abbrev booted : World (List ℕ)
booted = record { device = 9 ∷ []; current = some (lines_text (lcd ∷ [])); files = no_files }

applied : (apply toy_fdt toy_driver toy_io i2c (assignment ∷ []) booted).1 ≡ 0
unfolding apply record_update record_config read_current apply_spec patch_all patch_route
    patch_nodes prop_is pin_word is_matrix with_pin fdt32 cut valid_gpio same until build_spec
    is_volatile update_config keep_lines write_persist print_lines tokens first_word valid_name
    all_bytes take lines_text
applied = refl

built : build_spec i2c (assignment ∷ []) ≡ some i2c_line
unfolding build_spec same
built = refl

lcd_text : length (lines_text (lcd ∷ [])) ≡ 4
unfolding lines_text
lcd_text = refl

persistent : is_volatile (assignment ∷ []) ≡ false
unfolding is_volatile same
persistent = refl

-- After the restore the device has `lcd` and the patched `i2c`.
restore_test :
    let w1 = (apply toy_fdt toy_driver toy_io i2c (assignment ∷ []) booted).0 in
    (restore toy_fdt toy_driver toy_io (record w1 { device = 1 ∷ 2 ∷ [] })).0.device
    ≡ 9 ∷ 0x1205 ∷ []
unfolding apply record_update record_config read_current apply_spec patch_all patch_route
    patch_nodes prop_is pin_word is_matrix with_pin fdt32 cut valid_gpio same until build_spec
    is_volatile update_config keep_lines write_persist print_lines tokens first_word valid_name
    all_bytes take lines_text restore restore_lines apply_all read_persist read_lines read_line
    read_ended read_overlay fgets starts_with drop
restore_test = refl

restore_succeeds :
    (restored toy_fdt toy_driver toy_io toy_io i2c (assignment ∷ []) booted (1 ∷ 2 ∷ [])).1 ≡ 0
unfolding apply record_update record_config read_current apply_spec patch_all patch_route
    patch_nodes prop_is pin_word is_matrix with_pin fdt32 cut valid_gpio same until build_spec
    is_volatile update_config keep_lines write_persist print_lines tokens first_word valid_name
    all_bytes take lines_text restore restore_lines apply_all read_persist read_lines read_line
    read_ended read_overlay fgets starts_with drop
restore_succeeds = refl

apply-restore_example :
    let w2 =
      (restored toy_fdt toy_driver toy_io toy_io i2c (assignment ∷ []) booted (1 ∷ 2 ∷ [])).0 in
    ((s : List ℕ) × IsEmptied toy_fdt toy_driver toy_io (1 ∷ 2 ∷ []) s
      × (apply_all toy_fdt toy_driver toy_io (updated i2c (some i2c_line) (lcd ∷ [])) s
          ≡ (w2.device, true)))
    × (w2.current ≡ (apply toy_fdt toy_driver toy_io i2c (assignment ∷ []) booted).0.current)
apply-restore_example =
    apply-restore toy_fdt toy_driver toy_io toy_io i2c (assignment ∷ []) i2c_line (lcd ∷ []) booted
      (1 ∷ 2 ∷ []) (lcd-IsOverlayLine, tt) refl (omega (arith, lcd_text)) built
      i2c_line-IsOverlayLine persistent applied restore_succeeds

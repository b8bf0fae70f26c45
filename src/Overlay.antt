-- ===== src/Overlay.antt =====
-- rootfs/s31_overlay.c: the set of device-tree overlays that is kept in a text, one line for each: its
-- name, and behind a blank the routes that were asked for.
pub mod Update
pub mod Persist
pub mod Lines
pub mod Routes
pub mod Commands
use esp32s31_linux_function.Base.{
  ℕ, zero, suc, ◌+◌, ◌≡◌, Bool, true, false, not, ◌&&◌, ◌||◌, Option, none, some, List, [], ◌∷◌,
  ◌++◌, ltb, leb, ◌==◌, if◌then◌else◌, length,
}
use esp32s31_linux_function.Text.{Text, same, starts_with, until, drop, cut, tokens, fgets}
use esp32s31_linux_function.Text.Lines.{is_newline}

-- `CONFIG_LEN`, `NAME_LEN`
abbrev pub config_len : ℕ
config_len = 2024

abbrev pub name_len : ℕ
name_len = 32

abbrev pub name_byte : ℕ → Bool
name_byte c = leb b'a' c && leb c b'z' || (leb b'0' c && leb c b'9' || (c == b'-' || c == b'_'))

unfoldable pub all_bytes : (ℕ → Bool) → Text → Bool
all_bytes test [] = true
all_bytes test (c ∷ cs) = test c && all_bytes test cs

unfoldable pub valid_name : Text → Bool
valid_name name = not (length name == 0 || leb name_len (length name)) && all_bytes name_byte name

-- `valid_gpio`: the pins of the flash interface and three pads are refused; those of the console, GPIO58
-- and GPIO59, are not.
unfoldable pub valid_gpio : ℕ → Bool
valid_gpio gpio =
    ltb gpio 62
    && (ltb gpio 26 || ltb 32 gpio)
    && not (gpio == 33)
    && not (gpio == 34)
    && not (gpio == 41)

-- `" \t"`
abbrev pub is_blank : ℕ → Bool
is_blank c = c == b' ' || c == b'\t'

-- The first `strcspn(line, " \t")` bytes.
unfoldable pub first_word : Text → Text
unfolding until
first_word line = until is_blank line

-- What the loop of `update_config` appends to the buffer of `size` bytes, of which `used` are taken.
unfoldable pub keep_lines : ℕ → Text → ℕ → List Text → Option Text
unfolding first_word same
keep_lines size name used [] = some []
keep_lines size name used (line ∷ lines) = elim (same name (first_word line)) [
  | true ↦ keep_lines size name used lines
  | false ↦ elim (ltb size (used + length line + 2)) [
    | true ↦ none
    | false ↦ elim (keep_lines size name (used + length line + 1) lines) [
      | none ↦ none
      | some text ↦ some (line ++ (b'\n' ∷ text))
    ]
  ]
]

-- `update_config`: the new configuration, or `none` for E2BIG. `replacement` is `none` for NULL.
unfoldable pub update_config : Text → ℕ → Text → Option Text → Option Text
unfolding keep_lines tokens
update_config config size name replacement =
    elim (keep_lines size name 0 (tokens is_newline [] config)) [
      | none ↦ none
      | some kept ↦ elim replacement [
        | none ↦ some kept
        | some line ↦
            if ltb size (length kept + length line + 2)
            then none
            else some (kept ++ (line ++ (b'\n' ∷ [])))
      ]
    ]

-- `"overlay."`
abbrev pub prefix : Text
prefix = b'o' ∷ b'v' ∷ b'e' ∷ b'r' ∷ b'l' ∷ b'a' ∷ b'y' ∷ b'.' ∷ []

-- `errno` as the program sets it, or as a system call has left it.
pub data Errno : Type 0 where
  einval e2big enoent eexist eopnotsupp system : Errno

-- What `write_persist` writes for the lines, before the first line that it refuses and the first for
-- which `dprintf` fails, and whether all went well.
unfoldable pub print_lines : (ℕ → Bool) → ℕ → List Text → Text × Option Errno
unfolding first_word
print_lines print_fails i [] = ([], none)
print_lines print_fails i (line ∷ lines) =
    elim (length (first_word line) == 0 || leb name_len (length (first_word line))) [
      | true ↦ ([], some einval)
      | false ↦ elim (print_fails i) [
        | true ↦ ([], some system)
        | false ↦
            let (text, error) = print_lines print_fails (i + 1) lines in
            (prefix ++ (first_word line ++ (b'=' ∷ (line ++ (b'\n' ∷ text)))), error)
      ]
    ]

-- The answers of the file system to `write_persist`.
pub record Answers : Type 0 where
  pub mkdir_fails : Bool
  pub open_fails : Bool
  pub print_fails : ℕ → Bool
  pub commit_fails : Bool

-- The persistent file and its temporary sibling, `none` where there is none.
pub record Files : Type 0 where
  pub persisted : Option Text
  pub temporary : Option Text

-- `write_persist`
unfoldable pub write_persist : Answers → Text → Files → Files × Option Errno
unfolding print_lines tokens
write_persist a config f =
    if leb config_len (length config)
    then (f, some e2big)
    else if a.mkdir_fails || a.open_fails
    then (f, some system)
    else let (text, error) = print_lines a.print_fails 0 (tokens is_newline [] config) in
      elim error [
        | some e ↦ (record f { temporary = none }, some e)
        | none ↦
            if a.commit_fails
            then (record f { temporary = none }, some system)
            else (record { persisted = some text; temporary = none }, none)
      ]

-- `"\r\n"`
abbrev pub is_line_end : ℕ → Bool
is_line_end c = c == b'\r' || c == b'\n'

-- What one line of the file means: nothing, an overlay's line, or an error.
pub data Meaning : Type 0 where
  skip refuse : Meaning
  overlay : Text → Meaning

-- What a line that starts with "overlay." means, from its parts around the first `=`.
unfoldable pub read_overlay : Text × Text → Meaning
unfolding valid_name all_bytes drop
read_overlay (name, value) =
    if not (valid_name (drop 8 name)) || length value == 0 then refuse else overlay value

-- A line without its end.
unfoldable pub read_ended : Text → Meaning
unfolding read_overlay
read_ended [] = skip
read_ended (c ∷ cs) = if c == b'#' then skip else elim (cut b'=' (c ∷ cs)) [
  | none ↦ skip
  | some parts ↦ if not (starts_with prefix (c ∷ cs)) then skip else read_overlay parts
]

unfoldable pub read_line : Text → Meaning
unfolding read_ended
read_line raw = read_ended (until is_line_end raw)

unfoldable pub read_lines : ℕ → ℕ → List Text → Option Text
unfolding read_line
read_lines size used [] = some []
read_lines size used (raw ∷ raws) = elim (read_line raw) [
  | skip ↦ read_lines size used raws
  | refuse ↦ none
  | overlay value ↦ elim (ltb size (used + length value + 2)) [
    | true ↦ none
    | false ↦ elim (read_lines size (used + length value + 1) raws) [
      | none ↦ none
      | some text ↦ some (value ++ (b'\n' ∷ text))
    ]
  ]
]

-- `read_persist` of an existing file into a buffer of `size` bytes; `none` is EINVAL. Its own buffer
-- has 512 bytes.
unfoldable pub read_persist : Text → ℕ → Option Text
unfolding read_lines fgets
read_persist file size = read_lines size 0 (fgets 510 510 [] file)

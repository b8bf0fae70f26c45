-- ===== src/Overlay/Commands.antt =====
-- rootfs/s31_overlay.c: the commands `apply`, `remove` and `restore`. The overlay driver of the kernel is
-- an interface, the files of the tools are texts, and what may fail is answered by `Io`.
pub mod Recorded
use esp32s31_linux_function.Base.{
  ℕ, ◌+◌, ◌-◌, Bool, true, false, not, ◌&&◌, ◌||◌, Option, none, some, List, [], ◌∷◌, ◌++◌, leb,
  ltb, ◌==◌, if◌then◌else◌, length,
}
use esp32s31_linux_function.Text.{Text, same, take, tokens}
use esp32s31_linux_function.Text.Lines.{is_newline}
use esp32s31_linux_function.Overlay.{
  Answers, Files, config_len, valid_name, is_blank, update_config, write_persist, read_persist,
}
use esp32s31_linux_function.Overlay.Routes.{Fdt, Result, done, failed, patch_route}

-- What a removal of the driver ends with: the new state, ENOENT, or another error.
pub data Removal (S : Type 0) : Type 0 where
  removed : S → Removal S
  nothing refused : Removal S

-- The device /dev/s31-overlay, as a process sees it.
pub record Driver (B : Type 0) : Type 1 where
  pub State : Type 0
  pub remove_all : State → Removal State
  pub remove_name : State → Text → Removal State
  pub write : State → B → Option State

-- What the calls of the system answer. `load` is `load_blob`; `open_persist_fails` says that the opening
-- for reading fails, and not because there is no such file, device or data.
pub record Io (B : Type 0) : Type 0 where
  pub load : Text → Option B
  pub strtoul : Text → Option ℕ
  pub read_current_fails : Bool
  pub write_current_fails : Bool
  pub persist : Answers
  pub open_persist_fails : Bool

pub record World (S : Type 0) : Type 0 where
  pub device : S
  pub current : Option Text
  pub files : Files

-- `"--volatile"`, `"--all"`
abbrev pub volatile_flag : Text
volatile_flag = b'-' ∷ b'-' ∷ b'v' ∷ b'o' ∷ b'l' ∷ b'a' ∷ b't' ∷ b'i' ∷ b'l' ∷ b'e' ∷ []

abbrev pub all_flag : Text
all_flag = b'-' ∷ b'-' ∷ b'a' ∷ b'l' ∷ b'l' ∷ []

unfoldable pub is_volatile : List Text → Bool
unfolding same
is_volatile [] = false
is_volatile (a ∷ args) = same a volatile_flag || is_volatile args

-- The specification of `apply`, behind what it has so far; `none` is E2BIG.
unfoldable pub build_spec : Text → List Text → Option Text
unfolding same
build_spec spec [] = some spec
build_spec spec (a ∷ args) = elim (same a volatile_flag) [
  | true ↦ build_spec spec args
  | false ↦ elim (ltb 512 (length spec + length a + 2)) [
    | true ↦ none
    | false ↦ build_spec (spec ++ (b' ' ∷ a)) args
  ]
]

-- `read_current` into a buffer of `config_len` bytes
unfoldable pub read_current : Bool → Option Text → Option Text
unfolding take
read_current fails none = some []
read_current fails (some t) = if fails then none else some (take (config_len - 1) t)

module _ (F : Fdt) (D : Driver F.Blob) (io : Io F.Blob) where
  unfoldable pub patch_all : F.Blob → List Text → Result F.Blob
  patch_all b [] = done b
  patch_all b (a ∷ args) = elim (patch_route F io.strtoul b a) [
    | failed e ↦ failed e
    | done b' ↦ patch_all b' args
  ]

  -- `apply_spec`, with whether it succeeded.
  unfoldable pub apply_spec : Text → D.State → D.State × Bool
  unfolding tokens valid_name patch_all
  apply_spec spec s = if leb 512 (length spec) then (s, false) else elim (tokens is_blank [] spec) [
    | [] ↦ (s, false)
    | name ∷ args ↦ if not (valid_name name) then (s, false) else elim (io.load name) [
      | none ↦ (s, false)
      | some b ↦ elim (patch_all b args) [
        | failed e ↦ (s, false)
        | done b' ↦ elim (D.write s b') [ none ↦ (s, false) | some s' ↦ (s', true) ]
      ]
    ]
  ]

  unfoldable pub apply_all : List Text → D.State → D.State × Bool
  apply_all [] s = (s, true)
  apply_all (l ∷ ls) s =
      let (s', ok) = apply_spec l s in elim ok [ true ↦ apply_all ls s' | false ↦ (s', false) ]

  -- `write_current(config) || (persist && write_persist(config))`, with the exit status.
  unfoldable pub record_config : Text → Bool → World D.State → World D.State × ℕ
  record_config config persist w =
      if io.write_current_fails
      then (w, 1)
      else if persist
      then (let (f, error) = write_persist io.persist config w.files in
          (record w { current = some config; files = f }, elim error [ none ↦ 0 | some e ↦ 1 ]))
      else (record w { current = some config }, 0)

  -- `read_current`, `update_config` and what follows.
  unfoldable pub record_update : Text → Option Text → Bool → World D.State → World D.State × ℕ
  unfolding read_current record_config
  record_update name replacement persist w = elim (read_current io.read_current_fails w.current) [
    | none ↦ (w, 1)
    | some config ↦ elim (update_config config config_len name replacement) [
      | none ↦ (w, 1)
      | some new ↦ record_config new persist w
    ]
  ]

  -- `apply name args...`: the exit status.
  unfoldable pub apply : Text → List Text → World D.State → World D.State × ℕ
  unfolding build_spec apply_spec record_update is_volatile
  apply name args w = if not (valid_name name) then (w, 2) else elim (build_spec name args) [
    | none ↦ (w, 1)
    | some spec ↦
        let (s, ok) = apply_spec spec w.device in
        if ok
        then record_update name (some spec) (not (is_volatile args)) (record w { device = s })
        else (record w { device = s }, 1)
  ]

  -- `remove name` and `remove --all`, with `--volatile` or without.
  unfoldable pub remove : Text → Bool → World D.State → World D.State × ℕ
  unfolding same read_current record_update record_config
  remove name volatile w =
      if same name all_flag
      then elim (D.remove_all w.device) [
        | removed s ↦ elim (read_current io.read_current_fails w.current) [
          | none ↦ (record w { device = s }, 1)
          | some old ↦ record_config [] (not volatile) (record w { device = s })
        ]
        | nothing ↦ (w, 1)
        | refused ↦ (w, 1)
      ]
      else if not (valid_name name)
      then (w, 2)
      else elim (D.remove_name w.device name) [
        | removed s ↦ record_update name none (not volatile) (record w { device = s })
        | nothing ↦ (w, 1)
        | refused ↦ (w, 1)
      ]

  -- The device after `manager_remove(NULL)`, whatever it returns.
  abbrev pub emptied : D.State → D.State
  emptied s = elim (D.remove_all s) [ removed s' ↦ s' | nothing ↦ s | refused ↦ s ]

  -- `restore` behind the removal.
  unfoldable pub restore_lines : Text → D.State → World D.State → World D.State × ℕ
  unfolding tokens apply_all
  restore_lines config s w =
      let (s', ok) = apply_all (tokens is_newline [] config) s in
      if not ok
      then (record w { device = emptied s' }, 1)
      else if io.write_current_fails
      then (record w { device = s' }, 1)
      else (record w { device = s'; current = some config }, 0)

  unfoldable pub restore : World D.State → World D.State × ℕ
  unfolding restore_lines
  restore w = if io.open_persist_fails then (w, 1) else elim w.files.persisted [
    | none ↦ (w, 0)
    | some file ↦ elim (read_persist file config_len) [
      | none ↦ (w, 1)
      | some config ↦ elim (D.remove_all w.device) [
        | removed s ↦ restore_lines config s w
        | nothing ↦ restore_lines config w.device w
        | refused ↦ (w, 1)
      ]
    ]
  ]

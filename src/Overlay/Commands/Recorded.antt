-- ===== src/Overlay/Commands/Recorded.antt =====
-- What the commands record, and that a restore brings it back.
use esp32s31_linux_function.Base.{
  ℕ, zero, suc, ◌-◌, ◌≤◌, ◌<◌, ◌≡◌, refl, sym, ap, ap₂, ◌∙◌, subst, Bool, true, false, not, Option,
  none, some, List, [], ◌∷◌, ltb, arith, length, inl, inr, ◌⊎◌, Bool-cases, Option-cases,
}
use esp32s31_linux_function.Text.{Text, same, take}
use esp32s31_linux_function.Text.Lines.{lines_text, AreLines, tokens-lines_text}
use esp32s31_linux_function.Overlay.{
  config_len, valid_name, first_word, write_persist, read_persist,
}
use esp32s31_linux_function.Overlay.Lines.{IsOverlayLine}
use esp32s31_linux_function.Overlay.Update.{others, new_lines, updated, update_config-updated}
use esp32s31_linux_function.Overlay.Persist.{
  AreOverlayLines, AreOverlayLines-AreLines, write-read_persist,
}
use esp32s31_linux_function.Overlay.Routes.{Fdt}
use esp32s31_linux_function.Overlay.Commands.{
  Removal, removed, nothing, refused, Driver, Io, World, is_volatile, build_spec, read_current,
  apply_spec, apply_all, record_config, record_update, apply, restore_lines, restore,
}

take_all : (n : ℕ) (t : Text) → length t ≤ n → take n t ≡ t
unfolding take
take_all zero [] h = refl
take_all zero (c ∷ cs) h = absurd (omega arith)
take_all (suc n) [] h = refl
take_all (suc n) (c ∷ cs) h = ap (λ t. c ∷ t) (take_all n cs (omega arith))

-- The recorded text; no file means no overlays.
abbrev pub current_text : Option Text → Text
current_text none = []
current_text (some t) = t

read_current-text :
    (fails : Bool) (current : Option Text)
    → length (current_text current) < config_len
    → (read_current fails current ≡ none)
      ⊎ (read_current fails current ≡ some (current_text current))
unfolding read_current
read_current-text fails none h = inr refl
read_current-text true (some t) h = inl refl
read_current-text false (some t) h = inr (ap some (take_all (config_len - 1) t (omega arith)))

others-AreOverlayLines :
    (name : Text) (ls : List Text) (new : Option Text)
    → AreOverlayLines ls
    → AreOverlayLines (new_lines new)
    → AreOverlayLines (updated name new ls)
unfolding others
others-AreOverlayLines name [] new g n = n
others-AreOverlayLines name (l ∷ ls) new g n = elim (Bool-cases (same name (first_word l))) [
  | inl e ↦ rw e (others-AreOverlayLines name ls new g.1 n)
  | inr e ↦ rw e (g.0, others-AreOverlayLines name ls new g.1 n)
]

-- These lines are the recorded ones, and also the persistent ones if `persist` says so.
abbrev pub Recorded : {S : Type 0} → List Text → Bool → World S → Type 0
Recorded ls persist w =
    (w.current ≡ some (lines_text ls))
    × (persist ≡ true
        → (file : Text) × (w.files.persisted ≡ some file)
          × (read_persist file config_len ≡ some (lines_text ls)))

Removal-cases :
    {S : Type 0} (r : Removal S) → ((s : S) × (r ≡ removed s)) ⊎ ((r ≡ nothing) ⊎ (r ≡ refused))
Removal-cases (removed s) = inl (s, refl)
Removal-cases nothing = inr (inl refl)
Removal-cases refused = inr (inr refl)

module _ (F : Fdt) (D : Driver F.Blob) (io : Io F.Blob) where
  record_config-Recorded :
      (ls : List Text) (persist : Bool) (w : World D.State)
      → AreOverlayLines ls
      → (record_config F D io (lines_text ls) persist w).1 ≡ 0
      → Recorded ls persist (record_config F D io (lines_text ls) persist w).0
        × ((record_config F D io (lines_text ls) persist w).0.device ≡ w.device)
  unfolding record_config
  record_config-Recorded ls false w g = elim (Bool-cases io.write_current_fails) [
    | inl f ↦ rw f (λ e. absurd (ground arith))
    | inr f ↦ rw f (λ e. ((refl, λ p. absurd (ground arith)), refl))
  ]
  record_config-Recorded ls true w g = elim (Bool-cases io.write_current_fails) [
    | inl f ↦ rw f (λ e. absurd (ground arith))
    | inr f ↦ rw f (elim (Option-cases (write_persist io.persist (lines_text ls) w.files).1) [
      | inr (er, q) ↦ rw q (λ e. absurd (ground arith))
      | inl q ↦
          rw q (λ e. ((refl, λ p. ((write-read_persist io.persist ls w.files g).0 q).1), refl))
    ])
  ]

  record_update-Recorded :
      (ls : List Text) (name : Text) (new : Option Text) (persist : Bool) (w : World D.State)
      → AreOverlayLines ls
      → AreOverlayLines (new_lines new)
      → current_text w.current ≡ lines_text ls
      → length (lines_text ls) < config_len
      → (record_update F D io name new persist w).1 ≡ 0
      → Recorded (updated name new ls) persist (record_update F D io name new persist w).0
        × ((record_update F D io name new persist w).0.device ≡ w.device)
  unfolding record_update
  record_update-Recorded ls name new persist w g n is short =
      elim (read_current-text io.read_current_fails w.current
        (subst (λ t. length t < config_len) (sym is) short)) [
          | inl r ↦ rw (record_update, r) (λ e. absurd (ground arith))
          | inr r ↦
              rw
                (
                  record_update,
                  r ∙ ap some is,
                  update_config-updated ls config_len name new (AreOverlayLines-AreLines ls g)
                      (omega arith),
                )
                (elim (Bool-cases (ltb (length (lines_text (updated name new ls))) config_len)) [
                  | inr b ↦ rw b (λ e. absurd (ground arith))
                  | inl b ↦ rw b (
                      record_config-Recorded (updated name new ls) persist w
                        (others-AreOverlayLines name ls new g n))
                ])
        ]

  -- A successful `apply` of a specification that is an overlay line, on a recorded set of such lines
  -- that fits the buffers: the overlay was applied to the device, and the recorded set is the old one
  -- without the lines of this name and with the specification at its end. Unless `--volatile` was
  -- given, the persistent file is read back as this set too.
  pub apply_lem :
      (name : Text) (args : List Text) (spec : Text) (ls : List Text) (w : World D.State)
      → AreOverlayLines ls
      → current_text w.current ≡ lines_text ls
      → length (lines_text ls) < config_len
      → build_spec name args ≡ some spec
      → IsOverlayLine spec
      → (apply F D io name args w).1 ≡ 0
      → let w' = (apply F D io name args w).0 in
        (apply_spec F D io spec w.device ≡ (w'.device, true))
        × Recorded (updated name (some spec) ls) (not (is_volatile args)) w'
  unfolding apply
  apply_lem name args spec ls w g is short b line = elim (Bool-cases (valid_name name)) [
    | inr v ↦ rw v (λ e. absurd (ground arith))
    | inl v ↦
        rw (v, b)
          (elim (Bool-cases (apply_spec F D io spec w.device).1) [
            | inr k ↦ rw k (λ e. absurd (ground arith))
            | inl k ↦ rw k (λ e.
                let (kept, same_device) =
                  record_update-Recorded ls name (some spec) (not (is_volatile args))
                    (record w { device = (apply_spec F D io spec w.device).0 }) g (line, tt) is
                    short e in
                (ap₂ (λ s b. (s, b)) (sym same_device) k, kept))
          ])
  ]

  -- The device after the removal at the start of a restore.
  abbrev pub IsEmptied : D.State → D.State → Type 0
  IsEmptied d s = (D.remove_all d ≡ removed s) ⊎ ((D.remove_all d ≡ nothing) × (s ≡ d))

  restore_lines-lem :
      (ls : List Text) (s : D.State) (w : World D.State)
      → AreLines ls
      → (restore_lines F D io (lines_text ls) s w).1 ≡ 0
      → (apply_all F D io ls s ≡ ((restore_lines F D io (lines_text ls) s w).0.device, true))
        × ((restore_lines F D io (lines_text ls) s w).0.current ≡ some (lines_text ls))
  unfolding restore_lines
  restore_lines-lem ls s w g =
      rw (restore_lines, tokens-lines_text ls g)
        (elim (Bool-cases (apply_all F D io ls s).1) [
          | inr k ↦ rw k (λ e. absurd (ground arith))
          | inl k ↦ rw k (elim (Bool-cases io.write_current_fails) [
            | inl f ↦ rw f (λ e. absurd (ground arith))
            | inr f ↦ simp f (λ e. (ap₂ (λ t b. (t, b)) refl k, refl))
          ])
        ])

  -- A successful `restore` from a file that reads as these lines empties the device and applies them to
  -- it in order, and records them.
  pub restore_lem :
      (ls : List Text) (file : Text) (w : World D.State)
      → AreLines ls
      → w.files.persisted ≡ some file
      → read_persist file config_len ≡ some (lines_text ls)
      → (restore F D io w).1 ≡ 0
      → let w' = (restore F D io w).0 in
        ((s : D.State) × IsEmptied w.device s × (apply_all F D io ls s ≡ (w'.device, true)))
        × (w'.current ≡ some (lines_text ls))
  unfolding restore
  restore_lem ls file w g there reads = elim (Bool-cases io.open_persist_fails) [
    | inl o ↦ rw (restore, o) (λ e. absurd (ground arith))
    | inr o ↦ elim (Removal-cases (D.remove_all w.device)) [
      | inl (s, r) ↦
          simp (restore, o, there, reads, r)
            (λ e. let (all, text) = restore_lines-lem ls s w g e in ((s, inl refl, all), text))
      | inr (inl r) ↦
          simp (restore, o, there, reads, r)
            (λ e.
              let (all, text) = restore_lines-lem ls w.device w g e in
              ((w.device, inr (refl, refl), all), text))
      | inr (inr r) ↦ simp (restore, o, there, reads, r) (λ e. absurd (ground arith))
    ]
  ]

-- A `restore` after an `apply`, when the device has become `d`.
abbrev pub restored :
    (F : Fdt) (D : Driver F.Blob) (io later : Io F.Blob)
    → Text
    → List Text
    → World D.State
    → D.State
    → World D.State × ℕ
restored F D io later name args w d =
    restore F D later (record ((apply F D io name args w).0) { device = d })

-- After a successful `apply` without `--volatile` as in `apply_lem`, a `restore` that succeeds, whatever
-- became of the device in between, empties the device, applies to it all lines of the recorded set, the
-- new specification last, and records the same set.
pub apply-restore :
    (F : Fdt) (D : Driver F.Blob) (io later : Io F.Blob) (name : Text) (args : List Text)
    (spec : Text) (ls : List Text) (w : World D.State) (d : D.State)
    → AreOverlayLines ls
    → current_text w.current ≡ lines_text ls
    → length (lines_text ls) < config_len
    → build_spec name args ≡ some spec
    → IsOverlayLine spec
    → is_volatile args ≡ false
    → (apply F D io name args w).1 ≡ 0
    → (restored F D io later name args w d).1 ≡ 0
    → let w2 = (restored F D io later name args w d).0 in
      ((s : D.State) × IsEmptied F D later d s
        × (apply_all F D later (updated name (some spec) ls) s ≡ (w2.device, true)))
      × (w2.current ≡ (apply F D io name args w).0.current)
apply-restore F D io later name args spec ls w d g is short b line kept ok status =
    let w1 = (apply F D io name args w).0 in
    let (applied, (recorded, stored)) = apply_lem F D io name args spec ls w g is short b line ok in
    let (file, there, reads) = stored (rw kept refl) in
    let (device, text) =
      restore_lem F D later (updated name (some spec) ls) file (record w1 { device = d })
        (AreOverlayLines-AreLines (updated name (some spec) ls)
          (others-AreOverlayLines name ls (some spec) g (line, tt)))
        there reads status in
    (device, text ∙ sym recorded)

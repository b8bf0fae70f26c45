-- ===== src/Overlay/Update.antt =====
-- `update_config` against the lists of lines.
use esp32s31_linux_function.Base.{
  ℕ, ◌+◌, ◌<◌, ◌≡◌, refl, true, false, Option, none, some, List, [], ◌∷◌, ◌++◌, append-nil,
  append_assoc, ltb, if◌then◌else◌, arith, length, length-append, inl, inr, Bool-cases,
}
use esp32s31_linux_function.Text.{Text, same}
use esp32s31_linux_function.Text.Lines.{lines_text, AreLines, tokens-lines_text, length-lines_text}
use esp32s31_linux_function.Overlay.{first_word, keep_lines, update_config}

-- The lines of the other overlays.
unfoldable pub others : Text → List Text → List Text
others name [] = []
others name (l ∷ ls) =
    let rest = others name ls in if same name (first_word l) then rest else l ∷ rest

abbrev pub new_lines : Option Text → List Text
new_lines none = []
new_lines (some line) = line ∷ []

-- The text, if it fits into a buffer of `size` bytes with its NUL.
abbrev pub fit : ℕ → Text → Option Text
fit size text = if ltb (length text) size then some text else none

lines_text-append :
    (ls : List Text) (l : Text) → lines_text (ls ++ (l ∷ [])) ≡ lines_text ls ++ (l ++ (b'\n' ∷ []))
unfolding lines_text
lines_text-append [] l = refl
lines_text-append (k ∷ ls) l = rw (lines_text-append ls l, append_assoc) refl

-- One line that is kept, in front of what the rest gives.
pub keep_line :
    (size used : ℕ) (l t : Text) (rest : Option Text)
    → length (l ++ (b'\n' ∷ t)) ≡ length l + 1 + length t
    → (used + length l + 1 < size
        → rest ≡ (if ltb (used + length l + 1 + length t) size then some t else none))
    → (elim (ltb size (used + length l + 2)) as (λ b. Option Text) [
      | true ↦ none
      | false ↦ elim rest [ none ↦ none | some text ↦ some (l ++ (b'\n' ∷ text)) ]
    ])
      ≡ (if ltb (used + length (l ++ (b'\n' ∷ t))) size then some (l ++ (b'\n' ∷ t)) else none)
keep_line size used l t rest total h = elim (Bool-cases (ltb size (used + length l + 2))) [
  | inl big ↦
      let over : ltb (used + length (l ++ (b'\n' ∷ t))) size ≡ false = ground arith in
      rw (big, over) refl
  | inr room ↦
      rw (room, h (ground arith))
        (elim (Bool-cases (ltb (used + length l + 1 + length t) size)) [
          | inl a ↦
              let b : ltb (used + length (l ++ (b'\n' ∷ t))) size ≡ true = ground arith in
              rw (a, b) refl
          | inr a ↦
              let b : ltb (used + length (l ++ (b'\n' ∷ t))) size ≡ false = ground arith in
              rw (a, b) refl
        ])
]

keep_lines_lem :
    (size : ℕ) (name : Text) (used : ℕ) (ls : List Text)
    → used < size
    → keep_lines size name used ls ≡ (
        if ltb (used + length (lines_text (others name ls))) size
        then some (lines_text (others name ls))
        else none)
unfolding keep_lines others lines_text
keep_lines_lem size name used [] h = let e : ltb (used + 0) size ≡ true = ground arith in rw e refl
keep_lines_lem size name used (l ∷ ls) h = elim (Bool-cases (same name (first_word l))) [
  | inl d ↦ rw (keep_lines, d) (keep_lines_lem size name used ls h)
  | inr d ↦
      rw (keep_lines, d)
        (keep_line size used l (lines_text (others name ls))
          (keep_lines size name (used + length l + 1) ls) (length-lines_text l (others name ls))
          (λ room. keep_lines_lem size name (used + length l + 1) ls room))
]

-- The lines of the other overlays in order, and behind them the new one, if there is one.
abbrev pub updated : Text → Option Text → List Text → List Text
updated name replacement ls = others name ls ++ new_lines replacement

-- From a configuration of lines, `update_config` drops those of the named overlay, keeps the others in
-- their order and appends the replacement; it fails exactly when the result with its NUL does not fit
-- into the buffer.
pub update_config-updated :
    (ls : List Text) (size : ℕ) (name : Text) (replacement : Option Text)
    → AreLines ls
    → 0 < size
    → update_config (lines_text ls) size name replacement
      ≡ fit size (lines_text (updated name replacement ls))
unfolding update_config
update_config-updated ls size name replacement good some_room =
    rw (update_config, tokens-lines_text ls good, keep_lines_lem size name 0 ls some_room)
      (appended replacement)
  where
    kept : Text
    kept = lines_text (others name ls)

    total : (l : Text) → length (kept ++ (l ++ (b'\n' ∷ []))) ≡ length kept + (length l + 1)
    total l = omega (arith, length-append kept (l ++ (b'\n' ∷ [])), length-append l (b'\n' ∷ []))

    appended :
        (replacement : Option Text)
        → (elim (if ltb (0 + length kept) size then some kept else none) as (λ o. Option Text) [
          | none ↦ none
          | some text ↦ elim replacement [
            | none ↦ some text
            | some line ↦
                if ltb size (length text + length line + 2)
                then none
                else some (text ++ (line ++ (b'\n' ∷ [])))
          ]
        ])
          ≡ fit size (lines_text (others name ls ++ new_lines replacement))
    appended none = rw append-nil (elim (Bool-cases (ltb (length kept) size)) [
      | inl e ↦ let f : ltb (0 + length kept) size ≡ true = ground arith in rw (f, e) refl
      | inr e ↦ let f : ltb (0 + length kept) size ≡ false = ground arith in rw (f, e) refl
    ])
    appended (some l) =
        rw (lines_text-append (others name ls) l) (elim (Bool-cases (ltb (0 + length kept) size)) [
          | inl e ↦ rw e (elim (Bool-cases (ltb size (length kept + length l + 2))) [
            | inl f ↦
                let g : ltb (length (kept ++ (l ++ (b'\n' ∷ [])))) size ≡ false =
                  ground (arith, total l) in
                rw (f, g) refl
            | inr f ↦
                let g : ltb (length (kept ++ (l ++ (b'\n' ∷ [])))) size ≡ true =
                  ground (arith, total l) in
                rw (f, g) refl
          ])
          | inr e ↦
              let g : ltb (length (kept ++ (l ++ (b'\n' ∷ [])))) size ≡ false =
                ground (arith, total l) in
              rw (e, g) refl
        ])

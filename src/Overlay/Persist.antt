-- ===== src/Overlay/Persist.antt =====
-- Writing the persistent file and reading it back.
use esp32s31_linux_function.Base.{
  ℕ, ◌+◌, ◌<◌, ◌≡◌, ◌≢◌, refl, sym, ap, ◌∙◌, Bool, true, false, ◌||◌, none, some, List, [], ◌∷◌,
  ◌++◌, append_assoc, leb, ltb, ◌==◌, if◌then◌else◌, arith, length, inl, inr, Bool-cases,
  Option-cases,
}
use esp32s31_linux_function.Text.{Text, fgets}
use esp32s31_linux_function.Text.Lines.{
  lines_text, AreLines, tokens-lines_text, length-lines_text, fgets-line,
}
use esp32s31_linux_function.Overlay.{
  Answers, Files, config_len, name_len, first_word, prefix, print_lines, write_persist, read_lines,
  read_persist,
}
use esp32s31_linux_function.Overlay.Update.{fit, keep_line}
use esp32s31_linux_function.Overlay.Lines.{
  IsOverlayLine, file_line, file_line-newline, file_line-length, read_line-file_line,
  first_word-length,
}

abbrev pub AreOverlayLines : List Text → Type 0
AreOverlayLines [] = Unit
AreOverlayLines (l ∷ ls) = IsOverlayLine l × AreOverlayLines ls

pub AreOverlayLines-AreLines : (ls : List Text) → AreOverlayLines ls → AreLines ls
AreOverlayLines-AreLines [] g = tt
AreOverlayLines-AreLines (l ∷ ls) g = (g.0.line, AreOverlayLines-AreLines ls g.1)

-- The file for the lines.
unfoldable pub file_text : List Text → Text
file_text [] = []
file_text (l ∷ ls) = file_line l ++ (b'\n' ∷ file_text ls)

-- What `fgets` delivers of it.
raw_lines : List Text → List Text
raw_lines [] = []
raw_lines (l ∷ ls) = (file_line l ++ (b'\n' ∷ [])) ∷ raw_lines ls

fgets-file_text :
    (ls : List Text) → AreOverlayLines ls → fgets 510 510 [] (file_text ls) ≡ raw_lines ls
unfolding file_text raw_lines
fgets-file_text [] g = unfold fgets in refl
fgets-file_text (l ∷ ls) g =
    fgets-line 510 510 [] (file_line l) (file_text ls) (file_line-newline l g.0)
      (file_line-length l g.0)
    ∙ ap (λ r. (file_line l ++ (b'\n' ∷ [])) ∷ r) (fgets-file_text ls g.1)

read_lines-raw_lines :
    (size used : ℕ) (ls : List Text)
    → AreOverlayLines ls
    → used < size
    → read_lines size used (raw_lines ls)
      ≡ (if ltb (used + length (lines_text ls)) size then some (lines_text ls) else none)
unfolding raw_lines read_lines lines_text
read_lines-raw_lines size used [] g h =
    let e : ltb (used + 0) size ≡ true = ground arith in rw e refl
read_lines-raw_lines size used (l ∷ ls) g h =
    rw (read_lines, read_line-file_line l g.0)
      (keep_line size used l (lines_text ls) (read_lines size (used + length l + 1) (raw_lines ls))
        (length-lines_text l ls)
        (λ room. read_lines-raw_lines size (used + length l + 1) ls g.1 room))

starts_at :
    (size : ℕ) (ls : List Text)
    → (if ltb (0 + length (lines_text ls)) size then some (lines_text ls) else none)
      ≡ fit size (lines_text ls)
starts_at size ls =
    let e : 0 + length (lines_text ls) ≡ length (lines_text ls) = omega arith in rw e refl

pub read_persist-file_text :
    (size : ℕ) (ls : List Text)
    → AreOverlayLines ls
    → 0 < size
    → read_persist (file_text ls) size ≡ fit size (lines_text ls)
unfolding read_persist
read_persist-file_text size ls g h =
    rw (read_persist, fgets-file_text ls g) (read_lines-raw_lines size 0 ls g h ∙ starts_at size ls)

file_line-append : (l t : Text) → file_line l ++ t ≡ prefix ++ (first_word l ++ (b'=' ∷ (l ++ t)))
file_line-append l t = ap (λ u. prefix ++ u) (append_assoc (first_word l) (b'=' ∷ l) t)

-- What was printed, if nothing failed.
print_lines-file_text :
    (fails : ℕ → Bool) (i : ℕ) (ls : List Text)
    → (print_lines fails i ls).1 ≡ none
    → (print_lines fails i ls).0 ≡ file_text ls
unfolding print_lines file_text
print_lines-file_text fails i [] = λ e. refl
print_lines-file_text fails i (l ∷ ls) =
    elim (Bool-cases (length (first_word l) == 0 || leb name_len (length (first_word l)))) [
      | inl b ↦ rw (print_lines, b) (λ e. absurd (ground arith))
      | inr b ↦
          rw (print_lines, b)
            (elim (Bool-cases (fails i)) [
              | inl c ↦ rw c (λ e. absurd (ground arith))
              | inr c ↦ rw c (λ e.
                  rw (print_lines-file_text fails (i + 1) ls e)
                    (sym (file_line-append l (b'\n' ∷ file_text ls))))
            ])
    ]

-- Nothing fails for lines with valid names, if no print does.
print_lines-none :
    (fails : ℕ → Bool) (i : ℕ) (ls : List Text)
    → AreOverlayLines ls
    → ((j : ℕ) → fails j ≡ false)
    → (print_lines fails i ls).1 ≡ none
unfolding print_lines
print_lines-none fails i [] g quiet = refl
print_lines-none fails i (l ∷ ls) g quiet =
    rw (print_lines, first_word-length l g.0, quiet i) (print_lines-none fails (i + 1) ls g.1 quiet)

-- Writing a configuration of overlay lines: on success the file is read back as this configuration, and
-- there is no temporary file; on failure the persistent file is as it was. It succeeds if no call of the
-- file system fails and the configuration is shorter than the buffers. A line may have up to 501 bytes
-- with its name counted twice.
pub write-read_persist :
    (a : Answers) (ls : List Text) (f : Files)
    → AreOverlayLines ls
    → let (f', e) = write_persist a (lines_text ls) f in
      (e ≡ none
        → (f'.temporary ≡ none)
          × ((file : Text) × (f'.persisted ≡ some file)
              × (read_persist file config_len ≡ some (lines_text ls))))
      × (e ≢ none → f'.persisted ≡ f.persisted)
      × (length (lines_text ls) < config_len
          → (a.mkdir_fails ≡ false)
          → (a.open_fails ≡ false)
          → ((i : ℕ) → a.print_fails i ≡ false)
          → (a.commit_fails ≡ false)
          → e ≡ none)
unfolding write_persist
write-read_persist a ls f g =
    rw (tokens-lines_text ls (AreOverlayLines-AreLines ls g))
      (elim (Bool-cases (leb config_len (length (lines_text ls)))) [
        | inl b ↦
            rw b ((λ e. absurd (ground arith)), (λ e. refl), λ short m o p c. absurd (ground arith))
        | inr b ↦ rw b (elim (Bool-cases (a.mkdir_fails || a.open_fails)) [
          | inl d ↦
              rw d
                ((λ e. absurd (ground arith)), (λ e. refl), λ short m o p c. absurd (ground arith))
          | inr d ↦ rw d (elim (Option-cases (print_lines a.print_fails 0 ls).1) [
            | inr (er, q) ↦ rw q (
              (λ e. absurd (ground arith)),
              (λ e. refl),
              λ short m o p c. absurd (ground (arith, q, print_lines-none a.print_fails 0 ls g p)),
            )
            | inl q ↦ rw q (elim (Bool-cases a.commit_fails) [
              | inl k ↦ rw k (
                (λ e. absurd (ground arith)),
                (λ e. refl),
                λ short m o p c. absurd (ground arith),
              )
              | inr k ↦ rw k (
                (λ e. (
                  refl,
                  (
                    file_text ls,
                    ap some (
                        ap (λ ts. (print_lines a.print_fails 0 ts).0)
                          (tokens-lines_text ls (AreOverlayLines-AreLines ls g))
                        ∙ print_lines-file_text a.print_fails 0 ls q),
                    read_persist-file_text config_len ls g (omega arith) ∙ fits (ground arith),
                  ),
                )),
                (λ e. absurd (e refl)),
                λ short m o p c. refl,
              )
            ])
          ])
        ])
      ])
  where
    fits :
        length (lines_text ls) < config_len → fit config_len (lines_text ls) ≡ some (lines_text ls)
    fits h = let e : ltb (length (lines_text ls)) config_len ≡ true = ground arith in rw e refl

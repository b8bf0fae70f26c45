-- ===== src/Overlay/Lines.antt =====
-- One line of the configuration in the persistent file.
use esp32s31_linux_function.Base.{
  ℕ, ◌+◌, ◌≤◌, ◌≡◌, ◌≢◌, refl, Bool, true, false, ◌||◌, [], ◌∷◌, ◌++◌, leb, ◌==◌, arith, length,
  length-append, inl, inr, Bool-cases,
}
use esp32s31_linux_function.Text.{Text, until, drop, starts_with}
use esp32s31_linux_function.Text.Lines.{Free, IsLine, is_newline, Free-append, cut-Free, until-Free}
use esp32s31_linux_function.Overlay.{
  name_byte, name_len, all_bytes, valid_name, first_word, is_blank, prefix, is_line_end, overlay,
  read_line, read_ended, read_overlay,
}

-- A line that is read back as it was written: it has a valid name and no carriage return, and the line
-- of the file, with the name twice, fits into the 512 bytes of the reader.
pub record IsOverlayLine (l : Text) : Type 0 where
  pub line : IsLine l
  pub one_line : Free is_line_end l
  pub name : valid_name (first_word l) ≡ true
  pub short : length (first_word l) + length l ≤ 501

-- `"overlay.%.*s=%s"`
abbrev pub file_line : Text → Text
file_line l = prefix ++ (first_word l ++ (b'=' ∷ l))

until-keeps : (stop other : ℕ → Bool) (l : Text) → Free other l → Free other (until stop l)
unfolding until
until-keeps stop other [] f = tt
until-keeps stop other (c ∷ cs) f = elim (Bool-cases (stop c)) [
  | inl e ↦ rw e tt
  | inr e ↦ rw e (f.0, until-keeps stop other cs f.1)
]

first_word-keeps : (other : ℕ → Bool) (l : Text) → Free other l → Free other (first_word l)
unfolding first_word
first_word-keeps other l f = until-keeps is_blank other l f

no_equal : (l : Text) → all_bytes name_byte l ≡ true → Free (λ c. c == b'=') l
unfolding all_bytes
no_equal [] h = tt
no_equal (c ∷ cs) h = (ground arith, no_equal cs (ground arith))

valid_name-bytes :
    (n : Text)
    → valid_name n ≡ true
    → (all_bytes name_byte n ≡ true) × (length n ≢ 0) × (length n ≤ 31)
unfolding valid_name
valid_name-bytes n h = (ground arith, ground arith, ground arith)

file_line-Free : (l : Text) → IsOverlayLine l → Free is_line_end (file_line l)
file_line-Free l g =
    Free-append is_line_end prefix (first_word l ++ (b'=' ∷ l))
      (refl, (refl, (refl, (refl, (refl, (refl, (refl, (refl, tt))))))))
      (Free-append is_line_end (first_word l) (b'=' ∷ l) (first_word-keeps is_line_end l g.one_line)
        (refl, g.one_line))

newline-Free : (l : Text) → Free is_line_end l → Free is_newline l
newline-Free [] f = tt
newline-Free (c ∷ cs) f = (ground (arith, f.0), newline-Free cs f.1)

pub file_line-newline : (l : Text) → IsOverlayLine l → Free is_newline (file_line l)
file_line-newline l g = newline-Free (file_line l) (file_line-Free l g)

pub file_line-length : (l : Text) → IsOverlayLine l → length (file_line l) ≤ 510
file_line-length l g = omega (
  arith,
  length-append prefix (first_word l ++ (b'=' ∷ l)),
  length-append (first_word l) (b'=' ∷ l),
  g.short,
)

some_bytes : (l : Text) → IsLine l → (length l == 0) ≡ false
some_bytes [] h = absurd h
some_bytes (c ∷ cs) h = ground arith

-- The reader takes the line of the file for the line of the configuration.
pub read_line-file_line :
    (l : Text) → IsOverlayLine l → read_line (file_line l ++ (b'\n' ∷ [])) ≡ overlay l
unfolding read_line read_overlay starts_with drop
read_line-file_line l g =
    let whole = until-Free is_line_end (file_line l) b'\n' [] (file_line-Free l g) refl in
    let (bytes, some_name, short) = valid_name-bytes (first_word l) g.name in
    let split = cut-Free b'=' (prefix ++ first_word l) l (
      Free-append (λ c. c == b'=') prefix (first_word l)
        (refl, (refl, (refl, (refl, (refl, (refl, (refl, (refl, tt))))))))
        (no_equal (first_word l) bytes)) in
    let name : (valid_name (drop 8 (prefix ++ first_word l))) ≡ true = g.name in
    rw (read_line, whole, read_ended, split) (rw (g.name, some_bytes l g.line) refl)

pub first_word-length :
    (l : Text)
    → IsOverlayLine l
    → (length (first_word l) == 0 || leb name_len (length (first_word l))) ≡ false
unfolding valid_name
first_word-length l g = ground (arith, g.name)

-- ===== src/Text/Lines.antt =====
-- Texts of lines, and how they are read back.
use esp32s31_linux_function.Base.{
  ℕ, ◌+◌, ◌-◌, ◌≤◌, ◌≡◌, refl, ap, ◌∙◌, Bool, true, false, some, List, [], ◌∷◌, ◌++◌, append-nil,
  append_assoc, ◌==◌, arith, length, ==-self, length-append,
}
use esp32s31_linux_function.Text.{Text, until, cut, flush, tokens, fgets}

-- Each line with a newline.
unfoldable pub lines_text : List Text → Text
lines_text [] = []
lines_text (l ∷ ls) = l ++ (b'\n' ∷ lines_text ls)

-- No byte is one at which `stop` holds.
abbrev pub Free : (ℕ → Bool) → Text → Type 0
Free stop [] = Unit
Free stop (c ∷ cs) = (stop c ≡ false) × Free stop cs

abbrev pub is_newline : ℕ → Bool
is_newline c = c == b'\n'

-- A line has a first byte and no newline.
abbrev pub IsLine : Text → Type 0
IsLine [] = ⊥
IsLine (c ∷ cs) = Free is_newline (c ∷ cs)

abbrev pub AreLines : List Text → Type 0
AreLines [] = Unit
AreLines (l ∷ ls) = IsLine l × AreLines ls

pub flush_full :
    (a : Text) (c : ℕ) (ts : List Text) → flush (a ++ (c ∷ [])) ts ≡ (a ++ (c ∷ [])) ∷ ts
flush_full [] c ts = refl
flush_full (x ∷ a) c ts = refl

-- The open token runs on to the next stop.
pub tokens-Free :
    (stop : ℕ → Bool) (current : Text) (l : Text) (c : ℕ) (rest : Text)
    → Free stop l
    → stop c ≡ true
    → tokens stop current (l ++ (c ∷ rest)) ≡ flush (current ++ l) (tokens stop [] rest)
unfolding tokens
tokens-Free stop current [] c rest f e = rw e (rw append-nil refl)
tokens-Free stop current (x ∷ xs) c rest f e =
    rw (f.0) (tokens-Free stop (current ++ (x ∷ [])) xs c rest f.1 e ∙ rw append_assoc refl)

-- The lines are read back from their text.
pub tokens-lines_text : (ls : List Text) → AreLines ls → tokens is_newline [] (lines_text ls) ≡ ls
unfolding lines_text
tokens-lines_text [] h = unfold tokens in refl
tokens-lines_text ([] ∷ ls) h = absurd h.0
tokens-lines_text ((c ∷ cs) ∷ ls) h =
    tokens-Free is_newline [] (c ∷ cs) b'\n' (lines_text ls) h.0 refl
    ∙ ap (λ t. (c ∷ cs) ∷ t) (tokens-lines_text ls h.1)

-- A line that fits into the buffer with its newline is delivered in one piece.
pub fgets-line :
    (size left : ℕ) (current l rest : Text)
    → Free is_newline l
    → length l ≤ left
    → fgets size left current (l ++ (b'\n' ∷ rest))
      ≡ (current ++ (l ++ (b'\n' ∷ []))) ∷ fgets size size [] rest
unfolding fgets
fgets-line size left current [] rest f h = refl
fgets-line size left current (x ∷ xs) rest f h =
    let more : (left == 0) ≡ false = ground arith in
    rw (fgets, f.0, more)
      (fgets-line size (left - 1) (current ++ (x ∷ [])) xs rest f.1 (omega arith)
        ∙ rw append_assoc refl)

pub cut-Free :
    (b : ℕ) (l rest : Text) → Free (λ c. c == b) l → cut b (l ++ (b ∷ rest)) ≡ some (l, rest)
unfolding cut
cut-Free b [] rest f = rw (==-self b) refl
cut-Free b (x ∷ xs) rest f = rw (f.0, cut-Free b xs rest f.1) refl

pub until-Free :
    (stop : ℕ → Bool) (l : Text) (c : ℕ) (rest : Text)
    → Free stop l
    → stop c ≡ true
    → until stop (l ++ (c ∷ rest)) ≡ l
unfolding until
until-Free stop [] c rest f e = rw e refl
until-Free stop (x ∷ xs) c rest f e = rw (f.0, until-Free stop xs c rest f.1 e) refl

pub Free-append : (stop : ℕ → Bool) (a b : Text) → Free stop a → Free stop b → Free stop (a ++ b)
Free-append stop [] b f g = g
Free-append stop (x ∷ xs) b f g = (f.0, Free-append stop xs b f.1 g)

pub length-lines_text :
    (l : Text) (ls : List Text)
    → length (lines_text (l ∷ ls)) ≡ length l + 1 + length (lines_text ls)
unfolding lines_text
length-lines_text l ls = omega (arith, length-append l (b'\n' ∷ lines_text ls))

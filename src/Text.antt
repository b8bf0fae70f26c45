-- ===== src/Text.antt =====
-- C strings as the lists of their bytes before the NUL, and what the tools under rootfs/ use of
-- <string.h> and <stdio.h>: strcmp, strncmp, strcspn, strchr, strtok_r and fgets.
pub mod Lines
use esp32s31_linux_function.Base.{
  ℕ, zero, suc, ◌-◌, ◌≡◌, refl, Bool, true, false, not, ◌&&◌, Option, none, some, List, [], ◌∷◌,
  ◌++◌, ◌==◌, if◌then◌else◌, arith, ap, ==-self,
}

abbrev pub Text : Type 0
Text = List ℕ

-- `!strcmp(a, b)`
unfoldable pub same : Text → Text → Bool
same [] [] = true
same [] (b ∷ ys) = false
same (a ∷ xs) [] = false
same (a ∷ xs) (b ∷ ys) = a == b && same xs ys

-- `!strncmp(a, prefix, strlen(prefix))`
unfoldable pub starts_with : Text → Text → Bool
starts_with [] a = true
starts_with (p ∷ ps) [] = false
starts_with (p ∷ ps) (a ∷ xs) = p == a && starts_with ps xs

-- The text of the first `strcspn` bytes, where `stop` says which bytes end them.
unfoldable pub until : (ℕ → Bool) → Text → Text
until stop [] = []
until stop (c ∷ cs) = let rest = until stop cs in if stop c then [] else c ∷ rest

unfoldable pub drop : ℕ → Text → Text
drop zero a = a
drop (suc n) [] = []
drop (suc n) (c ∷ cs) = drop n cs

unfoldable pub take : ℕ → Text → Text
take zero a = []
take (suc n) [] = []
take (suc n) (c ∷ cs) = c ∷ take n cs

-- The text before the first byte `b` and the text behind it, as `strchr` finds it.
unfoldable pub cut : ℕ → Text → Option (Text × Text)
cut b [] = none
cut b (c ∷ cs) =
    if c == b
    then some ([], cs)
    else elim (cut b cs) [ none ↦ none | some (before, behind) ↦ some (c ∷ before, behind) ]

-- A token that has ended, if it has any bytes.
abbrev pub flush : Text → List Text → List Text
flush [] ts = ts
flush (c ∷ cs) ts = (c ∷ cs) ∷ ts

-- The tokens of `strtok_r`, where `current` is what the open one has so far.
unfoldable pub tokens : (ℕ → Bool) → Text → Text → List Text
tokens stop current [] = flush current []
tokens stop current (c ∷ cs) = elim (stop c) [
  | true ↦ flush current (tokens stop [] cs)
  | false ↦ tokens stop (current ++ (c ∷ [])) cs
]

-- What successive calls of `fgets` with a buffer of `size + 2` bytes deliver; `left` more bytes and
-- then one fit into the buffer of the open call, which has `current`.
unfoldable pub fgets : ℕ → ℕ → Text → Text → List Text
fgets size left current [] = flush current []
fgets size left current (c ∷ cs) = elim (c == b'\n') [
  | true ↦ (current ++ (c ∷ [])) ∷ fgets size size [] cs
  | false ↦ elim (left == 0) [
    | true ↦ (current ++ (c ∷ [])) ∷ fgets size size [] cs
    | false ↦ fgets size (left - 1) (current ++ (c ∷ [])) cs
  ]
]

pub same_self : (a : Text) → same a a ≡ true
unfolding same
same_self [] = refl
same_self (c ∷ cs) = rw (==-self c) (same_self cs)

pub same-eq : (a b : Text) → same a b ≡ true → a ≡ b
unfolding same
same-eq [] [] e = refl
same-eq [] (b ∷ ys) e = absurd (ground arith)
same-eq (a ∷ xs) [] e = absurd (ground arith)
same-eq (a ∷ xs) (b ∷ ys) e =
    let head : a ≡ b = ground arith in
    let rest : xs ≡ ys = same-eq xs ys (ground arith) in rw (head, rest) refl

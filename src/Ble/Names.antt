-- ===== src/Ble/Names.antt =====
-- The name in an advertisement, against the list of its fields.
pub mod Bounds
use esp32s31_linux_function.Base.{
  ℕ, zero, suc, ◌+◌, ◌-◌, ◌≤◌, ◌<◌, ◌≡◌, ◌≢◌, refl, sym, ap, ap₂, ◌∙◌, Bool, true, false, not, ◌&&◌,
  ◌||◌, Option, none, some, List, [], ◌∷◌, leb, ltb, ◌==◌, if◌then◌else◌, arith, length, inl, inr,
  Bool-cases,
}
use esp32s31_linux_function.Ble.{
  Buffer, printable, name_bytes, copy_len, name_pass, name_loop, advertisement_name,
}

-- One field of an advertisement: its type, and where its bytes are.
pub record Field : Type 0 where
  pub type : ℕ
  pub start : ℕ
  pub size : ℕ

-- The fields up to the first that is empty or runs over the end, `n` at most.
unfoldable pub fields : ℕ → Buffer → ℕ → ℕ → List Field
fields zero bytes len offset = []
fields (suc n) bytes len offset =
    let rest = fields n bytes len (offset + bytes offset + 1) in
    if leb len offset || (bytes offset == 0 || leb len (offset + bytes offset))
    then []
    else record { type = bytes (offset + 1); start = offset + 2; size = bytes offset - 1 } ∷ rest

abbrev has_name : ℕ → Field → Bool
has_name type f = f.type == type && ltb 0 f.size

-- A control character or a byte outside of ASCII is shown as a full stop.
abbrev pub shown : ℕ → ℕ
shown c = if ltb c 32 || ltb 126 c then 46 else c

-- The bytes of a field as a text of less than `size` bytes.
unfoldable pub shown_from : Buffer → ℕ → ℕ → List ℕ
shown_from bytes i zero = []
shown_from bytes i (suc n) = shown (bytes i) ∷ shown_from bytes (i + 1) n

abbrev text : Buffer → ℕ → Field → List ℕ
text bytes size f = shown_from bytes f.start (if leb size f.size then size - 1 else f.size)

name_bytes-shown_from : (d : Buffer) (i n : ℕ) → name_bytes d i n ≡ shown_from d i n
unfolding name_bytes shown_from
name_bytes-shown_from d i zero = refl
name_bytes-shown_from d i (suc n) =
    ap₂ (λ c t. c ∷ t) (same (d i)) (name_bytes-shown_from d (i + 1) n)
  where
    same : (c : ℕ) → printable c ≡ shown c
    same c = unfold printable in ground arith

-- The first complete name.
unfoldable pub complete : Buffer → ℕ → List Field → Option (List ℕ)
complete bytes size [] = none
complete bytes size (f ∷ fs) =
    let rest = complete bytes size fs in if has_name 0x09 f then some (text bytes size f) else rest

-- The last shortened name, or `other`.
unfoldable pub shortened : Buffer → ℕ → List ℕ → List Field → List ℕ
shortened bytes size other [] = other
shortened bytes size other (f ∷ fs) =
    shortened bytes size (if has_name 0x08 f then text bytes size f else other) fs

abbrev pub best : Buffer → ℕ → List ℕ → List Field → List ℕ
best bytes size other fs = elim (complete bytes size fs) [
  | some name ↦ name
  | none ↦ shortened bytes size other fs
]

if-elim :
    (b : Bool) (t other : List ℕ) (rest : Option (List ℕ))
    → (elim (if b then some t else rest) as (λ o. List ℕ) [ some name ↦ name | none ↦ other ])
      ≡ (if b then t else elim rest [ some name ↦ name | none ↦ other ])
if-elim true t other rest = refl
if-elim false t other rest = refl

best-cons :
    (bytes : Buffer) (size : ℕ) (other : List ℕ) (f : Field) (fs : List Field)
    → best bytes size other (f ∷ fs) ≡ (
        if has_name 0x09 f
        then text bytes size f
        else best bytes size (if has_name 0x08 f then text bytes size f else other) fs)
unfolding complete shortened
best-cons bytes size other f fs = if-elim (has_name 0x09 f) (text bytes size f) _ _

-- The choice that the loop makes at a field with bytes, of a shortened or a complete name.
choice :
    (eight nine some_bytes : Bool) (found name : List ℕ) (loop : List ℕ → List ℕ)
    → (eight ≡ true → nine ≡ false)
    → (elim ((eight || nine) && some_bytes) as (λ b. List ℕ) [
      | false ↦ loop name
      | true ↦ elim nine [ true ↦ found | false ↦ loop found ]
    ])
      ≡ (if nine && some_bytes then found else loop (if eight && some_bytes then found else name))
choice true true b found name loop h = absurd (ground (arith, h refl))
choice true false true found name loop h = refl
choice true false false found name loop h = refl
choice false true true found name loop h = refl
choice false true false found name loop h = refl
choice false false true found name loop h = refl
choice false false false found name loop h = refl

sized : (n : ℕ) → ltb 1 n ≡ ltb 0 (n - 1)
sized n = ground arith

pub name_loop-best :
    (n : ℕ) (bytes : Buffer) (len size offset : ℕ) (name : List ℕ)
    → name_loop n bytes len size offset name ≡ best bytes size name (fields n bytes len offset)
unfolding name_loop name_pass fields
name_loop-best zero bytes len size offset name = unfold complete shortened in refl
name_loop-best (suc n) bytes len size offset name =
    elim (Bool-cases (leb len offset || (bytes offset == 0 || leb len (offset + bytes offset)))) [
      | inl e ↦ rw (name_loop, fields, e) (unfold complete shortened in refl)
      | inr e ↦
          rw (name_loop, fields, e)
            ((rw (name_pass, sized (bytes offset))
                (choice (bytes (offset + 1) == 0x08) (bytes (offset + 1) == 0x09)
                  (ltb 0 (bytes offset - 1))
                  (name_bytes bytes (offset + 2) (copy_len (bytes offset) size)) name
                  (name_loop n bytes len size (offset + bytes offset + 1)) (λ e. ground arith)))
              ∙ ap
                  (λ t.
                    if has_name 0x09 here
                    then t
                    else name_loop n bytes len size (offset + bytes offset + 1)
                        (if has_name 0x08 here then t else name))
                  (name_bytes-shown_from bytes (offset + 2) (copy_len (bytes offset) size))
              ∙ ap (λ t. if has_name 0x09 here then text bytes size here else t)
                  (name_loop-best n bytes len size (offset + bytes offset + 1) _)
              ∙ sym
                  (best-cons bytes size name here (fields n bytes len (offset + bytes offset + 1))))
    ]
  where
    here : Field
    here = record { type = bytes (offset + 1); start = offset + 2; size = bytes offset - 1 }

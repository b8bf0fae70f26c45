-- ===== src/Ble/Names/Bounds.antt =====
-- The search for a name: what it reads and writes, and its end.
use esp32s31_linux_function.Base.{
  ℕ, zero, suc, ◌+◌, ◌≤◌, ◌<◌, ◌≡◌, refl, sym, ap, ap₂, Bool, true, false, ◌&&◌, ◌||◌, List, [],
  ◌∷◌, leb, ltb, ◌==◌, arith, length, inl, inr, Bool-cases,
}
use esp32s31_linux_function.Ble.{
  Buffer, printable, name_bytes, copy_len, name_pass, name_loop, advertisement_name,
}
use esp32s31_linux_function.Ble.Names.{fields, best, name_loop-best}

-- Two buffers are the same below `n`.
abbrev pub Agree : ℕ → Buffer → Buffer → Type 0
Agree n d e = (i : ℕ) → i < n → d i ≡ e i

name_bytes-Agree :
    (len : ℕ) (d e : Buffer) (i n : ℕ)
    → Agree len d e
    → i + n ≤ len
    → name_bytes d i n ≡ name_bytes e i n
unfolding name_bytes
name_bytes-Agree len d e i zero h fits = refl
name_bytes-Agree len d e i (suc n) h fits =
    ap₂ (λ b bs. printable b ∷ bs) (h i (omega arith))
      (name_bytes-Agree len d e (i + 1) n h (omega arith))

-- A pass, with what it finds and the passes behind it exchanged for others.
name_pass_congr :
    (field_len type : ℕ) (found found' name : List ℕ) (rest rest' : List ℕ → List ℕ)
    → found ≡ found'
    → ((other : List ℕ) → rest other ≡ rest' other)
    → name_pass field_len type found name rest ≡ name_pass field_len type found' name rest'
unfolding name_pass
name_pass_congr field_len type found found' name rest rest' e h =
    rw e (go ((type == 0x08 || type == 0x09) && ltb 1 field_len) (type == 0x09))
  where
    go :
        (a b : Bool)
        → (elim a as (λ c. List ℕ) [
          | false ↦ rest name
          | true ↦ elim b [ true ↦ found' | false ↦ rest found' ]
        ])
          ≡ (elim a [ false ↦ rest' name | true ↦ elim b [ true ↦ found' | false ↦ rest' found' ] ])
    go true true = refl
    go true false = h found'
    go false b = h name

-- What holds of the name so far, of what is found and of the passes behind it holds of the pass.
name_pass_all :
    (P : List ℕ → Type 0) (field_len type : ℕ) (found name : List ℕ) (rest : List ℕ → List ℕ)
    → P found
    → P name
    → ((other : List ℕ) → P other → P (rest other))
    → P (name_pass field_len type found name rest)
unfolding name_pass
name_pass_all P field_len type found name rest f p h =
    go ((type == 0x08 || type == 0x09) && ltb 1 field_len) (type == 0x09)
  where
    go :
        (a b : Bool)
        → P (elim a as (λ c. List ℕ) [
          | false ↦ rest name
          | true ↦ elim b [ true ↦ found | false ↦ rest found ]
        ])
    go true true = f
    go true false = h found f
    go false b = h name p

name_loop-Agree :
    (n : ℕ) (d e : Buffer) (len size offset : ℕ) (name : List ℕ)
    → Agree len d e
    → name_loop n d len size offset name ≡ name_loop n e len size offset name
unfolding name_loop
name_loop-Agree zero d e len size offset name h = refl
name_loop-Agree (suc n) d e len size offset name h = elim (Bool-cases (leb len offset)) [
  | inl stop ↦ rw (name_loop, stop) refl
  | inr on ↦
      let first : d offset ≡ e offset = h offset (ground arith) in
      rw (name_loop, on, first)
        (elim (Bool-cases (e offset == 0 || leb len (offset + e offset))) [
          | inl stop ↦ rw stop refl
          | inr more ↦
              let kind : d (offset + 1) ≡ e (offset + 1) = h (offset + 1) (ground arith) in
              let text =
                name_bytes-Agree len d e (offset + 2) (copy_len (e offset) size) h (ground arith) in
              rw (more, first, kind)
                (name_pass_congr (e offset) (e (offset + 1)) _ _ name _ _ text
                  (λ other. name_loop-Agree n d e len size (offset + e offset + 1) other h))
        ])
]

name_loop_enough :
    (n k : ℕ) (d : Buffer) (len size offset : ℕ) (name : List ℕ)
    → len ≤ offset + n
    → name_loop (n + k) d len size offset name ≡ name_loop n d len size offset name
unfolding name_loop
name_loop_enough zero zero d len size offset name h = refl
name_loop_enough zero (suc k) d len size offset name h =
    let stop : leb len offset ≡ true = ground arith in
    let count : 0 + suc k ≡ suc k = omega arith in rw (count, name_loop, stop) refl
name_loop_enough (suc n) k d len size offset name h =
    let count : suc n + k ≡ suc (n + k) = omega arith in
    rw count (elim (Bool-cases (leb len offset || (d offset == 0 || leb len (offset + d offset)))) [
      | inl stop ↦ rw (name_loop, stop) refl
      | inr more ↦
          rw (name_loop, more)
            (name_pass_congr (d offset) (d (offset + 1)) _ _ name _ _ refl (λ other.
              name_loop_enough n k d len size (offset + d offset + 1) other (omega arith)))
    ])

length-name_bytes : (d : Buffer) (i n : ℕ) → length (name_bytes d i n) ≡ n
unfolding name_bytes
length-name_bytes d i zero = refl
length-name_bytes d i (suc n) = ap suc (length-name_bytes d (i + 1) n)

name_loop-length :
    (n : ℕ) (d : Buffer) (len size offset : ℕ) (name : List ℕ)
    → length name < size
    → length (name_loop n d len size offset name) < size
unfolding name_loop
name_loop-length zero d len size offset name h = h
name_loop-length (suc n) d len size offset name h =
    elim (Bool-cases (leb len offset || (d offset == 0 || leb len (offset + d offset)))) [
      | inl stop ↦ rw (name_loop, stop) h
      | inr more ↦
          rw (name_loop, more)
            (name_pass_all (λ t. length t < size) (d offset) (d (offset + 1)) _ name _ fits h
              (λ other k. name_loop-length n d len size (offset + d offset + 1) other k))
    ]
  where
    fits : length (name_bytes d (offset + 2) (copy_len (d offset) size)) < size
    fits = ground (arith, length-name_bytes d (offset + 2) (copy_len (d offset) size))

-- For a name buffer of some bytes: `advertisement_name` gives the first complete name of the
-- advertisement's fields, else the last shortened one, else nothing, each with its bytes made printable
-- and cut to the buffer, which the NUL still fits into; it ends within as many passes as the data has
-- bytes; and it reads no byte outside of the data.
pub advertisement_name_lem :
    (d : Buffer) (len size : ℕ)
    → 0 < size
    → (advertisement_name d len size ≡ best d size [] (fields len d len 0))
      × (length (advertisement_name d len size) < size)
      × ((k : ℕ) → name_loop (len + k) d len size 0 [] ≡ advertisement_name d len size)
      × ((e : Buffer)
          → Agree len d e
          → advertisement_name e len size ≡ advertisement_name d len size)
unfolding advertisement_name
advertisement_name_lem d len size h = (
  name_loop-best len d len size 0 [],
  name_loop-length len d len size 0 [] h,
  (λ k. name_loop_enough len k d len size 0 [] (omega arith)),
  (λ e a. sym (name_loop-Agree len d e len size 0 [] a)),
)

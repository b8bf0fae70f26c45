-- ===== src/Netlink/Attributes.antt =====
-- The search for an attribute, against the list of the attributes.
use esp32s31_linux_function.Base.{
  ℕ, zero, suc, ◌+◌, ◌-◌, ◌*◌, ◌%◌, ◌^◌, ◌≤◌, ◌<◌, ◌≡◌, refl, subst, ap, ap₂, ◌∙◌, true, false,
  ◌&&◌, Option, none, some, List, [], ◌∷◌, leb, ◌==◌, if◌then◌else◌, arith, length, inl, inr,
  Bool-cases, some-injective,
}
use esp32s31_linux_function.Copy.{Memory}
use esp32s31_linux_function.Netlink.{u16_at, align_len, type_at, is_attr, find_loop, find_attr}

-- An attribute of the type, its header and its payload between `p` and `p + length`.
abbrev pub Within : Memory → ℕ → ℕ → ℕ → ℕ → Type 0
Within m p length type q =
    (p ≤ q) × (4 ≤ u16_at m q) × (q - p + u16_at m q ≤ length) × (type_at m q ≡ type)

-- Two memories are the same from `p` on, for `n` bytes.
abbrev pub SameFrom : ℕ → ℕ → Memory → Memory → Type 0
SameFrom p n d e = (x : ℕ) → p ≤ x → x < p + n → d x ≡ e x

find_loop-Within :
    (n : ℕ) (m : Memory) (p length type q : ℕ)
    → find_loop n m p length type ≡ some q
    → Within m p length type q
unfolding find_loop
find_loop-Within zero m p length type q = λ e. absurd (ground arith)
find_loop-Within (suc n) m p length type q = elim (Bool-cases (is_attr m p length)) [
  | inr stop ↦ rw (find_loop, stop) (λ e. absurd (ground arith))
  | inl go ↦
      rw (find_loop, go)
        (elim (Bool-cases (type_at m p == type)) [
          | inl hit ↦ rw hit (λ e.
              let at : p ≡ q = some-injective e in
              subst (Within m p length type) at
                (omega arith, ground arith, ground arith, ground arith))
          | inr miss ↦ rw miss (λ e.
              let (after, header, inside, kind) =
                find_loop-Within n m (p + align_len (u16_at m p)) (length - align_len (u16_at m p))
                  type q e in
              (omega arith, header, omega arith, kind))
        ])
]

-- More passes than the length has bytes change nothing.
find_loop_enough :
    (n k : ℕ) (m : Memory) (p length type : ℕ)
    → length ≤ n
    → find_loop (n + k) m p length type ≡ find_loop n m p length type
unfolding find_loop
find_loop_enough zero zero m p length type h = refl
find_loop_enough zero (suc k) m p length type h =
    let stop : is_attr m p length ≡ false = ground arith in
    let count : 0 + suc k ≡ suc k = omega arith in rw (count, find_loop, stop) refl
find_loop_enough (suc n) k m p length type h =
    let count : suc n + k ≡ suc (n + k) = omega arith in
    rw count (elim (Bool-cases (is_attr m p length)) [
      | inr stop ↦ rw (find_loop, stop) refl
      | inl go ↦
          let long : 4 ≤ u16_at m p = ground arith in
          rw (find_loop, go)
            (elim (Bool-cases (type_at m p == type)) [
              | inl hit ↦ rw hit refl
              | inr miss ↦ rw miss (
                  find_loop_enough n k m (p + align_len (u16_at m p))
                    (length - align_len (u16_at m p)) type (omega arith))
            ])
    ])

u16-SameFrom :
    (p n q : ℕ) (d e : Memory) → SameFrom p n d e → p ≤ q → q + 1 < p + n → u16_at d q ≡ u16_at e q
u16-SameFrom p n q d e h a b =
    ap₂ (λ x y. x + y * 2 ^ 8) (h q a (omega arith)) (h (q + 1) (omega arith) b)

-- The search reads no byte outside of the data.
find_loop-SameFrom :
    (n : ℕ) (d e : Memory) (p length type : ℕ)
    → SameFrom p length d e
    → find_loop n d p length type ≡ find_loop n e p length type
unfolding find_loop
find_loop-SameFrom zero d e p length type h = refl
find_loop-SameFrom (suc n) d e p length type h = elim (Bool-cases (leb 4 length)) [
  | inr short ↦ rw (find_loop, short) refl
  | inl long ↦
      let size : u16_at d p ≡ u16_at e p =
        u16-SameFrom p length p d e h (omega arith) (ground arith) in
      let kind : u16_at d (p + 2) ≡ u16_at e (p + 2) =
        u16-SameFrom p length (p + 2) d e h (omega arith) (ground arith) in
      let going : is_attr d p length ≡ is_attr e p length =
        ap (λ x. leb 4 length && leb 4 x && leb x length) size in
      let kinds : (type_at d p == type) ≡ (type_at e p == type) =
        ap (λ x. x % 2 ^ 14 == type) kind in
      elim (Bool-cases (is_attr e p length)) [
        | inr stop ↦
            let stop' : is_attr d p length ≡ false = going ∙ stop in
            rw (find_loop, stop, stop') refl
        | inl go ↦
            let go' : is_attr d p length ≡ true = going ∙ go in
            rw (find_loop, go, go')
              (elim (Bool-cases (type_at e p == type)) [
                | inl hit ↦
                    let hit' : (type_at d p == type) ≡ true = kinds ∙ hit in rw (hit, hit') refl
                | inr miss ↦
                    let miss' : (type_at d p == type) ≡ false = kinds ∙ miss in
                    let step = align_len (u16_at e p) in
                    rw (miss, miss')
                      (ap (λ a. find_loop n d (p + align_len a) (length - align_len a) type) size
                        ∙ find_loop-SameFrom n d e (p + step) (length - step) type
                            (λ x a b. h x (omega arith) (omega arith)))
              ])
      ]
]

-- The addresses of the attributes, up to the first whose header says that it is none; `n` at most.
unfoldable pub attributes : ℕ → Memory → ℕ → ℕ → List ℕ
attributes zero m p length = []
attributes (suc n) m p length =
    let rest = attributes n m (p + align_len (u16_at m p)) (length - align_len (u16_at m p)) in
    if is_attr m p length then p ∷ rest else []

unfoldable pub first_of : Memory → ℕ → List ℕ → Option ℕ
first_of m type [] = none
first_of m type (q ∷ qs) =
    let rest = first_of m type qs in if type_at m q == type then some q else rest

find_loop-first_of :
    (n : ℕ) (m : Memory) (p length type : ℕ)
    → find_loop n m p length type ≡ first_of m type (attributes n m p length)
unfolding find_loop attributes first_of
find_loop-first_of zero m p length type = refl
find_loop-first_of (suc n) m p length type = elim (Bool-cases (is_attr m p length)) [
  | inr stop ↦ rw (find_loop, attributes, stop) refl
  | inl go ↦
      rw (find_loop, attributes, go)
        (elim (Bool-cases (type_at m p == type)) [
          | inl hit ↦ rw hit refl
          | inr miss ↦ rw miss (find_loop-first_of n m _ _ type)
        ])
]

abbrev pub IsWithin : Memory → ℕ → ℕ → ℕ → Option ℕ → Type 0
IsWithin m start length type none = Unit
IsWithin m start length type (some q) = Within m start length type q

found-IsWithin :
    (m : Memory) (start length type : ℕ) (o : Option ℕ)
    → find_attr m start length type ≡ o
    → IsWithin m start length type o
unfolding find_attr
found-IsWithin m start length type none e = tt
found-IsWithin m start length type (some q) e = find_loop-Within length m start length type q e

-- `find_attr` finds the first attribute of the type among those that follow each other from the start of
-- the data, up to the first one whose header does not fit or gives a length that does not fit. What it
-- finds has that type, and lies within the data with all of its payload. It ends within as many passes
-- as the data has bytes, and reads no byte outside of the data.
pub find_attr_lem :
    (m : Memory) (start length type : ℕ)
    → (find_attr m start length type ≡ first_of m type (attributes length m start length))
      × IsWithin m start length type (find_attr m start length type)
      × ((k : ℕ) → find_loop (length + k) m start length type ≡ find_attr m start length type)
      × ((e : Memory)
          → SameFrom start length m e
          → find_attr m start length type ≡ find_attr e start length type)
unfolding find_attr
find_attr_lem m start length type = (
  find_loop-first_of length m start length type,
  found-IsWithin m start length type (find_attr m start length type) refl,
  (λ k. find_loop_enough length k m start length type (omega arith)),
  (λ e h. find_loop-SameFrom length m e start length type h),
)

-- ===== src/Netlink/Found.antt =====
-- An attribute that was added, found again.
use esp32s31_linux_function.Base.{
  ℕ, suc, ◌+◌, ◌-◌, ◌*◌, ◌/◌, ◌%◌, ◌^◌, ◌≤◌, ◌<◌, ◌≡◌, refl, subst, ap, ap₂, ◌∙◌, true, false, ◌&&◌,
  some, leb, ltb, ◌==◌, arith, inl, inr, Bool-cases, some-injective, ◌⊎◌,
}
use esp32s31_linux_function.Copy.{Memory, store}
use esp32s31_linux_function.Copy.Words.{store_at, store_off}
use esp32s31_linux_function.Netlink.{u16_at, align_len, type_at, is_attr, find_loop, find_attr}
use esp32s31_linux_function.Netlink.Build.{Message, put16, written, attr_bytes, add_attr}

written_in :
    (p : ℕ) (src : ℕ → ℕ) (n : ℕ) (m : Memory) (i : ℕ) → i < n → written p src n m (p + i) ≡ src i
written_in p src n m i h =
    let test : (leb p (p + i) && ltb (p + i) (p + n)) ≡ true = ground arith in
    let at : p + i - p ≡ i = omega arith in rw test (ap src at)

written_out :
    (p : ℕ) (src : ℕ → ℕ) (n : ℕ) (m : Memory) (x : ℕ)
    → (x < p) ⊎ (p + n ≤ x)
    → written p src n m x ≡ m x
written_out p src n m x h =
    let test : (leb p x && ltb x (p + n)) ≡ false = elim h [
      | inl a ↦ ground arith
      | inr a ↦ ground arith
    ] in
    rw test refl

put16_at : (p v : ℕ) (m : Memory) → v < 2 ^ 16 → u16_at (put16 p v m) p ≡ v
put16_at p v m h =
    let lo =
      store_off (p + 1) (v / 2 ^ 8 % 2 ^ 8) (store p (v % 2 ^ 8) m) p (λ e. absurd (omega arith))
      ∙ store_at p (v % 2 ^ 8) m in
    let hi = store_at (p + 1) (v / 2 ^ 8 % 2 ^ 8) (store p (v % 2 ^ 8) m) in
    ap₂ (λ x y. x + y * 2 ^ 8) lo hi ∙ omega arith

put16_off : (p v : ℕ) (m : Memory) (x : ℕ) → (x < p) ⊎ (p + 2 ≤ x) → put16 p v m x ≡ m x
put16_off p v m x h =
    store_off (p + 1) (v / 2 ^ 8 % 2 ^ 8) (store p (v % 2 ^ 8) m) x
      (λ e. elim h [ inl a ↦ absurd (omega arith) | inr a ↦ absurd (omega arith) ])
    ∙ store_off p (v % 2 ^ 8) m x
        (λ e. elim h [ inl a ↦ absurd (omega arith) | inr a ↦ absurd (omega arith) ])

-- `n` bytes of `m` from `p` on are an attribute of the type with that payload, and zeros behind it.
abbrev pub IsAttr : Memory → ℕ → ℕ → (ℕ → ℕ) → ℕ → Type 0
IsAttr m p type src length =
    (u16_at m p ≡ 4 + length)
    × (u16_at m (p + 2) ≡ type)
    × ((i : ℕ) → i < length → m (p + 4 + i) ≡ src i)
    × ((i : ℕ) → 4 + length + i < align_len (4 + length) → m (p + (4 + length) + i) ≡ 0)

module _ (p type : ℕ) (src : ℕ → ℕ) (length : ℕ) (m : Memory) where
  abbrev head : Memory
  head = put16 p (4 + length) (put16 (p + 2) type m)

  abbrev filled : Memory
  filled = written (p + 4) src length head

  -- The header is what was put there, wherever the payload ends.
  header : (x : ℕ) → x < p + 4 → attr_bytes p type src length m x ≡ head x
  unfolding attr_bytes
  header x b =
      written_out (p + (4 + length)) (λ i. 0) (align_len (4 + length) - (4 + length)) filled x
        (inl (omega arith))
      ∙ written_out (p + 4) src length head x (inl (omega arith))

  attr_bytes-IsAttr :
      4 + length < 2 ^ 16
      → type < 2 ^ 16
      → IsAttr (attr_bytes p type src length m) p type src length
  unfolding attr_bytes
  attr_bytes-IsAttr small kind = (
    ap₂ (λ x y. x + y * 2 ^ 8) (header p (omega arith)) (header (p + 1) (omega arith))
        ∙ put16_at p (4 + length) (put16 (p + 2) type m) small,
    ap₂ (λ x y. x + y * 2 ^ 8)
          (header (p + 2) (omega arith)
            ∙ put16_off p (4 + length) (put16 (p + 2) type m) (p + 2) (inr (omega arith)))
          (header (p + 2 + 1) (omega arith)
            ∙ put16_off p (4 + length) (put16 (p + 2) type m) (p + 2 + 1) (inr (omega arith)))
        ∙ put16_at (p + 2) type m kind,
    (λ i h.
        written_out (p + (4 + length)) (λ i. 0) (align_len (4 + length) - (4 + length)) filled
          (p + 4 + i) (inl (omega arith))
        ∙ written_in (p + 4) src length head i h),
    (λ i h.
        written_in (p + (4 + length)) (λ i. 0) (align_len (4 + length) - (4 + length)) filled i
          (omega arith)),
  )

  before : (x : ℕ) → x < p → attr_bytes p type src length m x ≡ m x
  before x h =
      header x (omega arith)
      ∙ put16_off p (4 + length) (put16 (p + 2) type m) x (inl h)
      ∙ put16_off (p + 2) type m x (inl (omega arith))

found_at :
    (m : Memory) (p type : ℕ) (src : ℕ → ℕ) (length : ℕ)
    → type < 2 ^ 14
    → IsAttr m p type src length
    → find_attr m p (align_len (4 + length)) type ≡ some p
unfolding find_attr find_loop
found_at m p type src length kind (size, what, _, _) =
    let fuel : align_len (4 + length) ≡ suc (align_len (4 + length) - 1) = omega arith in
    let go : is_attr m p (align_len (4 + length)) ≡ true = ground arith in
    let hit : (type_at m p == type) ≡ true = ground arith in
    ap (λ n. find_loop n m p (align_len (4 + length)) type) fuel ∙ rw (find_loop, go) (rw hit refl)

-- An attribute that add_attr adds, of at most 65531 bytes and of a type of 14 bits, is found again behind
-- what was there, with its payload and with zeros up to the alignment; what was there is the same, and
-- the message does not outgrow its buffer.
pub add-find_attr :
    (align : ℕ → ℕ) (capacity type : ℕ) (src : ℕ → ℕ) (length : ℕ) (m m' : Message)
    → 4 + length < 2 ^ 16
    → type < 2 ^ 14
    → add_attr align capacity type src length m ≡ some m'
    → let p = align m.nlmsg_len in
      (find_attr m'.bytes p (m'.nlmsg_len - p) type ≡ some p)
      × IsAttr m'.bytes p type src length
      × ((x : ℕ) → x < p → m'.bytes x ≡ m.bytes x)
      × (m'.nlmsg_len ≤ capacity)
unfolding add_attr
add-find_attr align capacity type src length m m' small kind =
    elim (Bool-cases (ltb capacity (align m.nlmsg_len + align_len (4 + length)))) [
      | inl e ↦ rw e (λ q. absurd (ground arith))
      | inr e ↦ rw e (λ q. subst Good (some-injective q) (good e))
    ]
  where
    Good : Message → Type 0
    Good m' =
        (find_attr m'.bytes (align m.nlmsg_len) (m'.nlmsg_len - align m.nlmsg_len) type
          ≡ some (align m.nlmsg_len))
        × IsAttr m'.bytes (align m.nlmsg_len) type src length
        × ((x : ℕ) → x < align m.nlmsg_len → m'.bytes x ≡ m.bytes x)
        × (m'.nlmsg_len ≤ capacity)

    p : ℕ
    p = align m.nlmsg_len

    m2 : Memory
    m2 = attr_bytes p type src length m.bytes

    n : ℕ
    n = align_len (4 + length)

    good : ltb capacity (p + n) ≡ false → Good (record { bytes = m2; nlmsg_len = p + n })
    good e =
        let attr = attr_bytes-IsAttr p type src length m.bytes small (omega arith) in
        let rest : p + n - p ≡ n = omega arith in
        (
          ap (λ k. find_attr m2 p k type) rest ∙ found_at m2 p type src length kind attr,
          attr,
          before p type src length m.bytes,
          ground arith,
        )

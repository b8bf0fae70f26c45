-- ===== src/Connect/Chunks.antt =====
-- The loop of sha1_update against feeding one byte at a time, and a message in pieces.
use esp32s31_linux_function.Base.{
  ℕ, zero, suc, ◌+◌, ◌-◌, ◌%◌, ◌≤◌, ◌<◌, ◌≡◌, refl, sym, ap, ◌∙◌, min, List, [], ◌∷◌, ◌++◌, length,
  arith, u64_mod, false, ◌==◌, Bool-cases, inl, inr, append-nil, length-append,
}
use esp32s31_linux_function.Copy.{store}
use esp32s31_linux_function.Text.{Text, take, drop}
use esp32s31_linux_function.Connect.{
  Context, copy_to_block, fill_block, update_loop, sha1_update, sha1_final, digest,
}

-- A byte after the other, with the number of bytes that the block holds.
abbrev pub feed : Context × ℕ → Text → Context × ℕ
feed x [] = x
feed (c, used) (b ∷ bs) =
    feed (fill_block (record c { block = store used b c.block }) (used + 1)) bs

take-drop : (k : ℕ) (t : Text) → take k t ++ drop k t ≡ t
unfolding take drop
take-drop zero t = refl
take-drop (suc k) [] = refl
take-drop (suc k) (c ∷ cs) = ap (λ x. c ∷ x) (take-drop k cs)

length-take : (k : ℕ) (t : Text) → k ≤ length t → length (take k t) ≡ k
unfolding take
length-take zero t h = refl
length-take (suc k) [] h = absurd (omega arith)
length-take (suc k) (c ∷ cs) h = ap suc (length-take k cs (omega arith))

length-drop : (k : ℕ) (t : Text) → length (drop k t) ≤ length t
unfolding drop
length-drop zero t = omega arith
length-drop (suc k) [] = omega arith
length-drop (suc k) (c ∷ cs) = let rest = length-drop k cs in omega arith

feed-append : (x : Context × ℕ) (s t : Text) → feed x (s ++ t) ≡ feed (feed x s) t
feed-append x [] t = refl
feed-append (c, used) (b ∷ s) t =
    feed-append (fill_block (record c { block = store used b c.block }) (used + 1)) s t

fill_block-partial : (c : Context) (used : ℕ) → used < 64 → fill_block c used ≡ (c, used)
unfolding fill_block
fill_block-partial c used h = let e : (used == 64) ≡ false = ground arith in rw e refl

-- Bytes that do not overfill the block can be copied at once.
feed-fill_block :
    (p : Text) (b : ℕ) (c : Context) (used : ℕ)
    → used + length (b ∷ p) ≤ 64
    → feed (c, used) (b ∷ p)
      ≡ fill_block (record c { block = copy_to_block used (b ∷ p) c.block }) (used + length (b ∷ p))
unfolding copy_to_block
feed-fill_block [] b c used h = refl
feed-fill_block (b' ∷ p) b c used h =
    let c' : Context = record c { block = store used b c.block } in
    let count : used + 1 + length (b' ∷ p) ≡ used + length (b ∷ (b' ∷ p)) = omega arith in
    ap (λ x. feed x (b' ∷ p)) (fill_block-partial c' (used + 1) (omega arith))
    ∙ feed-fill_block p b' c' (used + 1) (omega arith)
    ∙ ap (fill_block (record c { block = copy_to_block used (b ∷ (b' ∷ p)) c.block })) count

settled :
    (c : Context) (used : ℕ)
    → used ≤ 64
    → ((fill_block c used).1 < 64) × ((fill_block c used).1 ≡ used % 64)
unfolding fill_block
settled c used h = elim (Bool-cases (used == 64)) [
  | inl e ↦ rw e (omega arith, ground arith)
  | inr e ↦ rw e (ground arith, ground arith)
]

update_loop-feed :
    (n : ℕ) (c : Context) (used : ℕ) (input : Text)
    → length input ≤ n
    → used < 64
    → update_loop n c used input ≡ (feed (c, used) input).0
unfolding update_loop take drop
update_loop-feed zero c used [] h lt = refl
update_loop-feed zero c used (b ∷ bs) h lt = absurd (omega arith)
update_loop-feed (suc n) c used [] h lt = refl
update_loop-feed (suc n) c used (b ∷ bs) h lt =
    let k = min (63 - used) (length bs) in
    let one_more : min (64 - used) (length (b ∷ bs)) ≡ suc k = omega arith in
    let short : length (take k bs) ≡ k = length-take k bs (omega arith) in
    let whole : length (b ∷ take k bs) ≡ suc k = ap suc short in
    let (below, _) = settled (filled k) (used + suc k) (omega arith) in
    let dropped = length-drop k bs in
    let same : feed (c, used) (b ∷ take k bs) ≡ fill_block (filled k) (used + suc k) =
      feed-fill_block (take k bs) b c used (omega arith)
      ∙ ap (λ x. fill_block (filled k) (used + x)) whole in
    ap pass one_more
    ∙ update_loop-feed n (fill_block (filled k) (used + suc k)).0
        (fill_block (filled k) (used + suc k)).1 (drop k bs) (omega arith) below
    ∙ ap (λ x. (feed x (drop k bs)).0) (sym same)
    ∙ ap (λ x. x.0) (sym (feed-append (c, used) (b ∷ take k bs) (drop k bs)))
    ∙ ap (λ t. (feed (c, used) (b ∷ t)).0) (take-drop k bs)
  where
    filled : ℕ → Context
    filled k = record c { block = copy_to_block used (b ∷ take k bs) c.block }

    pass : ℕ → Context
    pass t =
        update_loop n
          (fill_block (record c { block = copy_to_block used (take t (b ∷ bs)) c.block })
            (used + t)).0
          (fill_block (record c { block = copy_to_block used (take t (b ∷ bs)) c.block })
            (used + t)).1
          (drop t (b ∷ bs))

abbrev with_bytes : ℕ → Context × ℕ → Context × ℕ
with_bytes k (c, used) = (record c { bytes = k }, used)

fill_block-with_bytes :
    (k : ℕ) (c : Context) (used : ℕ)
    → fill_block (record c { bytes = k }) used ≡ with_bytes k (fill_block c used)
unfolding fill_block
fill_block-with_bytes k c used = elim (Bool-cases (used == 64)) [
  | inl e ↦ rw e refl
  | inr e ↦ rw e refl
]

-- The count of the bytes is not looked at.
feed-with_bytes :
    (k : ℕ) (t : Text) (c : Context) (used : ℕ)
    → feed (record c { bytes = k }, used) t ≡ with_bytes k (feed (c, used) t)
feed-with_bytes k [] c used = refl
feed-with_bytes k (b ∷ t) c used =
    let c' : Context = record c { block = store used b c.block } in
    ap (λ x. feed x t) (fill_block-with_bytes k c' (used + 1))
    ∙ feed-with_bytes k t (fill_block c' (used + 1)).0 (fill_block c' (used + 1)).1

-- The block holds the count modulo its size.
feed_used :
    (t : Text) (c : Context) (used : ℕ) → used < 64 → (feed (c, used) t).1 ≡ (used + length t) % 64
feed_used [] c used h = omega arith
feed_used (b ∷ t) c used h =
    let c' : Context = record c { block = store used b c.block } in
    let (below, at) = settled c' (used + 1) (omega arith) in
    feed_used t (fill_block c' (used + 1)).0 (fill_block c' (used + 1)).1 below
    ∙ (ap (λ x. (x + length t) % 64) at ∙ omega arith)

sha1_update-feed :
    (c : Context) (t : Text)
    → sha1_update c t ≡ (with_bytes ((c.bytes + length t) % u64_mod) (feed (c, c.bytes % 64) t)).0
unfolding sha1_update
sha1_update-feed c t =
    let k = (c.bytes + length t) % u64_mod in
    update_loop-feed (length t) (record c { bytes = k }) (c.bytes % 64) t (omega arith)
      (omega arith)
    ∙ ap (λ x. x.0) (feed-with_bytes k t c (c.bytes % 64))

-- Hashing one text after another is hashing them as one.
sha1_update-append :
    (c : Context) (s t : Text) → sha1_update (sha1_update c s) t ≡ sha1_update c (s ++ t)
sha1_update-append c s t =
    let k = (c.bytes + length s) % u64_mod in
    let used = c.bytes % 64 in
    let middle : Context = (feed (c, used) s).0 in
    let filled : k % 64 ≡ (feed (c, used) s).1 =
      omega arith ∙ sym (feed_used s c used (omega arith)) in
    let joined : (k + length t) % u64_mod ≡ (c.bytes + length (s ++ t)) % u64_mod =
      omega arith ∙ ap (λ n. (c.bytes + n) % u64_mod) (sym (length-append s t)) in
    ap (λ x. sha1_update x t) (sha1_update-feed c s)
    ∙ sha1_update-feed (record middle { bytes = k }) t
    ∙ ap (λ n. (with_bytes ((k + length t) % u64_mod) (feed (record middle { bytes = k }, n) t)).0)
        filled
    ∙ ap (λ x. (with_bytes ((k + length t) % u64_mod) x).0)
        (feed-with_bytes k t middle (feed (c, used) s).1)
    ∙ ap (λ x. (with_bytes ((k + length t) % u64_mod) x).0) (sym (feed-append (c, used) s t))
    ∙ ap (λ n. (with_bytes n (feed (c, used) (s ++ t))).0) joined
    ∙ sym (sha1_update-feed c (s ++ t))

abbrev pub join : List Text → Text
join [] = []
join (t ∷ ts) = t ++ join ts

-- The hash of a message that is given in pieces, one at least, is that of the message at once, however
-- it is cut: the pieces may be empty, end within a block or go over several.
pub digest-join :
    (c : Context) (t : Text) (ts : List Text)
    → digest (t ∷ ts) c ≡ sha1_final (sha1_update c (join (t ∷ ts)))
unfolding digest
digest-join c t [] = ap (λ x. sha1_final (sha1_update c x)) (sym (append-nil t))
digest-join c t (t' ∷ ts) =
    digest-join (sha1_update c t) t' ts ∙ ap sha1_final (sha1_update-append c t (join (t' ∷ ts)))

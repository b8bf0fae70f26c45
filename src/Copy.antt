-- ===== src/Copy.antt =====
-- radio_firmware/s31_memcpy.c: the payload's memcpy, by words where both pointers are aligned, and memset. Memory
-- is a function of the address; a word is loaded whole before it is stored.
pub mod Words
use esp32s31_linux_function.Base.{
  ℕ, zero, suc, ◌+◌, ◌*◌, ◌/◌, ◌%◌, ◌^◌, Bool, ◌&&◌, leb, ◌==◌, if◌then◌else◌,
}

abbrev pub Memory : Type 0
Memory = ℕ → ℕ

-- `*d = v`
unfoldable pub store : ℕ → ℕ → Memory → Memory
store d v m x = if x == d then v else m x

-- `while (n--) *d++ = *s++;`
unfoldable pub copy_bytes : Memory → ℕ → ℕ → ℕ → Memory
copy_bytes m d s zero = m
copy_bytes m d s (suc n) = copy_bytes (store d (m s) m) (d + 1) (s + 1) n

-- `*dw = *sw` by its four bytes
unfoldable pub copy_word : Memory → ℕ → ℕ → Memory
copy_word m d s =
    store (d + 3) (m (s + 3))
      (store (d + 2) (m (s + 2)) (store (d + 1) (m (s + 1)) (store d (m s) m)))

-- `while (n >= 4) { *dw++ = *sw++; n -= 4; }` for that many words
unfoldable pub copy_words : Memory → ℕ → ℕ → ℕ → Memory
copy_words m d s zero = m
copy_words m d s (suc k) = copy_words (copy_word m d s) (d + 4) (s + 4) k

-- `memcpy`
unfoldable pub copy : Memory → ℕ → ℕ → ℕ → Memory
copy m d s n =
    if leb 4 n && (d % 4 == 0 && s % 4 == 0)
    then copy_bytes (copy_words m d s (n / 4)) (d + 4 * (n / 4)) (s + 4 * (n / 4)) (n % 4)
    else copy_bytes m d s n

-- `memset`; a negative `c` is given by its two's complement.
unfoldable pub fill : Memory → ℕ → ℕ → ℕ → Memory
fill m d c zero = m
fill m d c (suc n) = fill (store d (c % 2 ^ 8) m) (d + 1) c n

-- ===== src/Tests/Copy.antt =====
-- The memcpy of radio_firmware/s31_memcpy.c on concrete inputs.
use esp32s31_linux_function.Base.{◌≡◌, refl, inl, arith}
use esp32s31_linux_function.Copy.{Memory, store, copy_bytes, copy_word, copy_words, copy, fill}
use esp32s31_linux_function.Copy.Words.{Copied, Filled, copy-fill_lem}

-- Each byte holds its address.
abbrev addresses : Memory
addresses x = x

-- One word and two bytes, from 100 to 40.
copy_test :
    (copy addresses 40 100 6 43 ≡ 103)
    × (copy addresses 40 100 6 45 ≡ 105)
    × (copy addresses 40 100 6 46 ≡ 46)
unfolding copy copy_words copy_word copy_bytes store
copy_test = (refl, refl, refl)

fill_test : (fill addresses 40 0x1FF 3 42 ≡ 0xFF) × (fill addresses 40 0x1FF 3 43 ≡ 43)
unfolding fill store
fill_test = (refl, refl)

copy-fill_lem_example :
    Copied (copy addresses 40 100 6) addresses 40 100 6
    × Filled (fill addresses 40 0x1FF 6) addresses 40 0x1FF 6
copy-fill_lem_example = copy-fill_lem addresses 40 100 0x1FF 6 (inl (omega arith))

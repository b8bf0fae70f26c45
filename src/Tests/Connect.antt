-- ===== src/Tests/Connect.antt =====
-- The hash of rootfs/wifi_connect.c on concrete inputs.
use esp32s31_linux_function.Base.{replicate, ℕ, ◌≡◌, refl, List, [], ◌∷◌}
use esp32s31_linux_function.Copy.{store}
use esp32s31_linux_function.Text.{take, drop}
use esp32s31_linux_function.Connect.Chunks.{join, digest-join}
use esp32s31_linux_function.Connect.{
  sha1_init, hmac_sha1, pad, digest, sha1_final, sha1_update, update_loop, fill_block,
  copy_to_block, sha1_transform, rounds, load_words, extend,
}

-- The example of the standard, in two pieces.
abc_test :
    digest ((b'a' ∷ []) ∷ ((b'b' ∷ b'c' ∷ []) ∷ [])) (sha1_init (λ i. 0))
    ≡ 0xa9 ∷ 0x99 ∷ 0x3e ∷ 0x36 ∷ 0x47 ∷ 0x06 ∷ 0x81 ∷ 0x6a ∷ 0xba ∷ 0x3e ∷ 0x25 ∷ 0x71 ∷ 0x78
      ∷ 0x50 ∷ 0xc2 ∷ 0x6c ∷ 0x9c ∷ 0xd0 ∷ 0xd8 ∷ 0x9d ∷ []
unfolding digest sha1_final sha1_update update_loop fill_block copy_to_block sha1_transform rounds
    load_words extend take drop store
abc_test = refl

-- The first example of RFC 2202.
hmac_test :
    hmac_sha1
      (λ n i. 0)
      (replicate 20 0x0b)
      (b'H' ∷ b'i' ∷ b' ' ∷ b'T' ∷ b'h' ∷ b'e' ∷ b'r' ∷ b'e' ∷ [])
    ≡ 0xb6 ∷ 0x17 ∷ 0x31 ∷ 0x86 ∷ 0x55 ∷ 0x05 ∷ 0x72 ∷ 0x64 ∷ 0xe2 ∷ 0x8b ∷ 0xc0 ∷ 0xb6 ∷ 0xfb
      ∷ 0x37 ∷ 0x8c ∷ 0x8e ∷ 0xf1 ∷ 0x46 ∷ 0xbe ∷ 0x00 ∷ []
unfolding hmac_sha1 pad digest sha1_final sha1_update update_loop fill_block copy_to_block
    sha1_transform rounds load_words extend take drop store
hmac_test = refl

-- Two pieces, the first of which goes over a block.
abbrev two_pieces : List (List ℕ)
two_pieces = replicate 70 b'a' ∷ ((b'b' ∷ b'c' ∷ []) ∷ [])

digest-join_example :
    digest two_pieces (sha1_init (λ i. 0))
    ≡ sha1_final (sha1_update (sha1_init (λ i. 0)) (join two_pieces))
digest-join_example = digest-join (sha1_init (λ i. 0)) (replicate 70 b'a') ((b'b' ∷ b'c' ∷ []) ∷ [])

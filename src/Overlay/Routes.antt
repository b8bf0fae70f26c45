-- ===== src/Overlay/Routes.antt =====
-- rootfs/s31_overlay.c: setting the pins of an overlay's blob. libfdt is an interface: the nodes in the
-- order of `fdt_next_node`, the bytes of a property, and a 32-bit property set in place.
pub mod Pins
use esp32s31_linux_function.Base.{
  ℕ, zero, suc, ◌+◌, ◌*◌, ◌^◌, ◌≡◌, Bool, true, false, not, ◌&&◌, ◌||◌, Option, none, some, List,
  [], ◌∷◌, leb, ◌==◌, if◌then◌else◌, length, bit_and, bit_or,
}
use esp32s31_linux_function.Base.Bits.{not32}
use esp32s31_linux_function.Text.{Text, same, until, cut}
use esp32s31_linux_function.Overlay.{Errno, einval, enoent, eexist, eopnotsupp, valid_gpio}

pub record Fdt : Type 1 where
  pub Blob : Type 0
  pub nodes : Blob → List ℕ
  pub getprop : Blob → ℕ → Text → Option Text
  pub setprop_u32 : Blob → ℕ → Text → ℕ → Option Blob

-- The names of the properties and the two kinds of routes that have a pin.
abbrev pub route_name : Text
route_name =
    b'e' ∷ b's' ∷ b'p' ∷ b'r' ∷ b'e' ∷ b's' ∷ b's' ∷ b'i' ∷ b'f' ∷ b',' ∷ b'r' ∷ b'o' ∷ b'u' ∷ b't'
    ∷ b'e' ∷ b'-' ∷ b'n' ∷ b'a' ∷ b'm' ∷ b'e' ∷ []

abbrev pub route_kind : Text
route_kind =
    b'e' ∷ b's' ∷ b'p' ∷ b'r' ∷ b'e' ∷ b's' ∷ b's' ∷ b'i' ∷ b'f' ∷ b',' ∷ b'r' ∷ b'o' ∷ b'u' ∷ b't'
    ∷ b'e' ∷ b'-' ∷ b'k' ∷ b'i' ∷ b'n' ∷ b'd' ∷ []

abbrev pub pinmux : Text
pinmux = b'p' ∷ b'i' ∷ b'n' ∷ b'm' ∷ b'u' ∷ b'x' ∷ []

abbrev pub matrix_input : Text
matrix_input =
    b'm' ∷ b'a' ∷ b't' ∷ b'r' ∷ b'i' ∷ b'x' ∷ b'-' ∷ b'i' ∷ b'n' ∷ b'p' ∷ b'u' ∷ b't' ∷ []

abbrev pub matrix_output : Text
matrix_output =
    b'm' ∷ b'a' ∷ b't' ∷ b'r' ∷ b'i' ∷ b'x' ∷ b'-' ∷ b'o' ∷ b'u' ∷ b't' ∷ b'p' ∷ b'u' ∷ b't' ∷ []

-- `fdt32_to_cpu` of a property of just four bytes
unfoldable pub fdt32 : Text → Option ℕ
fdt32 [] = none
fdt32 (a ∷ []) = none
fdt32 (a ∷ b ∷ []) = none
fdt32 (a ∷ b ∷ c ∷ []) = none
fdt32 (a ∷ b ∷ c ∷ d ∷ []) = some (a * 2 ^ 24 + b * 2 ^ 16 + c * 2 ^ 8 + d)
fdt32 (a ∷ b ∷ c ∷ d ∷ e ∷ l) = none

-- `(fdt32_to_cpu(*pinmux) & ~0xffU) | gpio`
unfoldable pub with_pin : ℕ → ℕ → ℕ
with_pin old gpio = bit_or (bit_and old (not32 0xFF)) gpio

pub data Result {ℓ} (A : Type ℓ) : Type ℓ where
  done : A → Result A
  failed : Errno → Result A

module _ (F : Fdt) where
  -- `prop && !strcmp(prop, text)`: the bytes before the NUL are compared.
  unfoldable pub prop_is : F.Blob → ℕ → Text → Text → Bool
  unfolding until same
  prop_is b n prop text = elim (F.getprop b n prop) [
    | none ↦ false
    | some bytes ↦ same (until (λ c. c == 0) bytes) text
  ]

  unfoldable pub pin_word : F.Blob → ℕ → Option ℕ
  unfolding fdt32
  pin_word b n = elim (F.getprop b n pinmux) [ none ↦ none | some bytes ↦ fdt32 bytes ]

  unfoldable pub is_matrix : F.Blob → ℕ → Bool
  unfolding prop_is
  is_matrix b n = prop_is b n route_kind matrix_input || prop_is b n route_kind matrix_output

  -- The loop of `patch_route` over the nodes that are left, with `found`.
  unfoldable pub patch_nodes : Text → ℕ → List ℕ → F.Blob → ℕ → Result (F.Blob × ℕ)
  unfolding prop_is pin_word is_matrix with_pin
  patch_nodes route gpio [] b found = done (b, found)
  patch_nodes route gpio (n ∷ ns) b found = elim (prop_is b n route_name route) [
    | false ↦ patch_nodes route gpio ns b found
    | true ↦ elim (is_matrix b n) [
      | false ↦ failed eopnotsupp
      | true ↦ elim (pin_word b n) [
        | none ↦ failed einval
        | some old ↦ elim (F.setprop_u32 b n pinmux (with_pin old gpio)) [
          | none ↦ failed einval
          | some b' ↦ patch_nodes route gpio ns b' (found + 1)
        ]
      ]
    ]
  ]

  -- `strtoul` with the tests on `errno` and on the end of the text is a parameter.
  unfoldable pub patch_route : (Text → Option ℕ) → F.Blob → Text → Result F.Blob
  unfolding cut valid_gpio patch_nodes
  patch_route strtoul b assignment = elim (cut b'=' assignment) [
    | none ↦ failed einval
    | some (route, number) ↦
        if length route == 0 || leb 64 (length route)
        then failed einval
        else elim (strtoul number) [
          | none ↦ failed einval
          | some gpio ↦
              if not (valid_gpio gpio)
              then failed einval
              else elim (patch_nodes route gpio (F.nodes b) b 0) [
                | failed e ↦ failed e
                | done (b', found) ↦
                    if found == 1 then done b' else failed (if found == 0 then enoent else eexist)
              ]
        ]
  ]

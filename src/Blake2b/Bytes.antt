-- ===== src/Blake2b/Bytes.antt =====
-- The byte and rotation helpers of vendors/ocaml-blake2/src/blake2-impl.h, in the portable
-- branches (no NATIVE_LITTLE_ENDIAN).
use tezos_master_lib_p2p.Prelude.{ℕ, ◌-◌, List, [], ◌∷◌, bit_or, get_or, u8, u32, u64, ◌<<◌, ◌>>>◌}

unfoldable pub load32 : List ℕ → ℕ
load32 p =
    bit_or (bit_or (bit_or (get_or p 0 0 << 0) (get_or p 1 0 << 8)) (get_or p 2 0 << 16))
      (get_or p 3 0 << 24)

unfoldable pub load64 : List ℕ → ℕ
load64 p =
    let w1 = bit_or (get_or p 0 0 << 0) (get_or p 1 0 << 8) in
    let w2 = bit_or w1 (get_or p 2 0 << 16) in
    let w3 = bit_or w2 (get_or p 3 0 << 24) in
    let w4 = bit_or w3 (get_or p 4 0 << 32) in
    let w5 = bit_or w4 (get_or p 5 0 << 40) in
    let w6 = bit_or w5 (get_or p 6 0 << 48) in bit_or w6 (get_or p 7 0 << 56)

unfoldable pub load16 : List ℕ → ℕ
load16 p = bit_or (get_or p 0 0 << 0) (get_or p 1 0 << 8)

unfoldable pub load48 : List ℕ → ℕ
load48 p =
    let w1 = bit_or (get_or p 0 0 << 0) (get_or p 1 0 << 8) in
    let w2 = bit_or w1 (get_or p 2 0 << 16) in
    let w3 = bit_or w2 (get_or p 3 0 << 24) in
    let w4 = bit_or w3 (get_or p 4 0 << 32) in bit_or w4 (get_or p 5 0 << 40)

-- The stores give the bytes that they write at `dst`. `store16` and `store48` shift as they go
-- or at once, with the same bytes.
unfoldable pub store16 : ℕ → List ℕ
store16 w = u8 w ∷ u8 (w >>> 8) ∷ []

unfoldable pub store32 : ℕ → List ℕ
store32 w = u8 (w >>> 0) ∷ u8 (w >>> 8) ∷ u8 (w >>> 16) ∷ u8 (w >>> 24) ∷ []

unfoldable pub store48 : ℕ → List ℕ
store48 w =
    u8 (w >>> 0) ∷ u8 (w >>> 8) ∷ u8 (w >>> 16) ∷ u8 (w >>> 24) ∷ u8 (w >>> 32) ∷ u8 (w >>> 40) ∷ []

unfoldable pub store64 : ℕ → List ℕ
store64 w =
    u8 (w >>> 0)
    ∷ u8 (w >>> 8)
    ∷ u8 (w >>> 16)
    ∷ u8 (w >>> 24)
    ∷ u8 (w >>> 32)
    ∷ u8 (w >>> 40)
    ∷ u8 (w >>> 48)
    ∷ u8 (w >>> 56)
    ∷ []

unfoldable pub rotr32 : ℕ → ℕ → ℕ
rotr32 w c = bit_or (w >>> c) (u32 (w << (32 - c)))

unfoldable pub rotr64 : ℕ → ℕ → ℕ
rotr64 w c = bit_or (w >>> c) (u64 (w << (64 - c)))

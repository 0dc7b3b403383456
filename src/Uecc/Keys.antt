-- ===== src/Uecc/Keys.antt =====
-- The key functions of vendors/ocaml-uecc/src/uECC.c: conversions, random numbers, key pairs, shared
-- secrets and checks of points. Byte strings are lists, the highest byte first. The function set by
-- uECC_set_rng is a parameter: of its own state and a size it gives the words of the buffer that it
-- filled, or nothing where it fails. A call that may fail gives an inner option; the outer one is
-- `none` where a loop of the point operations runs out of fuel.
use tezos_master_lib_p2p.Prelude.{
  ℕ, zero, suc, ◌+◌, ◌-◌, ◌*◌, ◌/◌, ◌%◌, List, [], ◌∷◌, ◌++◌, Bool, true, false, not, ◌&&◌, ◌||◌,
  Option, none, some, ◌>>=◌, length, take, drop, get_or, set, ◌==◌, if◌then◌else◌, bit_and, bit_or,
  u8, u64, word64_mod, ◌<<◌, ◌>>>◌,
}
use tezos_master_lib_p2p.Uecc.Vli.{
  clear, is_zero, num_bits, cmp, cmp_unsafe, is_one, equal, sub, word_bits,
}
use tezos_master_lib_p2p.Uecc.Curve.{Params, Curve, mod_square_fast, bits_to_words, bits_to_bytes}
use tezos_master_lib_p2p.Uecc.Points.{regularize_k, point_public_key, point_mult}

-- The loop of uECC_vli_nativeToBytes; the byte written first is the highest one, b = num_bytes - 1.
unfoldable pub native_to_bytes : ℕ → List ℕ → List ℕ
native_to_bytes zero native = []
native_to_bytes (suc b) native =
    u8 (get_or native (b / 8) 0 >>> (8 * (b % 8))) ∷ native_to_bytes b native

-- The loop of uECC_vli_bytesToNative; b is the number of bytes that follow.
unfoldable pub bytes_into : List ℕ → List ℕ → List ℕ
bytes_into native [] = native
bytes_into native (byte ∷ bytes) =
    let b = length bytes in
    bytes_into (set native (b / 8) (bit_or (get_or native (b / 8) 0) (u64 (byte << (8 * (b % 8))))))
      bytes

unfoldable pub bytes_to_native : List ℕ → List ℕ
bytes_to_native bytes = bytes_into (clear ((length bytes + 7) / 8)) bytes

-- The words of a point whose two coordinates follow each other, and back.
unfoldable pub point_to_native : Params → List ℕ → List ℕ
point_to_native c bytes =
    bytes_to_native (take c.num_bytes bytes)
    ++ bytes_to_native (take c.num_bytes (drop c.num_bytes bytes))

unfoldable pub point_to_bytes : Params → List ℕ → List ℕ
point_to_bytes c point =
    native_to_bytes c.num_bytes (take c.num_words point)
    ++ native_to_bytes c.num_bytes (drop c.num_words point)

-- random[num_words - 1] &= mask >> (num_words * 64 - num_bits)
unfoldable pub mask_top : ℕ → ℕ → List ℕ → List ℕ
mask_top num_words num_bits random = set random (num_words - 1) (
    bit_and (get_or random (num_words - 1) 0)
      ((word64_mod - 1) >>> (num_words * word_bits - num_bits)))

-- uECC_RNG_MAX_TRIES.
abbrev pub max_tries : ℕ
max_tries = 64

-- The end of uECC_shared_secret: the secret, and whether the point is not the one at infinity.
unfoldable pub secret_of : Curve → List ℕ → List ℕ → Option (List ℕ) → Option (List ℕ × Bool)
secret_of c public scalar initial_z = do
  r ← point_mult c public scalar initial_z (c.params.num_n_bits + 1)
  some (native_to_bytes c.params.num_bytes (take c.params.num_words r), is_zero r == 0)

module _ {S : Type 0} where
  -- The loop of uECC_generate_random_int.
  unfoldable pub random_tries :
      (S → ℕ → S × Option (List ℕ)) → ℕ → S → List ℕ → ℕ → S × Option (List ℕ)
  random_tries rng zero s top num_words = (s, none)
  random_tries rng (suc tries) s top num_words = elim (rng s (num_words * 8)).1 [
    | none ↦ ((rng s (num_words * 8)).0, none)
    | some filled ↦
        let random = mask_top num_words (num_bits top num_words) filled in
        elim (is_zero random == 0 && is_one (cmp top random)) [
          | true ↦ ((rng s (num_words * 8)).0, some random)
          | false ↦ random_tries rng tries (rng s (num_words * 8)).0 top num_words
        ]
  ]

  unfoldable pub generate_random_int :
      Option (S → ℕ → S × Option (List ℕ)) → S → List ℕ → ℕ → S × Option (List ℕ)
  generate_random_int none s top num_words = (s, none)
  generate_random_int (some rng) s top num_words = random_tries rng max_tries s top num_words

  -- The loop of uECC_make_key: the public key and the private one.
  unfoldable pub key_tries :
      ℕ → Option (S → ℕ → S × Option (List ℕ)) → Curve → S → Option (S × Option (List ℕ × List ℕ))
  key_tries zero rng c s = some (s, none)
  key_tries (suc tries) rng c s =
      let (s', drawn) = generate_random_int rng s c.params.n (bits_to_words c.params.num_n_bits) in
      elim drawn [
        | none ↦ some (s', none)
        | some private ↦ point_public_key c private >>= λ made. elim made.1 [
          | true ↦ some (
            s',
            some (
              point_to_bytes c.params made.0,
              native_to_bytes (bits_to_bytes c.params.num_n_bits) private,
            ),
          )
          | false ↦ key_tries tries rng c s'
        ]
      ]

  unfoldable pub make_key :
      Option (S → ℕ → S × Option (List ℕ)) → Curve → S → Option (S × Option (List ℕ × List ℕ))
  make_key rng c s = key_tries max_tries rng c s

  unfoldable pub shared_secret :
      Option (S → ℕ → S × Option (List ℕ))
      → Curve
      → S
      → List ℕ
      → List ℕ
      → Option (S × Option (List ℕ × Bool))
  shared_secret rng c s public_key private_key =
      let private = bytes_to_native (take (bits_to_bytes c.params.num_n_bits) private_key) in
      let public = point_to_native c.params public_key in
      let (carry, (k0, k1)) = regularize_k c.params private in
      let scalar = if carry then k0 else k1 in
      elim rng [
        | none ↦ secret_of c public scalar none >>= λ r. some (s, some r)
        | some draw ↦
            let (s', drawn) = generate_random_int (some draw) s c.params.p c.params.num_words in
            elim drawn [
              | none ↦ some (s', none)
              | some z ↦ secret_of c public scalar (some z) >>= λ r. some (s', some r)
            ]
      ]

-- uECC_compress.
unfoldable pub compress_point : Params → List ℕ → List ℕ
compress_point c public_key =
    (2 + bit_and (get_or public_key (c.num_bytes * 2 - 1) 0) 1) ∷ take c.num_bytes public_key

-- uECC_decompress.
unfoldable pub decompress_point : Curve → List ℕ → Option (List ℕ)
decompress_point c compressed = do
  let x = bytes_to_native (take c.params.num_bytes (drop 1 compressed))
  side ← c.x_side c.params x
  root ← c.mod_sqrt c.params side
  let differs = not (bit_and (get_or root 0 0) 1 == bit_and (get_or compressed 0 0) 1)
  let y = if differs then (sub c.params.p root).0 else root
  some (native_to_bytes c.params.num_bytes x ++ native_to_bytes c.params.num_bytes y)

-- uECC_valid_point.
unfoldable pub valid_point : Curve → List ℕ → Option Bool
valid_point c point =
    let x = take c.params.num_words point in
    let y = drop c.params.num_words point in
    if not (is_zero point == 0)
    then some false
    else if not (is_one (cmp_unsafe c.params.p x)) || not (is_one (cmp_unsafe c.params.p y))
    then some false
    else (do
      tmp1 ← mod_square_fast c.params y
      tmp2 ← c.x_side c.params x
      some (not (equal tmp1 tmp2 == 0)))

unfoldable pub valid_public_key : Curve → List ℕ → Option Bool
valid_public_key c public_key = valid_point c (point_to_native c.params public_key)

-- uECC_compute_public_key.
unfoldable pub compute_public_key : Curve → List ℕ → Option (Option (List ℕ))
compute_public_key c private_key =
    let private = bytes_to_native (take (bits_to_bytes c.params.num_n_bits) private_key) in
    if not (is_zero private == 0)
    then some none
    else if not (is_one (cmp c.params.n private))
    then some none
    else (do
      (public, finite) ← point_public_key c private
      some (if finite then some (point_to_bytes c.params public) else none))

-- uECC_curve_private_key_size and uECC_curve_public_key_size.
unfoldable pub private_key_size : Params → ℕ
private_key_size c = bits_to_bytes c.num_n_bits

unfoldable pub public_key_size : Params → ℕ
public_key_size c = 2 * c.num_bytes

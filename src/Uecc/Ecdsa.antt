-- ===== src/Uecc/Ecdsa.antt =====
-- ECDSA of vendors/ocaml-uecc/src/uECC.c. A signature that fails is the inner `none`; what the
-- signature buffer then holds is left out.
use tezos_master_lib_p2p.Prelude.{
  ℕ, zero, suc, ◌+◌, ◌-◌, ◌*◌, ◌/◌, List, [], ◌∷◌, ◌++◌, not, ◌||◌, Option, none, some, ◌>>=◌,
  length, take, min, ltb, leb, ◌==◌, if◌then◌else◌, bit_or, u64, ◌<<◌, ◌>>>◌,
}
use tezos_master_lib_p2p.Uecc.Vli.{clear, is_zero, num_bits, cmp, cmp_unsafe, is_one, sub, mod_add}
use tezos_master_lib_p2p.Uecc.Mmod.{one_words, mod_mult, mod_inv}
use tezos_master_lib_p2p.Uecc.Curve.{Params, Curve, bits_to_words, bits_to_bytes}
use tezos_master_lib_p2p.Uecc.Points.{regular_mult}
use tezos_master_lib_p2p.Uecc.Keys.{
  native_to_bytes, bytes_to_native, generate_random_int, max_tries,
}

-- The loop of bits2int, which starts at the highest word: the words, and the carry below them.
unfoldable pub shift_down : ℕ → List ℕ → List ℕ × ℕ
shift_down shift [] = ([], 0)
shift_down shift (temp ∷ ws) =
    let (higher, carry) = shift_down shift ws in
    (bit_or (temp >>> shift) carry ∷ higher, u64 (temp << (64 - shift)))

-- bits2int; bytesToNative clears the words that the bits fill, the words above are clear before.
unfoldable pub bits_to_int : Params → List ℕ → List ℕ
bits_to_int c bits =
    let num_n_words = bits_to_words c.num_n_bits in
    let bits_size = min (length bits) (bits_to_bytes c.num_n_bits) in
    let native =
      bytes_to_native (take bits_size bits) ++ clear (num_n_words - (bits_size + 7) / 8) in
    let shifted = (shift_down (bits_size * 8 - c.num_n_bits) native).0 in
    if leb (bits_size * 8) c.num_n_bits
    then native
    else if not (is_one (cmp_unsafe c.n shifted))
    then (sub shifted c.n).0
    else shifted

-- The words of r in an array of num_n_words words that is clear above them.
unfoldable pub widen : ℕ → List ℕ → List ℕ
widen num_n_words r = take num_n_words (r ++ clear num_n_words)

-- s = (e + r * d) / k, with the random number tmp that hides k.
unfoldable pub sign_value : Params → List ℕ → List ℕ → List ℕ → List ℕ → List ℕ → Option (List ℕ)
sign_value c private_key message_hash k tmp r = do
  inverse ← mod_inv (mod_mult k tmp c.n) c.n
  let k' = mod_mult inverse tmp c.n
  let d = bytes_to_native (take (bits_to_bytes c.num_n_bits) private_key)
  let rd = mod_mult d (widen (bits_to_words c.num_n_bits) r) c.n
  some (mod_mult (mod_add (bits_to_int c message_hash) rd c.n) k' c.n)

-- The bytes of a signature, where s has room.
unfoldable pub signature_of : Params → List ℕ → List ℕ → Option (List ℕ)
signature_of c r s =
    if ltb (c.num_bytes * 8) (num_bits s (bits_to_words c.num_n_bits))
    then none
    else some (native_to_bytes c.num_bytes r ++ native_to_bytes c.num_bytes s)

module _ {S : Type 0} (rng : Option (S → ℕ → S × Option (List ℕ))) (c : Curve) where
  -- The number that hides k: 1 without a random source.
  unfoldable pub blinding : S → S × Option (List ℕ)
  blinding s =
      let num_n_words = bits_to_words c.params.num_n_bits in
      elim rng [
        | none ↦ (s, some (one_words num_n_words))
        | some draw ↦ generate_random_int (some draw) s c.params.n num_n_words
      ]

  -- uECC_sign_with_k.
  unfoldable pub sign_with_k : List ℕ → List ℕ → List ℕ → S → Option (S × Option (List ℕ))
  sign_with_k private_key message_hash k s =
      if not (is_zero (take c.params.num_words k) == 0) || not (is_one (cmp c.params.n k))
      then some (s, none)
      else regular_mult c c.params.g k none >>= λ point.
          let r = take c.params.num_words point in
          if not (is_zero r == 0)
          then some (s, none)
          else let (s', drawn) = blinding s in
            elim drawn [
              | none ↦ some (s', none)
              | some tmp ↦ sign_value c.params private_key message_hash k tmp r >>= λ value.
                  some (s', signature_of c.params r value)
            ]

  -- The loop of uECC_sign.
  unfoldable pub sign_tries : ℕ → List ℕ → List ℕ → S → Option (S × Option (List ℕ))
  sign_tries zero private_key message_hash s = some (s, none)
  sign_tries (suc tries) private_key message_hash s =
      let (s', drawn) = generate_random_int rng s c.params.n (bits_to_words c.params.num_n_bits) in
      elim drawn [
        | none ↦ some (s', none)
        | some k ↦ sign_with_k private_key message_hash k s' >>= λ signed. elim signed.1 [
          | some signature ↦ some (signed.0, some signature)
          | none ↦ sign_tries tries private_key message_hash signed.0
        ]
      ]

  unfoldable pub sign : List ℕ → List ℕ → S → Option (S × Option (List ℕ))
  sign private_key message_hash s = sign_tries max_tries private_key message_hash s

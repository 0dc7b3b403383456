-- ===== src/Stubs/Refusals.antt =====
-- The stubs of vendors/ocaml-uecc/src/uecc_stubs.c on numbers that are out of range.
use tezos_master_lib_p2p.Prelude.{
  ℕ, ◌*◌, ◌≤◌, ◌≡◌, ap, ◌∙◌, List, Bool, true, false, Option, none, some, ◌>>=◌, ◌&&◌, length, take,
  drop,
}
use tezos_master_lib_p2p.Uecc.Value.{value}
use tezos_master_lib_p2p.Uecc.Curve.{Curve, bits_to_bytes}
use tezos_master_lib_p2p.Uecc.Keys.{compute_public_key}
use tezos_master_lib_p2p.Uecc.Verify.{verify}
use tezos_master_lib_p2p.Uecc.Bytes.{IsBytes, big_endian}
use tezos_master_lib_p2p.Uecc.VerifyRange.{HasOrder, in_order, verify-out_of_range}
use tezos_master_lib_p2p.Uecc.KeyRange.{key_bytes, compute_public_key-out_of_range}
use tezos_master_lib_p2p.Stubs.Value.{Value, custom, bigarray, outside}
use tezos_master_lib_p2p.Stubs.Uecc.{
  Store, address, dim_val, bool_value, curve_val, compute_public_key_stub, verify_stub,
  write_buffer,
}

-- A buffer of a size at an address.
abbrev pub buffer : ℕ → ℕ → Value
buffer a size = bigarray (record { data_val = outside a; dim = size })

module _ {S : Type 0} (rng : Option (S → ℕ → S × Option (List ℕ))) (curves : ℕ → Option Curve)
    (c : Curve) (order : HasOrder c.params) (m : Store) (kind : ℕ)
    (known : curves kind ≡ some c) where
  -- For a curve whose n has as many words as its p, all of their bytes used, and a private key in
  -- memory that is not a number from 1 to n - 1, the stub of uECC_compute_public_key returns false
  -- and leaves the memory as it is.
  pub compute_public_key_stub-refuses :
      (sk pk sk_size pk_size : ℕ)
      → IsBytes (key_bytes c (m sk))
      → bits_to_bytes c.params.num_n_bits ≤ length (m sk)
      → in_order (value c.params.n) (big_endian (key_bytes c (m sk))) ≡ false
      → compute_public_key_stub rng curves m (buffer sk sk_size) (buffer pk pk_size) (custom kind)
        ≡ some (m, bool_value false)
  unfolding compute_public_key_stub address curve_val
  compute_public_key_stub-refuses sk pk sk_size pk_size h size outside_range =
      ap
        (λ (o : Option Curve). o >>= λ k. compute_public_key k (m sk) >>= λ r. elim r [
          | none ↦ some (m, bool_value false)
          | some public ↦ some (write_buffer m pk public, bool_value true)
        ])
        known
      ∙ ap
          (λ (o : Option (Option (List ℕ))). o >>= λ r. elim r [
            | none ↦ some (m, bool_value false)
            | some public ↦ some (write_buffer m pk public, bool_value true)
          ])
          (compute_public_key-out_of_range c order (m sk) h size outside_range)

  -- For such a curve and a signature in memory whose two numbers are not both from 1 to n - 1, the
  -- stub of uECC_verify returns false, for any public key and any message.
  pub verify_stub-refuses :
      (pk msg signature pk_size msg_size signature_size : ℕ)
      → IsBytes (take c.params.num_bytes (m signature))
      → IsBytes (take c.params.num_bytes (drop c.params.num_bytes (m signature)))
      → length (m signature) ≡ 2 * c.params.num_bytes
      → (in_order (value c.params.n) (big_endian (take c.params.num_bytes (m signature)))
          && in_order
              (value c.params.n)
              (big_endian (take c.params.num_bytes (drop c.params.num_bytes (m signature)))))
        ≡ false
      → verify_stub rng curves m
          (buffer pk pk_size)
          (buffer msg msg_size)
          (buffer signature signature_size)
          (custom kind)
        ≡ some (bool_value false)
  unfolding verify_stub address curve_val dim_val
  verify_stub-refuses pk msg signature pk_size msg_size signature_size hr hs size outside_range =
      ap
        (λ (o : Option Curve). o >>= λ k.
          verify k (m pk) (take msg_size (m msg)) (m signature) >>= λ ok. some (bool_value ok))
        known
      ∙ ap (λ (o : Option Bool). o >>= λ ok. some (bool_value ok))
          (verify-out_of_range c order (m pk) (take msg_size (m msg)) (m signature) hr hs size
            outside_range)

-- ===== src/Uecc/KeyRange.antt =====
-- The tests of uECC_compute_public_key on the private key.
use tezos_master_lib_p2p.Prelude.{
  ℕ, ◌≤◌, ◌≡◌, ◌∙◌, List, false, ◌&&◌, ◌==◌, none, some, length, length-take, take, arith,
}
use tezos_master_lib_p2p.Uecc.Vli.{is_zero, cmp, is_one}
use tezos_master_lib_p2p.Uecc.Compare.{is_zero-value, cmp-value}
use tezos_master_lib_p2p.Uecc.Value.{value, IsNumber}
use tezos_master_lib_p2p.Uecc.Curve.{Curve, bits_to_words, bits_to_bytes}
use tezos_master_lib_p2p.Uecc.Keys.{bytes_to_native, compute_public_key}
use tezos_master_lib_p2p.Uecc.Bytes.{IsBytes, big_endian, bytes_to_native-IsNumber}
use tezos_master_lib_p2p.Uecc.VerifyRange.{HasOrder, in_order}

-- The bytes that are read of a private key.
abbrev pub key_bytes : Curve → List ℕ → List ℕ
key_bytes c private_key = take (bits_to_bytes c.params.num_n_bits) private_key

module _ (c : Curve) (order : HasOrder c.params) (private_key : List ℕ) where
  key-IsNumber :
      IsBytes (key_bytes c private_key)
      → bits_to_bytes c.params.num_n_bits ≤ length private_key
      → IsNumber
          (big_endian (key_bytes c private_key))
          c.params.num_words
          (bytes_to_native (key_bytes c private_key))
  key-IsNumber h size =
      let number = bytes_to_native-IsNumber (key_bytes c private_key) h in
      let taken = length-take (bits_to_bytes c.params.num_n_bits) private_key in
      let words = order.same_words in
      record {
        words = number.words;
        same_length =
            unfold bits_to_bytes bits_to_words in
            omega (arith, number.same_length, taken, size, words);
        number = number.number;
      }

  key-test :
      IsBytes (key_bytes c private_key)
      → bits_to_bytes c.params.num_n_bits ≤ length private_key
      → ((is_zero (bytes_to_native (key_bytes c private_key)) == 0)
          && is_one (cmp c.params.n (bytes_to_native (key_bytes c private_key))))
        ≡ in_order (value c.params.n) (big_endian (key_bytes c private_key))
  key-test h size =
      let number = key-IsNumber h size in
      let zero_test = is_zero-value (bytes_to_native (key_bytes c private_key)) in
      let order_test =
        cmp-value c.params.n (bytes_to_native (key_bytes c private_key)) order.order_words
          number.words (omega (arith, order.order_length, number.same_length)) in
      ground (arith, zero_test, order_test, number.number)

  compute-refuses :
      ((is_zero (bytes_to_native (key_bytes c private_key)) == 0)
          && is_one (cmp c.params.n (bytes_to_native (key_bytes c private_key))))
        ≡ false
      → compute_public_key c private_key ≡ some none
  unfolding compute_public_key
  compute-refuses e = ground (arith, e)

  -- On a curve whose n has as many words as its p, all of their bytes used, `compute_public_key`
  -- fails for a private key whose first BITS_TO_BYTES(num_n_bits) bytes
  -- are a number that is not from 1 to n - 1.
  pub compute_public_key-out_of_range :
      IsBytes (key_bytes c private_key)
      → bits_to_bytes c.params.num_n_bits ≤ length private_key
      → in_order (value c.params.n) (big_endian (key_bytes c private_key)) ≡ false
      → compute_public_key c private_key ≡ some none
  compute_public_key-out_of_range h size outside = compute-refuses (key-test h size ∙ outside)

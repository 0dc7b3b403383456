-- ===== src/Uecc/VerifyRange.antt =====
-- The tests of uECC_verify on r and s.
use tezos_master_lib_p2p.Prelude.{
  ℕ, ◌*◌, ◌≡◌, ◌∙◌, List, Bool, false, ◌&&◌, ap₂, length-take, length-drop, length, take, drop, ltb,
  ◌==◌, some, arith,
}
use tezos_master_lib_p2p.Prelude.Slices.{take-append, take-length}
use tezos_master_lib_p2p.Uecc.Vli.{is_zero, cmp_unsafe, is_one, clear}
use tezos_master_lib_p2p.Uecc.Compare.{is_zero-value, cmp_unsafe-value}
use tezos_master_lib_p2p.Uecc.Value.{value, IsWords, IsNumber}
use tezos_master_lib_p2p.Uecc.Curve.{Curve, Params, bits_to_words}
use tezos_master_lib_p2p.Uecc.Keys.{bytes_to_native}
use tezos_master_lib_p2p.Uecc.Ecdsa.{widen}
use tezos_master_lib_p2p.Uecc.Verify.{verify}
use tezos_master_lib_p2p.Uecc.Bytes.{IsBytes, big_endian, bytes_to_native-IsNumber}

-- The number is from 1 to n - 1.
abbrev pub in_order : ℕ → ℕ → Bool
in_order n r = ltb 0 r && ltb r n

-- A curve whose numbers modulo n and modulo p have the same words, all of their bytes used.
pub record HasOrder (c : Params) : Type 0 where
  pub order_words : IsWords c.n
  pub order_length : length c.n ≡ c.num_words
  pub same_words : bits_to_words c.num_n_bits ≡ c.num_words
  pub whole_words : c.num_bytes ≡ 8 * c.num_words

module _ (c : Curve) (order : HasOrder c.params) (public_key message_hash signature : List ℕ) where
  -- A half of the signature in words, as it is decoded.
  abbrev decoded : List ℕ → List ℕ
  decoded bytes = widen (bits_to_words c.params.num_n_bits) (bytes_to_native bytes)

  decoded-IsNumber :
      (bytes : List ℕ)
      → IsBytes bytes
      → length bytes ≡ c.params.num_bytes
      → IsNumber (big_endian bytes) c.params.num_words (decoded bytes)
  unfolding widen
  decoded-IsNumber bytes h same =
      let number = bytes_to_native-IsNumber bytes h in
      let size : length (bytes_to_native bytes) ≡ c.params.num_words =
        omega (arith, number.same_length, same, order.whole_words) in
      let whole =
        take-append (bytes_to_native bytes) (clear c.params.num_words) c.params.num_words
          (omega (arith, size)) in
      rw (order.same_words, whole)
        (record { words = number.words; same_length = size; number = number.number })

  decoded-test :
      (bytes : List ℕ)
      → IsBytes bytes
      → length bytes ≡ c.params.num_bytes
      → ((is_zero (take c.params.num_words (decoded bytes)) == 0)
          && is_one (cmp_unsafe c.params.n (decoded bytes)))
        ≡ in_order (value c.params.n) (big_endian bytes)
  decoded-test bytes h same =
      let number = decoded-IsNumber bytes h same in
      let whole =
        take-length (decoded bytes) c.params.num_words (omega (arith, number.same_length)) in
      let zero_test = is_zero-value (decoded bytes) in
      let order_test =
        cmp_unsafe-value c.params.n (decoded bytes) order.order_words number.words
          (omega (arith, order.order_length, number.same_length)) in
      rw whole (ground (arith, zero_test, order_test, number.number))

  abbrev r_bytes : List ℕ
  r_bytes = take c.params.num_bytes signature

  abbrev s_bytes : List ℕ
  s_bytes = take c.params.num_bytes (drop c.params.num_bytes signature)

  verify-refuses :
      (is_zero (take c.params.num_words (decoded r_bytes)) == 0
          && is_one (cmp_unsafe c.params.n (decoded r_bytes))
          && (is_zero (take c.params.num_words (decoded s_bytes)) == 0
              && is_one (cmp_unsafe c.params.n (decoded s_bytes))))
        ≡ false
      → verify c public_key message_hash signature ≡ some false
  unfolding verify
  verify-refuses e = ground (arith, e)

  -- On a curve whose n has as many words as its p, all of their bytes used, `verify` refuses a
  -- signature of two numbers of num_bytes bytes that are not both from 1 to n - 1.
  pub verify-out_of_range :
      IsBytes (take c.params.num_bytes signature)
      → IsBytes (take c.params.num_bytes (drop c.params.num_bytes signature))
      → length signature ≡ 2 * c.params.num_bytes
      → (in_order (value c.params.n) (big_endian (take c.params.num_bytes signature))
          && in_order
              (value c.params.n)
              (big_endian (take c.params.num_bytes (drop c.params.num_bytes signature))))
        ≡ false
      → verify c public_key message_hash signature ≡ some false
  verify-out_of_range hr hs size outside =
      let first = length-take c.params.num_bytes signature in
      let rest = length-drop c.params.num_bytes signature in
      let second = length-take c.params.num_bytes (drop c.params.num_bytes signature) in
      let r_test = decoded-test r_bytes hr (omega (arith, first, size)) in
      let s_test = decoded-test s_bytes hs (omega (arith, second, rest, size)) in
      verify-refuses (ap₂ (λ a b. a && b) r_test s_test ∙ outside)

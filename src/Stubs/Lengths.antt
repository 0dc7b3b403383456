-- ===== src/Stubs/Lengths.antt =====
-- The lengths that vendors/ocaml-hacl/src/hacl_stubs.c gives HACL for padded buffers: what follows the
-- first 32 bytes. src/lib_p2p/p2p_socket.ml opens a chunk of n bytes in a buffer of n + 16.
use tezos_master_lib_p2p.Prelude.{
  ℕ, ◌+◌, ◌-◌, ◌<◌, ◌^◌, ◌≡◌, ap, ◌⊎◌, inl, inr, leb, if◌then◌else◌, arith, word64_mod, dec_lt,
}
use tezos_master_lib_p2p.Stubs.Value.{bigarray, Bigarray, outside}
use tezos_master_lib_p2p.Stubs.Env.{returning, returning_unit}
use tezos_master_lib_p2p.Stubs.Secp256k1.{data_val}
use tezos_master_lib_p2p.Stubs.Hacl.{
  Hacl, body_length, ml_secretbox_easy, ml_secretbox_open_detached, ml_box_easy_afternm,
  ml_box_open_easy_afternm,
}

-- dim[0] - 32 in 64 bits.
abbrev pub wrapped : ℕ → ℕ
wrapped dim = if leb 32 dim then dim - 32 else word64_mod - 32 + dim

body_length-wrapped : (dim : ℕ) → dim < word64_mod → body_length dim ≡ wrapped dim
unfolding body_length
body_length-wrapped dim h = ground (arith, h)

module _ {W : Type 0} (hacl : Hacl W) (w : W) (c m n k mac : Bigarray) where
  -- Of buffers of fewer than 2 ^ 64 bytes, the four stubs that box and open give HACL the number of
  -- bytes after the first 32, of the message or of the cipher text that they read, and for a buffer
  -- of d < 32 bytes the number 2 ^ 64 - 32 + d.
  pub boxes-wrapped :
      m.dim < word64_mod
      → c.dim < word64_mod
      → (ml_secretbox_easy hacl w (bigarray c) (bigarray m) (bigarray n) (bigarray k)
          ≡ returning_unit
              (hacl.secretbox_easy w c.data_val m.data_val (wrapped m.dim) n.data_val k.data_val))
        × (ml_box_easy_afternm hacl w (bigarray c) (bigarray m) (bigarray n) (bigarray k)
            ≡ returning_unit (
                hacl.box_easy_afternm w c.data_val m.data_val
                  (wrapped m.dim)
                  n.data_val
                  k.data_val))
        × (ml_secretbox_open_detached hacl w
              (bigarray m)
              (bigarray c)
              (bigarray mac)
              (bigarray n)
              (bigarray k)
            ≡ returning (
                hacl.secretbox_open_detached w m.data_val c.data_val mac.data_val
                  (wrapped c.dim)
                  n.data_val
                  k.data_val))
        × (ml_box_open_easy_afternm hacl w (bigarray m) (bigarray c) (bigarray n) (bigarray k)
            ≡ returning (
                hacl.box_open_easy_afternm w m.data_val c.data_val
                  (wrapped c.dim)
                  n.data_val
                  k.data_val))
  unfolding ml_secretbox_easy ml_secretbox_open_detached ml_box_easy_afternm
      ml_box_open_easy_afternm data_val
  boxes-wrapped hm hc =
      let em = body_length-wrapped m.dim hm in
      let ec = body_length-wrapped c.dim hc in
      (
        ap
            (λ (l : ℕ).
              returning_unit (hacl.secretbox_easy w c.data_val m.data_val l n.data_val k.data_val))
            em,
        ap
            (λ (l : ℕ).
              returning_unit
                (hacl.box_easy_afternm w c.data_val m.data_val l n.data_val k.data_val))
            em,
        ap
            (λ (l : ℕ). returning (
              hacl.secretbox_open_detached w m.data_val c.data_val mac.data_val l n.data_val
                k.data_val))
            ec,
        ap
            (λ (l : ℕ).
              returning
                (hacl.box_open_easy_afternm w m.data_val c.data_val l n.data_val k.data_val))
            ec,
      )

wrapped-chunk :
    (l : ℕ)
    → l < 2 ^ 16
    → (32 + wrapped (l + 16) ≡ l + 16) ⊎ ((l < 16) × (l + 16 < wrapped (l + 16)))
wrapped-chunk l h = elim (dec_lt l 16) [
  | yes small ↦ inr (small, ground (arith, small))
  | no large ↦ inl (ground (arith, large))
]

-- The buffer that read_chunk opens in place, of a chunk of a length.
abbrev pub chunk_buffer : ℕ → ℕ → Bigarray
chunk_buffer a encrypted_length = record { data_val = outside a; dim = encrypted_length + 16 }

module _ {W : Type 0} (hacl : Hacl W) (w : W) (n k : Bigarray) where
  -- For a chunk whose length has 16 bits, opened in place in a buffer that is 16 bytes longer,
  -- ml_box_open_easy_afternm gives HACL a number of bytes that, after the first 32, fills the buffer;
  -- or the chunk has fewer than 16 bytes, and the number is larger than the buffer.
  pub box_open-chunk :
      (a encrypted_length : ℕ)
      → encrypted_length < 2 ^ 16
      → (len : ℕ) × (ml_box_open_easy_afternm hacl w
            (bigarray (chunk_buffer a encrypted_length))
            (bigarray (chunk_buffer a encrypted_length))
            (bigarray n)
            (bigarray k)
          ≡ returning
              (hacl.box_open_easy_afternm w (outside a) (outside a) len n.data_val k.data_val))
        × ((32 + len ≡ encrypted_length + 16)
            ⊎ ((encrypted_length < 16) × (encrypted_length + 16 < len)))
  box_open-chunk a encrypted_length h =
      let buffer = chunk_buffer a encrypted_length in
      (
        wrapped (encrypted_length + 16),
        (boxes-wrapped hacl w buffer buffer n k n (omega (arith, h)) (omega (arith, h))).3,
        wrapped-chunk encrypted_length h,
      )

-- ===== src/Blake2b/Codec.antt =====
-- The loads and stores of blake2-impl.h.
use tezos_master_lib_p2p.Prelude.{
  ℕ, ◌+◌, ◌*◌, ◌/◌, ◌%◌, ◌^◌, ◌<◌, ◌≡◌, ◌∙◌, List, [], ◌∷◌, arith, word64_mod,
}
use tezos_master_lib_p2p.Prelude.Bits.{bit_or-low_high}
use tezos_master_lib_p2p.Blake2b.Bytes.{load64, store64}

-- A load is a sum with weights when the bytes are bytes.
module _ (b0 b1 b2 b3 b4 b5 b6 b7 : ℕ) where
  abbrev weigh : ℕ
  weigh =
      b0
      + b1 * 2 ^ 8
      + b2 * 2 ^ 16
      + b3 * 2 ^ 24
      + b4 * 2 ^ 32
      + b5 * 2 ^ 40
      + b6 * 2 ^ 48
      + b7 * 2 ^ 56

  module _ (h0 : b0 < 256) (h1 : b1 < 256) (h2 : b2 < 256) (h3 : b3 < 256) (h4 : b4 < 256)
      (h5 : b5 < 256) (h6 : b6 < 256) (h7 : b7 < 256) where
    load64_sum : (rest : List ℕ) → load64 (b0 ∷ b1 ∷ b2 ∷ b3 ∷ b4 ∷ b5 ∷ b6 ∷ b7 ∷ rest) ≡ weigh
    unfolding load64
    load64_sum rest = ground (
      arith,
      bit_or-low_high 8 b0 b1,
      bit_or-low_high 16 (b0 + b1 * 2 ^ 8) b2,
      bit_or-low_high 24 (b0 + b1 * 2 ^ 8 + b2 * 2 ^ 16) b3,
      bit_or-low_high 32 (b0 + b1 * 2 ^ 8 + b2 * 2 ^ 16 + b3 * 2 ^ 24) b4,
      bit_or-low_high 40 (b0 + b1 * 2 ^ 8 + b2 * 2 ^ 16 + b3 * 2 ^ 24 + b4 * 2 ^ 32) b5,
      bit_or-low_high 48 (b0 + b1 * 2 ^ 8 + b2 * 2 ^ 16 + b3 * 2 ^ 24 + b4 * 2 ^ 32 + b5 * 2 ^ 40)
          b6,
      bit_or-low_high 56
          (b0 + b1 * 2 ^ 8 + b2 * 2 ^ 16 + b3 * 2 ^ 24 + b4 * 2 ^ 32 + b5 * 2 ^ 40 + b6 * 2 ^ 48)
          b7,
    )

    -- Eight bytes below 256 come back from the word that `load64` makes of them.
    pub store64-load64 :
        (rest : List ℕ)
        → store64 (load64 (b0 ∷ b1 ∷ b2 ∷ b3 ∷ b4 ∷ b5 ∷ b6 ∷ b7 ∷ rest))
          ≡ b0 ∷ b1 ∷ b2 ∷ b3 ∷ b4 ∷ b5 ∷ b6 ∷ b7 ∷ []
    unfolding store64
    store64-load64 rest = rw (load64_sum rest) (ground arith)

-- A word below 2 ^ 64 comes back from the bytes that `store64` writes.
pub load64-store64 : (w : ℕ) → w < word64_mod → load64 (store64 w) ≡ w
unfolding store64
load64-store64 w h =
    load64_sum (w / 2 ^ 0 % 256) (w / 2 ^ 8 % 256) (w / 2 ^ 16 % 256) (w / 2 ^ 24 % 256)
      (w / 2 ^ 32 % 256) (w / 2 ^ 40 % 256) (w / 2 ^ 48 % 256) (w / 2 ^ 56 % 256) (omega arith)
      (omega arith) (omega arith) (omega arith) (omega arith) (omega arith) (omega arith)
      (omega arith) []
    ∙ omega arith

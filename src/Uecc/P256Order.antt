-- ===== src/Uecc/P256Order.antt =====
-- The order of secp256r1 in curve-specific.h, and byte strings of zeros.
use tezos_master_lib_p2p.Prelude.{ℕ, zero, suc, refl, replicate, arith}
use tezos_master_lib_p2p.Uecc.Curve.{bits_to_words, params_secp256r1}
use tezos_master_lib_p2p.Uecc.Bytes.{IsBytes}
use tezos_master_lib_p2p.Uecc.VerifyRange.{HasOrder}

pub secp256r1-HasOrder : HasOrder params_secp256r1
secp256r1-HasOrder = record {
  order_words = omega arith;
  order_length = refl;
  same_words = unfold bits_to_words in refl;
  whole_words = refl;
}

pub zeros-IsBytes : (n : ℕ) → IsBytes (replicate n 0)
zeros-IsBytes zero = tt
zeros-IsBytes (suc n) = (omega arith, zeros-IsBytes n)

-- ===== src/Uecc/Hmac.antt =====
-- The HMAC of vendors/ocaml-uecc/src/uECC.c, on the hash of a uECC_HashContext, which is a parameter.
-- The pad at the end of hash_context->tmp is written before each use, so that it is not part of the
-- state; a key and a result that share their bytes are read before they are written.
use tezos_master_lib_p2p.Prelude.{ℕ, ◌-◌, List, ◌++◌, map, take, replicate, bit_xor}

-- uECC_HashContext, with the state that init_hash, update_hash and finish_hash change.
pub record HashContext (H : Type 0) : Type 0 where
  pub init_hash : H → H
  pub update_hash : H → List ℕ → H
  pub finish_hash : H → H × List ℕ
  pub block_size : ℕ
  pub result_size : ℕ

module _ {H : Type 0} (ctx : HashContext H) where
  -- The pad of HMAC_init, by 0x36, and of HMAC_finish, by 0x5c.
  unfoldable pub pad : ℕ → List ℕ → List ℕ
  pad c key =
      map (λ k. bit_xor k c) (take ctx.result_size key)
      ++ replicate (ctx.block_size - ctx.result_size) c

  unfoldable pub hmac_init : H → List ℕ → H
  hmac_init h key = ctx.update_hash (ctx.init_hash h) (pad 0x36 key)

  unfoldable pub hmac_update : H → List ℕ → H
  hmac_update h message = ctx.update_hash h message

  unfoldable pub hmac_finish : H → List ℕ → H × List ℕ
  hmac_finish h key =
      let ended = ctx.finish_hash h in
      let outer = ctx.update_hash (ctx.init_hash ended.0) (pad 0x5c key) in
      ctx.finish_hash (ctx.update_hash outer (take ctx.result_size ended.1))

  -- V = HMAC_K(V)
  unfoldable pub update_v : H → List ℕ → List ℕ → H × List ℕ
  update_v h key v = hmac_finish (hmac_update (hmac_init h key) (take ctx.result_size v)) key

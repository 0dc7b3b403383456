-- ===== src/Blake2b/Finish.antt =====
-- blake2b_final, from the view of the state alone.
use tezos_master_lib_p2p.Prelude.{
  ℕ, ◌-◌, ◌≡◌, inl, inr, List, ◌++◌, some, length, take, ◌==◌, overwrite, replicate, length-take,
  length-replicate, Bool-cases, arith,
}
use tezos_master_lib_p2p.Prelude.Slices.{overwrite-end}
use tezos_master_lib_p2p.Blake2b.State.{
  State, blockbytes, compress, increment_counter, set_lastblock, set_lastnode, is_lastblock,
  final_state, final,
}
use tezos_master_lib_p2p.Blake2b.Spec.{view, last_chain, digest, finish, IsValid}

module _ (s : State) (valid : IsValid s) where
  pending_length : length (take s.buflen s.buf) ≡ s.buflen
  pending_length = omega (arith, length-take s.buflen s.buf)

  -- The padded buffer is what waits, and zeros.
  padded :
      overwrite s.buflen (replicate (blockbytes - s.buflen) 0) s.buf
      ≡ take s.buflen s.buf ++ replicate (blockbytes - s.buflen) 0
  padded =
      overwrite-end s.buflen (replicate (blockbytes - s.buflen) 0) s.buf
        (omega (arith, length-replicate {A = ℕ} (blockbytes - s.buflen) 0))

  last_chain-view : (final_state s).h ≡ last_chain (view s)
  unfolding final_state last_chain set_lastblock set_lastnode increment_counter compress
  last_chain-view = elim (Bool-cases (s.last_node == 0)) [
    | inl plain ↦ rw (pending_length, plain, padded)
    | inr last ↦ rw (pending_length, last, padded)
  ]

  final-outlen : (final_state s).outlen ≡ s.outlen
  unfolding final_state set_lastblock set_lastnode increment_counter compress
  final-outlen = ground arith

  -- From a state whose buffer is in bounds, the status and the output of `final` are those that
  -- `finish` computes from the view, on every branch: stale bytes of the buffer do not matter.
  pub final-view :
      (out : List ℕ) (size : ℕ)
      → ((final s (some out) size).status ≡ (finish (view s) out size).0)
        × ((final s (some out) size).out ≡ (finish (view s) out size).1)
  unfolding final finish is_lastblock digest
  final-view out size = ground (arith, last_chain-view, final-outlen)

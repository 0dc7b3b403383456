-- ===== src/Blake2b/Valid.antt =====
-- The bounds of the buffer in the states of blake2b-ref.c.
use tezos_master_lib_p2p.Prelude.{
  ℕ, zero, suc, ◌+◌, ◌≤◌, ◌<◌, ◌≡◌, refl, inl, inr, List, [], ◌∷◌, length, take, drop, ltb,
  length-take, length-drop, length-replicate, Bool-cases, ltb→lt, arith,
}
use tezos_master_lib_p2p.Prelude.Slices.{length-overwrite}
use tezos_master_lib_p2p.Blake2b.State.{
  State, blockbytes, compress, increment_counter, absorb_blocks, keep_rest, update, init0,
  init_param, Param,
}
use tezos_master_lib_p2p.Blake2b.Spec.{IsValid}
use tezos_master_lib_p2p.Blake2b.Refine.{
  room, filled, refilled, next_block, absorb_blocks-more, absorb_blocks-last, update-long,
  update-short,
}

keep_rest-IsValid :
    (s : State) (rest : List ℕ)
    → length s.buf ≡ blockbytes
    → s.buflen + length rest ≤ blockbytes
    → IsValid (keep_rest (s, rest))
unfolding keep_rest
keep_rest-IsValid s rest size fits = record {
  full_size = omega (arith, length-overwrite s.buflen rest s.buf);
  fits = fits;
}

loop-IsValid :
    (fuel : ℕ) (s : State) (input : List ℕ)
    → length s.buf ≡ blockbytes
    → s.buflen ≡ 0
    → length input ≤ fuel
    → IsValid (keep_rest (absorb_blocks fuel s input))
unfolding absorb_blocks
loop-IsValid zero s input size empty enough = keep_rest-IsValid s input size (omega arith)
loop-IsValid (suc fuel) s input size empty enough =
    elim (Bool-cases (ltb blockbytes (length input))) [
      | inl more ↦ rw (absorb_blocks-more fuel s input more) (
          loop-IsValid fuel (next_block s input) (drop blockbytes input)
            (unfold compress increment_counter in size) (unfold compress increment_counter in empty)
            (omega (arith, length-drop blockbytes input, ltb→lt blockbytes (length input) more)))
      | inr last ↦
          rw (absorb_blocks-last fuel s input last) (keep_rest-IsValid s input size (ground arith))
    ]

refilled-buf : (s : State) (input : List ℕ) → (refilled s input).buf ≡ (filled s input).buf
unfolding compress increment_counter
refilled-buf s input = refl

update-IsValid-some :
    (s : State) (input : List ℕ) → IsValid s → 0 < length input → IsValid (update s input)
update-IsValid-some s input valid some_byte = elim (Bool-cases (ltb (room s) (length input))) [
  | inl long ↦ rw (update-long s input some_byte long) (
      loop-IsValid (length input) (refilled s input) (drop (room s) input)
        (rw (refilled-buf s input) (
          omega (
            arith,
            length-overwrite s.buflen (take (room s) input) s.buf,
            length-take (room s) input,
          )))
        (unfold compress increment_counter in refl) (omega (arith, length-drop (room s) input)))
  | inr short ↦
      rw (update-short s input some_byte short)
        (keep_rest-IsValid s input valid.full_size (ground arith))
]

-- `update` keeps the buffer in its bounds: it has 128 bytes, and buflen is at most 128.
pub update-IsValid : (s : State) (input : List ℕ) → IsValid s → IsValid (update s input)
update-IsValid s [] valid = unfold update in valid
update-IsValid s (x ∷ xs) valid = update-IsValid-some s (x ∷ xs) valid (omega arith)

pub init_param-IsValid : (p : Param) → IsValid (init_param p)
unfolding init_param init0
init_param-IsValid p = record {
  full_size = length-replicate {A = ℕ} blockbytes 0;
  fits = omega arith;
}

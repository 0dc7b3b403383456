-- ===== src/Blake2b/Tests.antt =====
-- Runs of the hash, and the theorems at concrete inputs.
use tezos_master_lib_p2p.Prelude.{
  ℕ, ◌+◌, ◌*◌, ◌<◌, ◌∷◌, [], List, some, ◌≡◌, ◌↔◌, ◌⊎◌, refl, replicate, length, arith, word64_mod,
}
use tezos_master_lib_p2p.Blake2b.Bytes.{load64, store32, store64}
use tezos_master_lib_p2p.Blake2b.Compress.{chain, iv, load_words}
use tezos_master_lib_p2p.Blake2b.State.{
  State, ok, failed, outbytes, keybytes, init0, init_param, param_bytes, xor_words,
  sequential_param, init, init_key, update, fill_and_absorb, keep_rest, absorb_blocks, compress,
  increment_counter, final, final_state, set_lastblock, set_lastnode, is_lastblock, store_words,
}
use tezos_master_lib_p2p.Blake2b.Spec.{view, absorb, finish, update_all, join, IsValid}
use tezos_master_lib_p2p.Blake2b.Api.{ml_blake2b, blake2b, start, absorb_all}
use tezos_master_lib_p2p.Blake2b.Refine.{view-update}
use tezos_master_lib_p2p.Blake2b.Valid.{update-IsValid, init_param-IsValid}
use tezos_master_lib_p2p.Blake2b.Finish.{final-view}
use tezos_master_lib_p2p.Blake2b.Stream.{final-update_all}
use tezos_master_lib_p2p.Blake2b.OneShot.{ml_blake2b-update_all, ml_blake2b-failed, final-final}
use tezos_master_lib_p2p.Blake2b.Counter.{counted, IsCounter, update-counted}

-- All that a run passes through.
program : Unit {0}
unfolding ml_blake2b blake2b start absorb_all init init_key init_param init0 param_bytes xor_words
    sequential_param update fill_and_absorb keep_rest absorb_blocks compress increment_counter chain
    final final_state set_lastblock set_lastnode is_lastblock store_words store32 store64 load64
    load_words iv
program = tt

abbrev abc : List ℕ
abc = b'a' ∷ b'b' ∷ b'c' ∷ []

abbrev four_bytes : List ℕ
four_bytes = replicate 4 0

-- The digest of "abc" in four bytes, as other implementations of BLAKE2b give it.
abc_digest : ml_blake2b four_bytes abc [] ≡ (ok, some (0x63 ∷ 0x90 ∷ 0x62 ∷ 0x48 ∷ []))
unfolding program
abc_digest = refl

abbrev begun : State
begun = init_param (sequential_param 4 0)

begun-IsValid : IsValid begun
begun-IsValid = init_param-IsValid (sequential_param 4 0)

abbrev chunks : List (List ℕ)
chunks = (b'a' ∷ []) ∷ [] ∷ (b'b' ∷ b'c' ∷ []) ∷ []

view-update_example : view (update begun abc) ≡ absorb (view begun) abc
view-update_example = view-update begun abc begun-IsValid

update-IsValid_example : IsValid (update begun abc)
update-IsValid_example = update-IsValid begun abc begun-IsValid

final-view_example :
    ((final begun (some four_bytes) 4).status ≡ (finish (view begun) four_bytes 4).0)
    × ((final begun (some four_bytes) 4).out ≡ (finish (view begun) four_bytes 4).1)
final-view_example = final-view begun begun-IsValid four_bytes 4

final-update_all_example :
    ((final (update_all begun chunks) (some four_bytes) 4).status
      ≡ (final (update begun (join chunks)) (some four_bytes) 4).status)
    × ((final (update_all begun chunks) (some four_bytes) 4).out
        ≡ (final (update begun (join chunks)) (some four_bytes) 4).out)
final-update_all_example = final-update_all begun chunks four_bytes 4 begun-IsValid

ml_blake2b-update_all_example :
    (s : State) × (start 4 (some []) 0 ≡ some s)
    × ((final (update_all s chunks) (some four_bytes) 4).status ≡ ok)
    × (ml_blake2b four_bytes abc [] ≡ (ok, (final (update_all s chunks) (some four_bytes) 4).out))
unfolding join
ml_blake2b-update_all_example =
    ml_blake2b-update_all four_bytes abc [] (omega arith) (omega arith) (omega arith) chunks refl

ml_blake2b-failed_example :
    ((ml_blake2b [] abc []).0 ≡ failed)
    ↔ ((length {A = ℕ} [] ≡ 0) ⊎ ((outbytes < length {A = ℕ} []) ⊎ (keybytes < length {A = ℕ} [])))
ml_blake2b-failed_example = ml_blake2b-failed [] abc []

closes : (final begun (some four_bytes) 4).status ≡ ok
unfolding final is_lastblock init_param init0 sequential_param
closes = refl

final-final_example :
    final (final begun (some four_bytes) 4).state (some abc) 3
    ≡ record { status = failed; state = (final begun (some four_bytes) 4).state; out = some abc }
final-final_example = final-final begun four_bytes abc 4 3 closes

begun-IsCounter : IsCounter (view begun)
unfolding init_param init0
begun-IsCounter = record { low = omega arith; high = omega arith; waiting = omega arith }

begun_small : counted (view begun) + length abc < word64_mod * word64_mod
unfolding init_param init0
begun_small = omega arith

update-counted_example :
    IsCounter (view (update begun abc))
    × (counted (view (update begun abc)) ≡ counted (view begun) + length abc)
update-counted_example = update-counted begun abc begun-IsValid begun-IsCounter begun_small

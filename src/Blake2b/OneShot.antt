-- ===== src/Blake2b/OneShot.antt =====
-- The one-shot function against the streaming interface, and when it refuses.
use tezos_master_lib_p2p.Prelude.{
  ℕ, ◌≤◌, ◌<◌, ◌≡◌, ◌↔◌, ◌⊎◌, inl, inr, refl, ap, sym, ◌∙◌, List, [], ◌∷◌, some, length, take, ltb,
  overwrite, replicate, if◌then◌else◌, Bool-cases, arith,
}
use tezos_master_lib_p2p.Prelude.Slices.{take-length}
use tezos_master_lib_p2p.Blake2b.State.{
  State, ok, failed, blockbytes, outbytes, keybytes, all_ones, init, init_key, init_param,
  sequential_param, update, final, final_state, is_lastblock, compress, set_lastblock,
}
use tezos_master_lib_p2p.Blake2b.Spec.{update_all, join}
use tezos_master_lib_p2p.Blake2b.Api.{start, absorb_all, blake2b, ml_blake2b}
use tezos_master_lib_p2p.Blake2b.Stream.{
  final-update_all, IsFresh, init_param-IsFresh, update-IsFresh,
}

-- The state that `start` gives for parameters in range.
started : ℕ → List ℕ → State
started outlen key =
    if ltb 0 (length key)
    then update (init_param (sequential_param outlen (length key)))
        (overwrite 0 (take (length key) key) (replicate blockbytes 0))
    else init_param (sequential_param outlen 0)

module _ (outlen : ℕ) (key : List ℕ) (some_out : 0 < outlen) (out_fits : outlen ≤ outbytes)
    (key_fits : length key ≤ keybytes) where
  start-started : start outlen (some key) (length key) ≡ some (started outlen key)
  unfolding start started init init_key
  start-started = ground arith

  started-IsFresh : IsFresh outlen (started outlen key)
  unfolding started
  started-IsFresh = elim (Bool-cases (ltb 0 (length key))) [
    | inl keyed ↦ rw keyed (
        update-IsFresh outlen (init_param (sequential_param outlen (length key)))
          (overwrite 0 (take (length key) key) (replicate blockbytes 0))
          (init_param-IsFresh outlen (length key) out_fits))
    | inr plain ↦ rw plain (init_param-IsFresh outlen 0 out_fits)
  ]

-- A fresh state is closed with success when the output has the digest's size.
final-IsFresh :
    (s : State) (out : List ℕ)
    → IsFresh (length out) s
    → (final s (some out) (length out)).status ≡ ok
unfolding final is_lastblock
final-IsFresh s out fresh = ground arith

update_all-IsFresh :
    (outlen : ℕ) (s : State) (cs : List (List ℕ))
    → IsFresh outlen s
    → IsFresh outlen (update_all s cs)
unfolding update_all
update_all-IsFresh outlen s [] fresh = fresh
update_all-IsFresh outlen s (c ∷ cs) fresh =
    update_all-IsFresh outlen (update s c) cs (update-IsFresh outlen s c fresh)

module _ (out input key : List ℕ) (some_out : 0 < length out) (out_fits : length out ≤ outbytes)
    (key_fits : length key ≤ keybytes) where
  abbrev from_start : State
  from_start = started (length out) key

  ml_blake2b-started :
      ml_blake2b out input key ≡ (ok, (final (update from_start input) (some out) (length out)).out)
  unfolding ml_blake2b blake2b absorb_all
  ml_blake2b-started = ground (
    arith,
    start-started (length out) key some_out out_fits key_fits,
    take-length input (length input),
  )

  -- With an output of 1 to 64 bytes and a key of at most 64, the start succeeds, and `ml_blake2b`
  -- returns success with the digest that update and final give, however the input is cut.
  pub ml_blake2b-update_all :
      (cs : List (List ℕ))
      → join cs ≡ input
      → (s : State) × (start (length out) (some key) (length key) ≡ some s)
        × ((final (update_all s cs) (some out) (length out)).status ≡ ok)
        × (ml_blake2b out input key ≡ (ok, (final (update_all s cs) (some out) (length out)).out))
  ml_blake2b-update_all cs cut = (
    from_start,
    start-started (length out) key some_out out_fits key_fits,
    final-IsFresh (update_all from_start cs) out
        (update_all-IsFresh (length out) from_start cs fresh),
    ml_blake2b-started
        ∙ ap (λ t. (ok, (final (update from_start t) (some out) (length out)).out)) (sym cut)
        ∙ ap (λ o. (ok, o)) (sym (final-update_all from_start cs out (length out) fresh.valid).1),
  )
    where
      fresh : IsFresh (length out) from_start
      fresh = started-IsFresh (length out) key some_out out_fits key_fits

-- `ml_blake2b` refuses exactly an output that is empty or longer than 64 bytes, or a key longer
-- than 64 bytes.
pub ml_blake2b-failed :
    (out input key : List ℕ)
    → ((ml_blake2b out input key).0 ≡ failed)
      ↔ ((length out ≡ 0) ⊎ ((outbytes < length out) ⊎ (keybytes < length key)))
unfolding ml_blake2b blake2b absorb_all start init init_key
ml_blake2b-failed out input key = ground arith

closed : (s : State) → (final_state s).f0 ≡ all_ones
unfolding final_state compress set_lastblock
closed s = refl

-- A state that `final` closed with success cannot be closed again: a second call fails, and
-- leaves the state and the output as they were.
pub final-final :
    (s : State) (out out' : List ℕ) (size size' : ℕ)
    → (final s (some out) size).status ≡ ok
    → final (final s (some out) size).state (some out') size'
      ≡ record { status = failed; state = (final s (some out) size).state; out = some out' }
unfolding final is_lastblock
final-final s out out' size size' done = ground (arith, closed s)

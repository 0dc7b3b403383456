-- ===== src/Blake2b/Api.antt =====
-- The one-shot function blake2b of vendors/ocaml-blake2/src/blake2b-ref.c and the OCaml entry
-- points at the end of that file. A bigarray is the list of its bytes, and its dim[0] the length.
use tezos_master_lib_p2p.Prelude.{
  ℕ, List, [], Bool, true, false, Option, none, some, length, ltb, ◌==◌, if◌then◌else◌, ◌||◌, ◌&&◌,
  take,
}
use tezos_master_lib_p2p.Blake2b.State.{
  State, Status, ok, failed, Final, init, init_key, update, final, outbytes, keybytes,
}

-- The state after the choice between the keyed and the plain start.
unfoldable pub start : ℕ → Option (List ℕ) → ℕ → Option State
start outlen key keylen = if ltb 0 keylen then init_key outlen key keylen else init outlen

abbrev bytes_of : Option (List ℕ) → List ℕ
bytes_of none = []
bytes_of (some bytes) = bytes

abbrev is_null : Option (List ℕ) → Bool
is_null none = true
is_null (some bytes) = false

-- update and final on the started state; the status of final is not looked at.
unfoldable pub absorb_all : Option (List ℕ) → ℕ → List ℕ → Option State → Status × Option (List ℕ)
absorb_all out outlen input none = (failed, out)
absorb_all out outlen input (some s) = (ok, (final (update s input) out outlen).out)

-- blake2b; `none` is NULL, and inlen is the length of the input (0 for NULL).
unfoldable pub blake2b :
    Option (List ℕ) → ℕ → Option (List ℕ) → ℕ → Option (List ℕ) → ℕ → Status × Option (List ℕ)
blake2b out outlen input inlen key keylen =
    if is_null input && ltb 0 inlen
    then (failed, out)
    else if is_null out
    then (failed, out)
    else if is_null key && ltb 0 keylen
    then (failed, out)
    else if outlen == 0 || ltb outbytes outlen
    then (failed, out)
    else if ltb keybytes keylen
    then (failed, out)
    else absorb_all out outlen (take inlen (bytes_of input)) (start outlen key keylen)

-- blake2, an alias.
unfoldable pub blake2 :
    Option (List ℕ) → ℕ → Option (List ℕ) → ℕ → Option (List ℕ) → ℕ → Status × Option (List ℕ)
blake2 out outlen input inlen key keylen = blake2b out outlen input inlen key keylen

-- ml_blake2b_init; on -1 the state at `s` is left as it was.
unfoldable pub ml_blake2b_init : State → ℕ → Status × State
ml_blake2b_init s outlen = elim (init outlen) [ none ↦ (failed, s) | some s' ↦ (ok, s') ]

unfoldable pub ml_blake2b_init_key : State → ℕ → List ℕ → Status × State
ml_blake2b_init_key s outlen key = elim (init_key outlen (some key) (length key)) [
  | none ↦ (failed, s)
  | some s' ↦ (ok, s')
]

unfoldable pub ml_blake2b_update : State → List ℕ → Status × State
ml_blake2b_update s input = (ok, update s input)

unfoldable pub ml_blake2b_final : State → List ℕ → Final
ml_blake2b_final s out = final s (some out) (length out)

unfoldable pub ml_blake2b : List ℕ → List ℕ → List ℕ → Status × Option (List ℕ)
ml_blake2b out input key =
    blake2b (some out) (length out) (some input) (length input) (some key) (length key)

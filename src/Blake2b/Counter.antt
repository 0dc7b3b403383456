-- ===== src/Blake2b/Counter.antt =====
-- The 128-bit counter t counts the bytes that were compressed.
use tezos_master_lib_p2p.Prelude.{
  ℕ, ◌+◌, ◌*◌, ◌≤◌, ◌<◌, ◌≡◌, sym, subst, List, [], ◌∷◌, length, length-append, word64_mod, arith,
}
use tezos_master_lib_p2p.Blake2b.State.{State, blockbytes, update}
use tezos_master_lib_p2p.Blake2b.Spec.{View, view, IsValid, flush, absorb_byte, absorb}
use tezos_master_lib_p2p.Blake2b.Refine.{view-update}

-- The bytes compressed and the bytes that wait.
abbrev pub counted : View → ℕ
counted v = v.t0 + word64_mod * v.t1 + length v.pending

pub record IsCounter (v : View) : Type 0 where
  pub low : v.t0 < word64_mod
  pub high : v.t1 < word64_mod
  pub waiting : length v.pending ≤ blockbytes

absorb_byte-counted :
    (v : View) (x : ℕ)
    → IsCounter v
    → counted v + 1 < word64_mod * word64_mod
    → IsCounter (absorb_byte v x) × (counted (absorb_byte v x) ≡ counted v + 1)
unfolding absorb_byte flush
absorb_byte-counted v x counter small = ground (arith, length-append {0} v.pending (x ∷ []))

absorb-counted :
    (v : View) (xs : List ℕ)
    → IsCounter v
    → counted v + length xs < word64_mod * word64_mod
    → IsCounter (absorb v xs) × (counted (absorb v xs) ≡ counted v + length xs)
unfolding absorb
absorb-counted v [] counter small = (counter, omega arith)
absorb-counted v (x ∷ xs) counter small =
    let step = absorb_byte-counted v x counter (omega arith) in
    let rest = absorb-counted (absorb_byte v x) xs step.0 (omega arith) in (rest.0, omega arith)

-- From a state with its buffer and counter in bounds, `update` moves the number of bytes compressed
-- and waiting on by the length of the input and keeps the counter in bounds, below 2 ^ 128 bytes.
pub update-counted :
    (s : State) (input : List ℕ)
    → IsValid s
    → IsCounter (view s)
    → counted (view s) + length input < word64_mod * word64_mod
    → IsCounter (view (update s input))
      × (counted (view (update s input)) ≡ counted (view s) + length input)
update-counted s input valid counter small =
    subst (λ v. IsCounter v × (counted v ≡ counted (view s) + length input))
      (sym (view-update s input valid)) (absorb-counted (view s) input counter small)

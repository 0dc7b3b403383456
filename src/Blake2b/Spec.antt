-- ===== src/Blake2b/Spec.antt =====
-- What the streaming interface promises: the state seen as the chain value, the counter and the
-- bytes that wait, and the input taken byte by byte.
use tezos_master_lib_p2p.Prelude.{
  ℕ, ◌+◌, ◌-◌, ◌≤◌, Option, some, replicate, overwrite, ◌≡◌, List, [], ◌∷◌, ◌++◌, length, take, ltb,
  ◌==◌, if◌then◌else◌, u64,
}
use tezos_master_lib_p2p.Blake2b.Compress.{chain}
use tezos_master_lib_p2p.Blake2b.State.{
  State, Status, ok, failed, blockbytes, outbytes, all_ones, store_words, update,
}

-- The buffer's bytes past buflen are forgotten.
pub record View : Type 0 where
  pub h : List ℕ
  pub t0 : ℕ
  pub t1 : ℕ
  pub f0 : ℕ
  pub f1 : ℕ
  pub pending : List ℕ
  pub outlen : ℕ
  pub last_node : ℕ

abbrev pub view_with : State → List ℕ → View
view_with s pending = record {
  h = s.h;
  t0 = s.t0;
  t1 = s.t1;
  f0 = s.f0;
  f1 = s.f1;
  pending = pending;
  outlen = s.outlen;
  last_node = s.last_node;
}

abbrev pub view : State → View
view s = view_with s (take s.buflen s.buf)

-- Compress the block that waits, and wait for the next.
unfoldable pub flush : View → View
flush v =
    let t0' = u64 (v.t0 + blockbytes) in
    let t1' = u64 (v.t1 + (if ltb t0' blockbytes then 1 else 0)) in
    record v { h = chain v.h t0' t1' v.f0 v.f1 v.pending; t0 = t0'; t1 = t1'; pending = [] }

-- A full buffer is compressed only when one more byte comes.
unfoldable pub absorb_byte : View → ℕ → View
unfolding flush
absorb_byte v x =
    let w = if length v.pending == blockbytes then flush v else v in
    record w { pending = w.pending ++ x ∷ [] }

unfoldable pub absorb : View → List ℕ → View
unfolding absorb_byte
absorb v [] = v
absorb v (x ∷ xs) = absorb (absorb_byte v x) xs

-- The buffer has its size, and what waits fits in it.
pub record IsValid (s : State) : Type 0 where
  pub full_size : length s.buf ≡ blockbytes
  pub fits : s.buflen ≤ blockbytes

-- The chain value behind the last block, padded with zeros.
unfoldable pub last_chain : View → List ℕ
last_chain v =
    let n = length v.pending in
    let t0' = u64 (v.t0 + n) in
    let t1' = u64 (v.t1 + (if ltb t0' n then 1 else 0)) in
    let f1' = if v.last_node == 0 then v.f1 else all_ones in
    chain v.h t0' t1' all_ones f1' (v.pending ++ replicate (blockbytes - n) 0)

-- What is written at `out`.
unfoldable pub digest : View → List ℕ → List ℕ
digest v out =
    overwrite 0 (take v.outlen (overwrite 0 (store_words (last_chain v)) (replicate outbytes 0)))
      out

-- The status and the memory at `out`, from the view alone.
unfoldable pub finish : View → List ℕ → ℕ → Status × Option (List ℕ)
finish v out size =
    if ltb size v.outlen
    then (failed, some out)
    else if v.f0 == 0
    then (ok, some (digest v out))
    else (failed, some out)

-- Updates with one chunk after another.
unfoldable pub update_all : State → List (List ℕ) → State
update_all s [] = s
update_all s (c ∷ cs) = update_all (update s c) cs

-- The chunks behind one another.
unfoldable pub join : List (List ℕ) → List ℕ
join [] = []
join (c ∷ cs) = c ++ join cs

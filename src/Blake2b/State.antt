-- ===== src/Blake2b/State.antt =====
-- The streaming interface of vendors/ocaml-blake2/src/blake2b-ref.c: the states of
-- vendors/ocaml-blake2/src/blake2.h and the functions init, init_key, update, final and blake2b.
use tezos_master_lib_p2p.Prelude.{
  ℕ, zero, suc, ◌+◌, ◌-◌, List, [], ◌∷◌, ◌++◌, Bool, true, false, not, ◌||◌, Option, none, some,
  bit_xor, length, take, drop, replicate, overwrite, ltb, ◌==◌, if◌then◌else◌, u8, u64, word64_mod,
}
use tezos_master_lib_p2p.Blake2b.Bytes.{store32, store64}
use tezos_master_lib_p2p.Blake2b.Compress.{iv, chain, load_words}

abbrev pub blockbytes : ℕ
blockbytes = 128

abbrev pub outbytes : ℕ
outbytes = 64

abbrev pub keybytes : ℕ
keybytes = 64

-- blake2b_state; t[2] and f[2] are two fields each.
pub record State : Type 0 where
  pub h : List ℕ
  pub t0 : ℕ
  pub t1 : ℕ
  pub f0 : ℕ
  pub f1 : ℕ
  pub buf : List ℕ
  pub buflen : ℕ
  pub outlen : ℕ
  pub last_node : ℕ

-- blake2b_param; the 32-bit fields are the bytes that store32 writes.
pub record Param : Type 0 where
  pub digest_length : ℕ
  pub key_length : ℕ
  pub fanout : ℕ
  pub depth : ℕ
  pub leaf_length : List ℕ
  pub node_offset : List ℕ
  pub xof_length : List ℕ
  pub node_depth : ℕ
  pub inner_length : ℕ
  pub reserved : List ℕ
  pub salt : List ℕ
  pub personal : List ℕ

-- The packed struct as bytes.
unfoldable pub param_bytes : Param → List ℕ
param_bytes p =
    p.digest_length
    ∷ p.key_length
    ∷ p.fanout
    ∷ p.depth
    ∷ (p.leaf_length
        ++ (p.node_offset
            ++ (p.xof_length
                ++ (p.node_depth ∷ p.inner_length ∷ (p.reserved ++ (p.salt ++ p.personal))))))

-- 0 and -1.
pub data Status : Type 0 where
  ok : Status
  failed : Status

-- (uint64_t)-1
abbrev pub all_ones : ℕ
all_ones = word64_mod - 1

unfoldable pub set_lastnode : State → State
set_lastnode s = record s { f1 = all_ones }

unfoldable pub is_lastblock : State → Bool
is_lastblock s = not (s.f0 == 0)

unfoldable pub set_lastblock : State → State
set_lastblock s =
    let s' = if s.last_node == 0 then s else set_lastnode s in record s' { f0 = all_ones }

unfoldable pub increment_counter : State → ℕ → State
increment_counter s inc =
    let t0' = u64 (s.t0 + inc) in
    record s { t0 = t0'; t1 = u64 (s.t1 + (if ltb t0' inc then 1 else 0)) }

unfoldable pub init0 : State
init0 = record {
  h = iv;
  t0 = 0;
  t1 = 0;
  f0 = 0;
  f1 = 0;
  buf = replicate blockbytes 0;
  buflen = 0;
  outlen = 0;
  last_node = 0;
}

-- Position by position.
unfoldable pub xor_words : List ℕ → List ℕ → List ℕ
xor_words (x ∷ xs) (y ∷ ys) = bit_xor x y ∷ xor_words xs ys
xor_words _ _ = []

-- blake2b_init_param, which always returns 0.
unfoldable pub init_param : Param → State
init_param p = record init0 {
  h = xor_words init0.h (load_words 8 (param_bytes p));
  outlen = p.digest_length;
}

-- The parameters that init and init_key fill in.
unfoldable pub sequential_param : ℕ → ℕ → Param
sequential_param outlen keylen = record {
  digest_length = u8 outlen;
  key_length = u8 keylen;
  fanout = 1;
  depth = 1;
  leaf_length = store32 0;
  node_offset = store32 0;
  xof_length = store32 0;
  node_depth = 0;
  inner_length = 0;
  reserved = replicate 14 0;
  salt = replicate 16 0;
  personal = replicate 16 0;
}

-- blake2b_init; `none` is -1.
unfoldable pub init : ℕ → Option State
init outlen =
    if outlen == 0 || ltb outbytes outlen
    then none
    else some (init_param (sequential_param outlen 0))

unfoldable pub compress : State → List ℕ → State
compress s block = record s { h = chain s.h s.t0 s.t1 s.f0 s.f1 block }

-- while (inlen > BLAKE2B_BLOCKBYTES), with the rounds bounded by `fuel`; a round takes 128 bytes,
-- so `length input` rounds are enough. The result is the state and the bytes left.
unfoldable pub absorb_blocks : ℕ → State → List ℕ → State × List ℕ
absorb_blocks zero s input = (s, input)
absorb_blocks (suc fuel) s input = elim (ltb blockbytes (length input)) [
  | true ↦
      absorb_blocks fuel (compress (increment_counter s blockbytes) (take blockbytes input))
        (drop blockbytes input)
  | false ↦ (s, input)
]

-- The branch inlen > fill: fill the buffer, compress it, then compress whole blocks of the input.
unfoldable pub fill_and_absorb : State → List ℕ → State × List ℕ
fill_and_absorb s input =
    let fill = blockbytes - s.buflen in
    let filled = record s { buflen = 0; buf = overwrite s.buflen (take fill input) s.buf } in
    let s' = compress (increment_counter filled blockbytes) filled.buf in
    absorb_blocks (length input) s' (drop fill input)

-- memcpy( S->buf + S->buflen, in, inlen ); S->buflen += inlen;
unfoldable pub keep_rest : State × List ℕ → State
keep_rest (s, rest) = record s {
  buf = overwrite s.buflen rest s.buf;
  buflen = s.buflen + length rest;
}

-- blake2b_update, which always returns 0; inlen is the length of `input`.
unfoldable pub update : State → List ℕ → State
update s input =
    if ltb 0 (length input)
    then keep_rest
        (if ltb (blockbytes - s.buflen) (length input) then fill_and_absorb s input else (s, input))
    else s

-- blake2b_init_key; `none` as the key is NULL, and as the result is -1.
unfoldable pub init_key : ℕ → Option (List ℕ) → ℕ → Option State
init_key outlen none keylen = none
init_key outlen (some key) keylen =
    if outlen == 0 || ltb outbytes outlen
    then none
    else if keylen == 0 || ltb keybytes keylen
    then none
    else some (
        update (init_param (sequential_param outlen keylen))
          (overwrite 0 (take keylen key) (replicate blockbytes 0)))

-- store64( buffer + 8 * i, S->h[i] ) for every i.
unfoldable pub store_words : List ℕ → List ℕ
store_words [] = []
store_words (w ∷ ws) = store64 w ++ store_words ws

-- The state when blake2b_final has compressed the last block.
unfoldable pub final_state : State → State
final_state s =
    let s1 = set_lastblock (increment_counter s s.buflen) in
    let s2 = record s1 {
      buf = overwrite s1.buflen (replicate (blockbytes - s1.buflen) 0) s1.buf;
    } in
    compress s2 s2.buf

-- What blake2b_final leaves: its status, the state, and the memory at `out` (`none` is NULL).
pub record Final : Type 0 where
  pub status : Status
  pub state : State
  pub out : Option (List ℕ)

unfoldable pub final : State → Option (List ℕ) → ℕ → Final
final s none outlen = record { status = failed; state = s; out = none }
final s (some out) outlen =
    if ltb outlen s.outlen
    then record { status = failed; state = s; out = some out }
    else if is_lastblock s
    then record { status = failed; state = s; out = some out }
    else let s' = final_state s in
      let buffer = overwrite 0 (store_words s'.h) (replicate outbytes 0) in
      record { status = ok; state = s'; out = some (overwrite 0 (take s'.outlen buffer) out) }

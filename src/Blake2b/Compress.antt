-- ===== src/Blake2b/Compress.antt =====
-- The compression function of vendors/ocaml-blake2/src/blake2b-ref.c: the constants, the macros
-- G and ROUND, and what blake2b_compress makes of the chain value.
use tezos_master_lib_p2p.Prelude.{
  ℕ, zero, suc, ◌+◌, ◌*◌, List, [], ◌∷◌, ◌++◌, bit_xor, get_or, set, drop, take, u64,
}
use tezos_master_lib_p2p.Blake2b.Bytes.{load64, rotr64}

unfoldable pub iv : List ℕ
iv =
    0x6a09e667f3bcc908 ∷ 0xbb67ae8584caa73b ∷ 0x3c6ef372fe94f82b ∷ 0xa54ff53a5f1d36f1
    ∷ 0x510e527fade682d1 ∷ 0x9b05688c2b3e6c1f ∷ 0x1f83d9abfb41bd6b ∷ 0x5be0cd19137e2179 ∷ []

unfoldable pub sigma : List (List ℕ)
sigma =
    (0 ∷ 1 ∷ 2 ∷ 3 ∷ 4 ∷ 5 ∷ 6 ∷ 7 ∷ 8 ∷ 9 ∷ 10 ∷ 11 ∷ 12 ∷ 13 ∷ 14 ∷ 15 ∷ [])
    ∷ (14 ∷ 10 ∷ 4 ∷ 8 ∷ 9 ∷ 15 ∷ 13 ∷ 6 ∷ 1 ∷ 12 ∷ 0 ∷ 2 ∷ 11 ∷ 7 ∷ 5 ∷ 3 ∷ [])
    ∷ (11 ∷ 8 ∷ 12 ∷ 0 ∷ 5 ∷ 2 ∷ 15 ∷ 13 ∷ 10 ∷ 14 ∷ 3 ∷ 6 ∷ 7 ∷ 1 ∷ 9 ∷ 4 ∷ [])
    ∷ (7 ∷ 9 ∷ 3 ∷ 1 ∷ 13 ∷ 12 ∷ 11 ∷ 14 ∷ 2 ∷ 6 ∷ 5 ∷ 10 ∷ 4 ∷ 0 ∷ 15 ∷ 8 ∷ [])
    ∷ (9 ∷ 0 ∷ 5 ∷ 7 ∷ 2 ∷ 4 ∷ 10 ∷ 15 ∷ 14 ∷ 1 ∷ 11 ∷ 12 ∷ 6 ∷ 8 ∷ 3 ∷ 13 ∷ [])
    ∷ (2 ∷ 12 ∷ 6 ∷ 10 ∷ 0 ∷ 11 ∷ 8 ∷ 3 ∷ 4 ∷ 13 ∷ 7 ∷ 5 ∷ 15 ∷ 14 ∷ 1 ∷ 9 ∷ [])
    ∷ (12 ∷ 5 ∷ 1 ∷ 15 ∷ 14 ∷ 13 ∷ 4 ∷ 10 ∷ 0 ∷ 7 ∷ 6 ∷ 3 ∷ 9 ∷ 2 ∷ 8 ∷ 11 ∷ [])
    ∷ (13 ∷ 11 ∷ 7 ∷ 14 ∷ 12 ∷ 1 ∷ 3 ∷ 9 ∷ 5 ∷ 0 ∷ 15 ∷ 4 ∷ 8 ∷ 6 ∷ 2 ∷ 10 ∷ [])
    ∷ (6 ∷ 15 ∷ 14 ∷ 9 ∷ 11 ∷ 3 ∷ 0 ∷ 8 ∷ 12 ∷ 2 ∷ 13 ∷ 7 ∷ 1 ∷ 4 ∷ 10 ∷ 5 ∷ [])
    ∷ (10 ∷ 2 ∷ 8 ∷ 4 ∷ 7 ∷ 6 ∷ 1 ∷ 5 ∷ 15 ∷ 11 ∷ 9 ∷ 14 ∷ 3 ∷ 12 ∷ 13 ∷ 0 ∷ [])
    ∷ (0 ∷ 1 ∷ 2 ∷ 3 ∷ 4 ∷ 5 ∷ 6 ∷ 7 ∷ 8 ∷ 9 ∷ 10 ∷ 11 ∷ 12 ∷ 13 ∷ 14 ∷ 15 ∷ [])
    ∷ (14 ∷ 10 ∷ 4 ∷ 8 ∷ 9 ∷ 15 ∷ 13 ∷ 6 ∷ 1 ∷ 12 ∷ 0 ∷ 2 ∷ 11 ∷ 7 ∷ 5 ∷ 3 ∷ [])
    ∷ []

-- The macro G(r,i,a,b,c,d) over the work vector `v`; `a` to `d` are the four positions.
unfoldable pub g : List ℕ → ℕ → ℕ → ℕ → ℕ → ℕ → ℕ → List ℕ → List ℕ
unfolding sigma rotr64
g m r i a b c d v =
    let s = get_or sigma r [] in
    let a1 = u64 (get_or v a 0 + get_or v b 0 + get_or m (get_or s (2 * i + 0) 0) 0) in
    let d1 = rotr64 (bit_xor (get_or v d 0) a1) 32 in
    let c1 = u64 (get_or v c 0 + d1) in
    let b1 = rotr64 (bit_xor (get_or v b 0) c1) 24 in
    let a2 = u64 (a1 + b1 + get_or m (get_or s (2 * i + 1) 0) 0) in
    let d2 = rotr64 (bit_xor d1 a2) 16 in
    let c2 = u64 (c1 + d2) in
    let b2 = rotr64 (bit_xor b1 c2) 63 in set (set (set (set v a a2) b b2) c c2) d d2

-- The macro ROUND(r).
unfoldable pub round : List ℕ → ℕ → List ℕ → List ℕ
unfolding g
round m r v0 =
    let v1 = g m r 0 0 4 8 12 v0 in
    let v2 = g m r 1 1 5 9 13 v1 in
    let v3 = g m r 2 2 6 10 14 v2 in
    let v4 = g m r 3 3 7 11 15 v3 in
    let v5 = g m r 4 0 5 10 15 v4 in
    let v6 = g m r 5 1 6 11 12 v5 in let v7 = g m r 6 2 7 8 13 v6 in g m r 7 3 4 9 14 v7

-- ROUND(from), ROUND(from + 1), …: `n` of them.
unfoldable pub rounds : ℕ → List ℕ → ℕ → List ℕ → List ℕ
unfolding round
rounds zero m from v = v
rounds (suc n) m from v = rounds n m (from + 1) (round m from v)

-- m[i] = load64(block + 8 * i), for `n` words.
unfoldable pub load_words : ℕ → List ℕ → List ℕ
unfolding load64
load_words zero block = []
load_words (suc n) block = load64 block ∷ load_words n (drop 8 block)

-- h[i] ^ v[i] ^ v[i + 8], position by position.
unfoldable pub fold_halves : List ℕ → List ℕ → List ℕ → List ℕ
fold_halves (h ∷ hs) (v ∷ vs) (w ∷ ws) = bit_xor (bit_xor h v) w ∷ fold_halves hs vs ws
fold_halves _ _ _ = []

-- The new h of blake2b_compress, from h, t, f and the block.
unfoldable pub chain : List ℕ → ℕ → ℕ → ℕ → ℕ → List ℕ → List ℕ
unfolding iv rounds load_words fold_halves
chain h t0 t1 f0 f1 block =
    let m = load_words 16 block in
    let v =
      h
      ++ take 4 iv
      ++ (bit_xor (get_or iv 4 0) t0
          ∷ bit_xor (get_or iv 5 0) t1
          ∷ bit_xor (get_or iv 6 0) f0
          ∷ bit_xor (get_or iv 7 0) f1
          ∷ []) in
    let v' = rounds 12 m 0 v in fold_halves h (take 8 v') (drop 8 v')

-- ===== src/Midl/Lookup.antt =====
-- mdb_midl_search on an ID list, which is sorted downwards.
use Prim.Native.Nat.{compare}
use tezos_master_lib_p2p.Prelude.{ℕ, ◌+◌, ◌≤◌, ◌<◌, ◌≡◌, u32, word32_mod, arith}
use tezos_master_lib_p2p.Midl.Idl.{Idl, at, midl_search}
use tezos_master_lib_p2p.Midl.Search.{Finds, Falls, search_from-Finds}

abbrev pub IsDescending : Idl → Type 0
IsDescending l = (i j : ℕ) → 1 ≤ i → i < j → j ≤ l.count → at l j < at l i

module _ (l : Idl) (id : ℕ) (descending : IsDescending l) where
  probe-Falls : Falls (λ i. compare (at l i) id) l.count
  probe-Falls = record {
    below = λ i j p q r e. ground (arith, descending i j);
    above = λ i j p q r e. ground (arith, descending i j);
  }

  -- On a list that falls strictly and has fewer than 2 ^ 32 - 1 IDs, the position that `midl_search`
  -- gives holds the ID, or all IDs before it are greater and those from it on smaller.
  pub midl_search-Finds :
      l.count + 1 < word32_mod → Finds (λ i. compare (at l i) id) l.count (midl_search l id)
  unfolding midl_search
  midl_search-Finds small =
      rw same_count (search_from-Finds (λ i. compare (at l i) id) l.count small probe-Falls)
    where
      same_count : u32 l.count ≡ l.count
      same_count = omega arith

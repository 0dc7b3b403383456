-- ===== src/Midl/Id2l.antt =====
-- MDB_ID2L, the sorted array of pairs of vendors/ocaml-lmdb/src/midl.c. The array's element 0
-- holds the count, and ids[i] is cell i - 1; the array has a fixed size and `cells` is its memory.
use Prim.Native.Nat.{compare}
use tezos_master_lib_p2p.Prelude.{
  ℕ, zero, suc, ◌+◌, ◌-◌, List, get_or, set, ltb, leb, ◌==◌, ◌&&◌, if◌then◌else◌, u32, u64,
}
use tezos_master_lib_p2p.Midl.Search.{search_from}
use tezos_master_lib_p2p.Midl.Idl.{um_max}

pub record Id2 : Type 0 where
  pub mid : ℕ
  pub mptr : ℕ

abbrev pub no_id2 : Id2
no_id2 = record { mid = 0; mptr = 0 }

pub record Id2l : Type 0 where
  pub count : ℕ
  pub cells : List Id2

-- ids[i] for 1 ≤ i.
abbrev pub at : Id2l → ℕ → Id2
at l i = get_or l.cells (i - 1) no_id2

-- CMP(id, ids[cursor].mid)
unfoldable pub mid2l_search : Id2l → ℕ → ℕ
mid2l_search l id = search_from (λ cursor. compare id (at l cursor).mid) (u32 l.count)

-- 0, -1 and -2.
pub data Status : Type 0 where
  ok : Status
  duplicate : Status
  refused : Status

-- for (i = from + x; i > x; i--) ids[i] = ids[i-1];
unfoldable pub shift_up : ℕ → ℕ → List Id2 → List Id2
shift_up zero x cells = cells
shift_up (suc n) x cells = shift_up n x (set cells (x + n) (get_or cells (x + n - 1) no_id2))

unfoldable pub mid2l_insert : Id2l → Id2 → Status × Id2l
mid2l_insert l id =
    let x = mid2l_search l id.mid in
    if ltb x 1
    then (refused, l)
    else if leb x l.count && (at l x).mid == id.mid
    then (duplicate, l)
    else if leb um_max l.count
    then (refused, l)
    else let n = u64 (l.count + 1) in
      (ok, record { count = n; cells = set (shift_up (u32 n - x) x l.cells) (x - 1) id })

unfoldable pub mid2l_append : Id2l → Id2 → Status × Id2l
mid2l_append l id =
    let n = u64 (l.count + 1) in
    if leb um_max l.count
    then (refused, l)
    else (ok, record { count = n; cells = set l.cells (n - 1) id })

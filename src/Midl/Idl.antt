-- ===== src/Midl/Idl.antt =====
-- MDB_IDL and its operations of vendors/ocaml-lmdb/src/midl.c. A list is its two header words and
-- the cells behind them: ids[-1] is `alloc`, ids[0] is `count` and ids[i] is cell i - 1.
use Prim.Native.Nat.{compare}
use tezos_master_lib_p2p.Prelude.{
  ℕ, zero, suc, ◌+◌, ◌-◌, ◌*◌, ◌/◌, ◌^◌, ◌≡◌, List, Bool, Option, none, some, length, get_or, set,
  take, overwrite, min, bit_or, ltb, leb, if◌then◌else◌, u32, u64,
}
use tezos_master_lib_p2p.Prelude.Int.{ℤ, pos, residue, signed}
use tezos_master_lib_p2p.Midl.Search.{search_from}

-- MDB_IDL_UM_MAX of midl.h, without MDB_VL32.
abbrev pub um_max : ℕ
um_max = 2 ^ 17 - 1

pub record Idl : Type 0 where
  pub alloc : ℕ
  pub count : ℕ
  pub cells : List ℕ

-- malloc and realloc of blocks of MDB_IDs, given by the number of cells behind the two header
-- words; `none` is NULL. The laws are those of the C library: the block has the size that was
-- asked for, and realloc keeps what fits in both blocks.
pub record Allocator : Type 0 where
  pub fresh : ℕ → Option (List ℕ)
  pub resize : List ℕ → ℕ → Option (List ℕ)
  pub fresh_length : (n : ℕ) (cells : List ℕ) → fresh n ≡ some cells → length cells ≡ n
  pub resize_length :
      (old : List ℕ) (n : ℕ) (cells : List ℕ) → resize old n ≡ some cells → length cells ≡ n
  pub resize_kept :
      (old : List ℕ) (n : ℕ) (cells : List ℕ)
      → resize old n ≡ some cells
      → take (min n (length old)) cells ≡ take (min n (length old)) old

-- 0 and ENOMEM.
pub data Status : Type 0 where
  ok : Status
  enomem : Status

-- ids[i] for 1 ≤ i.
abbrev pub at : Idl → ℕ → ℕ
at l i = get_or l.cells (i - 1) 0

-- The int that an unsigned or a 64-bit argument becomes.
unfoldable pub as_int : ℕ → ℤ
as_int n = signed 32 (u32 n)

-- CMP(ids[cursor], id); n is (unsigned) ids[0].
unfoldable pub midl_search : Idl → ℕ → ℕ
midl_search l id = search_from (λ cursor. compare (at l cursor) id) (u32 l.count)

-- The block of (num + num/4 + (256 + 2)) & -256 words holds two words less of cells.
abbrev pub rounded : ℕ → ℕ
rounded num = u32 (num + num / 4 + (256 + 2)) / 256 * 256

-- ids[0]++; ids[ids[0]] = id;
unfoldable pub push : ℕ → Idl → Idl
push id l = let n = u64 (l.count + 1) in record l { count = n; cells = set l.cells (n - 1) id }

-- while (n) ids[n--] = id++; with ids moved up by len.
unfoldable pub fill_range : ℕ → ℕ → ℕ → List ℕ → List ℕ
fill_range zero id len cells = cells
fill_range (suc n) id len cells = fill_range n (u64 (id + 1)) len (set cells (len + n) id)

module _ (a : Allocator) where
  unfoldable pub midl_alloc : ℕ → Option Idl
  midl_alloc num = elim (a.fresh num) [
    | none ↦ none
    | some cells ↦ some (record { alloc = num; count = 0; cells = cells })
  ]

  -- A failing realloc leaves the list alone.
  unfoldable pub midl_shrink : Idl → Idl
  midl_shrink l =
      let smaller : Idl = elim (a.resize l.cells um_max) [
        | none ↦ l
        | some cells ↦ record l { alloc = um_max; cells = cells }
      ] in
      if ltb um_max l.alloc then smaller else l

  -- num is an int, which the sums with a size_t extend by its sign.
  unfoldable pub midl_grow : Idl → ℤ → Status × Idl
  midl_grow l num =
      let alloc = u64 (l.alloc + residue 64 num) in
      elim (a.resize l.cells alloc) [
        | none ↦ (enomem, l)
        | some cells ↦ (ok, record l { alloc = alloc; cells = cells })
      ]

  unfoldable pub midl_need : Idl → ℕ → Status × Idl
  midl_need l num =
      let wanted = u32 (num + l.count) in
      let block = rounded wanted in
      let larger : Status × Idl = elim (a.resize l.cells (block - 2)) [
        | none ↦ (enomem, l)
        | some cells ↦ (ok, record l { alloc = block - 2; cells = cells })
      ] in
      if ltb l.alloc wanted then larger else (ok, l)

  -- What append, append_list and append_range do behind the check of the room.
  unfoldable pub when_grown : Bool → Idl → ℤ → (Idl → Idl) → Status × Idl
  when_grown full l num write =
      let grown : Status × Idl =
        let (status, l') = midl_grow l num in
        elim status [ ok ↦ (ok, write l') | enomem ↦ (enomem, l') ] in
      if full then grown else (ok, write l)

  unfoldable pub midl_append : Idl → ℕ → Status × Idl
  midl_append l id = when_grown (leb l.alloc l.count) l (pos um_max) (push id)

  unfoldable pub midl_append_list : Idl → Idl → Status × Idl
  midl_append_list l app =
      when_grown (leb l.alloc (u64 (l.count + app.count))) l (as_int app.count) λ l'. record l' {
        count = u64 (l'.count + app.count);
        cells = overwrite l'.count (take app.count app.cells) l'.cells;
      }

  -- n is unsigned.
  unfoldable pub midl_append_range : Idl → ℕ → ℕ → Status × Idl
  midl_append_range l id n =
      let m = u32 n in
      when_grown (ltb l.alloc (u64 (l.count + m))) l (as_int (bit_or m um_max))
        λ l'. record l' { count = u64 (l'.count + m); cells = fill_range m id l'.count l'.cells }

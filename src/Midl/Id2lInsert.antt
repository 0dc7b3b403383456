-- ===== src/Midl/Id2lInsert.antt =====
-- mdb_mid2l_insert of midl.c.
use Prim.Native.Nat.{compare, Ordering}
use tezos_master_lib_p2p.Prelude.{
  ℕ, zero, suc, ◌+◌, ◌-◌, ◌≤◌, ◌<◌, ◌≡◌, ◌⊎◌, inl, inr, refl, sym, subst, ◌∙◌, List, length, get_or,
  set, length-set, ltb, leb, ◌==◌, ◌&&◌, if◌then◌else◌, u32, u64, dec_lt, arith,
}
use tezos_master_lib_p2p.Prelude.Slices.{get_or-set}
use tezos_master_lib_p2p.Midl.Idl.{um_max}
use tezos_master_lib_p2p.Midl.Search.{Finds, Falls, search_from-Finds}
use tezos_master_lib_p2p.Midl.Id2l.{
  Id2, no_id2, Id2l, at, Status, ok, duplicate, refused, mid2l_search, shift_up, mid2l_insert,
}

-- Ascending without repetition, in an array of MDB_IDL_UM_SIZE elements.
pub record IsSorted (l : Id2l) : Type 0 where
  pub ascending : (i j : ℕ) → 1 ≤ i → i < j → j ≤ l.count → (at l i).mid < (at l j).mid
  pub block : um_max ≤ length l.cells
  pub small : l.count ≤ um_max

length-shift_up : (n x : ℕ) (cells : List Id2) → length (shift_up n x cells) ≡ length cells
unfolding shift_up
length-shift_up zero x cells = refl
length-shift_up (suc n) x cells =
    length-shift_up n x (set cells (x + n) (get_or cells (x + n - 1) no_id2))
    ∙ length-set cells (x + n) (get_or cells (x + n - 1) no_id2)

-- The cells from x to x + n - 1 hold what stood one below.
shift_up-get_or :
    (n x : ℕ) (cells : List Id2) (j : ℕ)
    → 1 ≤ x
    → x + n ≤ length cells
    → get_or (shift_up n x cells) j no_id2
      ≡ (if leb x j && ltb j (x + n) then get_or cells (j - 1) no_id2 else get_or cells j no_id2)
unfolding shift_up
shift_up-get_or zero x cells j pos fits = ground arith
shift_up-get_or (suc n) x cells j pos fits = ground (
  arith,
  shift_up-get_or n x (set cells (x + n) (get_or cells (x + n - 1) no_id2)) j pos,
  length-set cells (x + n) (get_or cells (x + n - 1) no_id2),
  get_or-set cells (x + n) j (get_or cells (x + n - 1) no_id2) no_id2,
  get_or-set cells (x + n) (j - 1) (get_or cells (x + n - 1) no_id2) no_id2,
)

module _ (l : Id2l) (id : ℕ) (sorted : IsSorted l) where
  abbrev probe : ℕ → Ordering
  probe i = compare id (at l i).mid

  probe-Falls : Falls probe l.count
  probe-Falls = record {
    below = λ i j p q r e. ground (arith, sorted.ascending i j);
    above = λ i j p q r e. ground (arith, sorted.ascending i j);
  }

  -- The position that `mid2l_search` finds holds the ID, or divides the smaller from the greater.
  pub mid2l_search-Finds : Finds probe l.count (mid2l_search l id)
  unfolding mid2l_search
  mid2l_search-Finds =
      rw same_count (search_from-Finds probe l.count (omega (arith, sorted.small)) probe-Falls)
    where
      same_count : u32 l.count ≡ l.count
      same_count = omega (arith, sorted.small)

-- `l'` is `l` with the pair `id` at position p, the pairs from there on moved up by one.
pub record IsInserted (l : Id2l) (id : Id2) (p : ℕ) (l' : Id2l) : Type 0 where
  pub longer : l'.count ≡ l.count + 1
  pub place : (1 ≤ p) × (p ≤ l.count + 1)
  pub before : (i : ℕ) → 1 ≤ i → i < p → at l' i ≡ at l i
  pub here : at l' p ≡ id
  pub behind : (i : ℕ) → p < i → i ≤ l.count + 1 → at l' i ≡ at l (i - 1)

-- The array behind the last lines of `mid2l_insert`.
abbrev opened : Id2l → Id2 → ℕ → Id2l
opened l id x = record {
  count = u64 (l.count + 1);
  cells = set (shift_up (u32 (u64 (l.count + 1)) - x) x l.cells) (x - 1) id;
}

module _ (l : Id2l) (id : Id2) (sorted : IsSorted l) (p : ℕ) (low : 1 ≤ p) (high : p ≤ l.count + 1)
    (free : l.count < um_max) where
  rounds : u32 (u64 (l.count + 1)) - p ≡ l.count + 1 - p
  rounds = omega arith

  opened-at :
      (i : ℕ)
      → 1 ≤ i
      → i ≤ l.count + 1
      → at (opened l id p) i ≡ (if p == i then id else if ltb p i then at l (i - 1) else at l i)
  opened-at i pos top = ground (
    arith,
    rounds,
    sorted.block,
    length-shift_up (u32 (u64 (l.count + 1)) - p) p l.cells,
    get_or-set (shift_up (u32 (u64 (l.count + 1)) - p) p l.cells) (p - 1) (i - 1) id no_id2,
    shift_up-get_or (u32 (u64 (l.count + 1)) - p) p l.cells (i - 1),
  )

  opened-IsInserted : IsInserted l id p (opened l id p)
  opened-IsInserted = record {
    longer = omega arith;
    place = (low, high);
    before = λ i q r. ground (arith, opened-at i);
    here = ground (arith, opened-at p);
    behind = λ i q r. ground (arith, opened-at i);
  }

-- The three outcomes of an insertion: the ID is there already, the array is full, or the pair
-- was inserted between the smaller and the greater IDs.
abbrev pub Inserts : Id2l → Id2 → Status × Id2l → Type 0
Inserts l id result =
    ((i : ℕ) × (1 ≤ i) × (i ≤ l.count) × ((at l i).mid ≡ id.mid) × (result ≡ (duplicate, l)))
    ⊎ (((l.count ≡ um_max) × (result ≡ (refused, l)))
        ⊎ ((p : ℕ) × (result.0 ≡ ok) × IsInserted l id p result.1 × IsSorted result.1))

module _ (l : Id2l) (id : Id2) (sorted : IsSorted l) where
  module _ (p : ℕ) (low : 1 ≤ p) (high : p ≤ l.count + 1) (free : l.count < um_max)
      (smaller : (i : ℕ) → 1 ≤ i → i < p → compare id.mid (at l i).mid ≡ Ordering.gt)
      (greater : (i : ℕ) → p ≤ i → i ≤ l.count → compare id.mid (at l i).mid ≡ Ordering.lt) where
    opened-ascending :
        (i j : ℕ)
        → 1 ≤ i
        → i < j
        → j ≤ l.count + 1
        → (at (opened l id p) i).mid < (at (opened l id p) j).mid
    opened-ascending i j pos lt top =
        rw
          (
            opened-at l id sorted p low high free i pos (omega arith),
            opened-at l id sorted p low high free j (omega arith) top,
          )
          (ground (
            arith,
            smaller i,
            greater (j - 1),
            sorted.ascending i j,
            sorted.ascending i (j - 1),
            sorted.ascending (i - 1) (j - 1),
          ))

    opened-IsSorted : IsSorted (opened l id p)
    opened-IsSorted = record {
      ascending = λ i j pos lt top. opened-ascending i j pos lt (omega arith);
      block = omega (
        arith,
        sorted.block,
        length-set (shift_up (u32 (u64 (l.count + 1)) - p) p l.cells) (p - 1) id,
        length-shift_up (u32 (u64 (l.count + 1)) - p) p l.cells,
      );
      small = omega arith;
    }

  abbrev found : ℕ
  found = mid2l_search l id.mid

  insert-present :
      1 ≤ found
      → found ≤ l.count
      → compare id.mid (at l found).mid ≡ Ordering.eq
      → mid2l_insert l id ≡ (duplicate, l)
  unfolding mid2l_insert
  insert-present low high e = ground arith

  insert-absent :
      1 ≤ found
      → ((i : ℕ) → found ≤ i → i ≤ l.count → compare id.mid (at l i).mid ≡ Ordering.lt)
      → mid2l_insert l id ≡ (if leb um_max l.count then (refused, l) else (ok, opened l id found))
  unfolding mid2l_insert
  insert-absent low greater = ground (arith, greater found)

  -- On a sorted array, `mid2l_insert` reports a duplicate and changes nothing if the ID is there;
  -- refuses and changes nothing if the array is full; or puts the pair at its place, moves the
  -- greater ones up by one, and leaves the array sorted.
  pub mid2l_insert-Inserts : Inserts l id (mid2l_insert l id)
  mid2l_insert-Inserts = by_search (mid2l_search-Finds l id.mid sorted)
    where
      by_search : Finds (probe l id.mid sorted) l.count found → Inserts l id (mid2l_insert l id)
      by_search (low, high, inl (inside, e)) =
          inl (found, low, inside, ground arith, insert-present low inside e)
      by_search (low, high, inr (smaller, greater)) = elim (dec_lt l.count um_max) [
        | yes free ↦ subst (Inserts l id) (sym (insert-absent low greater ∙ ground arith)) (
            inr (
              inr (
                found,
                refl,
                opened-IsInserted l id sorted found low high free,
                opened-IsSorted found low high free smaller greater,
              )))
        | no full ↦
            inr (inl (omega (arith, sorted.small), insert-absent low greater ∙ ground arith))
      ]

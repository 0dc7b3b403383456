-- ===== src/Midl/Append.antt =====
-- The operations of Midl.Idl that append.
use mathlib.Core.List.{append_assoc}
use tezos_master_lib_p2p.Prelude.{
  ℕ, zero, suc, ◌+◌, ◌≤◌, ◌<◌, ◌≡◌, refl, sym, ap, ap₂, ◌∙◌, ◌^◌, subst, List, [], ◌∷◌, ◌++◌,
  length, take, drop, set, take-append-drop, length-set, length-take, length-append, leb, ltb,
  bit_or, u32, u64, word64_mod, arith,
}
use tezos_master_lib_p2p.Prelude.Bits.{bit_or-le}
use tezos_master_lib_p2p.Prelude.Slices.{
  take-append, take-overwrite, length-overwrite, take-set_above, drop-set,
}
use tezos_master_lib_p2p.Midl.Idl.{
  Idl, Allocator, Status, as_int, when_grown, um_max, push, midl_append, midl_append_list,
  midl_append_range, fill_range,
}
use tezos_master_lib_p2p.Midl.Content.{
  used, IsFit, Appends, when_grown-Outcome, when_grown_int-Outcome, Outcome-Appends, push-used,
}

-- n IDs from `id` on, the highest first.
unfoldable pub descending : ℕ → ℕ → List ℕ
descending zero id = []
descending (suc n) id = descending n (id + 1) ++ id ∷ []

length-descending : (n id : ℕ) → length (descending n id) ≡ n
unfolding descending
length-descending zero id = refl
length-descending (suc n) id =
    omega (arith, length-append (descending n (id + 1)) (id ∷ []), length-descending n (id + 1))

fill_range-descending :
    (n id len : ℕ) (cells : List ℕ)
    → len + n ≤ length cells
    → id + n < word64_mod
    → fill_range n id len cells ≡ take len cells ++ (descending n id ++ drop (len + n) cells)
unfolding fill_range descending
fill_range-descending zero id len cells fits small =
    sym (take-append-drop len cells) ∙ ap (λ k. take len cells ++ drop k cells) (omega arith)
fill_range-descending (suc n) id len cells fits small =
    ap (λ t. fill_range n t len (set cells (len + n) id)) (omega arith)
    ∙ fill_range-descending n (id + 1) len (set cells (len + n) id)
        (omega (arith, length-set cells (len + n) id)) (omega arith)
    ∙ ap₂ (λ t d. t ++ (descending n (id + 1) ++ d))
        (take-set_above len (len + n) cells id (omega arith))
        (drop-set (len + n) cells id (omega arith))
    ∙ ap (λ k. take len cells ++ (descending n (id + 1) ++ id ∷ drop k cells)) {x = suc (len + n)}
        {y = len + suc n} (omega arith)
    ∙ ap (λ t. take len cells ++ t)
        (sym (append_assoc (descending n (id + 1)) (id ∷ []) (drop (len + suc n) cells)))

length-fill_range :
    (n id len : ℕ) (cells : List ℕ) → length (fill_range n id len cells) ≡ length cells
unfolding fill_range
length-fill_range zero id len cells = refl
length-fill_range (suc n) id len cells =
    length-fill_range n (u64 (id + 1)) len (set cells (len + n) id) ∙ length-set cells (len + n) id

-- Lists that end in a piece of the block and a rest.
prefix_lem :
    (k : ℕ) (xs ys zs cells : List ℕ)
    → cells ≡ xs ++ (ys ++ zs)
    → k ≡ length xs + length ys
    → take k cells ≡ xs ++ ys
prefix_lem k xs ys zs cells e n =
    ap (take k) (e ∙ sym (append_assoc xs ys zs))
    ∙ take-append (xs ++ ys) zs k (omega (arith, length-append xs ys))

module _ (a : Allocator) (l : Idl) (fit : IsFit l) where
  -- On a list that fits its block, well below 2 ^ 64 cells, `midl_append` puts one ID behind the
  -- others and the list still fits, or realloc failed and the list is unchanged.
  pub midl_append-Appends :
      (id : ℕ) → l.alloc + um_max < word64_mod → Appends a l um_max (id ∷ []) (midl_append a l id)
  unfolding midl_append
  midl_append-Appends id small =
      Outcome-Appends a l um_max 1 (push id) (id ∷ []) (midl_append a l id)
        (when_grown-Outcome a l um_max 1 fit small (omega (arith, fit.within)) (leb l.alloc l.count)
          (push id) (λ not_full. ground arith))
        (λ l' room. push-used l id l' fit (omega arith) room)

  -- On two lists that fit their blocks, well below 2 ^ 64 cells, where the second has fewer than
  -- 2 ^ 31 IDs, `midl_append_list` puts the IDs of the second behind those of the first and the list
  -- still fits, or realloc failed and the list is unchanged.
  pub midl_append_list-Appends :
      (app : Idl)
      → IsFit app
      → app.count < 2 ^ 31
      → l.alloc + app.count < word64_mod
      → l.count + app.count < word64_mod
      → Appends a l app.count (used app) (midl_append_list a l app)
  unfolding midl_append_list
  midl_append_list-Appends app fit_app int small count_small =
      Outcome-Appends a l app.count app.count _ (used app) (midl_append_list a l app)
        (when_grown_int-Outcome a l app.count app.count fit small (omega (arith, fit.within)) int
          (leb l.alloc (u64 (l.count + app.count))) _ (λ not_full. ground arith))
        (λ l' room. (
          take-overwrite l'.count (used app) l'.cells (u64 (l'.count + app.count))
                (omega (arith, room.same_count, length-take app.count app.cells, fit_app))
                (omega (arith, room))
              ∙ ap (λ t. t ++ used app) room.same_used,
          record {
            within = omega (arith, room);
            block =
                length-overwrite l'.count (used app) l'.cells
                  (omega (arith, room, length-take app.count app.cells, fit_app))
                ∙ room.fit.block;
          },
        ))

  -- midl_append_range behind the conversion of n.
  abbrev append_run : ℕ → ℕ → Status × Idl
  append_run id m =
      when_grown a (ltb l.alloc (u64 (l.count + m))) l (as_int (bit_or m um_max))
        λ l'. record l' { count = u64 (l'.count + m); cells = fill_range m id l'.count l'.cells }

  append_run-Appends :
      (id n : ℕ)
      → bit_or n um_max < 2 ^ 31
      → l.alloc + bit_or n um_max < word64_mod
      → id + n < word64_mod
      → Appends a l (bit_or n um_max) (descending n id) (append_run id n)
  append_run-Appends id n int small ids_small =
      Outcome-Appends a l (bit_or n um_max) n _ (descending n id) (append_run id n)
        (when_grown_int-Outcome a l (bit_or n um_max) n fit small
          (omega (arith, fit.within, bit_or-le n um_max)) int (ltb l.alloc (u64 (l.count + n))) _
          (λ not_full. ground (arith, fit.within, bit_or-le n um_max)))
        (λ l' room. (
          prefix_lem (u64 (l'.count + n)) (used l') (descending n id) (drop (l'.count + n) l'.cells)
                (fill_range n id l'.count l'.cells)
                (fill_range-descending n id l'.count l'.cells (omega (arith, room)) ids_small)
                (omega (
                  arith,
                  room,
                  length-take l'.count l'.cells,
                  length-descending n id,
                  bit_or-le n um_max,
                  fit.within,
                ))
              ∙ ap (λ t. t ++ descending n id) room.same_used,
          record {
            within = omega (arith, room);
            block = length-fill_range n id l'.count l'.cells ∙ room.fit.block;
          },
        ))

  -- On a list that fits its block, well below 2 ^ 64 cells, and for an n with which
  -- n | MDB_IDL_UM_MAX is below 2 ^ 31, `midl_append_range` puts the n IDs from `id` on behind the
  -- others, the highest first, and the list still fits, or realloc failed and the list is unchanged;
  -- the IDs are below 2 ^ 64.
  pub midl_append_range-Appends :
      (id n : ℕ)
      → bit_or n um_max < 2 ^ 31
      → l.alloc + bit_or n um_max < word64_mod
      → id + n < word64_mod
      → Appends a l (bit_or n um_max) (descending n id) (midl_append_range a l id n)
  unfolding midl_append_range
  midl_append_range-Appends id n int small ids_small =
      subst (λ (m : ℕ). Appends a l (bit_or n um_max) (descending n id) (append_run id m)) {x = n}
        {y = u32 n} (omega (arith, bit_or-le n um_max, int))
        (append_run-Appends id n int small ids_small)

-- ===== src/Midl/Need.antt =====
-- mdb_midl_need: the room of a list.
use tezos_master_lib_p2p.Prelude.{
  ℕ, ◌+◌, ◌-◌, ◌*◌, ◌<◌, ◌≡◌, ◌⊎◌, inl, inr, refl, sym, ap, subst, ◌∙◌, List, true, false, none,
  some, length, take, min, ltb, Option-cases, Bool-cases, ltb→lt, u32, word32_mod, arith,
}
use tezos_master_lib_p2p.Prelude.Slices.{take-take}
use tezos_master_lib_p2p.Midl.Idl.{Idl, Allocator, Status, ok, enomem, rounded, midl_need}
use tezos_master_lib_p2p.Midl.Content.{IsFit, HasRoom}

-- The cells that `midl_need` asks for.
abbrev pub wanted_cells : Idl → ℕ → ℕ
wanted_cells l num = rounded (num + l.count) - 2

-- The outcomes of `midl_need`: realloc failed and nothing changed, or there is room for num more.
abbrev pub Needs : Allocator → Idl → ℕ → Status × Idl → Type 0
Needs a l num result =
    ((a.resize l.cells (wanted_cells l num) ≡ none) × (result ≡ (enomem, l)))
    ⊎ ((result.0 ≡ ok) × HasRoom l num result.1)

module _ (a : Allocator) where
  module _ (l : Idl) (num : ℕ) (fit : IsFit l)
      (small : 2 * (num + l.count) + 258 < word32_mod) where
    larger : List ℕ → Idl
    larger cells = record l { alloc = wanted_cells l num; cells = cells }

    wanted : u32 (num + l.count) ≡ num + l.count
    wanted = omega arith

    larger-HasRoom :
        (cells : List ℕ)
        → a.resize l.cells (wanted_cells l num) ≡ some cells
        → l.alloc < num + l.count
        → HasRoom l num (larger cells)
    unfolding larger
    larger-HasRoom cells e more = record {
      fit = record {
        within = omega arith;
        block = a.resize_length l.cells (wanted_cells l num) cells e;
      };
      same_count = refl;
      same_used =
          sym (
            take-take l.count (min (wanted_cells l num) (length l.cells)) cells
              (omega (arith, fit)))
          ∙ ap (take l.count) (a.resize_kept l.cells (wanted_cells l num) cells e)
          ∙ take-take l.count (min (wanted_cells l num) (length l.cells)) l.cells
              (omega (arith, fit));
      room = omega arith;
    }

    need-enough : ltb l.alloc (num + l.count) ≡ false → midl_need a l num ≡ (ok, l)
    unfolding midl_need
    need-enough e = rw (wanted, e)

    need-none :
        ltb l.alloc (num + l.count) ≡ true
        → a.resize l.cells (wanted_cells l num) ≡ none
        → midl_need a l num ≡ (enomem, l)
    unfolding midl_need
    need-none more e = ground (arith, wanted)

    need-some :
        (cells : List ℕ)
        → ltb l.alloc (num + l.count) ≡ true
        → a.resize l.cells (wanted_cells l num) ≡ some cells
        → midl_need a l num ≡ (ok, larger cells)
    unfolding midl_need larger
    need-some cells more e = ground (arith, wanted)

    -- On a list that fits its block and with the sizes below 2 ^ 31, `midl_need` leaves the same IDs
    -- with room for num more, or realloc failed and the list is unchanged.
    pub midl_need-HasRoom : Needs a l num (midl_need a l num)
    midl_need-HasRoom = elim (Bool-cases (ltb l.alloc (num + l.count))) [
      | inl more ↦ elim (Option-cases (a.resize l.cells (wanted_cells l num))) [
        | inl e ↦ inl (e, need-none more e)
        | inr (cells, e) ↦
            subst (Needs a l num) (sym (need-some cells more e))
              (inr (refl, larger-HasRoom cells e (ltb→lt _ _ more)))
      ]
      | inr enough ↦ subst (Needs a l num) (sym (need-enough enough)) (
          inr
            (refl, record { fit = fit; same_count = refl; same_used = refl; room = ground arith }))
    ]

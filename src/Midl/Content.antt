-- ===== src/Midl/Content.antt =====
-- What the operations of Midl.Idl do to the IDs in a list.
use tezos_master_lib_p2p.Prelude.{
  ℕ, suc, ◌+◌, ◌-◌, ◌^◌, ◌≤◌, ◌<◌, ◌≡◌, ◌⊎◌, inl, inr, refl, sym, ap, ap₂, ◌∙◌, subst, List, [],
  ◌∷◌, ◌++◌, Bool, true, false, none, some, length, take, set, min, length-set, Option-cases, u64,
  word64_mod, arith,
}
use tezos_master_lib_p2p.Prelude.Slices.{take-take, take-set}
use tezos_master_lib_p2p.Prelude.Int.{ℤ, pos, residue, signed}
use tezos_master_lib_p2p.Midl.Idl.{
  as_int, Idl, Allocator, Status, ok, enomem, midl_grow, when_grown, push,
}

-- The IDs of a list.
abbrev pub used : Idl → List ℕ
used l = take l.count l.cells

pub record IsFit (l : Idl) : Type 0 where
  pub within : l.count ≤ l.alloc
  pub block : length l.cells ≡ l.alloc

-- `l'` holds the same IDs as `l`, with room for `n` more.
pub record HasRoom (l : Idl) (n : ℕ) (l' : Idl) : Type 0 where
  pub fit : IsFit l'
  pub same_count : l'.count ≡ l.count
  pub same_used : used l' ≡ used l
  pub room : l.count + n ≤ l'.alloc

-- The two outcomes of an operation that may grow the list by `num`, and then writes: realloc
-- failed and the list is as it was, or `write` was applied to a list with room for `n` more.
abbrev pub Outcome : Allocator → Idl → ℕ → ℕ → (Idl → Idl) → Status × Idl → Type 0
Outcome a l num n write result =
    ((a.resize l.cells (l.alloc + num) ≡ none) × (result ≡ (enomem, l)))
    ⊎ ((l' : Idl) × (result ≡ (ok, write l')) × HasRoom l n l')

-- An argument below 2 ^ 31 is the int that it becomes.
as_int-small : (n : ℕ) → n < 2 ^ 31 → as_int n ≡ pos n
unfolding as_int signed
as_int-small n h = ground (arith, h)

module _ (a : Allocator) (l : Idl) (num n : ℕ) (fit : IsFit l) (small : l.alloc + num < word64_mod)
    (enough : l.count + n ≤ l.alloc + num) where
  grown : List ℕ → Idl
  grown cells = record l { alloc = u64 (l.alloc + residue 64 (pos num)); cells = cells }

  grown-size : u64 (l.alloc + residue 64 (pos num)) ≡ l.alloc + num
  unfolding residue
  grown-size = omega (arith, small)

  grown-HasRoom :
      (cells : List ℕ) → a.resize l.cells (l.alloc + num) ≡ some cells → HasRoom l n (grown cells)
  unfolding grown
  grown-HasRoom cells e =
      let size = grown-size in
      record {
        fit = record {
          within = omega (arith, fit.within, size);
          block = a.resize_length l.cells (l.alloc + num) cells e ∙ sym size;
        };
        same_count = refl;
        same_used =
            sym
              (take-take l.count (min (l.alloc + num) (length l.cells)) cells (omega (arith, fit)))
            ∙ ap (take l.count) (a.resize_kept l.cells (l.alloc + num) cells e)
            ∙ take-take l.count (min (l.alloc + num) (length l.cells)) l.cells (omega (arith, fit));
        room = omega (arith, size);
      }

  when_grown-full :
      (write : Idl → Idl) → Outcome a l num n write (when_grown a true l (pos num) write)
  unfolding when_grown midl_grow
  when_grown-full write = elim (Option-cases (a.resize l.cells (l.alloc + num))) [
    | inl e ↦ inl (e, ground (arith, ap (a.resize l.cells) grown-size ∙ e))
    | inr (cells, e) ↦ inr (
      grown cells,
      unfold grown in ground (arith, ap (a.resize l.cells) grown-size ∙ e),
      grown-HasRoom cells e,
    )
  ]

  pub when_grown-Outcome :
      (full : Bool) (write : Idl → Idl)
      → (full ≡ false → l.count + n ≤ l.alloc)
      → Outcome a l num n write (when_grown a full l (pos num) write)
  when_grown-Outcome true write fits = when_grown-full write
  when_grown-Outcome false write fits = inr (
    l,
    unfold when_grown in refl,
    record { fit = fit; same_count = refl; same_used = refl; room = fits refl },
  )

  -- The same for an argument that becomes an int.
  pub when_grown_int-Outcome :
      num < 2 ^ 31
      → (full : Bool) (write : Idl → Idl) → (full ≡ false → l.count + n ≤ l.alloc)
      → Outcome a l num n write (when_grown a full l (as_int num) write)
  when_grown_int-Outcome int full write fits =
      subst (λ (z : ℤ). Outcome a l num n write (when_grown a full l z write))
        (sym (as_int-small num int)) (when_grown-Outcome full write fits)

-- What an append gives: nothing changed and realloc failed, or the IDs are followed by `ids`.
abbrev pub Appends : Allocator → Idl → ℕ → List ℕ → Status × Idl → Type 0
Appends a l num ids result =
    ((a.resize l.cells (l.alloc + num) ≡ none) × (result ≡ (enomem, l)))
    ⊎ ((result.0 ≡ ok) × (used result.1 ≡ used l ++ ids) × IsFit result.1)

pub Outcome-Appends :
    (a : Allocator) (l : Idl) (num n : ℕ) (write : Idl → Idl) (ids : List ℕ) (result : Status × Idl)
    → Outcome a l num n write result
    → ((l' : Idl) → HasRoom l n l' → (used (write l') ≡ used l ++ ids) × IsFit (write l'))
    → Appends a l num ids result
Outcome-Appends a l num n write ids result (inl failed) writes = inl failed
Outcome-Appends a l num n write ids result (inr (l', e, room)) writes =
    subst (Appends a l num ids) (sym e) (inr (refl, (writes l' room).0, (writes l' room).1))

pub push-used :
    (l : Idl) (id : ℕ) (l' : Idl)
    → IsFit l
    → l.alloc + 1 < word64_mod
    → HasRoom l 1 l'
    → (used (push id l') ≡ used l ++ id ∷ []) × IsFit (push id l')
unfolding push
push-used l id l' fit small room = (
  ap₂ (λ n m. take n (set l'.cells m id)) next last
      ∙ take-set l'.count l'.cells id (omega (arith, room))
      ∙ ap (λ t. t ++ id ∷ []) room.same_used,
  record {
    within = omega (arith, next, room);
    block = length-set l'.cells (u64 (l'.count + 1) - 1) id ∙ room.fit.block;
  },
)
  where
    next : u64 (l'.count + 1) ≡ suc l'.count
    next = omega (arith, room, fit)

    last : u64 (l'.count + 1) - 1 ≡ l'.count
    last = omega (arith, next)

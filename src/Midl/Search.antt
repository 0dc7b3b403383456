-- ===== src/Midl/Search.antt =====
-- The binary search that mdb_midl_search and mdb_mid2l_search of
-- vendors/ocaml-lmdb/src/midl.c share: they differ in which way CMP is called.
use Prim.Native.Nat.{Ordering}
use tezos_master_lib_p2p.Prelude.{
  ℕ, zero, suc, ◌+◌, ◌-◌, ◌/◌, ◌^◌, ◌≤◌, ◌<◌, ◌≡◌, ◌⊎◌, inl, inr, refl, ◌==◌, if◌then◌else◌, u32,
  word32_mod, ◌>>>◌, subst, dec_lt, arith,
}

-- The function's last lines: ++cursor if val > 0.
unfoldable pub after_loop : ℕ → Ordering → ℕ
after_loop cursor val = elim val [ Ordering.gt ↦ u32 (cursor + 1) | _ ↦ cursor ]

-- The loop `while (0 < n)`; `probe cursor` is the value of CMP at a cursor, -1, 0 and 1 being lt,
-- eq and gt. A round makes n smaller, so n rounds are enough.
unfoldable pub search_loop : (ℕ → Ordering) → ℕ → ℕ → ℕ → Ordering → ℕ → ℕ
search_loop probe zero base cursor val n = after_loop cursor val
search_loop probe (suc fuel) base cursor val n =
    let pivot = n >>> 1 in
    let cursor' = u32 (base + pivot + 1) in
    let round : ℕ = elim (probe cursor') [
      | Ordering.lt ↦ search_loop probe fuel base cursor' Ordering.lt pivot
      | Ordering.gt ↦ search_loop probe fuel cursor' cursor' Ordering.gt (n - (pivot + 1))
      | Ordering.eq ↦ cursor'
    ] in
    if n == 0 then after_loop cursor val else round

unfoldable pub search_from : (ℕ → Ordering) → ℕ → ℕ
search_from probe n = search_loop probe n 0 1 Ordering.eq n

-- What a search over positions 1 to `count` is to find: a position where the probe is zero, or
-- the place between the positive and the negative ones.
abbrev pub Finds : (ℕ → Ordering) → ℕ → ℕ → Type 0
Finds probe count p =
    (1 ≤ p)
    × (p ≤ count + 1)
    × (((p ≤ count) × (probe p ≡ Ordering.eq))
        ⊎ (((i : ℕ) → 1 ≤ i → i < p → probe i ≡ Ordering.gt)
            × ((i : ℕ) → p ≤ i → i ≤ count → probe i ≡ Ordering.lt)))

-- The probe falls from positive over zero to negative.
pub record Falls (probe : ℕ → Ordering) (count : ℕ) : Type 0 where
  pub below : (i j : ℕ) → 1 ≤ i → i < j → j ≤ count → probe j ≡ Ordering.gt → probe i ≡ Ordering.gt
  pub above : (i j : ℕ) → 1 ≤ i → i < j → j ≤ count → probe i ≡ Ordering.lt → probe j ≡ Ordering.lt

module _ (probe : ℕ → Ordering) (count : ℕ) (small : count + 1 < word32_mod)
    (falls : Falls probe count) where
  record Inv (base cursor : ℕ) (val : Ordering) (n : ℕ) : Type 0 where
    inside : base + n ≤ count
    before : (i : ℕ) → 1 ≤ i → i ≤ base → probe i ≡ Ordering.gt
    behind : (i : ℕ) → base + n < i → i ≤ count → probe i ≡ Ordering.lt
    ends : n ≡ 0 → after_loop cursor val ≡ base + 1

  module _ {base cursor : ℕ} {val : Ordering} {n : ℕ} (inv : Inv base cursor val n) where
    ended : n ≡ 0 → Finds probe count (after_loop cursor val)
    ended e = rw (inv.ends e) (
      omega arith,
      omega (arith, inv.inside),
      inr (λ i p q. inv.before i p (omega arith), λ i p q. inv.behind i (omega arith) q),
    )

    abbrev mid : ℕ
    mid = base + n / 2 + 1

    mid_exact : 0 < n → u32 (base + n / 2 ^ 1 + 1) ≡ mid
    mid_exact some_left = omega (arith, inv.inside)

    lt-Inv : 0 < n → probe mid ≡ Ordering.lt → Inv base mid Ordering.lt (n / 2)
    unfolding after_loop
    lt-Inv some_left e = record {
      inside = omega (arith, inv.inside);
      before = inv.before;
      behind = λ i p q. elim (dec_lt mid i) [
        | yes later ↦ falls.above mid i (omega arith) later q e
        | no last ↦ subst (λ k. probe k ≡ Ordering.lt) (omega arith) e
      ];
      ends = λ z. omega arith;
    }

    gt-Inv : 0 < n → probe mid ≡ Ordering.gt → Inv mid mid Ordering.gt (n - (n / 2 + 1))
    unfolding after_loop
    gt-Inv some_left e = record {
      inside = omega (arith, inv.inside);
      before = λ i p q. elim (dec_lt i mid) [
        | yes earlier ↦ falls.below i mid p earlier (omega (arith, inv.inside)) e
        | no last ↦ subst (λ k. probe k ≡ Ordering.gt) (omega arith) e
      ];
      behind = λ i p q. inv.behind i (omega arith) q;
      ends = λ z. omega (arith, inv.inside);
    }

    hit : 0 < n → probe mid ≡ Ordering.eq → Finds probe count mid
    hit some_left e = (omega arith, omega (arith, inv.inside), inl (omega (arith, inv.inside), e))

  module _ {base cursor : ℕ} {val : Ordering} (fuel n : ℕ) (inv : Inv base cursor val (suc n)) where
    search_loop-lt :
        probe (mid inv) ≡ Ordering.lt
        → search_loop probe (suc fuel) base cursor val (suc n)
          ≡ search_loop probe fuel base (mid inv) Ordering.lt (suc n / 2)
    unfolding search_loop
    search_loop-lt e = ground (arith, mid_exact inv (omega arith))

    search_loop-gt :
        probe (mid inv) ≡ Ordering.gt
        → search_loop probe (suc fuel) base cursor val (suc n)
          ≡ search_loop probe fuel (mid inv) (mid inv) Ordering.gt (suc n - (suc n / 2 + 1))
    unfolding search_loop
    search_loop-gt e = ground (arith, mid_exact inv (omega arith))

    search_loop-eq :
        probe (mid inv) ≡ Ordering.eq
        → search_loop probe (suc fuel) base cursor val (suc n) ≡ mid inv
    unfolding search_loop
    search_loop-eq e = ground (arith, mid_exact inv (omega arith))

  search_loop-Finds :
      (fuel base cursor : ℕ) (val : Ordering) (n : ℕ)
      → n ≤ fuel
      → Inv base cursor val n
      → Finds probe count (search_loop probe fuel base cursor val n)
  search_loop-Finds zero base cursor val n enough inv =
      unfold search_loop in ended inv (omega arith)
  search_loop-Finds (suc fuel) base cursor val zero enough inv =
      unfold search_loop in ended inv refl
  search_loop-Finds (suc fuel) base cursor val (suc n) enough inv =
      by_probe (probe (mid inv)) refl
        (λ e.
          search_loop-Finds fuel base (mid inv) Ordering.lt (suc n / 2) (omega arith)
            (lt-Inv inv (omega arith) e))
        (λ e.
          search_loop-Finds fuel (mid inv) (mid inv) Ordering.gt (suc n - (suc n / 2 + 1))
            (omega arith) (gt-Inv inv (omega arith) e))
    where
      by_probe :
          (o : Ordering)
          → probe (mid inv) ≡ o
          → (probe (mid inv) ≡ Ordering.lt
              → Finds probe count (search_loop probe fuel base (mid inv) Ordering.lt (suc n / 2)))
          → (probe (mid inv) ≡ Ordering.gt
              → Finds probe count (
                  search_loop probe fuel (mid inv) (mid inv) Ordering.gt (suc n - (suc n / 2 + 1))))
          → Finds probe count (search_loop probe (suc fuel) base cursor val (suc n))
      by_probe Ordering.lt e lower upper = rw (search_loop-lt fuel n inv e) (lower e)
      by_probe Ordering.eq e lower upper =
          rw (search_loop-eq fuel n inv e) (hit inv (omega arith) e)
      by_probe Ordering.gt e lower upper = rw (search_loop-gt fuel n inv e) (upper e)

  -- With a falling probe and fewer than 2 ^ 32 positions the search finds its position.
  pub search_from-Finds : Finds probe count (search_from probe count)
  unfolding search_from
  search_from-Finds = search_loop-Finds count 0 1 Ordering.eq count (omega arith) (record {
    inside = omega arith;
    before = λ i p q. absurd (omega arith);
    behind = λ i p q. absurd (omega arith);
    ends = λ z. unfold after_loop in refl;
  })

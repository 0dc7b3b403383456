-- ===== src/Midl/Tests.antt =====
-- The theorems about ID lists at concrete inputs.
use Prim.Native.Nat.{compare}
use mathlib.Core.Option.{some-injective}
use tezos_master_lib_p2p.Prelude.{
  ℕ, zero, suc, ◌-◌, ◌≤◌, ◌<◌, ◌≡◌, refl, sym, ap, ◌∙◌, List, [], ◌∷◌, ◌++◌, some, length, take,
  replicate, min, length-append, length-take, length-replicate, bit_or, arith,
}
use tezos_master_lib_p2p.Prelude.Slices.{take-append, take-length, take-take}
use tezos_master_lib_p2p.Midl.Idl.{
  Idl, Allocator, at, midl_search, midl_need, midl_append, midl_append_range, um_max,
}
use tezos_master_lib_p2p.Midl.Search.{Finds}
use tezos_master_lib_p2p.Midl.Content.{IsFit, Appends}
use tezos_master_lib_p2p.Midl.Append.{descending, midl_append-Appends, midl_append_range-Appends}
use tezos_master_lib_p2p.Midl.Lookup.{IsDescending, midl_search-Finds}
use tezos_master_lib_p2p.Midl.Need.{Needs, midl_need-HasRoom}
use tezos_master_lib_p2p.Midl.Id2l.{Id2, no_id2, Id2l, at as at2, mid2l_insert}
use tezos_master_lib_p2p.Midl.Id2lInsert.{IsSorted, Inserts, mid2l_insert-Inserts}

-- An allocator that never fails and hands out zeros.
resized : List ℕ → ℕ → List ℕ
resized old n = take n old ++ replicate (n - length old) 0

length-resized : (old : List ℕ) (n : ℕ) → length (resized old n) ≡ n
unfolding resized
length-resized old n = omega (
  arith,
  length-append (take n old) (replicate (n - length old) 0),
  length-take n old,
  length-replicate {A = ℕ} (n - length old) 0,
)

resized-kept :
    (old : List ℕ) (n : ℕ)
    → take (min n (length old)) (resized old n) ≡ take (min n (length old)) old
unfolding resized
resized-kept old n =
    take-append (take n old) (replicate (n - length old) 0) (min n (length old))
      (omega (arith, length-take n old))
    ∙ sym (take-length (take n old) (min n (length old)) (omega (arith, length-take n old)))
    ∙ take-take (min n (length old)) n old (omega arith)

zeros : Allocator
zeros = record {
  fresh = λ n. some (replicate n 0);
  resize = λ old n. some (resized old n);
  fresh_length = λ n cells e. ap length (sym (some-injective _ _ e)) ∙ length-replicate {A = ℕ} n 0;
  resize_length = λ old n cells e. ap length (sym (some-injective _ _ e)) ∙ length-resized old n;
  resize_kept = λ old n cells e.
      ap (take (min n (length old))) (sym (some-injective _ _ e)) ∙ resized-kept old n;
}

abbrev three : Idl
three = record { alloc = 3; count = 3; cells = 9 ∷ 5 ∷ 2 ∷ [] }

three-IsFit : IsFit three
three-IsFit = record { within = omega arith; block = refl }

three-IsDescending : IsDescending three
three-IsDescending (suc zero) (suc (suc zero)) p q r = omega arith
three-IsDescending (suc zero) (suc (suc (suc zero))) p q r = omega arith
three-IsDescending (suc (suc zero)) (suc (suc (suc zero))) p q r = omega arith
three-IsDescending _ _ p q r = absurd (omega arith)

midl_search-Finds_example : Finds (λ i. compare (at three i) 4) 3 (midl_search three 4)
midl_search-Finds_example = midl_search-Finds three 4 three-IsDescending (omega arith)

midl_append-Appends_example : Appends zeros three um_max (1 ∷ []) (midl_append zeros three 1)
midl_append-Appends_example = midl_append-Appends zeros three three-IsFit 1 (omega arith)

midl_append_range-Appends_example :
    Appends zeros three (bit_or 4 um_max) (descending 4 20) (midl_append_range zeros three 20 4)
midl_append_range-Appends_example =
    midl_append_range-Appends zeros three three-IsFit 20 4 (omega arith) (omega arith) (omega arith)

midl_need-HasRoom_example : Needs zeros three 40 (midl_need zeros three 40)
midl_need-HasRoom_example = midl_need-HasRoom zeros three 40 three-IsFit (omega arith)

abbrev pairs : Id2l
pairs = record {
  count = 2;
  cells = record { mid = 3; mptr = 30 } ∷ record { mid = 8; mptr = 80 } ∷ replicate um_max no_id2;
}

pairs-IsSorted : IsSorted pairs
pairs-IsSorted = record {
  ascending = ordered;
  block = omega (arith, length-replicate um_max no_id2);
  small = omega arith;
}
  where
    ordered : (i j : ℕ) → 1 ≤ i → i < j → j ≤ 2 → (at2 pairs i).mid < (at2 pairs j).mid
    ordered (suc zero) (suc (suc zero)) p q r = omega arith
    ordered _ _ p q r = absurd (omega arith)

abbrev five : Id2
five = record { mid = 5; mptr = 50 }

mid2l_insert-Inserts_example : Inserts pairs five (mid2l_insert pairs five)
mid2l_insert-Inserts_example = mid2l_insert-Inserts pairs five pairs-IsSorted

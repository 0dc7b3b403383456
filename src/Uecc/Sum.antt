-- ===== src/Uecc/Sum.antt =====
-- uECC_vli_add and uECC_vli_sub are addition and subtraction with a carry.
use tezos_master_lib_p2p.Prelude.{
  ℕ, ◌+◌, ◌-◌, ◌*◌, ◌≤◌, ◌<◌, ◌≡◌, refl, List, [], ◌∷◌, length, word64_mod, u64, arith,
}
use tezos_master_lib_p2p.Uecc.Vli.{next_carry, next_borrow, add_from, add, sub_from, sub}
use tezos_master_lib_p2p.Uecc.Value.{value, weight, IsWords}

-- The carry that the comparison finds is the true one.
next_carry-exact :
    (carry l r : ℕ)
    → carry ≤ 1
    → l < word64_mod
    → r < word64_mod
    → (next_carry carry l (u64 (l + r + carry)) ≤ 1)
      × (u64 (l + r + carry) + word64_mod * next_carry carry l (u64 (l + r + carry))
          ≡ l + r + carry)
unfolding next_carry
next_carry-exact carry l r bit hl hr = ground arith

next_borrow-exact :
    (borrow l r : ℕ)
    → borrow ≤ 1
    → l < word64_mod
    → r < word64_mod
    → let diff = u64 (l + 2 * word64_mod - r - borrow) in
      (next_borrow borrow l diff ≤ 1)
      × (diff + r + borrow ≡ l + word64_mod * next_borrow borrow l diff)
unfolding next_borrow
next_borrow-exact borrow l r bit hl hr = ground arith

-- Words of the length of `left`, whose number with the last carry is `total`.
pub record IsSum (total : ℕ) (left : List ℕ) (r : List ℕ × ℕ) : Type 0 where
  pub words : IsWords r.0
  pub same_length : length r.0 ≡ length left
  pub carry_bit : r.1 ≤ 1
  pub sum : value r.0 + r.1 * weight left ≡ total

add_from-IsSum :
    (carry : ℕ) (left right : List ℕ)
    → carry ≤ 1
    → IsWords left
    → IsWords right
    → length left ≡ length right
    → IsSum (value left + value right + carry) left (add_from carry left right)
unfolding add_from
add_from-IsSum carry [] [] bit hl hr n = record {
  words = tt;
  same_length = refl;
  carry_bit = bit;
  sum = omega arith;
}
add_from-IsSum carry [] (r ∷ rs) bit hl hr n = absurd (omega arith)
add_from-IsSum carry (l ∷ ls) [] bit hl hr n = absurd (omega arith)
add_from-IsSum carry (l ∷ ls) (r ∷ rs) bit hl hr n =
    let digit = next_carry-exact carry l r bit hl.0 hr.0 in
    let rest =
      add_from-IsSum (next_carry carry l (u64 (l + r + carry))) ls rs digit.0 hl.1 hr.1
        (omega arith) in
    record {
      words = (omega arith, rest.words);
      same_length = omega (arith, rest.same_length);
      carry_bit = rest.carry_bit;
      sum = omega (arith, digit.1, rest.sum);
    }

-- Of two arrays of words of one length, `add` gives words of that length and a carry of one bit,
-- which together are the exact sum.
pub add-IsSum :
    (left right : List ℕ)
    → IsWords left
    → IsWords right
    → length left ≡ length right
    → IsSum (value left + value right) left (add left right)
unfolding add
add-IsSum left right hl hr n =
    let exact = add_from-IsSum 0 left right (omega arith) hl hr n in
    record {
      words = exact.words;
      same_length = exact.same_length;
      carry_bit = exact.carry_bit;
      sum = omega (arith, exact.sum);
    }

-- Words of the length of `left`, which with `taken` make `left` and the borrow's weight.
pub record IsDifference (taken : ℕ) (left : List ℕ) (r : List ℕ × ℕ) : Type 0 where
  pub words : IsWords r.0
  pub same_length : length r.0 ≡ length left
  pub borrow_bit : r.1 ≤ 1
  pub difference : value r.0 + taken ≡ value left + r.1 * weight left

sub_from-IsDifference :
    (borrow : ℕ) (left right : List ℕ)
    → borrow ≤ 1
    → IsWords left
    → IsWords right
    → length left ≡ length right
    → IsDifference (value right + borrow) left (sub_from borrow left right)
unfolding sub_from
sub_from-IsDifference borrow [] [] bit hl hr n = record {
  words = tt;
  same_length = refl;
  borrow_bit = bit;
  difference = omega arith;
}
sub_from-IsDifference borrow [] (r ∷ rs) bit hl hr n = absurd (omega arith)
sub_from-IsDifference borrow (l ∷ ls) [] bit hl hr n = absurd (omega arith)
sub_from-IsDifference borrow (l ∷ ls) (r ∷ rs) bit hl hr n =
    let digit = next_borrow-exact borrow l r bit hl.0 hr.0 in
    let borrow' = next_borrow borrow l (u64 (l + 2 * word64_mod - r - borrow)) in
    let rest = sub_from-IsDifference borrow' ls rs digit.0 hl.1 hr.1 (omega arith) in
    record {
      words = (omega arith, rest.words);
      same_length = omega (arith, rest.same_length);
      borrow_bit = rest.borrow_bit;
      difference = omega (arith, digit.1, rest.difference);
    }

-- Of two arrays of words of one length, `sub` gives words of that length and a borrow of one bit,
-- which together are the exact difference.
pub sub-IsDifference :
    (left right : List ℕ)
    → IsWords left
    → IsWords right
    → length left ≡ length right
    → IsDifference (value right) left (sub left right)
unfolding sub
sub-IsDifference left right hl hr n =
    let exact = sub_from-IsDifference 0 left right (omega arith) hl hr n in
    record {
      words = exact.words;
      same_length = exact.same_length;
      borrow_bit = exact.borrow_bit;
      difference = omega (arith, exact.difference);
    }

-- ===== src/Uecc/Loops.antt =====
-- The digits that the two loops of uECC_vli_mult in vendors/ocaml-uecc/src/uECC.c write.
use tezos_master_lib_p2p.Prelude.{
  ℕ, zero, suc, ◌+◌, ◌-◌, ◌*◌, ◌≤◌, ◌<◌, ◌≡◌, refl, ap, List, length, get_or, word64_mod, arith,
}
use tezos_master_lib_p2p.Uecc.Value.{value, weight, IsWords}
use tezos_master_lib_p2p.Uecc.Mult.{
  Registers, muladd, column, next_column, low_columns, high_columns,
}
use tezos_master_lib_p2p.Uecc.MulAdd.{total, IsRegisters, Holds, muladd-Holds}
use tezos_master_lib_p2p.Uecc.Columns.{
  column_sum, columns_sum, get_or-bound, column_sum-bound, column_sum-high,
}

pub column-Holds :
    (n i k : ℕ) (left right : List ℕ) (r : Registers)
    → IsWords left
    → IsWords right
    → IsRegisters r
    → total r + column_sum n i k left right < word64_mod * (word64_mod * word64_mod)
    → Holds (total r + column_sum n i k left right) (column n i k left right r)
unfolding column
column-Holds zero i k left right r hl hr h room = record { words = h; exact = omega arith }
column-Holds (suc n) i k left right r hl hr h room =
    let step =
      muladd-Holds (get_or left i 0) (get_or right (k - i) 0) r (get_or-bound left i hl)
        (get_or-bound right (k - i) hr) h (omega arith) in
    let rest =
      column-Holds n (suc i) k left right (muladd (get_or left i 0) (get_or right (k - i) 0) r) hl
        hr step.words (omega (arith, step.exact)) in
    record { words = rest.words; exact = omega (arith, rest.exact, step.exact) }

-- The digit that a column writes, and the registers for the next one.
pub record Step (m c : ℕ) (r r' : Registers) : Type 0 where
  pub digit : r'.r0 < word64_mod
  pub words : IsRegisters (next_column r')
  pub exact : r'.r0 + word64_mod * total (next_column r') ≡ total r + c
  pub small : total (next_column r') ≤ m * word64_mod

column-Step :
    (m n i k : ℕ) (left right : List ℕ) (r : Registers)
    → IsWords left
    → IsWords right
    → m < word64_mod
    → n ≤ m
    → IsRegisters r
    → total r ≤ m * word64_mod
    → Step m (column_sum n i k left right) r (column n i k left right r)
unfolding next_column
column-Step m n i k left right r hl hr hm hn h small =
    let bound = column_sum-bound n i k left right hl hr in
    let held = column-Holds n i k left right r hl hr h (omega arith) in
    record {
      digit = held.words.first;
      words = record { first = held.words.second; second = held.words.third; third = omega arith };
      exact = omega (arith, held.exact);
      small = omega (arith, held.exact);
    }

-- The words that a loop writes and the registers it leaves, when `later` stands for the columns
-- behind it.
pub record Written (m n later sum : ℕ) (r : Registers) (out : List ℕ × Registers) : Type 0 where
  pub words : IsWords out.0
  pub same_length : length out.0 ≡ n
  pub registers : IsRegisters out.1
  pub small : total out.1 ≤ m * word64_mod
  pub exact : value out.0 + weight out.0 * (total out.1 + later) ≡ total r + sum

pub high_columns-Written :
    (n m k : ℕ) (left right : List ℕ) (r : Registers)
    → IsWords left
    → IsWords right
    → length left ≡ m
    → length right ≡ m
    → m < word64_mod
    → m ≤ k
    → k + n + 1 ≤ 2 * m
    → IsRegisters r
    → total r ≤ m * word64_mod
    → Written m n 0 (columns_sum n k left right) r (high_columns n m k left right r)
unfolding high_columns
high_columns-Written zero m k left right r hl hr nl nr hm hk hn h small = record {
  words = tt;
  same_length = refl;
  registers = h;
  small = small;
  exact = omega arith;
}
high_columns-Written (suc n) m k left right r hl hr nl nr hm hk hn h small =
    let step =
      column-Step m (2 * m - suc k) (suc k - m) k left right r hl hr hm (omega arith) h small in
    let same = column_sum-high m k left right nl nr hk (omega arith) in
    let rest =
      high_columns-Written n m (suc k) left right
        (next_column (column (2 * m - suc k) (suc k - m) k left right r)) hl hr nl nr hm
        (omega arith) (omega arith) step.words step.small in
    record {
      words = (step.digit, rest.words);
      same_length = omega (arith, rest.same_length);
      registers = rest.registers;
      small = rest.small;
      exact = omega (arith, rest.exact, step.exact, same);
    }

pub low_columns-Written :
    (n m k later : ℕ) (left right : List ℕ) (r : Registers)
    → IsWords left
    → IsWords right
    → m < word64_mod
    → k + n ≤ m
    → IsRegisters r
    → total r ≤ m * word64_mod
    → Written m n
        (columns_sum later (n + k) left right)
        (columns_sum (n + later) k left right)
        r
        (low_columns n k left right r)
unfolding low_columns
low_columns-Written zero m k later left right r hl hr hm hn h small = record {
  words = tt;
  same_length = refl;
  registers = h;
  small = small;
  exact = omega (
    arith,
    ap (λ t. columns_sum later t left right) {x = 0 + k} {y = k} (omega arith),
    ap (λ t. columns_sum t k left right) {x = 0 + later} {y = later} (omega arith),
  );
}
low_columns-Written (suc n) m k later left right r hl hr hm hn h small =
    let step = column-Step m (suc k) 0 k left right r hl hr hm (omega arith) h small in
    let rest =
      low_columns-Written n m (suc k) later left right
        (next_column (column (suc k) 0 k left right r)) hl hr hm (omega arith) step.words
        step.small in
    let start =
      ap (λ t. columns_sum later t left right) {x = n + suc k} {y = suc n + k} (omega arith) in
    let count =
      ap (λ t. columns_sum t k left right) {x = suc n + later} {y = suc (n + later)}
        (omega arith) in
    let out = low_columns n (suc k) left right (next_column (column (suc k) 0 k left right r)) in
    record {
      words = (step.digit, rest.words);
      same_length = omega (arith, rest.same_length);
      registers = rest.registers;
      small = rest.small;
      exact = omega (arith, rest.exact, step.exact, count, ap (λ (t : ℕ). weight out.0 * t) start);
    }

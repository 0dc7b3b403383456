-- ===== src/Uecc/Runs.antt =====
-- Runs of the modular operations.
use tezos_master_lib_p2p.Prelude.{ℕ, ◌≡◌, refl, List, [], ◌∷◌, some}
use tezos_master_lib_p2p.Uecc.Vli.{
  clear, num_bits, num_digits, count_bits, sub, sub_from, next_borrow, rshift1, rshift1_from,
  set_words, cmp_unsafe, cmp_from, is_zero, or_words, add, add_from, next_carry,
}
use tezos_master_lib_p2p.Uecc.Mmod.{
  mmod, reduce_rounds, halve, or_last, align, shift_words, mod_inv, inverse_loop, inverse_round,
  mod_inv_update, subtract_half, is_even, one_words,
}

abbrev modulus : List ℕ
modulus = 9 ∷ 8 ∷ []

mmod_runs : mmod (5 ∷ 7 ∷ 9 ∷ 11 ∷ []) modulus ≡ 14699749183737298940 ∷ 2 ∷ []
unfolding mmod reduce_rounds halve or_last align shift_words clear num_bits num_digits count_bits
    sub sub_from next_borrow rshift1 rshift1_from set_words
mmod_runs = refl

inverse_runs : mod_inv (3 ∷ 7 ∷ []) modulus ≡ some (5202927815661668408 ∷ 3 ∷ [])
unfolding mod_inv inverse_loop inverse_round mod_inv_update subtract_half is_even one_words clear
    or_last cmp_unsafe cmp_from is_zero or_words sub sub_from next_borrow add add_from next_carry
    rshift1 rshift1_from
inverse_runs = refl

-- ===== src/Uecc/P256Sum.antt =====
-- The sum of the terms in vli_mmod_fast_secp256r1 of curve-specific.h, with its carry.
use tezos_master_lib_p2p.Prelude.{
  ℕ, ◌+◌, ◌*◌, ◌^◌, ◌<◌, ◌≡◌, refl, ap, ◌∙◌, List, length, ltb, arith,
}
use tezos_master_lib_p2p.Prelude.Int.{ℤ, pos, negsuc, pos_part, neg_part, ◌+ℤ◌, +ℤ_parts, -ℤ_parts}
use tezos_master_lib_p2p.Uecc.Vli.{add, sub}
use tezos_master_lib_p2p.Uecc.Mmod.{is_less}
use tezos_master_lib_p2p.Uecc.P256.{p256, Sum, add_term, add_double, sub_term}
use tezos_master_lib_p2p.Uecc.Value.{
  IsNumber, value, weight, IsWords, value-lt-weight, weight-power,
}
use tezos_master_lib_p2p.Uecc.Sum.{add-IsSum, sub-IsDifference}

abbrev pub four : ℕ
four = 2 ^ 256

-- The words with the carry above them are what was added less what was taken away.
pub record IsTotal (added taken : ℕ) (s : Sum) : Type 0 where
  pub words : IsWords s.result
  pub same_length : length s.result ≡ 4
  pub total : value s.result + four * pos_part s.carry + taken ≡ added + four * neg_part s.carry

weight-four : (ws : List ℕ) → length ws ≡ 4 → weight ws ≡ four
weight-four ws h = weight-power ws ∙ ap (λ (t : ℕ). 2 ^ (64 * t)) h

pub add_term-IsTotal :
    (added taken n : ℕ) (tmp : List ℕ) (s : Sum)
    → IsTotal added taken s
    → IsNumber n 4 tmp
    → IsTotal (added + n) taken (add_term tmp s)
unfolding add_term
add_term-IsTotal added taken n tmp s h hn =
    let exact =
      add-IsSum s.result tmp h.words hn.words (omega (arith, h.same_length, hn.same_length)) in
    let carry = +ℤ_parts s.carry (pos (add s.result tmp).1) in
    let weights = ap (λ (t : ℕ). (add s.result tmp).1 * t) (weight-four s.result h.same_length) in
    record {
      words = exact.words;
      same_length = omega (arith, exact.same_length, h.same_length);
      total = omega (arith, exact.sum, h.total, hn.number, carry, weights);
    }

pub add_double-IsTotal :
    (added taken n : ℕ) (tmp : List ℕ) (s : Sum)
    → IsTotal added taken s
    → IsNumber n 4 tmp
    → IsTotal (added + 2 * n) taken (add_double tmp s)
unfolding add_double
add_double-IsTotal added taken n tmp s h hn =
    let exact = add-IsSum tmp tmp hn.words hn.words refl in
    let c = (add tmp tmp).1 in
    let carry = +ℤ_parts s.carry (pos c) in
    let weights = ap (λ (t : ℕ). c * t) (weight-four tmp hn.same_length) in
    let raised : IsTotal (added + four * c) taken (record s { carry = s.carry +ℤ pos c }) = record {
      words = h.words;
      same_length = h.same_length;
      total = omega (arith, h.total, carry);
    } in
    let twice : IsNumber (value (add tmp tmp).0) 4 (add tmp tmp).0 = record {
      words = exact.words;
      same_length = omega (arith, exact.same_length, hn.same_length);
      number = refl;
    } in
    let all =
      add_term-IsTotal (added + four * c) taken (value (add tmp tmp).0) (add tmp tmp).0
        (record s { carry = s.carry +ℤ pos c }) raised twice in
    record {
      words = all.words;
      same_length = all.same_length;
      total = omega (arith, all.total, exact.sum, weights, hn.number);
    }

pub sub_term-IsTotal :
    (added taken n : ℕ) (tmp : List ℕ) (s : Sum)
    → IsTotal added taken s
    → IsNumber n 4 tmp
    → IsTotal added (taken + n) (sub_term tmp s)
unfolding sub_term
sub_term-IsTotal added taken n tmp s h hn =
    let exact =
      sub-IsDifference s.result tmp h.words hn.words
        (omega (arith, h.same_length, hn.same_length)) in
    let carry = -ℤ_parts s.carry (pos (sub s.result tmp).1) in
    let weights = ap (λ (t : ℕ). (sub s.result tmp).1 * t) (weight-four s.result h.same_length) in
    record {
      words = exact.words;
      same_length = omega (arith, exact.same_length, h.same_length);
      total = omega (arith, exact.difference, h.total, hn.number, carry, weights);
    }

pub p256-IsNumber : IsNumber (value p256) 4 p256
p256-IsNumber = record { words = omega arith; same_length = refl; number = refl }

below-four : (ws : List ℕ) → IsWords ws → length ws ≡ 4 → value ws < four
below-four ws h same = omega (arith, value-lt-weight ws h, weight-four ws same)

-- The sign of the carry is that of the total.
pub carry-cases :
    (added taken : ℕ) (r : List ℕ) (c : ℤ)
    → IsTotal added taken (record { result = r; carry = c })
    → is_less c ≡ ltb added taken
carry-cases added taken r (pos k) h = ground (arith, h.total, below-four r h.words h.same_length)
carry-cases added taken r (negsuc k) h = ground (arith, h.total, below-four r h.words h.same_length)

-- With no debt, the carry is a number.
pub carry-positive :
    (z : ℕ) (r : List ℕ) (c : ℤ)
    → IsTotal z 0 (record { result = r; carry = c })
    → (k : ℕ) × (c ≡ pos k) × (value r + four * k ≡ z)
carry-positive z r (pos k) h = (k, refl, omega (arith, h.total))
carry-positive z r (negsuc k) h =
    absurd (omega (arith, h.total, below-four r h.words h.same_length))

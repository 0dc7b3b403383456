-- ===== src/Uecc/InverseRound.antt =====
-- One round of uECC_vli_modInv of uECC.c, on the numbers of the four arrays.
use tezos_master_lib_p2p.Prelude.{
  true, false, ltb→lt, ℕ, zero, suc, ◌+◌, ◌-◌, ◌*◌, ◌/◌, ◌%◌, ◌^◌, ◌≤◌, ◌<◌, ◌≡◌, refl, ap, ◌∙◌,
  List, [], ◌∷◌, inl, inr, length, ltb, ◌==◌, if◌then◌else◌, bit_and, bit_or, Bool-cases, arith,
}
use tezos_master_lib_p2p.Prelude.Bits.{bit_and-power, bit_or-low_high}
use tezos_master_lib_p2p.Uecc.Vli.{add, sub, cmp_unsafe, rshift1}
use tezos_master_lib_p2p.Uecc.Mmod.{or_last, is_even, is_less, mod_inv_update, subtract_half}
use tezos_master_lib_p2p.Uecc.Value.{
  IsNumber, value, weight, IsWords, value-lt-weight, weight-length,
}
use tezos_master_lib_p2p.Uecc.Sum.{add-IsSum, sub-IsDifference}
use tezos_master_lib_p2p.Uecc.Shift.{rshift1-value}
use tezos_master_lib_p2p.Uecc.Compare.{cmp_unsafe-value}
use tezos_master_lib_p2p.Uecc.Congruence.{half_mod, sub_mod}
use tezos_master_lib_p2p.Uecc.Align.{or_last-cons}

pub is_even-value : (ws : List ℕ) → is_even ws ≡ (value ws % 2 == 0)
unfolding is_even
is_even-value [] = refl
is_even-value (w ∷ ws) =
    let low : bit_and w 1 ≡ value (w ∷ ws) % 2 = omega (arith, bit_and-power 0 w) in
    ap (λ t. t == 0) low

pub rshift1-IsNumber :
    (n len : ℕ) (ws : List ℕ) → IsNumber n len ws → IsNumber (n / 2) len (rshift1 ws)
rshift1-IsNumber n len ws h =
    let (words, same, half) = rshift1-value ws h.words in
    record {
      words = words;
      same_length = omega (arith, same, h.same_length);
      number = omega (arith, half, h.number);
    }

weight-even : (ws : List ℕ) → 1 ≤ length ws → weight ws % 2 ≡ 0
weight-even [] pos = absurd (omega arith)
weight-even (w ∷ ws) pos = omega arith

-- The highest bit set where it was not.
or_last-value :
    (w : ℕ) (ws : List ℕ)
    → IsWords (w ∷ ws)
    → 2 * value (w ∷ ws) < weight (w ∷ ws)
    → IsWords (or_last (suc (length ws)) (2 ^ 63) (w ∷ ws))
      × (length (or_last (suc (length ws)) (2 ^ 63) (w ∷ ws)) ≡ suc (length ws))
      × (2 * value (or_last (suc (length ws)) (2 ^ 63) (w ∷ ws))
          ≡ 2 * value (w ∷ ws) + weight (w ∷ ws))
or_last-value w [] h small =
    unfold or_last in
    let set_bit : bit_or w (2 ^ 63) ≡ w + 2 ^ 63 = omega (arith, bit_or-low_high 63 w 1) in
    omega (arith, set_bit)
or_last-value w (w' ∷ ws) h small =
    let (words, same, number) = or_last-value w' ws h.1 (omega arith) in
    rw (or_last-cons (length ws) (2 ^ 63) w (w' ∷ ws))
      ((h.0, words), omega (arith, same), omega (arith, number))

pub or_last-IsNumber :
    (n len : ℕ) (ws : List ℕ)
    → IsNumber n len ws
    → 1 ≤ len
    → 2 * n < weight ws
    → IsNumber ((2 * n + weight ws) / 2) len (or_last len (2 ^ 63) ws)
or_last-IsNumber n len [] h pos small = absurd (omega (arith, h.same_length))
or_last-IsNumber n len (w ∷ ws) h pos small =
    let (words, same, number) = or_last-value w ws h.words (omega (arith, h.number)) in
    rw (← h.same_length)
      (record { words = words; same_length = same; number = omega (arith, number, h.number) })

-- A sum halved, its carry included.
halve_sum-IsNumber :
    (t len : ℕ) (sum : List ℕ) (carry : ℕ)
    → IsNumber (value sum) len sum
    → carry ≤ 1
    → value sum + carry * weight sum ≡ t
    → 1 ≤ len
    → IsNumber (t / 2) len (if carry == 0 then rshift1 sum else or_last len (2 ^ 63) (rshift1 sum))
halve_sum-IsNumber t len sum zero h bit e pos =
    let half : value sum / 2 ≡ t / 2 = omega (arith, e) in
    rw (← half) (rshift1-IsNumber (value sum) len sum h)
halve_sum-IsNumber t len sum (suc zero) h bit e pos =
    let half = rshift1-IsNumber (value sum) len sum h in
    let weights : weight (rshift1 sum) ≡ weight sum =
      weight-length (rshift1 sum) sum (omega (arith, half.same_length, h.same_length)) in
    let set_bit =
      or_last-IsNumber (value sum / 2) len (rshift1 sum) half pos
        (omega (arith, weights, value-lt-weight sum h.words)) in
    let even = weight-even sum (omega (arith, h.same_length)) in
    let number : (2 * (value sum / 2) + weight (rshift1 sum)) / 2 ≡ t / 2 =
      omega (arith, weights, even, e) in
    rw (← number) set_bit
halve_sum-IsNumber t len sum (suc (suc n)) h bit e pos = absurd (omega arith)

-- The number after vli_modInv_update.
pub mod_inv_update-IsNumber :
    (u m len : ℕ) (uv modulus : List ℕ)
    → IsNumber u len uv
    → IsNumber m len modulus
    → 1 ≤ len
    → IsNumber (half_mod u m) len (mod_inv_update uv modulus)
unfolding mod_inv_update
mod_inv_update-IsNumber u m len uv modulus hu hm pos =
    let parity : is_even uv ≡ (u % 2 == 0) = is_even-value uv ∙ ap (λ t. t % 2 == 0) hu.number in
    let total =
      add-IsSum uv modulus hu.words hm.words (omega (arith, hu.same_length, hm.same_length)) in
    let weights = weight-length (add uv modulus).0 uv total.same_length in
    rw (parity, hm.same_length)
      (elim (Bool-cases (u % 2 == 0)) [
        | inl e ↦ rw e (
            halve_sum-IsNumber u len uv 0
              (record { words = hu.words; same_length = hu.same_length; number = refl })
              (omega arith) (omega (arith, hu.number)) pos)
        | inr e ↦ rw e (
            halve_sum-IsNumber (u + m) len (add uv modulus).0 (add uv modulus).1
              (record {
                words = total.words;
                same_length = omega (arith, total.same_length, hu.same_length);
                number = refl;
              })
              total.carry_bit
              (omega (
                arith,
                total.sum,
                hu.number,
                hm.number,
                ap (λ (t : ℕ). (add uv modulus).1 * t) weights,
              ))
              pos)
      ])

-- A difference behind a sum, both cut to their words.
cut_difference :
    (c b d s w t v : ℕ)
    → c ≤ 1
    → b ≤ 1
    → s + c * w ≡ t
    → d + v ≡ s + b * w
    → d < w
    → v ≤ t
    → t - v < w
    → d ≡ t - v
cut_difference zero zero d s w t v hc hb e f hd le lt = omega arith
cut_difference zero (suc zero) d s w t v hc hb e f hd le lt = omega arith
cut_difference (suc zero) zero d s w t v hc hb e f hd le lt = omega arith
cut_difference (suc zero) (suc zero) d s w t v hc hb e f hd le lt = omega arith
cut_difference (suc (suc c)) b d s w t v hc hb e f hd le lt = absurd (omega arith)
cut_difference c (suc (suc b)) d s w t v hc hb e f hd le lt = absurd (omega arith)

pub sub-IsNumber :
    (c t v len : ℕ) (ws vs : List ℕ)
    → IsNumber (value ws) len ws
    → IsNumber v len vs
    → c ≤ 1
    → value ws + c * weight ws ≡ t
    → v ≤ t
    → t - v < weight ws
    → IsNumber (t - v) len (sub ws vs).0
sub-IsNumber c t v len ws vs h hv bit e le lt =
    let exact =
      sub-IsDifference ws vs h.words hv.words (omega (arith, h.same_length, hv.same_length)) in
    let weights = weight-length (sub ws vs).0 ws exact.same_length in
    let below = value-lt-weight (sub ws vs).0 exact.words in
    record {
      words = exact.words;
      same_length = omega (arith, exact.same_length, h.same_length);
      number =
          cut_difference c (sub ws vs).1 (value (sub ws vs).0) (value ws) (weight ws) t v bit
            exact.borrow_bit e (omega (arith, exact.difference, hv.number))
            (omega (arith, weights, below)) le lt;
    }

-- The words of u + m - v, or of u - v.
pub subtract_half-IsNumber :
    (u v m len : ℕ) (us vs modulus : List ℕ)
    → IsNumber u len us
    → IsNumber v len vs
    → IsNumber m len modulus
    → u < m
    → v < m
    → 1 ≤ len
    → IsNumber (half_mod (sub_mod u v m) m) len (subtract_half us vs modulus)
unfolding subtract_half
subtract_half-IsNumber u v m len us vs modulus hu hv hm ltu ltv pos =
    let compared =
      cmp_unsafe-value us vs hu.words hv.words (omega (arith, hu.same_length, hv.same_length)) in
    let total =
      add-IsSum us modulus hu.words hm.words (omega (arith, hu.same_length, hm.same_length)) in
    let weights = weight-length (add us modulus).0 us total.same_length in
    let weights' = weight-length modulus us (omega (arith, hu.same_length, hm.same_length)) in
    let small = value-lt-weight modulus hm.words in
    elim (Bool-cases (ltb u v)) [
      | inl e ↦
          let less : is_less (cmp_unsafe us vs) ≡ true =
            rw compared (ground (arith, hu.number, hv.number)) in
          let difference =
            sub-IsNumber (add us modulus).1 (u + m) v len (add us modulus).0 vs
              (record {
                words = total.words;
                same_length = omega (arith, total.same_length, hu.same_length);
                number = refl;
              })
              hv total.carry_bit
              (omega (
                arith,
                total.sum,
                hu.number,
                hm.number,
                ap (λ (t : ℕ). (add us modulus).1 * t) weights,
              ))
              (omega arith) (omega (arith, weights, weights', small, hm.number, ltb→lt u v e)) in
          rw (e, less)
            (mod_inv_update-IsNumber (u + m - v) m len (sub (add us modulus).0 vs).0 modulus
              difference hm pos)
      | inr e ↦
          let less : is_less (cmp_unsafe us vs) ≡ false =
            rw compared (ground (arith, hu.number, hv.number)) in
          let difference =
            sub-IsNumber 0 u v len us vs
              (record { words = hu.words; same_length = hu.same_length; number = refl }) hv
              (omega arith) (omega (arith, hu.number)) (ground arith)
              (omega (arith, weights', small, hm.number)) in
          rw (e, less)
            (mod_inv_update-IsNumber (u - v) m len (sub us vs).0 modulus difference hm pos)
    ]

-- ===== src/Uecc/Reduce.antt =====
-- The residue that uECC_vli_mmod of vendors/ocaml-uecc/src/uECC.c computes.
use native.Mathlib.Nat.{
  mul-le-mul_right, mul-lt-mul_of_pos_right, mod-lt, mod-eq_of_lt, add-mul-mod_self_left,
}
use tezos_master_lib_p2p.Prelude.{
  ℕ, zero, suc, ◌+◌, ◌-◌, ◌*◌, ◌/◌, ◌%◌, ◌^◌, ◌≤◌, ◌<◌, ◌≡◌, refl, sym, ap, ◌∙◌, List, inl, inr,
  length, length-take, take, ◌==◌, ltb, if◌then◌else◌, Bool-cases, ==_iff, word64_mod, arith,
}
use tezos_master_lib_p2p.Prelude.Powers.{two-pow-suc, two-pow-add, two-pow-pos, lt_of_two-pow-lt}
use tezos_master_lib_p2p.Uecc.Vli.{num_bits, sub}
use tezos_master_lib_p2p.Uecc.Mult.{mult}
use tezos_master_lib_p2p.Uecc.Product.{mult-value}
use tezos_master_lib_p2p.Uecc.Mmod.{align, halve, reduce_rounds, mmod, mod_mult}
use tezos_master_lib_p2p.Uecc.Value.{
  IsNumber, value, weight, IsWords, value-lt-weight, weight-length, weight-power, IsWords-take,
  value-take,
}
use tezos_master_lib_p2p.Uecc.Shift.{rshift1-value}
use tezos_master_lib_p2p.Uecc.Sum.{sub-IsDifference}
use tezos_master_lib_p2p.Uecc.NumBits.{IsBits, num_bits-IsBits}
use tezos_master_lib_p2p.Uecc.Align.{align-value, halve-rshift1}
use tezos_master_lib_p2p.Uecc.Product.{mult-value}

-- A multiple of the modulus taken away leaves the residue.
mod-sub_multiple : (v m k : ℕ) → m * k ≤ v → (v - m * k) % m ≡ v % m
mod-sub_multiple v m k h =
    sym (add-mul-mod_self_left (v - m * k) m k)
    ∙ ap (λ t. t % m) {x = v - m * k + m * k} {y = v} (omega arith)

-- The number after one round.
abbrev reduced : ℕ → ℕ → ℕ
reduced n multiple = if ltb n multiple then n else n - multiple

reduced_mod : (n m k : ℕ) → reduced n (m * 2 ^ k) % m ≡ n % m
reduced_mod n m k = elim (Bool-cases (ltb n (m * 2 ^ k))) [
  | inl e ↦ rw e refl
  | inr e ↦ rw e (mod-sub_multiple n m (2 ^ k) (ground arith))
]

-- One round: subtract the multiple if it fits.
round-IsNumber :
    (n len : ℕ) (v multiple : List ℕ)
    → IsNumber n len v
    → IsWords multiple
    → length multiple ≡ len
    → IsNumber
        (if ltb n (value multiple) then n else n - value multiple)
        len
        (if (sub v multiple).1 == 0 then (sub v multiple).0 else v)
round-IsNumber n len v multiple h hm same =
    let exact = sub-IsDifference v multiple h.words hm (omega (arith, h.same_length)) in
    let below = value-lt-weight (sub v multiple).0 exact.words in
    let weights = weight-length (sub v multiple).0 v exact.same_length in
    let small = value-lt-weight multiple hm in
    let weights' = weight-length multiple v (omega (arith, h.same_length)) in
    elim (Bool-cases ((sub v multiple).1 == 0)) [
      | inl e ↦
          let none = (==_iff (sub v multiple).1 0).0 e in
          let fits : value (sub v multiple).0 + value multiple ≡ value v =
            omega (arith, exact.difference, ap (λ (t : ℕ). t * weight v) none) in
          rw e (record {
            words = exact.words;
            same_length = omega (arith, exact.same_length, h.same_length);
            number = ground (arith, fits, h.number);
          })
      | inr e ↦
          let borrow : (sub v multiple).1 ≡ 1 = ground (arith, exact.borrow_bit) in
          let over : value v < value multiple =
            omega (arith, below, weights, exact.difference, ap (λ (t : ℕ). t * weight v) borrow) in
          rw e (record {
            words = h.words;
            same_length = h.same_length;
            number = ground (arith, over, h.number);
          })
    ]

halve-IsNumber :
    (n len num : ℕ) (ws : List ℕ)
    → IsNumber n len ws
    → 1 ≤ num
    → num ≤ len
    → IsNumber (n / 2) len (halve num ws)
halve-IsNumber n len num ws h pos le =
    let (words, same, half) = rshift1-value ws h.words in
    rw (halve-rshift1 num ws pos (omega (arith, h.same_length))) (record {
      words = words;
      same_length = omega (arith, same, h.same_length);
      number = omega (arith, half, h.number);
    })

reduce_rounds-IsNumber :
    (k m n len num : ℕ) (v multiple : List ℕ)
    → IsNumber n len v
    → IsNumber (m * 2 ^ k) len multiple
    → n < 2 * (m * 2 ^ k)
    → 1 ≤ num
    → num ≤ len
    → IsNumber (n % m) len (reduce_rounds (suc k) num v multiple)
unfolding reduce_rounds
reduce_rounds-IsNumber zero m n len num v multiple hv hm bound pos le =
    let round = round-IsNumber n len v multiple hv hm.words hm.same_length in
    let once : reduced n (value multiple) ≡ n % m =
      ap (λ t. reduced n t) hm.number
      ∙ sym (mod-eq_of_lt {n = reduced n (m * 2 ^ 0)} {m = m} (ground arith))
      ∙ reduced_mod n m 0 in
    rw (← once) round
reduce_rounds-IsNumber (suc k) m n len num v multiple hv hm bound pos le =
    let round = round-IsNumber n len v multiple hv hm.words hm.same_length in
    let power = ap (λ (t : ℕ). m * t) (two-pow-suc k) in
    let half : m * 2 ^ suc k / 2 ≡ m * 2 ^ k = omega (arith, power) in
    let rest =
      reduce_rounds-IsNumber k m (reduced n (value multiple)) len num
        (if (sub v multiple).1 == 0 then (sub v multiple).0 else v) (halve num multiple) round
        (rw (← half) (halve-IsNumber (m * 2 ^ suc k) len num multiple hm pos le))
        (ground (arith, hm.number, power)) pos le in
    let same : reduced n (value multiple) % m ≡ n % m =
      ap (λ t. reduced n t % m) hm.number ∙ reduced_mod n m (suc k) in
    rw (← same) rest

-- The shift that brings the highest bit of the modulus to the top of twice as many words.
record IsAligned (n bits m : ℕ) : Type 0 where
  words_below : 64 * (n - 1) < bits
  words_above : bits ≤ 64 * n
  room : m * 2 ^ (64 * n - bits) < 2 ^ (64 * n)
  top : 2 ^ (128 * n) ≤ 2 * (m * 2 ^ (128 * n - bits))

bits-IsAligned :
    (n bits m : ℕ) → IsBits bits m → m < 2 ^ (64 * n) → 2 ^ (64 * (n - 1)) ≤ m → IsAligned n bits m
bits-IsAligned n bits m h small big =
    let positive = two-pow-pos (64 * (n - 1)) in
    let lower = h.lower (omega arith) in
    let below = lt_of_two-pow-lt (64 * (n - 1)) bits (omega (arith, h.upper)) in
    let above : bits < suc (64 * n) =
      lt_of_two-pow-lt bits (suc (64 * n)) (omega (arith, two-pow-suc (64 * n))) in
    let whole : 2 ^ (64 * n) ≡ 2 ^ bits * 2 ^ (64 * n - bits) =
      ap (λ (t : ℕ). 2 ^ t) {x = 64 * n} {y = bits + (64 * n - bits)} (omega arith)
      ∙ two-pow-add bits (64 * n - bits) in
    let whole' : 2 ^ (128 * n) ≡ 2 ^ bits * 2 ^ (128 * n - bits) =
      ap (λ (t : ℕ). 2 ^ t) {x = 128 * n} {y = bits + (128 * n - bits)} (omega arith)
      ∙ two-pow-add bits (128 * n - bits) in
    record {
      words_below = below;
      words_above = omega arith;
      room = omega (arith, whole, mul-lt-mul_of_pos_right h.upper (two-pow-pos (64 * n - bits)));
      top = omega (arith, whole', mul-le-mul_right (2 ^ (128 * n - bits)) lower);
    }

-- The lower words hold a residue.
take-IsNumber :
    (n m : ℕ) (ws : List ℕ) → IsNumber n (2 * m) ws → n < 2 ^ (64 * m) → IsNumber n m (take m ws)
take-IsNumber n m ws h small = record {
  words = IsWords-take m ws h.words;
  same_length = omega (arith, length-take m ws, h.same_length);
  number = omega (
    arith,
    value-take m ws (omega (arith, h.same_length)) h.words (omega (arith, h.number)),
    h.number,
  );
}

-- Of a product of twice as many words as the modulus, whose highest word is not zero, `mmod` gives
-- the residue modulo the modulus, in as many words.
pub mmod-IsNumber :
    (product modulus : List ℕ)
    → IsWords product
    → IsWords modulus
    → length product ≡ 2 * length modulus
    → 1 ≤ length modulus
    → 2 ^ (64 * (length modulus - 1)) ≤ value modulus
    → IsNumber (value product % value modulus) (length modulus) (mmod product modulus)
unfolding mmod
mmod-IsNumber product modulus hp hm same pos top =
    let n = length modulus in
    let bits = num_bits modulus n in
    let shift = n * 2 * 64 - bits in
    let small : value modulus < 2 ^ (64 * n) =
      omega (arith, value-lt-weight modulus hm, weight-power modulus) in
    let h = bits-IsAligned n bits (value modulus) (num_bits-IsBits modulus hm) small top in
    let shift_words : shift / 64 ≡ n = omega (arith, h.words_below, h.words_above) in
    let shift_bits : shift % 64 ≡ 64 * n - bits = omega (arith, h.words_below, h.words_above) in
    let room : value modulus * 2 ^ (shift % 64) < weight modulus =
      omega
        (arith, h.room, weight-power modulus, ap (λ (t : ℕ). value modulus * 2 ^ t) shift_bits) in
    let (words, len, number) = align-value shift modulus hm room in
    let shifts : shift ≡ 128 * n - bits = omega arith in
    let bound : value product < 2 * (value modulus * 2 ^ shift) = omega (
      arith,
      value-lt-weight product hp,
      weight-power product,
      ap (λ (t : ℕ). 2 ^ (64 * t)) same,
      ap (λ (t : ℕ). 2 ^ t) {x = 64 * (2 * n)} {y = 128 * n} (omega arith),
      h.top,
      ap (λ (t : ℕ). value modulus * 2 ^ t) shifts,
    ) in
    let residue =
      reduce_rounds-IsNumber shift (value modulus) (value product) (2 * n) n product
        (align shift modulus) (record { words = hp; same_length = same; number = refl })
        (record { words = words; same_length = omega (arith, len, shift_words); number = number })
        bound pos (omega arith) in
    take-IsNumber (value product % value modulus) n
      (reduce_rounds (suc shift) n product (align shift modulus)) residue
      (omega (
        arith,
        small,
        mod-lt (value product) {m = value modulus} (omega (arith, top, two-pow-pos (64 * (n - 1)))),
      ))

-- Of two arrays of as many words as the modulus, whose highest word is not zero, `mod_mult` gives
-- the residue of the product.
pub mod_mult-IsNumber :
    (left right modulus : List ℕ)
    → IsWords left
    → IsWords right
    → IsWords modulus
    → length left ≡ length modulus
    → length right ≡ length modulus
    → 1 ≤ length modulus
    → length modulus < word64_mod
    → 2 ^ (64 * (length modulus - 1)) ≤ value modulus
    → IsNumber
        (value left * value right % value modulus)
        (length modulus)
        (mod_mult left right modulus)
unfolding mod_mult
mod_mult-IsNumber left right modulus hl hr hm nl nr pos small top =
    let (words, same, number) =
      mult-value left right hl hr (omega arith) (omega arith) (omega arith) in
    let residue = mmod-IsNumber (mult left right) modulus words hm (omega (arith, same)) pos top in
    rw (← number) residue

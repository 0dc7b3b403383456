-- ===== src/Uecc/RoundTrip.antt =====
-- uECC_vli_nativeToBytes of uECC.c after uECC_vli_bytesToNative.
use native.Mathlib.Nat.{div-div-eq-div-mul, zero-div, div-eq_of_lt}
use tezos_master_lib_p2p.Prelude.{
  ℕ, zero, suc, ◌+◌, ◌-◌, ◌*◌, ◌/◌, ◌%◌, ◌^◌, ◌<◌, ◌≡◌, refl, sym, ap, ap₂, ◌∙◌, List, [], ◌∷◌,
  length, get_or, u8, ◌>>>◌, word64_mod, arith,
}
use tezos_master_lib_p2p.Prelude.Powers.{two-pow-add, two-pow-pos}
use tezos_master_lib_p2p.Uecc.Value.{value, IsWords}
use tezos_master_lib_p2p.Uecc.Keys.{native_to_bytes, bytes_to_native}
use tezos_master_lib_p2p.Uecc.Bytes.{IsBytes, big_endian, bytes_to_native-IsNumber}

-- Two quotients and remainders of one number are the same.
digits-eq : (p a b x y : ℕ) → x < p → y < p → a * p + x ≡ b * p + y → (a ≡ b) × (x ≡ y)
digits-eq p zero zero x y hx hy e = (refl, omega (arith, e))
digits-eq p zero (suc b) x y hx hy e = absurd (omega (arith, e, hx))
digits-eq p (suc a) zero x y hx hy e = absurd (omega (arith, e, hy))
digits-eq p (suc a) (suc b) x y hx hy e =
    let (same, rest) = digits-eq p a b x y hx hy (omega (arith, e)) in (omega (arith, same), rest)

eight_more : (n : ℕ) → 2 ^ (8 * suc n) ≡ 256 * 2 ^ (8 * n)
eight_more n =
    ap (λ (t : ℕ). 2 ^ t) {x = 8 * suc n} {y = 8 + 8 * n} (omega arith) ∙ two-pow-add 8 (8 * n)

byte-below : (b x p : ℕ) → b < 256 → x < p → b * p + x < 256 * p
byte-below b x p hb hx =
    let whole : (b + (255 - b)) * p ≡ 255 * p =
      ap (λ (t : ℕ). t * p) {x = b + (255 - b)} {y = 255} (omega (arith, hb)) in
    omega (arith, whole, hx)

big_endian-bound : (bs : List ℕ) → IsBytes bs → big_endian bs < 2 ^ (8 * length bs)
big_endian-bound [] h = two-pow-pos 0
big_endian-bound (b ∷ bs) h =
    let all = byte-below b (big_endian bs) (2 ^ (8 * length bs)) h.0 (big_endian-bound bs h.1) in
    omega (arith, all, eight_more (length bs))

-- Byte strings of one length with one number are the same.
big_endian-injective :
    (cs bs : List ℕ)
    → IsBytes cs
    → IsBytes bs
    → length cs ≡ length bs
    → big_endian cs ≡ big_endian bs
    → cs ≡ bs
big_endian-injective [] [] ha hb n e = refl
big_endian-injective [] (b ∷ bs) ha hb n e = absurd (omega (arith, n))
big_endian-injective (a ∷ cs) [] ha hb n e = absurd (omega (arith, n))
big_endian-injective (a ∷ cs) (b ∷ bs) ha hb n e =
    let same : length cs ≡ length bs = omega (arith, n) in
    let power : 2 ^ (8 * length cs) ≡ 2 ^ (8 * length bs) = ap (λ (t : ℕ). 2 ^ (8 * t)) same in
    let below = big_endian-bound cs ha.1 in
    let below' = big_endian-bound bs hb.1 in
    let (first, rest) =
      digits-eq (2 ^ (8 * length bs)) a b (big_endian cs) (big_endian bs)
        (omega (arith, below, power)) below' (omega (arith, e, ap (λ (t : ℕ). a * t) power)) in
    ap₂ (λ (x : ℕ) (xs : List ℕ). x ∷ xs) first (big_endian-injective cs bs ha.1 hb.1 same rest)

-- What stands above the words below i.
digit-word :
    (ws : List ℕ) (i : ℕ)
    → IsWords ws
    → (t : ℕ) × (value ws / 2 ^ (64 * i) ≡ get_or ws i 0 + word64_mod * t)
digit-word [] i h = (0, zero-div (2 ^ (64 * i)))
digit-word (w ∷ ws) zero h = (value ws, omega arith)
digit-word (w ∷ ws) (suc i) h =
    let (t, e) = digit-word ws i h.1 in
    (
      t,
      ap (λ (p : ℕ). (w + word64_mod * value ws) / p)
            (ap (λ (k : ℕ). 2 ^ k) {x = 64 * suc i} {y = 64 + 64 * i} (omega arith)
              ∙ two-pow-add 64 (64 * i))
          ∙ sym (div-div-eq-div-mul (w + word64_mod * value ws) word64_mod (2 ^ (64 * i)))
          ∙ ap (λ (v : ℕ). v / 2 ^ (64 * i)) {x = (w + word64_mod * value ws) / word64_mod}
              {y = value ws} (omega (arith, h.0))
          ∙ e,
    )

-- The byte that the loop takes is a digit of the number.
low-byte :
    (w t q r : ℕ) → r < 8 → q ≡ (w + word64_mod * t) / 2 ^ (8 * r) → w / 2 ^ (8 * r) % 256 ≡ q % 256
low-byte w t q zero h e = omega (arith, e)
low-byte w t q (suc zero) h e = omega (arith, e)
low-byte w t q (suc (suc zero)) h e = omega (arith, e)
low-byte w t q (suc (suc (suc zero))) h e = omega (arith, e)
low-byte w t q (suc (suc (suc (suc zero)))) h e = omega (arith, e)
low-byte w t q (suc (suc (suc (suc (suc zero))))) h e = omega (arith, e)
low-byte w t q (suc (suc (suc (suc (suc (suc zero)))))) h e = omega (arith, e)
low-byte w t q (suc (suc (suc (suc (suc (suc (suc zero))))))) h e = omega (arith, e)
low-byte w t q (suc (suc (suc (suc (suc (suc (suc (suc r)))))))) h e = absurd (omega (arith, h))

byte-digit :
    (ws : List ℕ) (n : ℕ)
    → IsWords ws
    → u8 (get_or ws (n / 8) 0 >>> (8 * (n % 8))) ≡ value ws / 2 ^ (8 * n) % 256
byte-digit ws n h =
    let (t, e) = digit-word ws (n / 8) h in
    low-byte (get_or ws (n / 8) 0) t (value ws / 2 ^ (8 * n)) (n % 8) (omega arith) (
      ap (λ (p : ℕ). value ws / p)
        (ap (λ (k : ℕ). 2 ^ k) {x = 8 * n} {y = 64 * (n / 8) + 8 * (n % 8)} (omega arith)
          ∙ two-pow-add (64 * (n / 8)) (8 * (n % 8)))
      ∙ sym (div-div-eq-div-mul (value ws) (2 ^ (64 * (n / 8))) (2 ^ (8 * (n % 8))))
      ∙ ap (λ (v : ℕ). v / 2 ^ (8 * (n % 8))) e)

regroup : (q p x : ℕ) → q * p + x ≡ q / 256 * (256 * p) + (q % 256 * p + x)
regroup q p x =
    let parts : (256 * (q / 256) + q % 256) * p ≡ q * p =
      ap (λ (t : ℕ). t * p) {x = 256 * (q / 256) + q % 256} {y = q} (omega arith) in
    omega (arith, parts)

-- What native_to_bytes writes of a number.
record IsWritten (ws : List ℕ) (n : ℕ) (bs : List ℕ) : Type 0 where
  pub bytes : IsBytes bs
  pub same_length : length bs ≡ n
  pub number : value ws ≡ value ws / 2 ^ (8 * n) * 2 ^ (8 * n) + big_endian bs

native_to_bytes-IsWritten :
    (ws : List ℕ) (n : ℕ) → IsWords ws → IsWritten ws n (native_to_bytes n ws)
unfolding native_to_bytes
native_to_bytes-IsWritten ws zero h = record {
  bytes = tt;
  same_length = refl;
  number = omega arith;
}
native_to_bytes-IsWritten ws (suc n) h =
    let rest = native_to_bytes-IsWritten ws n h in
    let q = value ws / 2 ^ (8 * n) in
    let quotient : value ws / 2 ^ (8 * suc n) ≡ q / 256 =
      ap (λ (p : ℕ). value ws / p) (eight_more n ∙ omega arith)
      ∙ sym (div-div-eq-div-mul (value ws) (2 ^ (8 * n)) 256) in
    record {
      bytes = (omega arith, rest.bytes);
      same_length = omega (arith, rest.same_length);
      number =
          rest.number
          ∙ regroup q (2 ^ (8 * n)) (big_endian (native_to_bytes n ws))
          ∙ ap₂ (λ (a b : ℕ). a + (b + big_endian (native_to_bytes n ws)))
              (ap₂ (λ (a b : ℕ). a * b) (sym quotient) (sym (eight_more n)))
              (ap₂ (λ (a b : ℕ). a * b) (sym (byte-digit ws n h))
                (ap (λ (k : ℕ). 2 ^ (8 * k)) (sym rest.same_length)));
    }

no-quotient : (v p x : ℕ) → v < p → v ≡ v / p * p + x → v ≡ x
no-quotient v p x h e = e ∙ ap (λ (t : ℕ). t * p + x) (div-eq_of_lt h) ∙ omega arith

-- bytes_to_native, and then native_to_bytes for as many bytes, give back any byte string.
pub native_to_bytes-bytes_to_native :
    (bytes : List ℕ)
    → IsBytes bytes
    → native_to_bytes (length bytes) (bytes_to_native bytes) ≡ bytes
native_to_bytes-bytes_to_native bytes h =
    let read = bytes_to_native-IsNumber bytes h in
    let written = native_to_bytes-IsWritten (bytes_to_native bytes) (length bytes) read.words in
    let below : value (bytes_to_native bytes) < 2 ^ (8 * length bytes) =
      omega (arith, read.number, big_endian-bound bytes h) in
    let same =
      no-quotient (value (bytes_to_native bytes)) (2 ^ (8 * length bytes))
        (big_endian (native_to_bytes (length bytes) (bytes_to_native bytes))) below
        written.number in
    big_endian-injective (native_to_bytes (length bytes) (bytes_to_native bytes)) bytes
      written.bytes h written.same_length (sym same ∙ read.number)

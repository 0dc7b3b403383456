-- ===== src/Uecc/Bytes.antt =====
-- uECC_vli_bytesToNative of uECC.c against the number of the bytes.
use tezos_master_lib_p2p.Prelude.{
  ℕ, zero, suc, ◌+◌, ◌*◌, ◌/◌, ◌%◌, ◌^◌, ◌≤◌, ◌<◌, ◌≡◌, refl, sym, ap, ◌∙◌, List, [], ◌∷◌, length,
  get_or, set, replicate, length-set, length-replicate, u64, byte_mod, word64_mod, bit_or, ◌<<◌,
  arith,
}
use tezos_master_lib_p2p.Prelude.Bits.{bit_or-high_low}
use tezos_master_lib_p2p.Prelude.Powers.{two-pow-add}
use tezos_master_lib_p2p.Uecc.Value.{
  set-IsWords, get_or-IsWords, value, IsWords, IsNumber, clear-IsWords, value-clear,
}
use tezos_master_lib_p2p.Uecc.Vli.{clear}
use tezos_master_lib_p2p.Uecc.Keys.{bytes_into, bytes_to_native}

abbrev pub IsBytes : List ℕ → Type 0
IsBytes [] = Unit {0}
IsBytes (b ∷ bs) = (b < byte_mod) × IsBytes bs

-- The number of a byte string, the highest byte first.
abbrev pub big_endian : List ℕ → ℕ
big_endian [] = 0
big_endian (b ∷ bs) = b * 2 ^ (8 * length bs) + big_endian bs

-- A word changed within an array.
value-set :
    (ws : List ℕ) (i v : ℕ)
    → i < length ws
    → value (set ws i v) + get_or ws i 0 * 2 ^ (64 * i) ≡ value ws + v * 2 ^ (64 * i)
value-set [] i v h = absurd (omega arith)
value-set (w ∷ ws) zero v h = omega arith
value-set (w ∷ ws) (suc i) v h =
    let power : 2 ^ (64 * suc i) ≡ word64_mod * 2 ^ (64 * i) =
      ap (λ (t : ℕ). 2 ^ t) {x = 64 * suc i} {y = 64 + 64 * i} (omega arith)
      ∙ two-pow-add 64 (64 * i) in
    let rest = value-set ws i v (omega arith) in
    omega (arith, rest, ap (λ (t : ℕ). get_or ws i 0 * t) power, ap (λ (t : ℕ). v * t) power)

-- A number that is a multiple of 2 ^ (8 * (r + 1)) above a word makes the word a multiple.
low-multiple :
    (w v k r : ℕ)
    → w < word64_mod
    → r < 8
    → w + word64_mod * v ≡ k * 2 ^ (8 * suc r)
    → (m : ℕ) × (w ≡ m * 2 ^ (8 * suc r))
low-multiple w v k zero small r8 e = (w / 2 ^ 8, omega (arith, e))
low-multiple w v k (suc zero) small r8 e = (w / 2 ^ 16, omega (arith, e))
low-multiple w v k (suc (suc zero)) small r8 e = (w / 2 ^ 24, omega (arith, e))
low-multiple w v k (suc (suc (suc zero))) small r8 e = (w / 2 ^ 32, omega (arith, e))
low-multiple w v k (suc (suc (suc (suc zero)))) small r8 e = (w / 2 ^ 40, omega (arith, e))
low-multiple w v k (suc (suc (suc (suc (suc zero))))) small r8 e = (w / 2 ^ 48, omega (arith, e))
low-multiple w v k (suc (suc (suc (suc (suc (suc zero)))))) small r8 e =
    (w / 2 ^ 56, omega (arith, e))
low-multiple w v k (suc (suc (suc (suc (suc (suc (suc zero))))))) small r8 e =
    (w / 2 ^ 64, omega (arith, e))
low-multiple w v k (suc (suc (suc (suc (suc (suc (suc (suc r)))))))) small r8 e =
    absurd (omega arith)

-- A multiple of 2 ^ (64 * i + 8 * (r + 1)) has a word at i that is a multiple of 2 ^ (8 * (r + 1)).
word-multiple :
    (ws : List ℕ) (i r k : ℕ)
    → IsWords ws
    → i < length ws
    → r < 8
    → value ws ≡ k * 2 ^ (64 * i + 8 * suc r)
    → (m : ℕ) × (get_or ws i 0 ≡ m * 2 ^ (8 * suc r))
word-multiple [] i r k h small r8 e = absurd (omega arith)
word-multiple (w ∷ ws) zero r k h small r8 e =
    low-multiple w (value ws) k r h.0 r8
      (e ∙ ap (λ (t : ℕ). k * 2 ^ t) {x = 64 * 0 + 8 * suc r} {y = 8 * suc r} (omega arith))
word-multiple (w ∷ ws) (suc i) r k h small r8 e =
    let power : 2 ^ (64 * suc i + 8 * suc r) ≡ word64_mod * 2 ^ (64 * i + 8 * suc r) =
      ap (λ (t : ℕ). 2 ^ t) {x = 64 * suc i + 8 * suc r} {y = 64 + (64 * i + 8 * suc r)}
        (omega arith)
      ∙ two-pow-add 64 (64 * i + 8 * suc r) in
    word-multiple ws i r k h.1 (omega arith) r8 (omega (arith, e, h.0, ap (λ (t : ℕ). k * t) power))

-- A byte put below what a word holds.
byte-step :
    (w m byte r : ℕ)
    → w < word64_mod
    → r < 8
    → byte < byte_mod
    → w ≡ m * 2 ^ (8 * suc r)
    → (bit_or w (u64 (byte << (8 * r))) ≡ w + byte * 2 ^ (8 * r))
      × (w + byte * 2 ^ (8 * r) < word64_mod)
byte-step w m byte zero small r8 hb e =
    (rw e (ground (arith, bit_or-high_low 8 m (byte * 2 ^ 0) (omega arith))), omega (arith, e))
byte-step w m byte (suc zero) small r8 hb e =
    (rw e (ground (arith, bit_or-high_low 16 m (byte * 2 ^ 8) (omega arith))), omega (arith, e))
byte-step w m byte (suc (suc zero)) small r8 hb e =
    (rw e (ground (arith, bit_or-high_low 24 m (byte * 2 ^ 16) (omega arith))), omega (arith, e))
byte-step w m byte (suc (suc (suc zero))) small r8 hb e =
    (rw e (ground (arith, bit_or-high_low 32 m (byte * 2 ^ 24) (omega arith))), omega (arith, e))
byte-step w m byte (suc (suc (suc (suc zero)))) small r8 hb e =
    (rw e (ground (arith, bit_or-high_low 40 m (byte * 2 ^ 32) (omega arith))), omega (arith, e))
byte-step w m byte (suc (suc (suc (suc (suc zero))))) small r8 hb e =
    (rw e (ground (arith, bit_or-high_low 48 m (byte * 2 ^ 40) (omega arith))), omega (arith, e))
byte-step w m byte (suc (suc (suc (suc (suc (suc zero)))))) small r8 hb e =
    (rw e (ground (arith, bit_or-high_low 56 m (byte * 2 ^ 48) (omega arith))), omega (arith, e))
byte-step w m byte (suc (suc (suc (suc (suc (suc (suc zero))))))) small r8 hb e =
    (rw e (ground (arith, bit_or-high_low 64 m (byte * 2 ^ 56) (omega arith))), omega (arith, e))
byte-step w m byte (suc (suc (suc (suc (suc (suc (suc (suc r)))))))) small r8 hb e =
    absurd (omega arith)

-- One round of the loop, with b bytes to follow.
abbrev put : List ℕ → ℕ → ℕ → List ℕ
put native byte b =
    set native (b / 8) (bit_or (get_or native (b / 8) 0) (u64 (byte << (8 * (b % 8)))))

put-IsNumber :
    (native : List ℕ) (byte b k : ℕ)
    → IsWords native
    → byte < byte_mod
    → b < 8 * length native
    → value native ≡ k * 2 ^ (8 * suc b)
    → IsNumber ((256 * k + byte) * 2 ^ (8 * b)) (length native) (put native byte b)
put-IsNumber native byte b k h hb room e =
    let q = b / 8 in
    let r = b % 8 in
    let place : 64 * q + 8 * suc r ≡ 8 * suc b = omega arith in
    let (m, multiple) =
      word-multiple native q r k h (omega arith) (omega arith)
        (e ∙ ap (λ (t : ℕ). k * 2 ^ t) (sym place)) in
    let word = get_or native q 0 in
    let (sum, small) =
      byte-step word m byte r (get_or-IsWords native q h) (omega arith) hb multiple in
    let low : 2 ^ (8 * b) ≡ 2 ^ (8 * r) * 2 ^ (64 * q) =
      ap (λ (t : ℕ). 2 ^ t) {x = 8 * b} {y = 8 * r + 64 * q} (omega arith)
      ∙ two-pow-add (8 * r) (64 * q) in
    let high : 2 ^ (8 * suc b) ≡ 256 * 2 ^ (8 * b) =
      ap (λ (t : ℕ). 2 ^ t) {x = 8 * suc b} {y = 8 + 8 * b} (omega arith) ∙ two-pow-add 8 (8 * b) in
    let changed = value-set native q (word + byte * 2 ^ (8 * r)) (omega arith) in
    rw sum (record {
      words = set-IsWords native q (word + byte * 2 ^ (8 * r)) h small;
      same_length = length-set native q (word + byte * 2 ^ (8 * r));
      number = omega (arith, changed, e, ap (λ (t : ℕ). k * t) high, ap (λ (t : ℕ). byte * t) low);
    })

bytes_into-IsNumber :
    (native bytes : List ℕ) (k : ℕ)
    → IsWords native
    → IsBytes bytes
    → length bytes ≤ 8 * length native
    → value native ≡ k * 2 ^ (8 * length bytes)
    → IsNumber (value native + big_endian bytes) (length native) (bytes_into native bytes)
unfolding bytes_into
bytes_into-IsNumber native [] k h hb room e = record {
  words = h;
  same_length = refl;
  number = omega arith;
}
bytes_into-IsNumber native (byte ∷ bytes) k h hb room e =
    let b = length bytes in
    let next = put-IsNumber native byte b k h hb.0 (omega arith) e in
    let high : 2 ^ (8 * suc b) ≡ 256 * 2 ^ (8 * b) =
      ap (λ (t : ℕ). 2 ^ t) {x = 8 * suc b} {y = 8 + 8 * b} (omega arith) ∙ two-pow-add 8 (8 * b) in
    let all =
      bytes_into-IsNumber (put native byte b) bytes (256 * k + byte) next.words hb.1
        (omega (arith, next.same_length)) next.number in
    record {
      words = all.words;
      same_length = omega (arith, all.same_length, next.same_length);
      number = omega (arith, all.number, next.number, e, ap (λ (t : ℕ). k * t) high);
    }

-- Of a byte string, `bytes_to_native` gives words that hold its number, the highest byte first.
pub bytes_to_native-IsNumber :
    (bytes : List ℕ)
    → IsBytes bytes
    → IsNumber (big_endian bytes) ((length bytes + 7) / 8) (bytes_to_native bytes)
unfolding bytes_to_native clear
bytes_to_native-IsNumber bytes h =
    let n = (length bytes + 7) / 8 in
    let size = length-replicate {A = ℕ} n 0 in
    let all =
      bytes_into-IsNumber (replicate n 0) bytes 0 (clear-IsWords n) h (omega (arith, size))
        (value-clear n ∙ omega arith) in
    record {
      words = all.words;
      same_length = all.same_length ∙ size;
      number = omega (arith, all.number, value-clear n);
    }

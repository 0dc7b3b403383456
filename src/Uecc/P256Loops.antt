-- ===== src/Uecc/P256Loops.antt =====
-- The last loops of vli_mmod_fast_secp256r1 of curve-specific.h.
use tezos_master_lib_p2p.Prelude.{
  ℕ, zero, suc, ◌+◌, ◌-◌, ◌*◌, ◌%◌, ◌≤◌, ◌<◌, ◌≡◌, refl, ap, ◌∙◌, List, Option, some, true, false,
  inl, inr, length, if◌then◌else◌, ltb, leb, not, ◌||◌, subst, ltb→lt, leb→le, Bool, Bool-cases,
  arith,
}
use tezos_master_lib_p2p.Prelude.Int.{pos}
use tezos_master_lib_p2p.Uecc.Vli.{cmp_unsafe, is_one}
use tezos_master_lib_p2p.Uecc.Mmod.{is_less}
use tezos_master_lib_p2p.Uecc.P256.{
  p256, Sum, add_term, sub_term, raise_loop, lower_loop, is_nonzero,
}
use tezos_master_lib_p2p.Uecc.Value.{IsNumber, value, IsWords}
use tezos_master_lib_p2p.Uecc.Compare.{cmp_unsafe-value}
use tezos_master_lib_p2p.Uecc.P256Sum.{
  four, IsTotal, add_term-IsTotal, sub_term-IsTotal, p256-IsNumber, carry-cases, carry-positive,
}

keep_going :
    (k v : ℕ) (r : List ℕ)
    → IsWords r
    → length r ≡ 4
    → value r ≡ v
    → (is_nonzero (pos k) || not (is_one (cmp_unsafe p256 r))) ≡ leb (value p256) (v + four * k)
keep_going k v r h same e =
    rw (cmp_unsafe-value p256 r p256-IsNumber.words h (omega (arith, same)), e) (ground arith)

-- What a loop gives: a number below the prime, congruent to the total.
abbrev pub Reduces : ℕ → Option (List ℕ) → Type 0
Reduces z o = (r : List ℕ) × (o ≡ some r) × IsNumber (z % value p256) 4 r

-- The test of the second loop.
abbrev goes_on : Sum → Bool
goes_on s = is_nonzero s.carry || not (is_one (cmp_unsafe p256 s.result))

goes_on-total : (z : ℕ) (s : Sum) → IsTotal z 0 s → goes_on s ≡ leb (value p256) z
goes_on-total z s h =
    let (k, carry, total) = carry-positive z s.result s.carry h in
    ap (λ t. is_nonzero t || not (is_one (cmp_unsafe p256 s.result))) carry
    ∙ keep_going k (value s.result) s.result h.words h.same_length refl
    ∙ ap (λ t. leb (value p256) t) total

lower_loop-done : (fuel : ℕ) (s : Sum) → goes_on s ≡ false → lower_loop (suc fuel) s ≡ some s.result
unfolding lower_loop
lower_loop-done fuel s e = ground arith

lower_loop-again :
    (fuel : ℕ) (s : Sum)
    → goes_on s ≡ true
    → lower_loop (suc fuel) s ≡ lower_loop fuel (sub_term p256 s)
unfolding lower_loop
lower_loop-again fuel s e = ground arith

below-IsNumber :
    (z : ℕ) (s : Sum) → IsTotal z 0 s → z < value p256 → IsNumber (z % value p256) 4 s.result
below-IsNumber z s h small =
    let (k, carry, total) = carry-positive z s.result s.carry h in
    record { words = h.words; same_length = h.same_length; number = omega (arith, total) }

lower_loop-Reduces :
    (fuel z : ℕ) (s : Sum)
    → IsTotal z 0 s
    → z < suc fuel * value p256
    → Reduces z (lower_loop (suc fuel) s)
lower_loop-Reduces zero z s h bound =
    let small : z < value p256 = omega arith in
    rw (lower_loop-done 0 s (goes_on-total z s h ∙ ground arith))
      (s.result, refl, below-IsNumber z s h small)
lower_loop-Reduces (suc fuel) z s h bound = elim (Bool-cases (leb (value p256) z)) [
  | inl e ↦
      let taken = sub_term-IsTotal z 0 (value p256) p256 s h p256-IsNumber in
      let rest : IsTotal (z - value p256) 0 (sub_term p256 s) = record {
        words = taken.words;
        same_length = taken.same_length;
        total = omega (arith, taken.total, leb→le (value p256) z e);
      } in
      let (r, ends, number) =
        lower_loop-Reduces fuel (z - value p256) (sub_term p256 s) rest (omega arith) in
      let same : (z - value p256) % value p256 ≡ z % value p256 =
        omega (arith, leb→le (value p256) z e) in
      rw (lower_loop-again (suc fuel) s (goes_on-total z s h ∙ e), ends)
        (r, refl, rw (← same) number)
  | inr e ↦
      rw (lower_loop-done (suc fuel) s (goes_on-total z s h ∙ e))
        (s.result, refl, below-IsNumber z s h (ground arith))
]

raise_loop-done :
    (fuel : ℕ) (s : Sum)
    → is_less (add_term p256 s).carry ≡ false
    → raise_loop (suc fuel) s ≡ some (add_term p256 s).result
unfolding raise_loop
raise_loop-done fuel s e = ground arith

raise_loop-again :
    (fuel : ℕ) (s : Sum)
    → is_less (add_term p256 s).carry ≡ true
    → raise_loop (suc fuel) s ≡ raise_loop fuel (add_term p256 s)
unfolding raise_loop
raise_loop-again fuel s e = ground arith

raise_loop-paid :
    (fuel debt z : ℕ) (s : Sum)
    → IsTotal (0 + value p256) debt (add_term p256 s)
    → 0 < debt
    → debt ≤ value p256
    → (z + debt) % value p256 ≡ 0
    → Reduces z (raise_loop (suc fuel) s)
raise_loop-paid fuel debt z s raised owed le cong =
    let s' = add_term p256 s in
    let less : is_less s'.carry ≡ false =
      carry-cases (0 + value p256) debt s'.result s'.carry raised ∙ ground arith in
    let rest : IsTotal (value p256 - debt) 0 s' = record {
      words = raised.words;
      same_length = raised.same_length;
      total = omega (arith, raised.total);
    } in
    let same : (value p256 - debt) % value p256 ≡ z % value p256 = omega arith in
    rw (raise_loop-done fuel s less)
      (s'.result, refl, rw (← same) (below-IsNumber (value p256 - debt) s' rest (omega arith)))

-- With a debt, the prime is added until it is paid.
raise_loop-Reduces :
    (fuel debt z : ℕ) (s : Sum)
    → IsTotal 0 debt s
    → 0 < debt
    → debt ≤ suc fuel * value p256
    → (z + debt) % value p256 ≡ 0
    → Reduces z (raise_loop (suc fuel) s)
raise_loop-Reduces zero debt z s h owed bound cong =
    let raised = add_term-IsTotal 0 debt (value p256) p256 s h p256-IsNumber in
    raise_loop-paid 0 debt z s raised owed (omega arith) cong
raise_loop-Reduces (suc fuel) debt z s h owed bound cong =
    let raised = add_term-IsTotal 0 debt (value p256) p256 s h p256-IsNumber in
    let s' = add_term p256 s in
    elim (Bool-cases (ltb (value p256) debt)) [
      | inl e ↦
          let less : is_less s'.carry ≡ true =
            carry-cases (0 + value p256) debt s'.result s'.carry raised ∙ e in
          let rest : IsTotal 0 (debt - value p256) s' = record {
            words = raised.words;
            same_length = raised.same_length;
            total = omega (arith, raised.total, ltb→lt (value p256) debt e);
          } in
          rw (raise_loop-again (suc fuel) s less) (
            raise_loop-Reduces fuel (debt - value p256) z s' rest
              (omega (arith, ltb→lt (value p256) debt e)) (omega arith)
              (omega (arith, ltb→lt (value p256) debt e)))
      | inr e ↦ raise_loop-paid (suc fuel) debt z s raised owed (ground arith) cong
    ]

Reduces-mod :
    (z z' : ℕ) (o : Option (List ℕ)) → z % value p256 ≡ z' % value p256 → Reduces z o → Reduces z' o
Reduces-mod z z' o same (r, ends, number) = (r, ends, subst (λ (t : ℕ). IsNumber t 4 r) same number)

-- The last loops, on a total that is congruent to the product.
pub settle :
    (added taken quotient product : ℕ) (s : Sum)
    → IsTotal added taken s
    → added + quotient * value p256 ≡ product + taken
    → added < 8 * four
    → taken < 4 * four
    → Reduces product (if is_less s.carry then raise_loop 10 s else lower_loop 10 s)
settle added taken quotient product s h congruent small small' =
    let less : is_less s.carry ≡ ltb added taken = carry-cases added taken s.result s.carry h in
    elim (Bool-cases (ltb added taken)) [
      | inl e ↦
          let lt = ltb→lt added taken e in
          let debt : IsTotal 0 (taken - added) s = record {
            words = h.words;
            same_length = h.same_length;
            total = omega (arith, h.total, lt);
          } in
          let pick : (if is_less s.carry then raise_loop 10 s else lower_loop 10 s)
              ≡ raise_loop 10 s =
            rw (less, e) refl in
          rw pick (
            raise_loop-Reduces 9 (taken - added) product s debt (omega (arith, lt)) (omega arith)
              (omega (arith, lt)))
      | inr e ↦
          let le : taken ≤ added = ground arith in
          let rest : IsTotal (added - taken) 0 s = record {
            words = h.words;
            same_length = h.same_length;
            total = omega (arith, h.total, le);
          } in
          let pick : (if is_less s.carry then raise_loop 10 s else lower_loop 10 s)
              ≡ lower_loop 10 s =
            rw (less, e) refl in
          let same : (added - taken) % value p256 ≡ product % value p256 = omega (arith, le) in
          rw pick (
            Reduces-mod (added - taken) product (lower_loop 10 s) same
              (lower_loop-Reduces 9 (added - taken) s rest (omega arith)))
    ]

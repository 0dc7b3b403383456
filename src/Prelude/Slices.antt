-- ===== src/Prelude/Slices.antt =====
-- Laws of take, drop and overwrite.
use mathlib.Core.Path.{◌≡◌, refl, sym, ap, ◌∙◌}
use mathlib.Core.List.{List, [], ◌∷◌, ◌++◌, append-nil, append_assoc}
use Prim.Native.Nat.{ℕ, zero, suc, ◌+◌, ◌≤◌, ◌<◌}
use native.Mathlib.Omega.{arith}
use tezos_master_lib_p2p.Prelude.Tests.{◌==◌, if◌then◌else◌}
use tezos_master_lib_p2p.Prelude.Lists.{
  length, take, drop, set, get_or, overwrite, length-append, length-take, length-drop,
}

module _ {ℓ} {A : Type ℓ} where
  pub take-length : (xs : List A) (n : ℕ) → length xs ≤ n → take n xs ≡ xs
  take-length [] zero h = refl
  take-length [] (suc n) h = refl
  take-length (x ∷ xs) zero h = absurd (omega arith)
  take-length (x ∷ xs) (suc n) h = ap (◌∷◌ x) (take-length xs n (omega arith))

  pub drop-length : (xs : List A) (n : ℕ) → length xs ≤ n → drop n xs ≡ []
  drop-length [] zero h = refl
  drop-length [] (suc n) h = refl
  drop-length (x ∷ xs) zero h = absurd (omega arith)
  drop-length (x ∷ xs) (suc n) h = drop-length xs n (omega arith)

  pub take-append : (xs ys : List A) (n : ℕ) → n ≡ length xs → take n (xs ++ ys) ≡ xs
  take-append [] ys zero h = refl
  take-append [] ys (suc n) h = absurd (omega arith)
  take-append (x ∷ xs) ys zero h = absurd (omega arith)
  take-append (x ∷ xs) ys (suc n) h = ap (◌∷◌ x) (take-append xs ys n (omega arith))

  pub drop-append : (xs ys : List A) (n : ℕ) → n ≡ length xs → drop n (xs ++ ys) ≡ ys
  drop-append [] ys zero h = refl
  drop-append [] ys (suc n) h = absurd (omega arith)
  drop-append (x ∷ xs) ys zero h = absurd (omega arith)
  drop-append (x ∷ xs) ys (suc n) h = drop-append xs ys n (omega arith)

  -- What an overwrite leaves below its end.
  pub take-overwrite :
      (off : ℕ) (src dst : List A) (n : ℕ)
      → n ≡ off + length src
      → off ≤ length dst
      → take n (overwrite off src dst) ≡ take off dst ++ src
  take-overwrite off src dst n e h =
      ap (take n) (sym (append_assoc (take off dst) src (drop (off + length src) dst)))
      ∙ take-append (take off dst ++ src) (drop (off + length src) dst) n
          (omega (arith, length-append (take off dst) src, length-take off dst))

  pub length-overwrite :
      (off : ℕ) (src dst : List A)
      → off + length src ≤ length dst
      → length (overwrite off src dst) ≡ length dst
  length-overwrite off src dst h = omega (
    arith,
    length-append (take off dst) (src ++ drop (off + length src) dst),
    length-append src (drop (off + length src) dst),
    length-take off dst,
    length-drop (off + length src) dst,
  )

  -- An overwrite up to the end keeps nothing behind it.
  pub overwrite-end :
      (off : ℕ) (src dst : List A)
      → off + length src ≡ length dst
      → overwrite off src dst ≡ take off dst ++ src
  overwrite-end off src dst e =
      ap (λ t. take off dst ++ (src ++ t)) (drop-length dst (off + length src) (omega arith))
      ∙ ap (λ t. take off dst ++ t) (append-nil src)

  -- Equal longer prefixes have equal shorter ones.
  pub take-take : (m n : ℕ) (xs : List A) → m ≤ n → take m (take n xs) ≡ take m xs
  take-take zero n xs h = refl
  take-take (suc m) zero xs h = absurd (omega arith)
  take-take (suc m) (suc n) [] h = refl
  take-take (suc m) (suc n) (x ∷ xs) h = ap (◌∷◌ x) (take-take m n xs (omega arith))

  -- A write behind a prefix makes it one longer.
  pub take-set :
      (n : ℕ) (xs : List A) (v : A)
      → n < length xs
      → take (suc n) (set xs n v) ≡ take n xs ++ v ∷ []
  take-set n [] v h = absurd (omega arith)
  take-set zero (x ∷ xs) v h = refl
  take-set (suc n) (x ∷ xs) v h = ap (◌∷◌ x) (take-set n xs v (omega arith))

  pub take-set_above : (m i : ℕ) (xs : List A) (v : A) → m ≤ i → take m (set xs i v) ≡ take m xs
  take-set_above zero i xs v h = refl
  take-set_above (suc m) i [] v h = refl
  take-set_above (suc m) zero (x ∷ xs) v h = absurd (omega arith)
  take-set_above (suc m) (suc i) (x ∷ xs) v h = ap (◌∷◌ x) (take-set_above m i xs v (omega arith))

  pub drop-set :
      (i : ℕ) (xs : List A) (v : A) → i < length xs → drop i (set xs i v) ≡ v ∷ drop (suc i) xs
  drop-set i [] v h = absurd (omega arith)
  drop-set zero (x ∷ xs) v h = refl
  drop-set (suc i) (x ∷ xs) v h = drop-set i xs v (omega arith)

  pub get_or-set :
      (xs : List A) (i j : ℕ) (v d : A)
      → i < length xs
      → get_or (set xs i v) j d ≡ (if i == j then v else get_or xs j d)
  get_or-set [] i j v d h = absurd (omega arith)
  get_or-set (x ∷ xs) zero zero v d h = refl
  get_or-set (x ∷ xs) zero (suc j) v d h = ground arith
  get_or-set (x ∷ xs) (suc i) zero v d h = ground arith
  get_or-set (x ∷ xs) (suc i) (suc j) v d h = ground (arith, get_or-set xs i j v d)

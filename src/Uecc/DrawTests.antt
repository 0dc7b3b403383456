-- ===== src/Uecc/DrawTests.antt =====
-- The draws of a counting source.
use tezos_master_lib_p2p.Prelude.{
  ℕ, zero, suc, ◌*◌, ◌/◌, ◌%◌, ◌<◌, ◌≡◌, refl, ap, ◌∙◌, subst, List, [], ◌∷◌, length, Option, none,
  some, replicate, length-replicate, arith,
}
use tezos_master_lib_p2p.Uecc.Value.{IsWords}
use tezos_master_lib_p2p.Uecc.Keys.{generate_random_int, mask_top}
use tezos_master_lib_p2p.Uecc.Vli.{num_bits, num_digits, count_bits}
use tezos_master_lib_p2p.Uecc.Random.{Fills, Drawn, IsDrawn, generate_random_int-Drawn}
use tezos_master_lib_p2p.Uecc.Draws.{IsGoodDraw, generate_random_int-Returns}

-- A source that counts, and fills each word with what it counted.
abbrev counting : ℕ → ℕ → ℕ × Option (List ℕ)
counting s size = (suc s, some (replicate (size / 8) (s % 16)))

abbrev given : Option (List ℕ) → List ℕ
given none = []
given (some ws) = ws

repeated-IsWords : (n v : ℕ) → v < 16 → IsWords (replicate n v)
repeated-IsWords zero v h = tt
repeated-IsWords (suc n) v h = (omega arith, repeated-IsWords n v h)

counting-Fills : Fills counting
counting-Fills s num_words ws e =
    let size : num_words * 8 / 8 ≡ num_words = omega arith in
    subst (λ t. IsWords t × (length t ≡ num_words)) (ap given e)
      (
        repeated-IsWords (num_words * 8 / 8) (s % 16) (omega arith),
        length-replicate (num_words * 8 / 8) (s % 16) ∙ size,
      )

generate_random_int-Drawn_example :
    Drawn (5 ∷ []) (generate_random_int (some counting) 0 (5 ∷ []) 1).1
generate_random_int-Drawn_example =
    generate_random_int-Drawn counting counting-Fills 0 (5 ∷ []) (omega arith, tt)

-- From the state 15 on, two draws that are refused: 15 leaves 7 below the top bit of 5, and 16 leaves 0.
third-IsGoodDraw : IsGoodDraw counting counting-Fills (5 ∷ []) 17
unfolding mask_top num_bits num_digits count_bits
third-IsGoodDraw = record {
  filled = 1 ∷ [];
  draws = refl;
  positive = omega arith;
  below = omega arith;
}

generate_random_int-Returns_example :
    (r : List ℕ) × ((generate_random_int (some counting) 15 (5 ∷ []) 1).1 ≡ some r)
    × IsDrawn (5 ∷ []) r
generate_random_int-Returns_example =
    generate_random_int-Returns counting counting-Fills (5 ∷ []) 2 15 (omega arith, tt)
      (λ s. (replicate 1 (s % 16), refl)) (omega arith) third-IsGoodDraw

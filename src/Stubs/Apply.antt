-- ===== src/Stubs/Apply.antt =====
-- The stubs on lists of arguments, as an external declaration gives them a number of parameters.
use tezos_master_lib_p2p.Prelude.{
  arith, List, [], ◌∷◌, true, ◌≡◌, Option, none, ◌>>=◌, Returns, bind-Returns,
}
use tezos_master_lib_p2p.Stubs.Value.{Value}
use tezos_master_lib_p2p.Stubs.Types.{OcamlType, has_type, accepts}
use tezos_master_lib_p2p.Stubs.Reads.{Reads, and-left, and-right}

-- A stub returns a value of the type.
abbrev pub Typed : {W : Type 0} → OcamlType → Option (W × Value) → Type 0
Typed {W} t o = Returns (λ (r : W × Value). has_type t r.1 ≡ true) o

-- A stub goes on after a reading.
pub reading :
    {A W : Type 0} {f : A → Option (W × Value)} (t r : OcamlType) (get : Value → Option A)
    (v : Value)
    → Reads t get
    → has_type t v ≡ true
    → ((x : A) → Typed r (f x))
    → Typed r (get v >>= f)
reading t r get v reads h k = bind-Returns (reads v h) (λ x _. k x)

abbrev pub uncons : {B : Type 0} → (Value → List Value → Option B) → List Value → Option B
uncons g [] = none
uncons g (v ∷ vs) = g v vs

abbrev pub apply0 : {B : Type 0} → Option B → List Value → Option B
apply0 o [] = o
apply0 o (v ∷ vs) = none

abbrev pub apply1 : {B : Type 0} → (Value → Option B) → List Value → Option B
apply1 f = uncons (λ a. apply0 (f a))

abbrev pub apply2 : {B : Type 0} → (Value → Value → Option B) → List Value → Option B
apply2 f = uncons (λ a. apply1 (f a))

abbrev pub apply3 : {B : Type 0} → (Value → Value → Value → Option B) → List Value → Option B
apply3 f = uncons (λ a. apply2 (f a))

abbrev pub apply4 :
    {B : Type 0} → (Value → Value → Value → Value → Option B) → List Value → Option B
apply4 f = uncons (λ a. apply3 (f a))

abbrev pub apply5 :
    {B : Type 0} → (Value → Value → Value → Value → Value → Option B) → List Value → Option B
apply5 f = uncons (λ a. apply4 (f a))

module _ {W : Type 0} (r : OcamlType) where
  uncons-Typed :
      (t : OcamlType) (ts : List OcamlType) (g : Value → List Value → Option (W × Value))
      → ((v : Value) (vs : List Value)
          → has_type t v ≡ true
          → accepts ts vs ≡ true
          → Typed r (g v vs))
      → (args : List Value) → accepts (t ∷ ts) args ≡ true
      → Typed r (uncons g args)
  uncons-Typed t ts g h [] e = absurd (ground (arith, e))
  uncons-Typed t ts g h (v ∷ vs) e =
      h v vs (and-left (has_type t v) (accepts ts vs) e)
        (and-right (has_type t v) (accepts ts vs) e)

  apply0-Typed :
      (o : Option (W × Value))
      → Typed r o
      → (args : List Value) → accepts [] args ≡ true
      → Typed r (apply0 o args)
  apply0-Typed o h [] e = h
  apply0-Typed o h (v ∷ vs) e = absurd (ground (arith, e))

  pub apply1-Typed :
      (t1 : OcamlType) (f : Value → Option (W × Value))
      → ((a : Value) → has_type t1 a ≡ true → Typed r (f a))
      → (args : List Value) → accepts (t1 ∷ []) args ≡ true
      → Typed r (apply1 f args)
  apply1-Typed t1 f h =
      uncons-Typed t1 ([]) (λ v. apply0 (f v)) (λ v vs hv hvs. apply0-Typed (f v) (h v hv) vs hvs)

  pub apply2-Typed :
      (t1 t2 : OcamlType) (f : Value → Value → Option (W × Value))
      → ((a b : Value) → has_type t1 a ≡ true → has_type t2 b ≡ true → Typed r (f a b))
      → (args : List Value) → accepts (t1 ∷ t2 ∷ []) args ≡ true
      → Typed r (apply2 f args)
  apply2-Typed t1 t2 f h =
      uncons-Typed t1 (t2 ∷ []) (λ v. apply1 (f v))
        (λ v vs hv hvs. apply1-Typed t2 (f v) (λ b hb. h v b hv hb) vs hvs)

  pub apply3-Typed :
      (t1 t2 t3 : OcamlType) (f : Value → Value → Value → Option (W × Value))
      → ((a b c : Value)
          → has_type t1 a ≡ true
          → has_type t2 b ≡ true
          → has_type t3 c ≡ true
          → Typed r (f a b c))
      → (args : List Value) → accepts (t1 ∷ t2 ∷ t3 ∷ []) args ≡ true
      → Typed r (apply3 f args)
  apply3-Typed t1 t2 t3 f h =
      uncons-Typed t1 (t2 ∷ t3 ∷ []) (λ v. apply2 (f v))
        (λ v vs hv hvs. apply2-Typed t2 t3 (f v) (λ b c hb hc. h v b c hv hb hc) vs hvs)

  pub apply4-Typed :
      (t1 t2 t3 t4 : OcamlType) (f : Value → Value → Value → Value → Option (W × Value))
      → ((a b c d : Value)
          → has_type t1 a ≡ true
          → has_type t2 b ≡ true
          → has_type t3 c ≡ true
          → has_type t4 d ≡ true
          → Typed r (f a b c d))
      → (args : List Value) → accepts (t1 ∷ t2 ∷ t3 ∷ t4 ∷ []) args ≡ true
      → Typed r (apply4 f args)
  apply4-Typed t1 t2 t3 t4 f h =
      uncons-Typed t1 (t2 ∷ t3 ∷ t4 ∷ []) (λ v. apply3 (f v))
        (λ v vs hv hvs.
          apply3-Typed t2 t3 t4 (f v) (λ b c d hb hc hd. h v b c d hv hb hc hd) vs hvs)

  pub apply5-Typed :
      (t1 t2 t3 t4 t5 : OcamlType) (f : Value → Value → Value → Value → Value → Option (W × Value))
      → ((a b c d e : Value)
          → has_type t1 a ≡ true
          → has_type t2 b ≡ true
          → has_type t3 c ≡ true
          → has_type t4 d ≡ true
          → has_type t5 e ≡ true
          → Typed r (f a b c d e))
      → (args : List Value) → accepts (t1 ∷ t2 ∷ t3 ∷ t4 ∷ t5 ∷ []) args ≡ true
      → Typed r (apply5 f args)
  apply5-Typed t1 t2 t3 t4 t5 f h =
      uncons-Typed t1 (t2 ∷ t3 ∷ t4 ∷ t5 ∷ []) (λ v. apply4 (f v))
        (λ v vs hv hvs.
          apply4-Typed t2 t3 t4 t5 (f v) (λ b c d e hb hc hd he. h v b c d e hv hb hc hd he) vs hvs)

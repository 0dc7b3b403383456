-- ===== src/Stubs/Reads.antt =====
-- The readings of Stubs.Value on values of the types of Stubs.Types.
use tezos_master_lib_p2p.Prelude.{
  Bool, true, false, ◌&&◌, ◌||◌, ◌==◌, ◌≡◌, refl, ap, Option, none, some, Returns, some-Returns,
  bind-Returns, if-holds, arith,
}
use tezos_master_lib_p2p.Prelude.Int.{ℤ}
use tezos_master_lib_p2p.Stubs.Value.{
  Value, immediate, block, string, bigarray, custom, nativeint, int64, end, field, int_val,
  string_val, ba_val, custom_val, dbi_val, int64_val, option_val, is_nonzero, result_value,
}
use tezos_master_lib_p2p.Stubs.Data.{string_mdb_val, ba_mdb_val}
use tezos_master_lib_p2p.Stubs.Types.{
  OcamlType, int_type, bool_type, string_type, buffer_type, handle_type, nativeint_type, int64_type,
  option_type, result_type, has_type,
}

-- The reading gives something on each value of the type.
abbrev pub Reads : {A : Type 0} → OcamlType → (Value → Option A) → Type 0
Reads {A} t get = (v : Value) → has_type t v ≡ true → Returns (λ (a : A). Unit {0}) (get v)

pub int-Reads : Reads int_type int_val
unfolding int_val
int-Reads (immediate z) h = some-Returns _ tt
int-Reads (block tag fs) h = absurd (ground (arith, h))
int-Reads (string s) h = absurd (ground (arith, h))
int-Reads (bigarray b) h = absurd (ground (arith, h))
int-Reads (custom p) h = absurd (ground (arith, h))
int-Reads (nativeint n) h = absurd (ground (arith, h))
int-Reads (int64 z) h = absurd (ground (arith, h))

pub bool-Reads : Reads bool_type int_val
unfolding int_val
bool-Reads (immediate z) h = some-Returns _ tt
bool-Reads (block tag fs) h = absurd (ground (arith, h))
bool-Reads (string s) h = absurd (ground (arith, h))
bool-Reads (bigarray b) h = absurd (ground (arith, h))
bool-Reads (custom p) h = absurd (ground (arith, h))
bool-Reads (nativeint n) h = absurd (ground (arith, h))
bool-Reads (int64 z) h = absurd (ground (arith, h))

pub string-Reads : Reads string_type string_val
string-Reads (immediate z) h = absurd (ground (arith, h))
string-Reads (block tag fs) h = absurd (ground (arith, h))
string-Reads (string s) h = some-Returns _ tt
string-Reads (bigarray b) h = absurd (ground (arith, h))
string-Reads (custom p) h = absurd (ground (arith, h))
string-Reads (nativeint n) h = absurd (ground (arith, h))
string-Reads (int64 z) h = absurd (ground (arith, h))

pub buffer-Reads : Reads buffer_type ba_val
buffer-Reads (immediate z) h = absurd (ground (arith, h))
buffer-Reads (block tag fs) h = absurd (ground (arith, h))
buffer-Reads (string s) h = absurd (ground (arith, h))
buffer-Reads (bigarray b) h = some-Returns _ tt
buffer-Reads (custom p) h = absurd (ground (arith, h))
buffer-Reads (nativeint n) h = absurd (ground (arith, h))
buffer-Reads (int64 z) h = absurd (ground (arith, h))

pub handle-Reads : Reads handle_type custom_val
handle-Reads (immediate z) h = absurd (ground (arith, h))
handle-Reads (block tag fs) h = absurd (ground (arith, h))
handle-Reads (string s) h = absurd (ground (arith, h))
handle-Reads (bigarray b) h = absurd (ground (arith, h))
handle-Reads (custom p) h = some-Returns _ tt
handle-Reads (nativeint n) h = absurd (ground (arith, h))
handle-Reads (int64 z) h = absurd (ground (arith, h))

pub nativeint-Reads : Reads nativeint_type dbi_val
unfolding dbi_val
nativeint-Reads (immediate z) h = absurd (ground (arith, h))
nativeint-Reads (block tag fs) h = absurd (ground (arith, h))
nativeint-Reads (string s) h = absurd (ground (arith, h))
nativeint-Reads (bigarray b) h = absurd (ground (arith, h))
nativeint-Reads (custom p) h = absurd (ground (arith, h))
nativeint-Reads (nativeint n) h = some-Returns _ tt
nativeint-Reads (int64 z) h = absurd (ground (arith, h))

pub int64-Reads : Reads int64_type int64_val
int64-Reads (immediate z) h = absurd (ground (arith, h))
int64-Reads (block tag fs) h = absurd (ground (arith, h))
int64-Reads (string s) h = absurd (ground (arith, h))
int64-Reads (bigarray b) h = absurd (ground (arith, h))
int64-Reads (custom p) h = absurd (ground (arith, h))
int64-Reads (nativeint n) h = absurd (ground (arith, h))
int64-Reads (int64 z) h = some-Returns _ tt

pub and-right : (a b : Bool) → (a && b) ≡ true → b ≡ true
and-right true b h = h
and-right false b h = absurd (ground (arith, h))

pub and-left : (a b : Bool) → (a && b) ≡ true → a ≡ true
and-left true b h = refl
and-left false b h = absurd (ground (arith, h))

pub option-Reads :
    {A : Type 0} (t : OcamlType) (get : Value → Option A)
    → Reads t get
    → Reads (option_type t) (option_val get)
unfolding option_val
option-Reads t get reads (immediate z) h = some-Returns _ tt
option-Reads {A = A} t get reads (block tag (field v end)) h =
    let (a, e, _) = reads v (and-right (tag == 0) (has_type t v) h) in
    (
      some a,
      ap
          (λ (o : Option A). elim o as (λ _. Option (Option A)) [
            | none ↦ none
            | some a ↦ some (some a)
          ])
          e,
      tt,
    )
option-Reads t get reads (block tag end) h = absurd (ground (arith, h))
option-Reads t get reads (block tag (field v (field v' rest))) h = absurd (ground (arith, h))
option-Reads t get reads (string s) h = absurd (ground (arith, h))
option-Reads t get reads (bigarray b) h = absurd (ground (arith, h))
option-Reads t get reads (custom p) h = absurd (ground (arith, h))
option-Reads t get reads (nativeint n) h = absurd (ground (arith, h))
option-Reads t get reads (int64 z) h = absurd (ground (arith, h))

-- if (ret) Error ret else Ok payload has the type of a result.
pub result_value-typed :
    (t : OcamlType) (ret : ℤ) (payload : Value)
    → has_type t payload ≡ true
    → has_type (result_type t) (result_value ret payload) ≡ true
unfolding result_value
result_value-typed t ret payload h =
    if-holds (λ v. has_type (result_type t) v ≡ true) (is_nonzero ret) _ _ refl
      (ap (λ (b : Bool). b || false) h)

pub string_mdb_val-Reads : Reads string_type string_mdb_val
unfolding string_mdb_val
string_mdb_val-Reads v h = bind-Returns (string-Reads v h) (λ s _. some-Returns _ tt)

pub ba_mdb_val-Reads : Reads buffer_type ba_mdb_val
unfolding ba_mdb_val
ba_mdb_val-Reads v h = bind-Returns (buffer-Reads v h) (λ b _. some-Returns _ tt)

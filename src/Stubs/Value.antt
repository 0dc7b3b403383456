-- ===== src/Stubs/Value.antt =====
-- The OCaml values that the bindings read and build, by the macros of caml/mlvalues.h. A reading
-- macro gives `none` on a value of another shape, where the C code would read memory that is not what
-- it takes it for.
use tezos_master_lib_p2p.Prelude.{
  ℕ, ◌%◌, ◌^◌, List, Bool, true, false, not, Option, none, some, ◌==◌, if◌then◌else◌,
}
use tezos_master_lib_p2p.Prelude.Int.{ℤ, pos, negsuc, residue, signed}

-- What a data pointer points to: the bytes of an OCaml string, or memory outside the OCaml heap.
pub data Memory : Type 0 where
  ocaml_string : List ℕ → Memory
  outside : ℕ → Memory

-- A bigarray of bytes: Caml_ba_data_val and dim[0].
pub record Bigarray : Type 0 where
  pub data_val : Memory
  pub dim : ℕ

mutual
  pub data Value : Type 0 where
    immediate : ℤ → Value
    block : ℕ → Fields → Value
    string : List ℕ → Value
    bigarray : Bigarray → Value
    custom : ℕ → Value
    nativeint : ℕ → Value
    int64 : ℤ → Value

  pub data Fields : Type 0 where
    end : Fields
    field : Value → Fields → Fields

-- Val_int of a C int, Val_long of a word, Val_bool and Val_unit.
abbrev pub val_int : ℤ → Value
val_int z = immediate z

unfoldable pub val_long : ℕ → Value
val_long n = immediate (signed 63 (n % 2 ^ 63))

abbrev pub is_nonzero : ℤ → Bool
is_nonzero (pos n) = not (n == 0)
is_nonzero (negsuc n) = true

unfoldable pub val_bool : ℤ → Value
val_bool z = immediate (pos (if is_nonzero z then 1 else 0))

abbrev pub val_unit : Value
val_unit = immediate (pos 0)

-- Int_val, which cuts the number to 32 bits; Bool_val is the same.
unfoldable pub int_val : Value → Option ℤ
int_val (immediate z) = some (signed 32 (residue 32 z))
int_val _ = none

abbrev pub string_val : Value → Option (List ℕ)
string_val (string s) = some s
string_val _ = none

abbrev pub ba_val : Value → Option Bigarray
ba_val (bigarray b) = some b
ba_val _ = none

-- Data_custom_val of the handles.
abbrev pub custom_val : Value → Option ℕ
custom_val (custom p) = some p
custom_val _ = none

-- Nativeint_val, as an unsigned 32-bit MDB_dbi.
unfoldable pub dbi_val : Value → Option ℕ
dbi_val (nativeint n) = some (n % 2 ^ 32)
dbi_val _ = none

abbrev pub int64_val : Value → Option ℤ
int64_val (int64 z) = some z
int64_val _ = none

-- Is_block.
abbrev pub is_block : Value → Bool
is_block (immediate z) = false
is_block _ = true

-- Field(v, 0) and Field(v, 1).
abbrev pub field0 : Value → Option Value
field0 (block tag (field v rest)) = some v
field0 _ = none

abbrev pub field1 : Value → Option Value
field1 (block tag (field v (field v' rest))) = some v'
field1 _ = none

-- caml_alloc with Store_field: Ok v and Error n of a result, and a tuple.
abbrev pub ok_value : Value → Value
ok_value v = block 0 (field v end)

abbrev pub error_value : ℤ → Value
error_value ret = block 1 (field (val_int ret) end)

-- if (ret) Error ret else Ok payload.
unfoldable pub result_value : ℤ → Value → Value
result_value ret payload = if is_nonzero ret then error_value ret else ok_value payload

-- An OCaml option of `A`: the reading of Field(v, 0) of a block, and nothing of an immediate.
unfoldable pub option_val : {A : Type 0} → (Value → Option A) → Value → Option (Option A)
option_val get v = elim (is_block v) [
  | false ↦ some none
  | true ↦ elim (field0 v) [
    | none ↦ none
    | some inner ↦ elim (get inner) [ none ↦ none | some a ↦ some (some a) ]
  ]
]

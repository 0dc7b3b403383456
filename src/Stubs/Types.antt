-- ===== src/Stubs/Types.antt =====
-- The OCaml types in the external declarations of vendors/ocaml-lmdb/src/lmdb.ml, and which values
-- have them. The handles of environments, transactions and cursors are one type here.
use tezos_master_lib_p2p.Prelude.{ℕ, zero, suc, List, [], ◌∷◌, Bool, true, false, ◌&&◌, ◌||◌, ◌==◌}
use tezos_master_lib_p2p.Prelude.Int.{ℤ, pos, negsuc}
use tezos_master_lib_p2p.Stubs.Value.{
  Value, immediate, block, string, bigarray, custom, nativeint, int64, Fields, end, field,
}

pub data OcamlType : Type 0 where
  int_type : OcamlType
  bool_type : OcamlType
  unit_type : OcamlType
  string_type : OcamlType
  buffer_type : OcamlType
  handle_type : OcamlType
  nativeint_type : OcamlType
  int64_type : OcamlType
  option_type : OcamlType → OcamlType
  result_type : OcamlType → OcamlType
  pair_type : OcamlType → OcamlType → OcamlType
  ints_type : ℕ → OcamlType

-- The number of fields, each an int.
abbrev pub has_ints : ℕ → Fields → Bool
has_ints zero end = true
has_ints (suc n) (field (immediate z) rest) = has_ints n rest
has_ints _ _ = false

abbrev pub is_immediate : ℤ → ℕ → Bool
is_immediate (pos n) k = n == k
is_immediate (negsuc n) k = false

abbrev pub has_type : OcamlType → Value → Bool
has_type int_type (immediate z) = true
has_type bool_type (immediate z) = is_immediate z 0 || is_immediate z 1
has_type unit_type (immediate z) = is_immediate z 0
has_type string_type (string s) = true
has_type buffer_type (bigarray b) = true
has_type handle_type (custom p) = true
has_type nativeint_type (nativeint n) = true
has_type int64_type (int64 z) = true
has_type (option_type t) (immediate z) = is_immediate z 0
has_type (option_type t) (block tag (field v end)) = tag == 0 && has_type t v
has_type (result_type t) (block tag (field v end)) =
    (tag == 0 && has_type t v) || (tag == 1 && has_type int_type v)
has_type (pair_type s t) (block tag (field v (field v' end))) =
    tag == 0 && (has_type s v && has_type t v')
has_type (ints_type n) (block tag fs) = tag == 0 && has_ints n fs
has_type _ _ = false

-- The arguments of an external have the types of its parameters.
abbrev pub accepts : List OcamlType → List Value → Bool
accepts [] [] = true
accepts (t ∷ ts) (v ∷ vs) = has_type t v && accepts ts vs
accepts _ _ = false

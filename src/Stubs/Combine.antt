-- ===== src/Stubs/Combine.antt =====
-- caml_secp256k1_ec_pubkey_combine of vendors/ocaml-secp256k1/src/secp256k1_wrap.c on OCaml lists.
use tezos_master_lib_p2p.Prelude.{
  ℕ, zero, suc, ◌≤◌, ◌<◌, ◌≡◌, refl, ap, ◌∙◌, List, [], ◌∷◌, ◌++◌, Option, none, some, ◌>>=◌,
  length, leb, dec_lt, if◌then◌else◌, arith,
}
use tezos_master_lib_p2p.Stubs.Value.{
  Value, end, field, block, custom, bigarray, Bigarray, Memory, val_int, val_unit,
}
use tezos_master_lib_p2p.Stubs.Secp256k1.{
  Secp256k1, key_pointers, ec_pubkey_combine, is_unit, data_val,
}

-- An OCaml list of buffers: its cells, and Val_emptylist.
unfoldable pub list_value : List Bigarray → Value
list_value [] = val_unit
list_value (b ∷ bs) = block 0 (field (bigarray b) (field (list_value bs) end))

-- The pointers to the buffers.
abbrev pub pointers : List Bigarray → List Memory
pointers [] = []
pointers (b ∷ bs) = b.data_val ∷ pointers bs

length-pointers : (bs : List Bigarray) → length (pointers bs) ≡ length bs
length-pointers [] = refl
length-pointers (b ∷ bs) = ap (λ (n : ℕ). suc n) (length-pointers bs)

-- The loop stops at the cell whose rest is the empty list, before it reads the key of that cell.
key_pointers-pointers :
    (bs : List Bigarray) (last : Bigarray) (room : ℕ)
    → length bs ≤ room
    → key_pointers room (list_value (bs ++ (last ∷ []))) ≡ some (pointers bs)
unfolding key_pointers list_value is_unit data_val
key_pointers-pointers [] last zero h = refl
key_pointers-pointers [] last (suc room) h = refl
key_pointers-pointers (b ∷ bs) last zero h = absurd (omega arith)
key_pointers-pointers (b ∷ []) last (suc room) h =
    ap (λ (t : Option (List Memory)). t >>= (λ ks. some (b.data_val ∷ ks)))
      (key_pointers-pointers [] last room (omega arith))
key_pointers-pointers (b ∷ b' ∷ bs) last (suc room) h =
    ap (λ (t : Option (List Memory)). t >>= (λ ks. some (b.data_val ∷ ks)))
      (key_pointers-pointers (b' ∷ bs) last room (omega (arith, h)))

-- A key more than there is room for is written past the array.
key_pointers-overrun :
    (bs : List Bigarray) (last : Bigarray) (room : ℕ)
    → room < length bs
    → key_pointers room (list_value (bs ++ (last ∷ []))) ≡ none
unfolding key_pointers list_value is_unit data_val
key_pointers-overrun [] last room h = absurd (omega (arith, h))
key_pointers-overrun (b ∷ []) last zero h = refl
key_pointers-overrun (b ∷ b' ∷ bs) last zero h = refl
key_pointers-overrun (b ∷ []) last (suc room) h = absurd (omega (arith, h))
key_pointers-overrun (b ∷ b' ∷ bs) last (suc room) h =
    ap (λ (t : Option (List Memory)). t >>= (λ ks. some (b.data_val ∷ ks)))
      (key_pointers-overrun (b' ∷ bs) last room (omega (arith, h)))

module _ {W : Type 0} (secp : Secp256k1 W) (w : W) (ctx : ℕ) (out last : Bigarray)
    (keys : List Bigarray) where
  -- What the stub makes of the pointers.
  abbrev combined : List Memory → Option (W × Value)
  combined ks =
      let r = secp.ec_pubkey_combine w ctx out.data_val ks (length ks) in some (r.0, val_int r.1)

  abbrev argument : Value
  argument = list_value (keys ++ (last ∷ []))

  ec_pubkey_combine-pointers :
      {o : Option (List Memory)}
      → key_pointers 1024 argument ≡ o
      → ec_pubkey_combine secp w (custom ctx) (bigarray out) argument ≡ (o >>= combined)
  unfolding ec_pubkey_combine data_val
  ec_pubkey_combine-pointers e = ap (λ (t : Option (List Memory)). t >>= combined) e

  -- On an OCaml list of at least one key, ec_pubkey_combine gives the library all keys but the last,
  -- with their number, which for a list of one key is 0; where those are more than 1024, the loop
  -- writes past its array instead.
  pub ec_pubkey_combine-drops_last :
      ec_pubkey_combine secp w (custom ctx) (bigarray out) (list_value (keys ++ (last ∷ []))) ≡ (
        if leb (length keys) 1024
        then some (
          (secp.ec_pubkey_combine w ctx out.data_val (pointers keys) (length keys)).0,
          val_int (secp.ec_pubkey_combine w ctx out.data_val (pointers keys) (length keys)).1,
        )
        else none)
  ec_pubkey_combine-drops_last = elim (dec_lt 1024 (length keys)) [
    | yes large ↦
        ec_pubkey_combine-pointers (key_pointers-overrun keys last 1024 large)
        ∙ ground (arith, large)
    | no small ↦
        ec_pubkey_combine-pointers (key_pointers-pointers keys last 1024 (omega (arith, small)))
        ∙ ap
            (λ (n : ℕ).
              let r = secp.ec_pubkey_combine w ctx out.data_val (pointers keys) n in
              some (r.0, val_int r.1))
            (length-pointers keys)
        ∙ ground (arith, small)
  ]

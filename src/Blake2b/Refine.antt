-- ===== src/Blake2b/Refine.antt =====
-- The streaming interface refines the byte-by-byte description: blake2b_update on whole buffers.
use mathlib.Core.List.{append-nil, append_assoc}
use tezos_master_lib_p2p.Prelude.{
  ℕ, zero, suc, ◌+◌, ◌-◌, ◌≤◌, ◌<◌, ◌≡◌, refl, sym, ap, ◌∙◌, inl, inr, List, [], ◌∷◌, ◌++◌, true,
  false, length, take, drop, ltb, overwrite, length-append, length-take, length-drop,
  take-append-drop, Bool-cases, ltb→lt, lt→ltb, arith,
}
use tezos_master_lib_p2p.Prelude.Slices.{take-overwrite, length-overwrite, overwrite-end}
use tezos_master_lib_p2p.Blake2b.State.{
  State, blockbytes, increment_counter, compress, absorb_blocks, fill_and_absorb, keep_rest, update,
}
use tezos_master_lib_p2p.Blake2b.Spec.{View, view_with, view, flush, absorb_byte, absorb, IsValid}

pub absorb-append : (v : View) (xs ys : List ℕ) → absorb v (xs ++ ys) ≡ absorb (absorb v xs) ys
unfolding absorb
absorb-append v [] ys = refl
absorb-append v (x ∷ xs) ys = absorb-append (absorb_byte v x) xs ys

-- Bytes that fit are kept.
absorb_fits :
    (v : View) (xs : List ℕ)
    → length v.pending + length xs ≤ blockbytes
    → absorb v xs ≡ record v { pending = v.pending ++ xs }
unfolding absorb
absorb_fits v [] h = ap (λ p. record v { pending = p }) (sym (append-nil v.pending))
absorb_fits v (x ∷ xs) h = rw keeps (
    absorb_fits (record v { pending = v.pending ++ x ∷ [] }) xs
      (omega (arith, length-append v.pending (x ∷ [])))
    ∙ ap (λ p. record v { pending = p }) (append_assoc v.pending (x ∷ []) xs))
  where
    keeps : absorb_byte v x ≡ record v { pending = v.pending ++ x ∷ [] }
    keeps = unfold absorb_byte in ground arith

-- The first byte past a full buffer flushes it.
absorb_full :
    (v : View) (x : ℕ) (xs : List ℕ)
    → length v.pending ≡ blockbytes
    → length (x ∷ xs) ≤ blockbytes
    → absorb v (x ∷ xs) ≡ record (flush v) { pending = x ∷ xs }
unfolding absorb
absorb_full v x xs full h =
    rw flushes (absorb_fits (record (flush v) { pending = x ∷ [] }) xs (omega arith))
  where
    flushes : absorb_byte v x ≡ record (flush v) { pending = x ∷ [] }
    flushes = unfold absorb_byte flush in ground arith

absorb_next :
    (v : View) (xs : List ℕ)
    → length v.pending ≡ blockbytes
    → 0 < length xs
    → length xs ≤ blockbytes
    → absorb v xs ≡ record (flush v) { pending = xs }
absorb_next v [] full some_byte h = absurd (omega arith)
absorb_next v (x ∷ xs) full some_byte h = absorb_full v x xs full h

-- One block compressed by the code is one flush.
flush-view_with :
    (s : State) (block : List ℕ)
    → flush (view_with s block) ≡ view_with (compress (increment_counter s blockbytes) block) []
unfolding flush compress increment_counter
flush-view_with s block = refl

-- What `keep_rest` makes visible.
view-keep_rest :
    (s : State) (rest : List ℕ)
    → s.buflen ≤ length s.buf
    → view (keep_rest (s, rest)) ≡ view_with s (take s.buflen s.buf ++ rest)
unfolding keep_rest
view-keep_rest s rest h = ap (view_with s) (take-overwrite s.buflen rest s.buf _ refl h)

abbrev pub next_block : State → List ℕ → State
next_block s input = compress (increment_counter s blockbytes) (take blockbytes input)

pub absorb_blocks-more :
    (fuel : ℕ) (s : State) (input : List ℕ)
    → ltb blockbytes (length input) ≡ true
    → absorb_blocks (suc fuel) s input
      ≡ absorb_blocks fuel (next_block s input) (drop blockbytes input)
unfolding absorb_blocks
absorb_blocks-more fuel s input more = rw (more, absorb_blocks)

pub absorb_blocks-last :
    (fuel : ℕ) (s : State) (input : List ℕ)
    → ltb blockbytes (length input) ≡ false
    → absorb_blocks (suc fuel) s input ≡ (s, input)
unfolding absorb_blocks
absorb_blocks-last fuel s input last = rw (last, absorb_blocks)

abbrev with_pending : List ℕ → View → View
with_pending p v = record v { pending = p }

-- A block and the bytes behind it, taken over a full view.
absorb_block :
    (w : View) (s : State) (input : List ℕ)
    → length w.pending ≡ blockbytes
    → flush w ≡ view_with s []
    → blockbytes < length input
    → absorb w input ≡ absorb (view_with s (take blockbytes input)) (drop blockbytes input)
absorb_block w s input full e more =
    ap (absorb w) (sym (take-append-drop blockbytes input))
    ∙ absorb-append w (take blockbytes input) (drop blockbytes input)
    ∙ ap (λ v. absorb v (drop blockbytes input))
        (absorb_next w (take blockbytes input) full (omega (arith, length-take blockbytes input))
            (omega (arith, length-take blockbytes input))
          ∙ ap (with_pending (take blockbytes input)) e)

-- The loop, entered behind a block that is compressed: `w` still holds that block.
loop-absorb :
    (fuel : ℕ) (w : View) (s : State) (input : List ℕ)
    → length w.pending ≡ blockbytes
    → flush w ≡ view_with s []
    → s.buflen ≡ 0
    → 0 < length input
    → length input ≤ fuel
    → view (keep_rest (absorb_blocks fuel s input)) ≡ absorb w input
loop-absorb zero w s input full e empty some_byte enough = absurd (omega arith)
loop-absorb (suc fuel) w s input full e empty some_byte enough =
    elim (Bool-cases (ltb blockbytes (length input))) [
      | inl more ↦
          let longer : blockbytes < length input = ltb→lt _ _ more in
          let rest_length = length-drop blockbytes input in
          ap (λ r. view (keep_rest r)) (absorb_blocks-more fuel s input more)
          ∙ loop-absorb fuel (view_with s (take blockbytes input)) (next_block s input)
              (drop blockbytes input) (omega (arith, length-take blockbytes input))
              (flush-view_with s (take blockbytes input))
              (unfold compress increment_counter in empty) (omega arith) (omega arith)
          ∙ sym (absorb_block w s input full e longer)
      | inr last ↦
          let short : length input ≤ blockbytes = ground arith in
          ap (λ r. view (keep_rest r)) (absorb_blocks-last fuel s input last)
          ∙ view-keep_rest s input (omega arith)
          ∙ ap (λ n. view_with s (take n s.buf ++ input)) empty
          ∙ ap (with_pending input) (sym e)
          ∙ sym (absorb_next w input full some_byte short)
    ]

abbrev pub room : State → ℕ
room s = blockbytes - s.buflen

abbrev pub filled : State → List ℕ → State
filled s input = record s { buflen = 0; buf = overwrite s.buflen (take (room s) input) s.buf }

-- The state behind the block that the buffer's bytes and the first of the input make up.
abbrev pub refilled : State → List ℕ → State
refilled s input = compress (increment_counter (filled s input) blockbytes) (filled s input).buf

module _ (s : State) (input : List ℕ) where
  pub update-long :
      0 < length input
      → ltb (room s) (length input) ≡ true
      → update s input
        ≡ keep_rest (absorb_blocks (length input) (refilled s input) (drop (room s) input))
  unfolding update fill_and_absorb
  update-long some_byte long = rw (lt→ltb _ _ some_byte, long)

  pub update-short :
      0 < length input → ltb (room s) (length input) ≡ false → update s input ≡ keep_rest (s, input)
  unfolding update
  update-short some_byte short = rw (lt→ltb _ _ some_byte, short)

module _ (s : State) (input : List ℕ) (valid : IsValid s) where
  view-fill :
      room s < length input
      → absorb (view s) (take (room s) input) ≡ view_with s (filled s input).buf
  view-fill longer =
      absorb_fits (view s) (take (room s) input)
        (omega (arith, length-take (room s) input, length-take s.buflen s.buf))
      ∙ ap (view_with s) (
          sym (
            overwrite-end s.buflen (take (room s) input) s.buf
              (omega (arith, length-take (room s) input))))

  absorb-long :
      room s < length input
      → view (keep_rest (absorb_blocks (length input) (refilled s input) (drop (room s) input)))
        ≡ absorb (view s) input
  absorb-long longer =
      loop-absorb (length input) (view_with s (filled s input).buf) (refilled s input)
        (drop (room s) input)
        (omega (
          arith,
          length-overwrite s.buflen (take (room s) input) s.buf,
          length-take (room s) input,
        ))
        (flush-view_with (filled s input) (filled s input).buf)
        (unfold compress increment_counter in refl) (omega (arith, length-drop (room s) input))
        (omega (arith, length-drop (room s) input))
      ∙ ap (λ v. absorb v (drop (room s) input)) (sym (view-fill longer))
      ∙ sym (absorb-append (view s) (take (room s) input) (drop (room s) input))
      ∙ ap (absorb (view s)) (take-append-drop (room s) input)

  absorb-short : length input ≤ room s → view (keep_rest (s, input)) ≡ absorb (view s) input
  absorb-short shorter =
      view-keep_rest s input (omega arith)
      ∙ sym (absorb_fits (view s) input (omega (arith, length-take s.buflen s.buf)))

-- From a state whose buffer is in bounds, `update` takes the input into the view byte by byte: the
-- bytes wait, and a full block is compressed when one more byte comes.
pub view-update :
    (s : State) (input : List ℕ) → IsValid s → view (update s input) ≡ absorb (view s) input
view-update s [] valid = unfold update absorb in refl
view-update s (x ∷ xs) valid = elim (Bool-cases (ltb (room s) (length (x ∷ xs)))) [
  | inl long ↦
      ap view (update-long s (x ∷ xs) (omega arith) long)
      ∙ absorb-long s (x ∷ xs) valid (ltb→lt _ _ long)
  | inr short ↦
      ap view (update-short s (x ∷ xs) (omega arith) short)
      ∙ absorb-short s (x ∷ xs) valid (ground arith)
]

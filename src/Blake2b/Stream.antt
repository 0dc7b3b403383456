-- ===== src/Blake2b/Stream.antt =====
-- Streaming and one-shot hashing in blake2b-ref.c.
use tezos_master_lib_p2p.Prelude.{ℕ, ◌≤◌, ◌≡◌, refl, ap, sym, ◌∙◌, List, [], ◌∷◌, some, arith}
use tezos_master_lib_p2p.Blake2b.State.{
  State, outbytes, init_param, init0, sequential_param, update, final,
}
use tezos_master_lib_p2p.Blake2b.Spec.{
  View, view, absorb, absorb_byte, flush, finish, update_all, join, IsValid,
}
use tezos_master_lib_p2p.Blake2b.Refine.{view-update, absorb-append}
use tezos_master_lib_p2p.Blake2b.Valid.{update-IsValid, init_param-IsValid}
use tezos_master_lib_p2p.Blake2b.Finish.{final-view}

pub update_all-IsValid : (s : State) (cs : List (List ℕ)) → IsValid s → IsValid (update_all s cs)
unfolding update_all
update_all-IsValid s [] valid = valid
update_all-IsValid s (c ∷ cs) valid = update_all-IsValid (update s c) cs (update-IsValid s c valid)

-- Chunk after chunk, the view takes the bytes of all chunks in order.
pub view-update_all :
    (s : State) (cs : List (List ℕ))
    → IsValid s
    → view (update_all s cs) ≡ absorb (view s) (join cs)
unfolding update_all join absorb
view-update_all s [] valid = refl
view-update_all s (c ∷ cs) valid =
    view-update_all (update s c) cs (update-IsValid s c valid)
    ∙ ap (λ v. absorb v (join cs)) (view-update s c valid)
    ∙ sym (absorb-append (view s) c (join cs))

-- From a state whose buffer is in bounds, updates with chunks and one update with the chunks
-- joined lead `final` to the same status and the same output.
pub final-update_all :
    (s : State) (cs : List (List ℕ)) (out : List ℕ) (size : ℕ)
    → IsValid s
    → ((final (update_all s cs) (some out) size).status
        ≡ (final (update s (join cs)) (some out) size).status)
      × ((final (update_all s cs) (some out) size).out
          ≡ (final (update s (join cs)) (some out) size).out)
final-update_all s cs out size valid = (
  whole.0 ∙ ap (λ v. (finish v out size).0) same ∙ sym one.0,
  whole.1 ∙ ap (λ v. (finish v out size).1) same ∙ sym one.1,
)
  where
    whole :
        ((final (update_all s cs) (some out) size).status
          ≡ (finish (view (update_all s cs)) out size).0)
        × ((final (update_all s cs) (some out) size).out
            ≡ (finish (view (update_all s cs)) out size).1)
    whole = final-view (update_all s cs) (update_all-IsValid s cs valid) out size

    one :
        ((final (update s (join cs)) (some out) size).status
          ≡ (finish (view (update s (join cs))) out size).0)
        × ((final (update s (join cs)) (some out) size).out
            ≡ (finish (view (update s (join cs))) out size).1)
    one = final-view (update s (join cs)) (update-IsValid s (join cs) valid) out size

    same : view (update_all s cs) ≡ view (update s (join cs))
    same = view-update_all s cs valid ∙ sym (view-update s (join cs) valid)

-- The fields that no update touches.
pub absorb-kept :
    (v : View) (xs : List ℕ) → ((absorb v xs).f0 ≡ v.f0) × ((absorb v xs).outlen ≡ v.outlen)
unfolding absorb
absorb-kept v [] = (refl, refl)
absorb-kept v (x ∷ xs) =
    ((absorb-kept (absorb_byte v x) xs).0 ∙ kept.0, (absorb-kept (absorb_byte v x) xs).1 ∙ kept.1)
  where
    kept : ((absorb_byte v x).f0 ≡ v.f0) × ((absorb_byte v x).outlen ≡ v.outlen)
    kept = unfold absorb_byte flush in ground arith

update-kept :
    (s : State) (input : List ℕ)
    → IsValid s
    → ((update s input).f0 ≡ s.f0) × ((update s input).outlen ≡ s.outlen)
update-kept s input valid = (
  ap (λ v. View.f0 v) (view-update s input valid) ∙ (absorb-kept (view s) input).0,
  ap (λ v. View.outlen v) (view-update s input valid) ∙ (absorb-kept (view s) input).1,
)

-- A state that hashing can start from, for digests of `outlen` bytes.
pub record IsFresh (outlen : ℕ) (s : State) : Type 0 where
  pub valid : IsValid s
  pub open_end : s.f0 ≡ 0
  pub digest_size : s.outlen ≡ outlen

pub init_param-IsFresh :
    (outlen keylen : ℕ)
    → outlen ≤ outbytes
    → IsFresh outlen (init_param (sequential_param outlen keylen))
init_param-IsFresh outlen keylen small = record {
  valid = init_param-IsValid (sequential_param outlen keylen);
  open_end = unfold init_param init0 in refl;
  digest_size = unfold init_param init0 sequential_param in omega arith;
}

pub update-IsFresh :
    (outlen : ℕ) (s : State) (input : List ℕ) → IsFresh outlen s → IsFresh outlen (update s input)
update-IsFresh outlen s input fresh = record {
  valid = update-IsValid s input fresh.valid;
  open_end = (update-kept s input fresh.valid).0 ∙ fresh.open_end;
  digest_size = (update-kept s input fresh.valid).1 ∙ fresh.digest_size;
}

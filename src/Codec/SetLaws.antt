-- ===== src/Codec/SetLaws.antt =====
-- Canonical sets: what the encoder accepts, and that a sorted set is accepted.
use outbe_circuits.Prelude.{
  ℕ, ◌≡◌, refl, sym, ap, ◌∙◌, ◌↔◌, true, Option, none, some, List, [], ◌∷◌, ◌++◌, map, Result, ok,
  ◌>>=◌, guard, length, bind_ok, ok_inj, guard-eq-ok,
}
use mathlib.Core.List.{append_assoc, append-nil}
use mathlib.Core.Path.{subst}
use outbe_circuits.Error.{Error}
use outbe_circuits.Field.{PrimeField}
use outbe_circuits.Codec.Sets.{unsorted, ascends, set_loop, encode_set}

-- Each number is greater than the one before it, and the first than `prev`.
abbrev pub Ascending : Option ℕ → List ℕ → Type 0
Ascending prev [] = Unit
Ascending prev (k ∷ ks) = (ascends prev k ≡ true) × Ascending (some k) ks

module _ {Fr T : Type 0} ⦃F : PrimeField Fr⦄ (to_field : T → Result Error Fr) where
  -- The elements of all the items, in order.
  unfoldable pub fields_of : List T → Result Error (List Fr)
  fields_of [] = ok []
  fields_of (t ∷ items) = do f ← to_field t; rest ← fields_of items; ok (f ∷ rest)

  set_loop_lem :
      (items : List T) (fs : List Fr) (prev : Option ℕ) (out : List Fr)
      → fields_of items ≡ ok fs
      → Ascending prev (map F.into_bigint fs)
      → set_loop to_field items prev out ≡ ok (out ++ fs)
  unfolding fields_of set_loop
  set_loop_lem [] fs prev out h asc = ap ok (sym (append-nil out) ∙ ap (λ f. out ++ f) (ok_inj h))
  set_loop_lem (t ∷ items) fs prev out h asc = bind_ok (to_field t) h (λ f e h.
      bind_ok (fields_of items) h (λ rest e' h.
        let q : f ∷ rest ≡ fs = ok_inj h in
        let (first, later) : Ascending prev (map F.into_bigint (f ∷ rest)) =
          subst (λ g. Ascending prev (map F.into_bigint g)) (sym q) asc in
        rw (e, first)
          (set_loop_lem items rest (some (F.into_bigint f)) (out ++ f ∷ []) e' later
            ∙ ap ok (append_assoc out (f ∷ []) rest ∙ ap (λ g. out ++ g) q))))

  set_loop_inv :
      (items : List T) (prev : Option ℕ) (out res : List Fr)
      → set_loop to_field items prev out ≡ ok res
      → (fs : List Fr) × (fields_of items ≡ ok fs)
        × (res ≡ out ++ fs)
        × Ascending prev (map F.into_bigint fs)
  unfolding fields_of set_loop
  set_loop_inv [] prev out res h = ([], refl, sym (ok_inj h) ∙ sym (append-nil out), tt)
  set_loop_inv (t ∷ items) prev out res h = bind_ok (to_field t) h (λ f e h.
      bind_ok (guard (ascends prev (F.into_bigint f)) unsorted) h (λ _ g h.
        let (fs, a, b, c) = set_loop_inv items (some (F.into_bigint f)) (out ++ f ∷ []) res h in
        (f ∷ fs, rw (e, a) refl, b ∙ append_assoc out (f ∷ []) fs, (guard-eq-ok _ _ g, c))))

-- The encoder accepts a vector exactly where its elements ascend strictly, and then writes the length
-- and the elements.
pub encode_set_iff :
    {Fr T : Type 0} ⦃F : PrimeField Fr⦄ (to_field : T → Result Error Fr) (items : List T)
    (out res : List Fr)
    → (encode_set to_field items out ≡ ok res) ↔ (
        (fs : List Fr) × (fields_of to_field items ≡ ok fs)
        × Ascending none (map F.into_bigint fs)
        × (res ≡ out ++ F.from (length items) ∷ fs))
unfolding encode_set
encode_set_iff ⦃F⦄ to_field items out res = (
  (λ h.
      let (fs, a, b, c) = set_loop_inv to_field items none _ res h in
      (fs, a, c, b ∙ append_assoc out (F.from (length items) ∷ []) fs)),
  (λ (fs, a, c, b).
      set_loop_lem to_field items fs none (out ++ F.from (length items) ∷ []) a c
      ∙ ap ok (append_assoc out (F.from (length items) ∷ []) fs ∙ sym b)),
)

-- ===== src/Codec/SortLaws.antt =====
-- `sort_set` of codec.rs and the encoder of the sets that it gives.
use outbe_circuits.Prelude.{
  ℕ, ◌≡◌, refl, sym, ap, ◌∙◌, ◌↔◌, inl, inr, Bool, true, false, none, List, [], ◌∷◌, ◌++◌, map,
  arith, Result, ok, ◌>>=◌, ◌==◌, ==_iff, ==_refl, Bool-cases, length, All, bind_ok, ok_inj,
}
use mathlib.Core.List.{Memᴰ}
use mathlib.Core.Path.{subst}
use outbe_circuits.Error.{Error}
use outbe_circuits.Field.{PrimeField, IsLawful}
use outbe_circuits.Codec.Sets.{encode_set, keys, sort_by_key, dedup, sort_set}
use outbe_circuits.Codec.SetLaws.{Ascending, fields_of, encode_set_iff}
use outbe_circuits.Codec.Ascents.{
  has, keys_of, has-dedup, Ascending-dedup, All-dedup, Ascending-unique,
}

length-map : {A B : Type 0} (f : A → B) (xs : List A) → length (map f xs) ≡ length xs
length-map f [] = refl
length-map f (x ∷ xs) = omega (arith, length-map f xs)

-- Where tests hold together, they are equal.
both : (b c : Bool) → (b ≡ true → c ≡ true) → (c ≡ true → b ≡ true) → b ≡ c
both true c f g = sym (f refl)
both false true f g = g refl
both false false f g = refl

module _ {Fr T : Type 0} ⦃F : PrimeField Fr⦄ (to_field : T → Result Error Fr) where
  module _ (lawful : IsLawful F) where
    has_of_mem :
        (f : Fr) (fs : List Fr) → Memᴰ f fs → has (F.into_bigint f) (map F.into_bigint fs) ≡ true
    has_of_mem f [] mem = elim mem [ ]
    has_of_mem f (g ∷ fs) (Memᴰ.head e) = rw (← e) (rw (==_refl (F.into_bigint f)) refl)
    has_of_mem f (g ∷ fs) (Memᴰ.tail mem) = ground (arith, has_of_mem f fs mem)

    -- A number that is held is that of an element of the list.
    mem_of_has :
        (k : ℕ) (fs : List Fr)
        → has k (map F.into_bigint fs) ≡ true
        → (f : Fr) × Memᴰ f fs × (F.into_bigint f ≡ k)
    mem_of_has k [] h = cc
    mem_of_has k (g ∷ fs) h = elim (Bool-cases (F.into_bigint g == k)) [
      | inl t ↦ (g, Memᴰ.head refl, (==_iff (F.into_bigint g) k).0 t)
      | inr b ↦ let (f, mem, e) = mem_of_has k fs (ground (arith, b, h)) in (f, Memᴰ.tail mem, e)
    ]

    into_inj : (f g : Fr) → F.into_bigint f ≡ F.into_bigint g → f ≡ g
    into_inj f g e = sym (lawful.from-into_bigint f) ∙ ap F.from e ∙ lawful.from-into_bigint g

    -- Lists of elements whose numbers are the same hold the same elements.
    mem_same :
        (fs gs : List Fr)
        → ((k : ℕ) → has k (map F.into_bigint fs) ≡ has k (map F.into_bigint gs))
        → (f : Fr) → Memᴰ f fs
        → Memᴰ f gs
    mem_same fs gs same f mem =
        let (g, at, e) =
          mem_of_has (F.into_bigint f) gs (sym (same (F.into_bigint f)) ∙ has_of_mem f fs mem) in
        subst (λ x. Memᴰ x gs) (into_inj g f e) at

    has_same :
        (fs gs : List Fr)
        → ((f : Fr) → Memᴰ f fs ↔ Memᴰ f gs)
        → (k : ℕ) → has k (map F.into_bigint fs) ≡ has k (map F.into_bigint gs)
    has_same fs gs same k =
        both _ _
          (λ h. let (f, mem, e) = mem_of_has k fs h in rw (← e) (has_of_mem f gs ((same f).0 mem)))
          (λ h. let (f, mem, e) = mem_of_has k gs h in rw (← e) (has_of_mem f fs ((same f).1 mem)))

  -- The key of a pair is the number of its item's element.
  IsKeyed : ℕ × T → Type 0
  IsKeyed (k, t) = (to_field t ≡ ok (F.from k)) × (F.into_bigint (F.from k) ≡ k)

  keys-ok :
      (items : List T) (fs : List Fr)
      → IsLawful F
      → fields_of to_field items ≡ ok fs
      → (keyed : List (ℕ × T)) × (keys to_field items ≡ ok keyed)
        × All IsKeyed keyed
        × (keys_of keyed ≡ map F.into_bigint fs)
  unfolding keys fields_of IsKeyed
  keys-ok [] fs lawful h = ([], refl, tt, ap (map F.into_bigint) (ok_inj h))
  keys-ok (t ∷ items) fs lawful h = bind_ok (to_field t) h (λ f e h.
      bind_ok (fields_of to_field items) h (λ rest e' h.
        let (keyed, a, b, c) = keys-ok items rest lawful e' in
        let back : F.from (F.into_bigint f) ≡ f = lawful.from-into_bigint f in
        (
          (F.into_bigint f, t) ∷ keyed,
          rw (e, a) refl,
          ((e ∙ ap ok (sym back), ap F.into_bigint back), b),
          ap (λ ks. F.into_bigint f ∷ ks) c ∙ ap (map F.into_bigint) (ok_inj h),
        )))

  fields_of-keyed :
      (keyed : List (ℕ × T))
      → All IsKeyed keyed
      → (fields_of to_field (map (λ x. x.1) keyed) ≡ ok (map F.from (keys_of keyed)))
        × (map F.into_bigint (map F.from (keys_of keyed)) ≡ keys_of keyed)
  unfolding fields_of IsKeyed
  fields_of-keyed [] all = (refl, refl)
  fields_of-keyed (x ∷ keyed) ((a, b), all) =
      let (c, d) = fields_of-keyed keyed all in (rw (a, c) refl, rw (b, d) refl)

  -- What sorting gives, encoded.
  sorted :
      (items : List T) (fs out : List Fr)
      → IsLawful F
      → fields_of to_field items ≡ ok fs
      → (ks : List ℕ) × Ascending none ks
        × (map F.into_bigint (map F.from ks) ≡ ks)
        × ((k : ℕ) → has k ks ≡ has k (map F.into_bigint fs))
        × (sort_set to_field items >>= (λ set. encode_set to_field set out)
            ≡ ok (out ++ F.from (length ks) ∷ map F.from ks))
  unfolding sort_set
  sorted items fs out lawful h =
      let (keyed, a, b, c) = keys-ok items fs lawful h in
      let set = dedup (sort_by_key keyed) in
      let (d, e) = fields_of-keyed set (All-dedup IsKeyed keyed b) in
      let asc : Ascending none (keys_of set) = Ascending-dedup keyed in
      (
        keys_of set,
        asc,
        e,
        (λ k. has-dedup k keyed ∙ ap (has k) c),
        rw a (
            (encode_set_iff to_field (map (λ x. x.1) set) out _).1 (
              map F.from (keys_of set),
              d,
              rw e asc,
              ap (λ n. out ++ F.from n ∷ map F.from (keys_of set))
                  (length-map (λ x. x.0) set ∙ sym (length-map (λ x. x.1) set)),
            )),
      )

-- Vectors whose items are the same set of field elements are sorted to sets with one encoding: its
-- elements are those of the set, in strictly ascending order, after their number.
pub encode_set-sort_set :
    {Fr T : Type 0} ⦃F : PrimeField Fr⦄ (to_field : T → Result Error Fr) (items items' : List T)
    (fs fs' out : List Fr)
    → IsLawful F
    → fields_of to_field items ≡ ok fs
    → fields_of to_field items' ≡ ok fs'
    → ((f : Fr) → Memᴰ f fs ↔ Memᴰ f fs')
    → (gs : List Fr) × Ascending none (map F.into_bigint gs)
      × ((f : Fr) → Memᴰ f gs ↔ Memᴰ f fs)
      × (sort_set to_field items >>= (λ set. encode_set to_field set out)
          ≡ ok (out ++ F.from (length gs) ∷ gs))
      × (sort_set to_field items' >>= (λ set. encode_set to_field set out)
          ≡ ok (out ++ F.from (length gs) ∷ gs))
encode_set-sort_set ⦃F⦄ to_field items items' fs fs' out lawful h h' same =
    let (ks, asc, back, holds, run) = sorted to_field items fs out lawful h in
    let (ls, asc', back', holds', run') = sorted to_field items' fs' out lawful h' in
    let one : ls ≡ ks =
      Ascending-unique none none ls ks asc' asc
        (λ k. holds' k ∙ sym (has_same to_field lawful fs fs' same k) ∙ sym (holds k)) in
    let members : (k : ℕ)
        → has k (map F.into_bigint (map F.from ks)) ≡ has k (map F.into_bigint fs) =
      λ k. ap (has k) back ∙ holds k in
    let size : length (map F.from ks) ≡ length ks = length-map F.from ks in
    (
      map F.from ks,
      rw back asc,
      (λ f. (
        mem_same to_field lawful (map F.from ks) fs members f,
        mem_same to_field lawful fs (map F.from ks) (λ k. sym (members k)) f,
      )),
      rw size run,
      rw (size, ← one) run',
    )

-- ===== src/Derive/Ordering.antt =====
-- The order of a group of fields.
use mathlib.Core.List.{Perm}
use mathlib.Core.List.Perm
use outbe_circuits.Prelude.{
  ℕ, ◌≤◌, ◌<◌, String, ◌≡◌, sym, ap, ◌∙◌, ◌⊎◌, inl, inr, true, none, some, List, [], ◌∷◌, map,
  arith, ok, err, panic, ◌>>=◌, ◌>>◌, leb, ◌==◌, leb→le, Bool-cases, All, bind_ok, ok_inj, err_ok,
  Result-cases,
}
use outbe_circuits.Codec.Sets.{insert_key, sort_by_key}
use outbe_circuits.Derive.{
  Member, Keyed, none_placed, without_pos, placed, no_duplicate, order_group,
}

insert_key-perm : {T : Type 0} (x : ℕ × T) (ys : List (ℕ × T)) → Perm (insert_key x ys) (x ∷ ys)
unfolding insert_key
insert_key-perm x [] = Perm.refl (x ∷ [])
insert_key-perm x (y ∷ ys) = elim (Bool-cases (leb x.0 y.0)) [
  | inl q ↦ rw q (Perm.refl (x ∷ y ∷ ys))
  | inr q ↦ rw q (Perm.trans (Perm.cons y (insert_key-perm x ys)) (Perm.swap x y ys))
]

sort_by_key-perm : {T : Type 0} (xs : List (ℕ × T)) → Perm (sort_by_key xs) xs
unfolding sort_by_key
sort_by_key-perm [] = Perm.refl []
sort_by_key-perm (x ∷ xs) =
    Perm.trans (insert_key-perm x (sort_by_key xs)) (Perm.cons x (sort_by_key-perm xs))

-- No key is above a later one.
abbrev IsSorted : {T : Type 0} → List (ℕ × T) → Type 0
IsSorted [] = Unit {0}
IsSorted (x ∷ xs) = All (λ y. x.0 ≤ y.0) xs × IsSorted xs

-- Every key is below those after it.
abbrev pub IsAscending : {T : Type 0} → List (ℕ × T) → Type 0
IsAscending [] = Unit {0}
IsAscending (x ∷ xs) = All (λ y. x.0 < y.0) xs × IsAscending xs

insert_key-All :
    {T : Type 0} (k : ℕ) (x : ℕ × T) (ys : List (ℕ × T))
    → k ≤ x.0
    → All (λ y. k ≤ y.0) ys
    → All (λ y. k ≤ y.0) (insert_key x ys)
unfolding insert_key
insert_key-All k x [] h all = (h, tt)
insert_key-All k x (y ∷ ys) h (p, all) = elim (Bool-cases (leb x.0 y.0)) [
  | inl q ↦ rw q (h, (p, all))
  | inr q ↦ rw q (p, insert_key-All k x ys h all)
]

All-below :
    {T : Type 0} (a b : ℕ) (ys : List (ℕ × T))
    → a ≤ b
    → All (λ y. b ≤ y.0) ys
    → All (λ y. a ≤ y.0) ys
All-below a b [] h all = tt
All-below a b (y ∷ ys) h (p, all) = (omega arith, All-below a b ys h all)

insert_key-IsSorted :
    {T : Type 0} (x : ℕ × T) (ys : List (ℕ × T)) → IsSorted ys → IsSorted (insert_key x ys)
unfolding insert_key
insert_key-IsSorted x [] s = (tt, tt)
insert_key-IsSorted x (y ∷ ys) (all, s) = elim (Bool-cases (leb x.0 y.0)) [
  | inl q ↦
      let le : x.0 ≤ y.0 = leb→le x.0 y.0 q in rw q ((le, All-below x.0 y.0 ys le all), (all, s))
  | inr q ↦
      let le : y.0 ≤ x.0 = ground arith in
      rw q (insert_key-All y.0 x ys le all, insert_key-IsSorted x ys s)
]

sort_by_key-IsSorted : {T : Type 0} (xs : List (ℕ × T)) → IsSorted (sort_by_key xs)
unfolding sort_by_key
sort_by_key-IsSorted [] = tt
sort_by_key-IsSorted (x ∷ xs) = insert_key-IsSorted x (sort_by_key xs) (sort_by_key-IsSorted xs)

All-above :
    {T : Type 0} (a b : ℕ) (ys : List (ℕ × T))
    → a < b
    → All (λ y. b ≤ y.0) ys
    → All (λ y. a < y.0) ys
All-above a b [] h all = tt
All-above a b (y ∷ ys) h (p, all) = (omega arith, All-above a b ys h all)

-- Sorted keys of which no two neighbours are equal ascend.
no_duplicate-IsAscending :
    {P : Type 0} (what : String) (xs : List (Keyed P)) {u : Unit {0}}
    → IsSorted xs
    → no_duplicate what xs ≡ ok u
    → IsAscending xs
unfolding no_duplicate
no_duplicate-IsAscending what [] s h = tt
no_duplicate-IsAscending what (a ∷ []) s h = (tt, tt)
no_duplicate-IsAscending what (a ∷ b ∷ xs) ((le, all), (below, s)) h =
    elim (Bool-cases (a.0 == b.0)) [
      | inl q ↦ let bad : err _ ≡ ok _ = rw q at h in absurd (err_ok bad)
      | inr q ↦
          let lt : a.0 < b.0 = ground arith in
          (
            (lt, All-above a.0 b.0 xs lt below),
            no_duplicate-IsAscending what (b ∷ xs) (below, s) (rw q at h),
          )
    ]

-- The fields that such positions come from.
abbrev pub with_pos : {P : Type 0} → List (Keyed P) → List (Member P)
with_pos [] = []
with_pos ((n, x) ∷ keyed) = (some n, x.0, x.1) ∷ with_pos keyed

placed-with_pos :
    {P : Type 0} (what : String) (fields : List (Member P)) {keyed : List (Keyed P)}
    → placed what fields ≡ ok keyed
    → fields ≡ with_pos keyed
unfolding placed
placed-with_pos what [] h = ap with_pos (ok_inj h)
placed-with_pos what ((none, i, p) ∷ fields) h = absurd (err_ok h)
placed-with_pos what ((some n, i, p) ∷ fields) {keyed} h =
    elim (Result-cases (placed what fields)) [
      | inl (rest, e) ↦
          let is : (n, (i, p)) ∷ rest ≡ keyed = ok_inj (rw e at h) in
          ap (λ fs. (some n, i, p) ∷ fs) (placed-with_pos what fields e) ∙ ap with_pos is
      | inr (inl (x, e)) ↦ absurd (err_ok (rw e at h))
      | inr (inr e) ↦ let bad : panic ≡ ok keyed = rw e at h in cc
    ]

-- A group that is accepted has positions on none of its fields, and is in the order of declaration; or on
-- all, and is in the order of strictly ascending positions.
pub order_group-cases :
    {P : Type 0} (what : String) (fields : List (Member P)) (out : List (List ℕ × P))
    → order_group what fields ≡ ok out
    → ((none_placed fields ≡ true) × (out ≡ without_pos fields))
      ⊎ ((keyed : List (Keyed P)) × (sorted : List (Keyed P)) × (fields ≡ with_pos keyed)
          × Perm sorted keyed
          × IsAscending sorted
          × (out ≡ map (λ x. x.1) sorted))
unfolding order_group
order_group-cases {P} what fields out h = elim (Bool-cases (none_placed fields)) [
  | inl q ↦ inl (q, sym (ok_inj (rw q at h)))
  | inr q ↦
      let run : (placed what fields >>= λ keyed.
      no_duplicate what (sort_by_key {T = List ℕ × P} keyed)
      >> ok (map (λ x. x.1) (sort_by_key {T = List ℕ × P} keyed)))
          ≡ ok out =
        rw q at h in
      inr (
        bind_ok (placed what fields) run λ keyed e1 h1.
          bind_ok (no_duplicate what (sort_by_key {T = List ℕ × P} keyed)) h1 λ u e2 h2. (
            keyed,
            sort_by_key {T = List ℕ × P} keyed,
            placed-with_pos what fields e1,
            sort_by_key-perm keyed,
            no_duplicate-IsAscending what (sort_by_key {T = List ℕ × P} keyed)
                (sort_by_key-IsSorted keyed) e2,
            sym (ok_inj h2),
          ))
]

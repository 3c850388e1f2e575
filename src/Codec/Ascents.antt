-- ===== src/Codec/Ascents.antt =====
-- `sort_by_key` and `dedup_by` of codec.rs on keys: their order and the keys that they hold.
use outbe_circuits.Prelude.{
  ℕ, ◌≤◌, ◌<◌, ◌≡◌, refl, sym, ap, ◌∙◌, inl, inr, Bool, true, false, ◌||◌, Option, none, some, List,
  [], ◌∷◌, map, arith, leb, ◌==◌, ==_iff, ==_refl, Bool-cases, All,
}
use outbe_circuits.Codec.Sets.{insert_key, sort_by_key, dedup_after, dedup}
use outbe_circuits.Codec.SetLaws.{Ascending}

abbrev pub has : ℕ → List ℕ → Bool
has k [] = false
has k (x ∷ xs) = x == k || has k xs

abbrev pub keys_of : {T : Type 0} → List (ℕ × T) → List ℕ
keys_of xs = map (λ x. x.0) xs

-- Each number is at least the one before it, and the first at least `p`.
abbrev Sorted : ℕ → List ℕ → Type 0
Sorted p [] = Unit
Sorted p (k ∷ ks) = (leb p k ≡ true) × Sorted k ks

module _ {T : Type 0} where
  has-insert_key :
      (k : ℕ) (x : ℕ × T) (ys : List (ℕ × T))
      → has k (keys_of (insert_key x ys)) ≡ x.0 == k || has k (keys_of ys)
  unfolding insert_key
  has-insert_key k x [] = refl
  has-insert_key k x (y ∷ ys) = elim (Bool-cases (leb x.0 y.0)) [
    | inl t ↦ rw t refl
    | inr f ↦ rw f (ground (arith, has-insert_key k x ys))
  ]

  has-sort_by_key :
      (k : ℕ) (xs : List (ℕ × T)) → has k (keys_of (sort_by_key xs)) ≡ has k (keys_of xs)
  unfolding sort_by_key
  has-sort_by_key k [] = refl
  has-sort_by_key k (x ∷ xs) =
      has-insert_key k x (sort_by_key xs) ∙ ap (λ b. x.0 == k || b) (has-sort_by_key k xs)

  Sorted-insert_key :
      (p : ℕ) (x : ℕ × T) (ys : List (ℕ × T))
      → leb p x.0 ≡ true
      → Sorted p (keys_of ys)
      → Sorted p (keys_of (insert_key x ys))
  unfolding insert_key
  Sorted-insert_key p x [] le s = (le, tt)
  Sorted-insert_key p x (y ∷ ys) le (first, later) = elim (Bool-cases (leb x.0 y.0)) [
    | inl t ↦ rw t (le, (t, later))
    | inr f ↦ rw f (first, Sorted-insert_key y.0 x ys (ground (arith, f)) later)
  ]

  Sorted-sort_by_key : (xs : List (ℕ × T)) → Sorted 0 (keys_of (sort_by_key xs))
  unfolding sort_by_key
  Sorted-sort_by_key [] = tt
  Sorted-sort_by_key (x ∷ xs) =
      Sorted-insert_key 0 x (sort_by_key xs) (ground arith) (Sorted-sort_by_key xs)

  has-dedup_after :
      (k p : ℕ) (xs : List (ℕ × T))
      → p == k || has k (keys_of (dedup_after p xs)) ≡ p == k || has k (keys_of xs)
  unfolding dedup_after
  has-dedup_after k p [] = refl
  has-dedup_after k p (x ∷ xs) = elim (Bool-cases (x.0 == p)) [
    | inl t ↦
        let e : x.0 ≡ p = (==_iff x.0 p).0 t in rw (t, e) (ground (arith, has-dedup_after k p xs))
    | inr f ↦ rw f (ground (arith, has-dedup_after k x.0 xs))
  ]

  Ascending-dedup_after :
      (p : ℕ) (xs : List (ℕ × T))
      → Sorted p (keys_of xs)
      → Ascending (some p) (keys_of (dedup_after p xs))
  unfolding dedup_after
  Ascending-dedup_after p [] s = tt
  Ascending-dedup_after p (x ∷ xs) (first, later) = elim (Bool-cases (x.0 == p)) [
    | inl t ↦
        let e : x.0 ≡ p = (==_iff x.0 p).0 t in rw t (Ascending-dedup_after p xs (rw (← e) later))
    | inr f ↦ rw f (ground (arith, f, first), Ascending-dedup_after x.0 xs later)
  ]

  pub has-dedup :
      (k : ℕ) (xs : List (ℕ × T)) → has k (keys_of (dedup (sort_by_key xs))) ≡ has k (keys_of xs)
  unfolding dedup
  has-dedup k xs = each (sort_by_key xs) ∙ has-sort_by_key k xs
    where
      each : (ys : List (ℕ × T)) → has k (keys_of (dedup ys)) ≡ has k (keys_of ys)
      each [] = refl
      each (y ∷ ys) = has-dedup_after k y.0 ys

  pub Ascending-dedup : (xs : List (ℕ × T)) → Ascending none (keys_of (dedup (sort_by_key xs)))
  unfolding dedup
  Ascending-dedup xs = each (sort_by_key xs) (Sorted-sort_by_key xs)
    where
      each : (ys : List (ℕ × T)) → Sorted 0 (keys_of ys) → Ascending none (keys_of (dedup ys))
      each [] s = tt
      each (y ∷ ys) (first, later) = (refl, Ascending-dedup_after y.0 ys later)

  module _ (P : ℕ × T → Type 0) where
    All-insert_key : (x : ℕ × T) (ys : List (ℕ × T)) → P x → All P ys → All P (insert_key x ys)
    unfolding insert_key
    All-insert_key x [] p all = (p, tt)
    All-insert_key x (y ∷ ys) p (q, all) = elim (Bool-cases (leb x.0 y.0)) [
      | inl t ↦ rw t (p, (q, all))
      | inr f ↦ rw f (q, All-insert_key x ys p all)
    ]

    All-sort_by_key : (xs : List (ℕ × T)) → All P xs → All P (sort_by_key xs)
    unfolding sort_by_key
    All-sort_by_key [] all = tt
    All-sort_by_key (x ∷ xs) (p, all) = All-insert_key x (sort_by_key xs) p (All-sort_by_key xs all)

    All-dedup_after : (k : ℕ) (xs : List (ℕ × T)) → All P xs → All P (dedup_after k xs)
    unfolding dedup_after
    All-dedup_after k [] all = tt
    All-dedup_after k (x ∷ xs) (p, all) = elim (Bool-cases (x.0 == k)) [
      | inl t ↦ rw t (All-dedup_after k xs all)
      | inr f ↦ rw f (p, All-dedup_after x.0 xs all)
    ]

    pub All-dedup : (xs : List (ℕ × T)) → All P xs → All P (dedup (sort_by_key xs))
    unfolding dedup
    All-dedup xs all = each (sort_by_key xs) (All-sort_by_key xs all)
      where
        each : (ys : List (ℕ × T)) → All P ys → All P (dedup ys)
        each [] all = tt
        each (y ∷ ys) (p, all) = (p, All-dedup_after y.0 ys all)

-- What an ascending list holds lies above its bound.
above : (p k : ℕ) (ks : List ℕ) → Ascending (some p) ks → has k ks ≡ true → p < k
above p k [] asc h = cc
above p k (q ∷ ks) (first, later) h = elim (Bool-cases (q == k)) [
  | inl t ↦ ground (arith, t, first)
  | inr f ↦
      let rest : q < k = above q k ks later (ground (arith, f, h)) in ground (arith, first, rest)
]

not_below : (p : ℕ) (ks : List ℕ) → Ascending (some p) ks → has p ks ≡ false
not_below p ks asc = elim (Bool-cases (has p ks)) [
  | inl t ↦ absurd (omega (arith, above p p ks asc t))
  | inr f ↦ f
]

least : (p k : ℕ) (ks : List ℕ) → Ascending (some p) ks → has k (p ∷ ks) ≡ true → p ≤ k
least p k ks asc h = elim (Bool-cases (p == k)) [
  | inl t ↦ ground (arith, t)
  | inr f ↦ let later : p < k = above p k ks asc (ground (arith, f, h)) in omega arith
]

-- Ascending lists that hold the same numbers are the same.
pub Ascending-unique :
    (p q : Option ℕ) (ks ls : List ℕ)
    → Ascending p ks
    → Ascending q ls
    → ((k : ℕ) → has k ks ≡ has k ls)
    → ks ≡ ls
Ascending-unique p q [] [] a b same = refl
Ascending-unique p q [] (l ∷ ls) a b same = ground (arith, same l)
Ascending-unique p q (k ∷ ks) [] a b same = ground (arith, same k)
Ascending-unique p q (k ∷ ks) (l ∷ ls) (a, low) (b, high) same =
    ap (λ n. n ∷ ks) first
    ∙ ap (λ ns. l ∷ ns) (Ascending-unique (some k) (some l) ks ls low high tails)
  where
    first : k ≡ l
    first =
        let up : l ≤ k = least l k ls high (sym (same k) ∙ rw (==_refl k) refl) in
        let down : k ≤ l = least k l ks low (same l ∙ rw (==_refl l) refl) in omega arith

    tails : (n : ℕ) → has n ks ≡ has n ls
    tails n = elim (Bool-cases (k == n)) [
      | inl t ↦
          let e : k ≡ n = (==_iff k n).0 t in
          rw (← e) (not_below k ks low ∙ sym (rw first (not_below l ls high)))
      | inr f ↦ let g : l == n ≡ false = rw (← first) f in ground (arith, f, g, same n)
    ]

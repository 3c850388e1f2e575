-- ===== src/Registry/Search/Halving.antt =====
-- The search finds a key wherever it stands in an ascending list.
use outbe_circuits.Prelude.{
  ℕ, zero, suc, ◌+◌, ◌-◌, ◌/◌, ◌≤◌, ◌<◌, ◌≡◌, refl, sym, ap, ◌≢◌, inl, inr, false, none, some, List,
  [], ◌∷◌, arith, ltb, leb, ◌==◌, ltb→lt, leb→le, Bool-cases, length, get_or, All,
}
use outbe_circuits.Registry.Search.{bisect, binary_search}

-- Every key is below those after it.
abbrev pub IsAscending : List ℕ → Type 0
IsAscending [] = Unit {0}
IsAscending (k ∷ keys) = All (λ j. k < j) keys × IsAscending keys

All-get_or :
    (P : ℕ → Type 0) (keys : List ℕ) (i : ℕ) → All P keys → i < length keys → P (get_or keys i 0)
All-get_or P [] i all h = absurd (omega arith)
All-get_or P (k ∷ keys) zero (p, all) h = p
All-get_or P (k ∷ keys) (suc i) (p, all) h = All-get_or P keys i all (omega arith)

ascending :
    (keys : List ℕ) (i j : ℕ)
    → IsAscending keys
    → i < j
    → j < length keys
    → get_or keys i 0 < get_or keys j 0
ascending [] i j asc lt h = absurd (omega arith)
ascending (k ∷ keys) i zero asc lt h = absurd (omega arith)
ascending (k ∷ keys) zero (suc j) (above, asc) lt h =
    All-get_or (λ x. k < x) keys j above (omega arith)
ascending (k ∷ keys) (suc i) (suc j) (above, asc) lt h =
    ascending keys i j asc (omega arith) (omega arith)

-- A smaller key stands before, and a key that is not smaller does not.
above :
    (keys : List ℕ) (i m : ℕ)
    → IsAscending keys
    → i < length keys
    → get_or keys i 0 < get_or keys m 0
    → i < m
above keys i m asc h lt = elim (Bool-cases (ltb i m)) [
  | inl q ↦ ltb→lt i m q
  | inr q ↦ elim (Bool-cases (ltb m i)) [
    | inl p ↦ absurd (omega (arith, ascending keys m i asc (ltb→lt m i p) h))
    | inr p ↦
        let same : i ≡ m = ground arith in absurd (omega (arith, ap (λ k. get_or keys k 0) same))
  ]
]

below :
    (keys : List ℕ) (m j : ℕ)
    → IsAscending keys
    → m < length keys
    → ltb (get_or keys j 0) (get_or keys m 0) ≡ false
    → m ≤ j
below keys m j asc h not_less = elim (Bool-cases (leb m j)) [
  | inl q ↦ leb→le m j q
  | inr q ↦
      let lt : j < m = ground arith in
      let k : get_or keys j 0 < get_or keys m 0 = ascending keys j m asc lt h in ground arith
]

bisect-at :
    (fuel : ℕ) (keys : List ℕ) (base size j : ℕ)
    → IsAscending keys
    → base ≤ j
    → j < base + size
    → base + size ≤ length keys
    → size ≤ fuel + 1
    → bisect fuel keys (get_or keys j 0) base size ≡ j
unfolding bisect
bisect-at zero keys base size j asc le lt inside fuels = omega arith
bisect-at (suc fuel) keys base size j asc le lt inside fuels = elim (Bool-cases (leb size 1)) [
  | inl q ↦ let one : j ≡ base = ground arith in rw q (sym one)
  | inr q ↦
      let many : 1 < size = ground arith in
      elim (Bool-cases (ltb (get_or keys j 0) (get_or keys (base + size / 2) 0))) [
        | inl less ↦
            let before : j < base + size / 2 =
              above keys j (base + size / 2) asc (omega arith) (ltb→lt _ _ less) in
            rw (q, less)
              (bisect-at fuel keys base (size - size / 2) j asc le (omega arith) (omega arith)
                (omega arith))
        | inr more ↦
            let from : base + size / 2 ≤ j =
              below keys (base + size / 2) j asc (omega arith) more in
            rw (q, more)
              (bisect-at fuel keys (base + size / 2) (size - size / 2) j asc from (omega arith)
                (omega arith) (omega arith))
      ]
]

bisect-lt :
    (fuel : ℕ) (keys : List ℕ) (key base size : ℕ)
    → 0 < size
    → bisect fuel keys key base size < base + size
unfolding bisect
bisect-lt zero keys key base size h = omega arith
bisect-lt (suc fuel) keys key base size h =
    elim (Bool-cases (ltb key (get_or keys (base + size / 2) 0))) [
      | inl less ↦
          rw less (ground (arith, bisect-lt fuel keys key base (size - size / 2) (omega arith)))
      | inr more ↦ rw more (
          ground (arith, bisect-lt fuel keys key (base + size / 2) (size - size / 2) (omega arith)))
    ]

-- In an ascending list a key is found at its position.
pub binary_search-at :
    (keys : List ℕ) (j : ℕ)
    → IsAscending keys
    → j < length keys
    → binary_search keys (get_or keys j 0) ≡ some j
unfolding binary_search
binary_search-at keys j asc h =
    rw
      (bisect-at (length keys) keys 0 (length keys) j asc (omega arith) (omega arith) (omega arith)
        (omega arith))
      (ground arith)

-- A key that stands nowhere is not found, in whatever order.
pub binary_search-absent :
    (keys : List ℕ) (key : ℕ) → All (λ k. k ≢ key) keys → binary_search keys key ≡ none
unfolding binary_search
binary_search-absent keys key all = elim (Bool-cases (length keys == 0)) [
  | inl q ↦ rw q refl
  | inr q ↦
      let bound : bisect (length keys) keys key 0 (length keys) < 0 + length keys =
        bisect-lt (length keys) keys key 0 (length keys) (ground arith) in
      let other : get_or keys (bisect (length keys) keys key 0 (length keys)) 0 ≢ key =
        All-get_or (λ k. k ≢ key) keys _ all (omega arith) in
      rw q (ground arith)
]

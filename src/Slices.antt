-- ===== src/Slices.antt =====
-- Slices of byte sequences, `&xs[a..b]`, and the checked sums of `usize` that bound them.
use outbe_circuits.Prelude.{
  ℕ, zero, suc, ◌+◌, ◌-◌, ◌^◌, ◌≤◌, ◌<◌, ◌≡◌, refl, sym, ap, ◌∙◌, ◌↔◌, Bool, true, false, not, ◌&&◌,
  ◌||◌, Option, none, some, List, [], ◌∷◌, ◌++◌, arith, Result, ok, panic, ltb, leb, ◌==◌,
  if◌then◌else◌, length, take, drop, replicate, All, length-append, length-take, length-drop,
  take-append, drop-append, take-append-drop,
}

-- `&xs[a..b]`
unfoldable pub slice : {E A : Type 0} → List A → ℕ → ℕ → Result E (List A)
slice xs a b = if leb a b && leb b (length xs) then ok (take (b - a) (drop a xs)) else panic

-- `a.checked_add(b)` on 64 bits.
unfoldable pub checked_add : ℕ → ℕ → Option ℕ
checked_add a b = if ltb (a + b) (2 ^ 64) then some (a + b) else none

-- `bytes.iter().any(|byte| *byte != 0)`
abbrev pub any_nonzero : List ℕ → Bool
any_nonzero [] = false
any_nonzero (b ∷ bytes) = not (b == 0) || any_nonzero bytes

abbrev pub bytes_eq : List ℕ → List ℕ → Bool
bytes_eq [] [] = true
bytes_eq [] (y ∷ ys) = false
bytes_eq (x ∷ xs) [] = false
bytes_eq (x ∷ xs) (y ∷ ys) = x == y && bytes_eq xs ys

pub bytes_eq_iff : (xs ys : List ℕ) → (bytes_eq xs ys ≡ true) ↔ (xs ≡ ys)
bytes_eq_iff [] [] = ground arith
bytes_eq_iff [] (y ∷ ys) = ground arith
bytes_eq_iff (x ∷ xs) [] = ground arith
bytes_eq_iff (x ∷ xs) (y ∷ ys) = ground (arith, bytes_eq_iff xs ys)

pub any_nonzero-replicate : (n : ℕ) → any_nonzero (replicate n 0) ≡ false
any_nonzero-replicate zero = refl
any_nonzero-replicate (suc n) = any_nonzero-replicate n

pub zeros_of_any_nonzero : (xs : List ℕ) → any_nonzero xs ≡ false → xs ≡ replicate (length xs) 0
zeros_of_any_nonzero [] h = refl
zeros_of_any_nonzero (x ∷ xs) h =
    let zero_head : x ≡ 0 = ground arith in
    let rest : xs ≡ replicate (length xs) 0 = zeros_of_any_nonzero xs (ground arith) in
    ap (λ k. k ∷ xs) zero_head ∙ ap (λ ks. 0 ∷ ks) rest

pub slice-append :
    {E A : Type 0} (xs ys zs : List A) (a b : ℕ)
    → a ≡ length xs
    → b ≡ length xs + length ys
    → slice {E = E} (xs ++ (ys ++ zs)) a b ≡ ok ys
unfolding slice
slice-append xs ys zs a b p q =
    let width : length xs + length ys - length xs ≡ length ys = omega arith in
    let first : leb (length xs) (length xs + length ys) ≡ true = ground arith in
    let last : leb (length xs + length ys) (length (xs ++ (ys ++ zs))) ≡ true =
      ground (arith, length-append xs (ys ++ zs), length-append ys zs) in
    rw (p, q, first, last, drop-append xs (ys ++ zs), width, take-append ys zs) refl

pub checked_add-some : (a b : ℕ) → a + b < 2 ^ 64 → checked_add a b ≡ some (a + b)
unfolding checked_add
checked_add-some a b lt = ground arith

pub checked_add-eq-some :
    (a b : ℕ) {c : ℕ} → checked_add a b ≡ some c → (c ≡ a + b) × (a + b < 2 ^ 64)
unfolding checked_add
checked_add-eq-some a b h = (ground arith, ground arith)

pub drop-drop : {A : Type 0} (a n : ℕ) (xs : List A) → drop n (drop a xs) ≡ drop (a + n) xs
drop-drop zero n xs = let q : 0 + n ≡ n = omega arith in rw q refl
drop-drop (suc a) zero [] = let q : suc a + 0 ≡ suc a = omega arith in rw q refl
drop-drop (suc a) (suc n) [] = let q : suc a + suc n ≡ suc (a + suc n) = omega arith in rw q refl
drop-drop (suc a) n (x ∷ xs) =
    let q : suc a + n ≡ suc (a + n) = omega arith in rw q (drop-drop a n xs)

pub drop_end : {A : Type 0} (n : ℕ) (xs : List A) → length xs ≤ n → drop n xs ≡ []
drop_end zero [] h = refl
drop_end zero (x ∷ xs) h = absurd (omega arith)
drop_end (suc n) [] h = refl
drop_end (suc n) (x ∷ xs) h = drop_end n xs (omega arith)

pub All-take : {A : Type 0} (P : A → Type 0) (n : ℕ) (xs : List A) → All P xs → All P (take n xs)
All-take P zero xs p = tt
All-take P (suc n) [] p = tt
All-take P (suc n) (x ∷ xs) (p, ps) = (p, All-take P n xs ps)

pub All-drop : {A : Type 0} (P : A → Type 0) (n : ℕ) (xs : List A) → All P xs → All P (drop n xs)
All-drop P zero xs p = p
All-drop P (suc n) [] p = tt
All-drop P (suc n) (x ∷ xs) (p, ps) = All-drop P n xs ps

slice-inv :
    {E A : Type 0} (xs ys : List A) (a b : ℕ)
    → slice {E = E} xs a b ≡ ok ys
    → (a ≤ b) × (b ≤ length xs) × (ys ≡ take (b - a) (drop a xs))
unfolding slice
slice-inv xs ys a b h = (ground arith, ground arith, ground arith)

-- What a slice that does not panic is: the part between two positions.
pub slice-eq-ok :
    {E A : Type 0} (xs ys : List A) (a b : ℕ)
    → slice {E = E} xs a b ≡ ok ys
    → (a ≤ b) × (b ≤ length xs) × (length ys ≡ b - a) × (drop a xs ≡ ys ++ drop b xs)
slice-eq-ok xs ys a b h =
    let (le, inside, eq) = slice-inv xs ys a b h in
    let q : a + (b - a) ≡ b = omega arith in
    (
      le,
      inside,
      ap length eq ∙ omega (arith, length-take (b - a) (drop a xs), length-drop a xs),
      sym (take-append-drop (b - a) (drop a xs))
          ∙ rw (← eq) (ap (λ zs. ys ++ zs) (drop-drop a (b - a) xs ∙ ap (λ k. drop k xs) q)),
    )

pub All-slice :
    {E A : Type 0} (P : A → Type 0) (xs ys : List A) (a b : ℕ)
    → All P xs
    → slice {E = E} xs a b ≡ ok ys
    → All P ys
All-slice P xs ys a b all h =
    rw (slice-inv xs ys a b h).2 (All-take P (b - a) (drop a xs) (All-drop P a xs all))

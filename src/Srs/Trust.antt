-- ===== src/Srs/Trust.antt =====
-- srs.rs: which points reach the prover's library, through the operations of Srs.
use outbe_circuits.Prelude.{
  ℕ, ◌≤◌, ◌≡◌, refl, sym, ◌∙◌, ◌⊎◌, inl, inr, Option, none, some, List, ◌∷◌, arith, Result, ok, err,
  panic, map_err, leb, if◌then◌else◌, leb→le, Bool-cases, set, All,
}
use outbe_circuits.Error.{Error}
use outbe_circuits.Srs.Process.{Host, State, after}
use outbe_circuits.Srs.Pins.{g2}
use outbe_circuits.Srs.Checked.{
  IsPinned, verify_g1-IsPinned, Same, Same-refl, Post, Post-bind, Post-fail, Checked,
  choose_g1-Checked,
}
use outbe_circuits.Srs.{
  choose_g1, hand_over, initialise, ensure_given, ensure_srs, local_g1, failed, already, set_points,
}

-- The points given to the library last, and their number, where a number is set.
abbrev pub IsSettled : State → Type 0
IsSettled s =
    (k : ℕ)
    → s.points ≡ some k
    → (g1 : List ℕ) × (rest : List (List ℕ × ℕ)) × (s.handed ≡ (g1, k) ∷ rest)

-- What an operation leads to: a number that is set stays, the library is not called again, and points
-- of a pinned number that reach it have the pinned digest.
pub record Grows (host : Host) (s t : State) : Type 0 where
  pub kept : (k : ℕ) → s.points ≡ some k → (t.points ≡ some k) × (t.handed ≡ s.handed)
  pub pinned : All (IsPinned host) s.handed → All (IsPinned host) t.handed
  pub settled : IsSettled s → IsSettled t
  pub init : t.init ≡ s.init

pub Same-Grows : (host : Host) (n : ℕ) (s t : State) → Same host n s t → Grows host s t
Same-Grows host n s t same = record {
  kept = λ k e. (same.points ∙ e, same.handed);
  pinned = λ all. rw same.handed all;
  settled =
      λ old k e. let (g1, rest, q) = old k (sym same.points ∙ e) in (g1, rest, same.handed ∙ q);
  init = same.init;
}

pub Grows-refl : (host : Host) (s : State) → Grows host s s
Grows-refl host s = Same-Grows host 0 s s (Same-refl host 0 s)

pub Grows-trans : (host : Host) (s t u : State) → Grows host s t → Grows host t u → Grows host s u
Grows-trans host s t u a b = record {
  kept = λ k e. let (p, q) = a.kept k e in let (p', q') = b.kept k p in (p', q' ∙ q);
  pinned = λ all. b.pinned (a.pinned all);
  settled = λ old. b.settled (a.settled old);
  init = b.init ∙ a.init;
}

-- Where no number is set, checked points are handed over and their number may be set.
handed_Grows :
    (host : Host) (n : ℕ) (g1 : List ℕ) (s t : State) (p : Option ℕ)
    → s.points ≡ none
    → Same host n s t
    → IsPinned host (g1, n)
    → (p ≡ none) ⊎ (p ≡ some n)
    → Grows host s (record t { handed = (g1, n) ∷ t.handed; points = p })
handed_Grows host n g1 s t p fresh same trust set = record {
  kept = λ k e. cc;
  pinned = λ all. (trust, rw same.handed all);
  settled = λ old k e. (g1, t.handed, let q : n ≡ k = ground arith in rw q refl);
  init = same.init;
}

abbrev pub GrowsOf : {A : Type 0} → Host → State → Result Error A × State → Type 0
GrowsOf host s = Post (λ a t. Grows host s t) (Grows host s)

hand_over-Grows :
    (host : Host) (n : ℕ) (g1 : List ℕ) (s t : State) (r : Result Error (Unit {0}))
    → s.points ≡ none
    → Same host n s t
    → IsPinned host (g1, n)
    → GrowsOf host s (after (λ u. set_points n) (r, record t { handed = (g1, n) ∷ t.handed }))
hand_over-Grows host n g1 s t (ok u) fresh same trust =
    handed_Grows host n g1 s t (elim t.points [ none ↦ some n | some k ↦ some k ]) fresh same trust
      (inr (rw (same.points ∙ fresh) refl))
hand_over-Grows host n g1 s t (err e) fresh same trust =
    handed_Grows host n g1 s t t.points fresh same trust (inl (same.points ∙ fresh))
hand_over-Grows host n g1 s t panic fresh same trust =
    handed_Grows host n g1 s t t.points fresh same trust (inl (same.points ∙ fresh))

initialise-Grows :
    (host : Host) (n : ℕ) (s : State) → s.points ≡ none → GrowsOf host s (initialise host n s)
unfolding initialise hand_over
initialise-Grows host n s fresh =
    Post-bind (Checked host n s) (λ u t. Grows host s t) (Grows host s)
      (choose_g1 host n (local_g1 host n s) s) _
      (Post-fail (Checked host n s) (Same host n s) (Grows host s)
        (choose_g1 host n (local_g1 host n s) s) (Same-Grows host n s)
        (choose_g1-Checked host n s (local_g1 host n s) refl))
      λ g1 t c.
        hand_over-Grows host n g1 s t (map_err (failed "srs init: {}") (host.srs_init_srs g1 n g2))
          fresh c.0 (verify_g1-IsPinned host n g1 c.1)

-- Every request leaves a set number as it is, and lets no points of a pinned number through but the pinned.
pub ensure_srs-Grows : (host : Host) (n : ℕ) (s : State) → GrowsOf host s (ensure_srs host n s)
unfolding ensure_srs
ensure_srs-Grows host n s = given s.points refl
  where
    same : Grows host s s
    same = Grows-refl host s

    given : (p : Option ℕ) → s.points ≡ p → GrowsOf host s (ensure_given host n p s)
    given none e = initialise-Grows host n s e
    given (some k) e = answer (if leb n k then ok tt else err (already k n))
      where
        answer : (r : Result Error (Unit {0})) → GrowsOf host s (r, s)
        answer (ok u) = same
        answer (err e) = same
        answer panic = same

-- A number of points is set that covers `n`.
abbrev pub Covers : ℕ → State → Type 0
Covers n s = (k : ℕ) × (s.points ≡ some k) × (n ≤ k)

set_Covers :
    (host : Host) (n : ℕ) (g1 : List ℕ) (s t : State) (r : Result Error (Unit {0}))
    → t.points ≡ none
    → Post
        (λ u. Covers n)
        (λ t. Unit {0})
        (after (λ u. set_points n) (r, record t { handed = (g1, n) ∷ t.handed }))
set_Covers host n g1 s t (ok u) fresh = (n, rw fresh refl, omega arith)
set_Covers host n g1 s t (err e) fresh = tt
set_Covers host n g1 s t panic fresh = tt

initialise-Covers :
    (host : Host) (n : ℕ) (s : State)
    → s.points ≡ none
    → Post (λ u. Covers n) (λ t. Unit {0}) (initialise host n s)
unfolding initialise hand_over
initialise-Covers host n s fresh =
    Post-bind (Checked host n s) (λ u. Covers n) (λ t. Unit {0})
      (choose_g1 host n (local_g1 host n s) s) _
      (Post-fail (Checked host n s) (Same host n s) (λ t. Unit {0})
        (choose_g1 host n (local_g1 host n s) s) (λ t same. tt)
        (choose_g1-Checked host n s (local_g1 host n s) refl))
      λ g1 t c.
        set_Covers host n g1 s t (map_err (failed "srs init: {}") (host.srs_init_srs g1 n g2))
          (c.0.points ∙ fresh)

-- A request that succeeds leaves enough points.
pub ensure_srs-Covers :
    (host : Host) (n : ℕ) (s : State) → Post (λ u. Covers n) (λ t. Unit {0}) (ensure_srs host n s)
unfolding ensure_srs
ensure_srs-Covers host n s = given s.points refl
  where
    given :
        (p : Option ℕ)
        → s.points ≡ p
        → Post (λ u. Covers n) (λ t. Unit {0}) (ensure_given host n p s)
    given none e = initialise-Covers host n s e
    given (some k) e = elim (Bool-cases (leb n k)) [
      | inl q ↦ rw q (k, e, leb→le n k q)
      | inr q ↦ rw q tt
    ]

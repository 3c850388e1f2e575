-- ===== src/Backend/Ready.antt =====
-- What a successful setup of the reference string promises to every later call.
use outbe_circuits.Prelude.{
  ℕ, zero, suc, ◌+◌, ◌-◌, ◌*◌, ◌^◌, ◌≤◌, ◌<◌, max, ◌≡◌, refl, sym, ap, ◌∙◌, ◌⊎◌, inl, inr, Bool,
  Option, none, some, List, arith, Result, ok, err, map_err, leb, if◌then◌else◌, lt→ltb, leb→le,
  Bool-cases,
}
use mathlib.Core.Path.{subst}
use outbe_circuits.Error.{Error, Message}
use outbe_circuits.Srs.Process.{Host, State}
use outbe_circuits.Srs.{u32_of, ensure_srs, already}
use outbe_circuits.Srs.Checked.{Post}
use outbe_circuits.Srs.Trust.{Covers, ensure_srs-Covers}
use outbe_circuits.Backend.{
  canonical_srs_points, preinit_srs, init_crs, init_given, with_path, outcome, log2_ceil,
  compute_subgroup_size, subgroup_size, ensure_srs_for,
}
use outbe_circuits.Backend.OneShot.{Reach, Reach-Advances}

pub Post-ok :
    {A : Type 0} (Q : A → State → Type 0) (E : State → Type 0) (r : Result Error A × State) (a : A)
    (t : State)
    → Post Q E r
    → r ≡ (ok a, t)
    → Q a t
Post-ok Q E r a t h e = subst (Post Q E) e h

-- After a request has succeeded there is one number of points that answers every later request, of
-- whatever size and after any calls: up to it with success, above it with the error, and the state
-- stays.
pub ensure_srs-Covers_ever :
    (host : Host) (n : ℕ) (s t : State)
    → ensure_srs host n s ≡ (ok tt, t)
    → (k : ℕ) × (n ≤ k)
      × ((u : State)
          → Reach host t u
          → (m : ℕ) → ensure_srs host m u ≡ (if leb m k then ok tt else err (already k m), u))
unfolding ensure_srs
ensure_srs-Covers_ever host n s t e =
    let (k, p, le) =
      Post-ok (λ u. Covers n) (λ t. Unit {0}) (ensure_srs host n s) tt t
        (ensure_srs-Covers host n s) e in
    (k, le, λ u r m. rw ((Reach-Advances r).kept k p).0 refl)

-- The outcome that `init_crs` keeps is what it answers.
kept_outcome :
    (host : Host) (s : State)
    → (o : Result Message (Unit {0})) × ((init_crs host s).1.init ≡ some o)
      × ((init_crs host s).0 ≡ map_err Error.proof o)
unfolding init_crs
kept_outcome host s = given s.init refl
  where
    given :
        (p : Option (Result Message (Unit {0})))
        → s.init ≡ p
        → (o : Result Message (Unit {0})) × ((init_given host p s).1.init ≡ some o)
          × ((init_given host p s).0 ≡ map_err Error.proof o)
    given (some o) e = (o, e, refl)
    given none e = (
      outcome (preinit_srs host canonical_srs_points (with_path host.outbe_bb_srs_path s)).0,
      refl,
      refl,
    )

-- `init_crs` answers the same ever after, whatever is called or changed in between.
pub init_crs_memo :
    (host : Host) (s t u : State) (r : Result Error (Unit {0}))
    → init_crs host s ≡ (r, t)
    → Reach host t u
    → init_crs host u ≡ (r, u)
unfolding init_crs
init_crs_memo host s t u r e reach =
    let (o, kept, answer) = kept_outcome host s in
    let here : t.init ≡ some o = sym (ap (λ p. p.1.init) e) ∙ kept in
    let there : u.init ≡ some o = (Reach-Advances reach).memo o here in
    rw (there, sym (ap (λ p. p.0) e) ∙ answer) refl

pow_suc : (k : ℕ) → 2 ^ suc k ≡ 2 * 2 ^ k
pow_suc k = grind arith

-- `k` is the least exponent from `k0` on whose power is not below `n`.
log2_ceil-least :
    (fuel k n : ℕ)
    → n ≤ 2 ^ (fuel + k)
    → (n ≤ 2 ^ log2_ceil fuel k n)
      × (log2_ceil fuel k n ≤ fuel + k)
      × (((log2_ceil fuel k n ≡ k)) ⊎ (2 ^ log2_ceil fuel k n < 2 * n))
unfolding log2_ceil
log2_ceil-least zero k n h =
    let q : 0 + k ≡ k = omega arith in (subst (λ e. n ≤ 2 ^ e) q h, omega arith, inl refl)
log2_ceil-least (suc fuel) k n h = elim (Bool-cases (leb n (2 ^ k))) [
  | inl q ↦ rw q (leb→le n (2 ^ k) q, omega arith, inl refl)
  | inr q ↦
      let below : 2 ^ k < n = ground arith in
      let e : suc fuel + k ≡ fuel + suc k = omega arith in
      let (enough, bounded, least) = log2_ceil-least fuel (suc k) n (subst (λ x. n ≤ 2 ^ x) e h) in
      rw q (
        enough,
        omega (arith, bounded),
        elim least [ inl z ↦ inr (rw z (omega (arith, pow_suc k))) | inr lt ↦ inr lt ],
      )
]

-- For up to 2 ^ 31 gates the subgroup has the least power of two of points that is not below them.
pub compute_subgroup_size-bounds :
    (checks : Bool) (n : ℕ)
    → n ≤ 2 ^ 31
    → (k : ℕ) × (compute_subgroup_size checks n ≡ ok (2 ^ k))
      × (n ≤ 2 ^ k)
      × ((2 ^ k ≡ 1) ⊎ (2 ^ k < 2 * n))
unfolding compute_subgroup_size u32_of
compute_subgroup_size-bounds checks n h =
    let k : ℕ = log2_ceil 32 0 n in
    let (enough, bounded, least) = log2_ceil-least 32 0 n (omega arith) in
    let value : (2 ^ k ≡ 1) ⊎ (2 ^ k < 2 * n) = elim least [
      | inl z ↦ inl (ap (λ e. 2 ^ e) z)
      | inr lt ↦ inr lt
    ] in
    let small : 2 ^ k < 2 ^ 32 = ground arith in
    (k, rw (lt→ltb (2 ^ k) (2 ^ 32) small) refl, enough, value)

u32_of-fits : (checks : Bool) (n : ℕ) → n < 2 ^ 32 → u32_of {E = Error} checks n ≡ ok n
unfolding u32_of
u32_of-fits checks n h = ground arith

reserved :
    (host : Host) (acir : List ℕ) (z : Bool) (s : State) (gates dyadic k : ℕ)
    → host.circuit_stats acir z ≡ ok (gates, dyadic)
    → compute_subgroup_size host.overflow_checks gates ≡ ok k
    → max dyadic k + 1 < 2 ^ 32
    → ensure_srs_for host acir z s ≡ ensure_srs host (max (max dyadic k + 1) canonical_srs_points) s
unfolding ensure_srs_for subgroup_size
reserved host acir z s gates dyadic k stats size fits =
    rw (stats, size, u32_of-fits host.overflow_checks (max dyadic k + 1) fits) refl

-- Where `ensure_srs_for` succeeds for a circuit whose sizes fit the machine, more points are set than it
-- has gates, by either count, and at least those of the canonical set.
pub ensure_srs_for-Covers :
    (host : Host) (acir : List ℕ) (z : Bool) (s t : State) (gates dyadic : ℕ)
    → host.circuit_stats acir z ≡ ok (gates, dyadic)
    → gates < 2 ^ 31
    → dyadic < 2 ^ 32 - 1
    → ensure_srs_for host acir z s ≡ (ok tt, t)
    → (k : ℕ) × (t.points ≡ some k) × (gates < k) × (dyadic < k) × (canonical_srs_points ≤ k)
ensure_srs_for-Covers host acir z s t gates dyadic stats few fewer e =
    let (k, size, enough, least) =
      compute_subgroup_size-bounds host.overflow_checks gates (omega arith) in
    let n : ℕ = max (max dyadic (2 ^ k) + 1) canonical_srs_points in
    let run : ensure_srs host n s ≡ (ok tt, t) =
      sym (reserved host acir z s gates dyadic (2 ^ k) stats size (ground arith)) ∙ e in
    let (m, p, le) =
      Post-ok (λ u. Covers n) (λ t. Unit {0}) (ensure_srs host n s) tt t
        (ensure_srs-Covers host n s) run in
    (m, p, omega arith, omega arith, omega arith)

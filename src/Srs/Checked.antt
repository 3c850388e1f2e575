-- ===== src/Srs/Checked.antt =====
-- srs.rs: which points pass the checks on the way to the prover's library.
use outbe_circuits.Prelude.{
  ℕ, ◌+◌, ◌^◌, ◌≡◌, refl, sym, ap, ◌∙◌, ◌⊎◌, inl, inr, Bool, true, false, some, List, arith, Result,
  ok, err, panic, if◌then◌else◌, Bool-cases,
}
use outbe_circuits.Error.{Error}
use outbe_circuits.Slices.{bytes_eq, bytes_eq_iff}
use outbe_circuits.Srs.Process.{Host, State, Action, after, bound}
use outbe_circuits.Srs.Pins.{digest_14, digest_16, digest_20, pinned_g1_sha256}
use outbe_circuits.Srs.{
  verify_g1, check_pin, find_pin, choose_g1, fetch_g1, local_g1, net_g1, written, cache_g1,
  local_g1_path,
}

-- Points of a pinned number have the pinned digest; of points of other numbers this asks nothing, as
-- `verify_g1` does.
pub record IsPinned (host : Host) (points : List ℕ × ℕ) : Type 0 where
  pub emit_paynote : points.1 ≡ 2 ^ 14 + 1 → host.sha256 points.0 ≡ digest_14
  pub canonical : points.1 ≡ 2 ^ 16 + 1 → host.sha256 points.0 ≡ digest_16
  pub largest : points.1 ≡ 2 ^ 20 + 1 → host.sha256 points.0 ≡ digest_20

check_pin-eq-ok :
    (n : ℕ) (digest expected : List ℕ) {u : Unit {0}}
    → check_pin n digest (some expected) ≡ ok u
    → digest ≡ expected
check_pin-eq-ok n digest expected h = ground (arith, bytes_eq_iff digest expected)

digest_of_pin :
    (host : Host) (n k : ℕ) (bytes expected : List ℕ) {u : Unit {0}}
    → find_pin k pinned_g1_sha256 ≡ some expected
    → verify_g1 host n bytes ≡ ok u
    → n ≡ k
    → host.sha256 bytes ≡ expected
unfolding verify_g1
digest_of_pin host n k bytes expected pin h e =
    check_pin-eq-ok n (host.sha256 bytes) expected (
      sym (ap (check_pin n (host.sha256 bytes)) (ap (λ m. find_pin m pinned_g1_sha256) e ∙ pin))
      ∙ h)

pub verify_g1-IsPinned :
    (host : Host) (n : ℕ) (bytes : List ℕ) {u : Unit {0}}
    → verify_g1 host n bytes ≡ ok u
    → IsPinned host (bytes, n)
unfolding find_pin
verify_g1-IsPinned host n bytes h = record {
  emit_paynote = digest_of_pin host n (2 ^ 14 + 1) bytes digest_14 refl h;
  canonical = digest_of_pin host n (2 ^ 16 + 1) bytes digest_16 refl h;
  largest = digest_of_pin host n (2 ^ 20 + 1) bytes digest_20 refl h;
}

-- Each file is as it was, but the one at the local path may have become the points that were downloaded for
-- the request of `n`, which have passed the check of this number.
abbrev pub IsCached : Host → ℕ → State → State → Type 0
IsCached host n s t =
    (path : List ℕ)
    → (t.files path ≡ s.files path)
      ⊎ ((bytes : List ℕ) × (path ≡ local_g1_path host s)
          × (t.files path ≡ ok bytes)
          × (net_g1 host n ≡ ok bytes)
          × IsPinned host (bytes, n))

-- The points are those of the local file, or the download.
abbrev pub IsSourced : Host → ℕ → State → List ℕ → Type 0
IsSourced host n s g1 = (local_g1 host n s ≡ ok g1) ⊎ (net_g1 host n ≡ ok g1)

-- What getting `n` points leaves alone.
pub record Same (host : Host) (n : ℕ) (s t : State) : Type 0 where
  pub points : t.points ≡ s.points
  pub handed : t.handed ≡ s.handed
  pub init : t.init ≡ s.init
  pub cached : IsCached host n s t

pub Same-refl : (host : Host) (n : ℕ) (s : State) → Same host n s s
Same-refl host n s = record { points = refl; handed = refl; init = refl; cached = λ path. inl refl }

written_cached :
    (host : Host) (s : State) (bytes path : List ℕ) (n : ℕ)
    → net_g1 host n ≡ ok bytes
    → verify_g1 host n bytes ≡ ok tt
    → (written s.files (local_g1_path host s) bytes path ≡ s.files path)
      ⊎ ((found : List ℕ) × (path ≡ local_g1_path host s)
          × (written s.files (local_g1_path host s) bytes path ≡ ok found)
          × (net_g1 host n ≡ ok found)
          × IsPinned host (found, n))
written_cached host s bytes path n net v =
    elim (Bool-cases (bytes_eq path (local_g1_path host s))) [
      | inl q ↦ inr (
        bytes,
        (bytes_eq_iff path (local_g1_path host s)).0 q,
        rw q refl,
        net,
        verify_g1-IsPinned host n bytes v,
      )
      | inr q ↦ inl (rw q refl)
    ]

-- A result of an action, by what holds where it succeeds and where it fails.
abbrev pub Post :
    {A : Type 0} → (A → State → Type 0) → (State → Type 0) → Result Error A × State → Type 0
Post Q E (ok a, s) = Q a s
Post Q E (err e, s) = E s
Post Q E (panic, s) = E s

pub Post-bind :
    {A B : Type 0} (Q : A → State → Type 0) (R : B → State → Type 0) (E : State → Type 0)
    (r : Result Error A × State) (f : A → Action B)
    → Post Q E r
    → ((a : A) (s : State) → Q a s → Post R E (f a s))
    → Post R E (after f r)
Post-bind Q R E (ok a, s) f h k = k a s h
Post-bind Q R E (err e, s) f h k = h
Post-bind Q R E (panic, s) f h k = h

cache_g1-Same :
    (host : Host) (n : ℕ) (bytes : List ℕ) (s : State)
    → net_g1 host n ≡ ok bytes
    → verify_g1 host n bytes ≡ ok tt
    → Post (λ u t. Same host n s t) (Same host n s) (cache_g1 host bytes s)
unfolding cache_g1
cache_g1-Same host n bytes s net v = elim (Bool-cases (host.can_write (local_g1_path host s))) [
  | inl q ↦ rw q (record {
    points = refl;
    handed = refl;
    init = refl;
    cached = λ path. written_cached host s bytes path n net v;
  })
  | inr q ↦ rw q (Same-refl host n s)
]

Post-if :
    {A : Type 0} (Q : A → State → Type 0) (E : State → Type 0) (b : Bool)
    (x y : Result Error A × State)
    → Post Q E x
    → Post Q E y
    → Post Q E (if b then x else y)
Post-if Q E true x y h k = h
Post-if Q E false x y h k = k

pub Post-lift :
    {A B : Type 0} (R : B → State → Type 0) (E : State → Type 0) (r : Result Error A) (s : State)
    (f : A → Action B)
    → E s
    → ((a : A) → r ≡ ok a → Post R E (f a s))
    → Post R E (after f (r, s))
Post-lift R E (ok a) s f h k = k a refl
Post-lift R E (err e) s f h k = h
Post-lift R E panic s f h k = h

-- The points that are chosen have passed the check of their number, and where they come from.
abbrev pub Checked : Host → ℕ → State → List ℕ → State → Type 0
Checked host n s g1 t = Same host n s t × (verify_g1 host n g1 ≡ ok tt) × IsSourced host n s g1

fetch_g1-Checked :
    (host : Host) (n : ℕ) (s : State) → Post (Checked host n s) (Same host n s) (fetch_g1 host n s)
unfolding fetch_g1
fetch_g1-Checked host n s =
    Post-lift (Checked host n s) (Same host n s) (net_g1 host n) s _ (Same-refl host n s) λ g1 e.
      Post-lift (Checked host n s) (Same host n s) (verify_g1 host n g1) s _ (Same-refl host n s)
        λ u v.
          Post-bind (λ w t. Same host n s t) (Checked host n s) (Same host n s) (cache_g1 host g1 s)
            _ (cache_g1-Same host n g1 s e v) λ w t same. (same, v, inr e)

local-Checked :
    (host : Host) (n : ℕ) (s : State) (g1 : List ℕ) (r : Result Error (Unit {0}))
    → local_g1 host n s ≡ ok g1
    → verify_g1 host n g1 ≡ r
    → Post (Checked host n s) (Same host n s) (bound r (λ _. ok g1), s)
local-Checked host n s g1 (ok u) local e = (Same-refl host n s, e, inl local)
local-Checked host n s g1 (err x) local e = Same-refl host n s
local-Checked host n s g1 panic local e = Same-refl host n s

pub choose_g1-Checked :
    (host : Host) (n : ℕ) (s : State) (r : Result Error (List ℕ))
    → local_g1 host n s ≡ r
    → Post (Checked host n s) (Same host n s) (choose_g1 host n r s)
unfolding choose_g1
choose_g1-Checked host n s (ok g1) local =
    local-Checked host n s g1 (verify_g1 host n g1) local refl
choose_g1-Checked host n s panic local = Same-refl host n s
choose_g1-Checked host n s (err e) local =
    Post-if (Checked host n s) (Same host n s) host.with_network_srs _ _ (fetch_g1-Checked host n s)
      (Same-refl host n s)

pub Post-fail :
    {A : Type 0} (Q : A → State → Type 0) (E F : State → Type 0) (r : Result Error A × State)
    → ((t : State) → E t → F t)
    → Post Q E r
    → Post Q F r
Post-fail Q E F (ok a, s) k h = h
Post-fail Q E F (err e, s) k h = k s h
Post-fail Q E F (panic, s) k h = k s h

pub Post-any : {A : Type 0} (r : Result Error A × State) → Post (λ a s. Unit {0}) (λ s. Unit {0}) r
Post-any (ok a, s) = tt
Post-any (err e, s) = tt
Post-any (panic, s) = tt

-- ===== src/Srs/Local.antt =====
-- srs.rs: the bytes of the local file that a request takes.
use outbe_circuits.Prelude.{
  ℕ, ◌*◌, ◌^◌, ◌≤◌, ◌<◌, String, ◌≡◌, refl, sym, ap, ◌∙◌, ◌↔◌, Bool, false, List, [], arith, Result,
  ok, err, panic, map_err, length, take,
}
use outbe_circuits.Error.{Error}
use outbe_circuits.Srs.Process.{Host, State, bound}
use outbe_circuits.Srs.{local_g1, local_g1_path, u32_of, enough, unreadable}

sized : (checks : Bool) (n : ℕ) → n < 2 ^ 26 → u32_of {E = Error} checks (n * 64) ≡ ok (n * 64)
unfolding u32_of
sized checks n few = ground arith

-- Below 2 ^ 26 points a local read gives the first 64 bytes for each point, exactly where the file can be
-- read and is long enough.
pub local_g1_iff :
    (host : Host) (n : ℕ) (s : State) (g1 : List ℕ)
    → n < 2 ^ 26
    → (local_g1 host n s ≡ ok g1) ↔ (
        (bytes : List ℕ) × (s.files (local_g1_path host s) ≡ ok bytes)
        × (n * 64 ≤ length bytes)
        × (g1 ≡ take (n * 64) bytes))
unfolding local_g1
local_g1_iff host n s g1 few = (forward (s.files (local_g1_path host s)) refl, backward)
  where
    path : List ℕ
    path = local_g1_path host s

    result : Result String (List ℕ) → Result Error (List ℕ)
    result r =
        bound (map_err (unreadable path) r)
          (λ bytes. bound (u32_of host.overflow_checks (n * 64)) (enough path n bytes))

    backward :
        (bytes : List ℕ) × (s.files path ≡ ok bytes)
          × (n * 64 ≤ length bytes)
          × (g1 ≡ take (n * 64) bytes)
        → result (s.files path) ≡ ok g1
    backward (bytes, found, long, e) = rw (found, sized host.overflow_checks n few) (ground arith)

    forward :
        (r : Result String (List ℕ))
        → s.files path ≡ r
        → result r ≡ ok g1
        → (bytes : List ℕ) × (s.files path ≡ ok bytes)
          × (n * 64 ≤ length bytes)
          × (g1 ≡ take (n * 64) bytes)
    forward (ok bytes) found h =
        let h' : enough path n bytes (n * 64) ≡ ok g1 =
          sym (ap (λ r. bound r (enough path n bytes)) (sized host.overflow_checks n few)) ∙ h in
        (bytes, found, ground arith, ground arith)
    forward (err x) found h = cc
    forward panic found h = cc

wrapped :
    (checks : Bool) (k : ℕ) → checks ≡ false → u32_of {E = Error} checks (k * 2 ^ 26 * 64) ≡ ok 0
unfolding u32_of
wrapped checks k release = ground arith

-- A build that does not check for overflow takes no bytes at all of any readable file for a multiple of
-- 2 ^ 26 points.
pub local_g1_wrap :
    (host : Host) (k : ℕ) (s : State) (bytes : List ℕ)
    → host.overflow_checks ≡ false
    → s.files (local_g1_path host s) ≡ ok bytes
    → local_g1 host (k * 2 ^ 26) s ≡ ok []
unfolding local_g1
local_g1_wrap host k s bytes release found =
    rw (found, wrapped host.overflow_checks k release) (ground arith)

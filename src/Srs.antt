-- ===== src/Srs.antt =====
-- crates/outbe-zk-backend/src/barretenberg/srs.rs: the reference string of the prover, which a process
-- sets once. What the process can change is a state that each call takes and returns.
mod Pins
pub mod Process
pub mod Checked
pub mod Trust
pub mod Guards
pub mod Local
pub mod Runs
use outbe_circuits.Prelude.{
  ℕ, zero, suc, ◌+◌, ◌-◌, ◌*◌, ◌/◌, ◌%◌, ◌^◌, ◌≤◌, ◌<◌, min, max, String, ◌≡◌, refl, sym, ap, ◌∙◌,
  ◌≢◌, ◌↔◌, ◌⊎◌, inl, inr, Bool, true, false, not, ◌&&◌, ◌||◌, Option, none, some, List, [], ◌∷◌,
  ◌++◌, map, arith, Result, ok, err, panic, guard, map_err, ok_or, expect, index, assert, ltb, leb,
  ◌==◌, if◌then◌else◌, ltb→lt, lt→ltb, leb→le, le→leb, ==_iff, ==_refl, Bool-cases, Option-cases,
  length, get_elem?, get_or, set, take, drop, replicate, All, length-append, length-set,
  length-take, length-drop, length-replicate, take-append, drop-append, take-append-drop,
  get_elem?-some, get_elem?-none, bit_xor-one, bind_ok, ok_inj, err_ok, guard-eq-ok, ok_or-eq-ok,
  Result-cases,
}
use outbe_circuits.Error.{Error, Message, Arg}
use outbe_circuits.Hex.{hex}
use outbe_circuits.Text.{codes}
use outbe_circuits.Slices.{bytes_eq}
use Process.{Host, State, Action, bound, pure, lift, ◌>>=◌, ◌>>◌}
use Pins.{g2, pinned_g1_sha256}

-- `set_srs_path`: the first call counts.
unfoldable pub set_srs_path : List ℕ → State → State
set_srs_path path s = elim s.path_override [
  | none ↦ record s { path_override = some path }
  | some p ↦ s
]

-- A 32-bit result, which wraps where the build does not check for overflow.
unfoldable pub u32_of : {E : Type 0} → Bool → ℕ → Result E ℕ
u32_of checks n = if ltb n (2 ^ 32) then ok n else if checks then panic else ok (n % 2 ^ 32)

unfoldable pub find_pin : ℕ → List (ℕ × List ℕ) → Option (List ℕ)
find_pin num_points [] = none
find_pin num_points ((n, digest) ∷ pins) =
    if n == num_points then some digest else find_pin num_points pins

abbrev pub mismatch : ℕ → List ℕ → List ℕ → Error
mismatch num_points digest expected = Error.proof (
    Message.fmt "SRS checksum mismatch at {} points (tampered CRS?): got {}, pinned {}"
      (Arg.num num_points ∷ Arg.text (hex digest) ∷ Arg.text (hex expected) ∷ []))

-- The `match` of `verify_g1`.
abbrev pub check_pin : ℕ → List ℕ → Option (List ℕ) → Result Error (Unit {0})
check_pin num_points digest none = ok tt
check_pin num_points digest (some expected) =
    if bytes_eq digest expected then ok tt else err (mismatch num_points digest expected)

unfoldable pub verify_g1 : Host → ℕ → List ℕ → Result Error (Unit {0})
verify_g1 host num_points bytes =
    check_pin num_points (host.sha256 bytes) (find_pin num_points pinned_g1_sha256)

abbrev ends_open : List ℕ → Bool
ends_open [] = true
ends_open (c ∷ []) = c == 47
ends_open (c ∷ cs) = ends_open cs

-- `Path::new(base).join(name)` for a relative name.
abbrev join : List ℕ → List ℕ → List ℕ
join base name = if ends_open base then base ++ name else base ++ 47 ∷ name

abbrev or_default : Option (List ℕ) → List ℕ
or_default none = []
or_default (some text) = text

abbrev or_cache : Host → Option (List ℕ) → List ℕ
or_cache host (some path) = path
or_cache host none = join (or_default host.home) (codes ".bb-crs/bn254_g1.dat")

unfoldable pub local_g1_path : Host → State → List ℕ
local_g1_path host s = elim s.path_override [
  | some path ↦ path
  | none ↦ or_cache host host.bb_crs_path
]

abbrev pub unreadable : List ℕ → String → Error
unreadable path e = Error.proof (Message.fmt "read SRS {}: {}" (Arg.text path ∷ Arg.str e ∷ []))

abbrev pub too_short : List ℕ → List ℕ → ℕ → ℕ → Error
too_short path bytes need num_points = Error.proof (
    Message.fmt "cached SRS {} has {} bytes, need {} for {} points"
      (Arg.text path ∷ Arg.num (length bytes) ∷ Arg.num need ∷ Arg.num num_points ∷ []))

abbrev pub enough : List ℕ → ℕ → List ℕ → ℕ → Result Error (List ℕ)
enough path num_points bytes need =
    if ltb (length bytes) need
    then err (too_short path bytes need num_points)
    else ok (take need bytes)

-- The first `num_points * 64` bytes of the local file.
unfoldable pub local_g1 : Host → ℕ → State → Result Error (List ℕ)
local_g1 host num_points s =
    bound (map_err (unreadable path) (s.files path)) (λ bytes.
      bound (u32_of host.overflow_checks (num_points * 64)) (enough path num_points bytes))
  where
    path : List ℕ
    path = local_g1_path host s

abbrev pub failed : String → String → Error
failed what e = Error.proof (Message.fmt what (Arg.str e ∷ []))

-- The range ends at `num_points * 64 - 1`.
unfoldable pub net_g1 : Host → ℕ → Result Error (List ℕ)
net_g1 host num_points = bound (u32_of host.overflow_checks (num_points * 64)) (λ size.
    bound (last_of size) (λ last. map_err (failed "SRS download: {}") (host.download last)))
  where
    last_of : ℕ → Result Error ℕ
    last_of size =
        if size == 0
        then (if host.overflow_checks then panic else ok (2 ^ 32 - 1))
        else ok (size - 1)

abbrev pub written :
    (List ℕ → Result String (List ℕ)) → List ℕ → List ℕ → List ℕ → Result String (List ℕ)
written files path bytes p = if bytes_eq p path then ok bytes else files p

-- A failed write is ignored.
unfoldable pub cache_g1 : Host → List ℕ → Action (Unit {0})
cache_g1 host bytes s =
    let path : List ℕ = local_g1_path host s in
    if host.can_write path
    then (ok tt, record s { files = written s.files path bytes })
    else (ok tt, s)

-- The message also repeats the text of the local error, which is left out here.
abbrev no_network : List ℕ → Error
no_network path = Error.proof (
    Message.fmt
      "SRS not available at {}; the network fallback is disabled (built without `with-network-srs`). Initialize the wallet with a bundled SRS file via set_srs_path() before proving."
      (Arg.text path ∷ []))

-- The download, checked before it is kept.
unfoldable pub fetch_g1 : Host → ℕ → Action (List ℕ)
fetch_g1 host num_points = do
  g1 ← lift (net_g1 host num_points)
  lift (verify_g1 host num_points g1)
  cache_g1 host g1
  pure g1

-- `match local_g1(num_points)`
unfoldable pub choose_g1 : Host → ℕ → Result Error (List ℕ) → Action (List ℕ)
choose_g1 host num_points (ok g1) s = (bound (verify_g1 host num_points g1) (λ _. ok g1), s)
choose_g1 host num_points panic s = (panic, s)
choose_g1 host num_points (err e) s =
    if host.with_network_srs
    then fetch_g1 host num_points s
    else (err (no_network (local_g1_path host s)), s)

-- The call of the library, which may have taken the points even where it fails.
unfoldable pub hand_over : Host → ℕ → List ℕ → Action (Unit {0})
hand_over host num_points g1 s = (
  map_err (failed "srs init: {}") (host.srs_init_srs g1 num_points g2),
  record s { handed = (g1, num_points) ∷ s.handed },
)

-- `SRS_POINTS.set(num_points)`
abbrev pub set_points : ℕ → Action (Unit {0})
set_points num_points s =
    (ok tt, record s { points = elim s.points [ none ↦ some num_points | some n ↦ some n ] })

unfoldable pub initialise : Host → ℕ → Action (Unit {0})
initialise host num_points = do
  g1 ← (λ s. choose_g1 host num_points (local_g1 host num_points s) s)
  hand_over host num_points g1
  set_points num_points

abbrev pub already : ℕ → ℕ → Error
already n num_points = Error.proof (
    Message.fmt
      "bb SRS already initialized to {} points (one-shot) but this circuit needs {}; call preinit_srs(max) with the largest circuit's size first"
      (Arg.num n ∷ Arg.num num_points ∷ []))

-- What `SRS_POINTS` holds decides.
abbrev pub ensure_given : Host → ℕ → Option ℕ → Action (Unit {0})
ensure_given host num_points (some n) s =
    (if leb num_points n then ok tt else err (already n num_points), s)
ensure_given host num_points none s = initialise host num_points s

unfoldable pub ensure_srs : Host → ℕ → Action (Unit {0})
ensure_srs host num_points s = ensure_given host num_points s.points s

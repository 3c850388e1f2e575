-- ===== src/Srs/Runs.antt =====
-- srs.rs on concrete inputs: a host whose digests are all one, and a file of two points.
use outbe_circuits.Prelude.{
  ℕ, ◌+◌, ◌*◌, ◌^◌, ◌≤◌, String, ◌≡◌, refl, ◌↔◌, true, false, none, some, List, [], ◌∷◌, arith,
  Result, ok, err, if◌then◌else◌, length, take, replicate,
}
use outbe_circuits.Text.{codes}
use outbe_circuits.Slices.{bytes_eq}
use outbe_circuits.Srs.Process.{Host, State}
use outbe_circuits.Srs.Pins.{digest_14}
use outbe_circuits.Srs.{local_g1, local_g1_path, ensure_srs, verify_g1, set_srs_path}
use outbe_circuits.Srs.Guards.{Guards, ensure_srs-Guards}
use outbe_circuits.Srs.Local.{local_g1_iff, local_g1_wrap}

abbrev pub host : Host
host = record {
  sha256 = λ bytes. digest_14;
  bb_crs_path = none;
  home = some (codes "/root");
  can_write = λ path. true;
  with_network_srs = true;
  download = λ last. ok (replicate (last + 1) 7);
  srs_init_srs = λ g1 n g2. ok tt;
  circuit_stats = λ acir z. ok (90, 128);
  overflow_checks = false;
  new_backend = ok tt;
  outbe_bb_srs_path = none;
}

abbrev two_points : List ℕ
two_points = replicate 128 7

abbrev srs_file : List ℕ → Result String (List ℕ)
srs_file path =
    if bytes_eq path (codes "/root/.bb-crs/bn254_g1.dat") then ok two_points else err "missing"

abbrev pub fresh : State
fresh = record {
  points = none;
  path_override = none;
  init = none;
  slow_low_memory = none;
  storage_budget = none;
  files = srs_file;
  handed = [];
}

two : local_g1 host 1 fresh ≡ ok (replicate 64 7)
unfolding local_g1 local_g1_path outbe_circuits.Srs.u32_of
two = refl

three : (ensure_srs host 3 fresh).1.points ≡ some 3
unfolding ensure_srs outbe_circuits.Srs.initialise outbe_circuits.Srs.choose_g1 local_g1
    local_g1_path outbe_circuits.Srs.u32_of outbe_circuits.Srs.fetch_g1 outbe_circuits.Srs.net_g1
    verify_g1 outbe_circuits.Srs.find_pin outbe_circuits.Srs.cache_g1 outbe_circuits.Srs.hand_over
three = refl

local_g1_iff_example : (local_g1 host 1 fresh ≡ ok (replicate 64 7)) ↔ (
    (bytes : List ℕ) × (fresh.files (local_g1_path host fresh) ≡ ok bytes)
    × (1 * 64 ≤ length bytes)
    × (replicate 64 7 ≡ take (1 * 64) bytes))
local_g1_iff_example = local_g1_iff host 1 fresh (replicate 64 7) (omega arith)

found : srs_file (local_g1_path host fresh) ≡ ok two_points
unfolding local_g1_path
found = refl

local_g1_wrap_example : local_g1 host (1 * 2 ^ 26) fresh ≡ ok []
local_g1_wrap_example = local_g1_wrap host 1 fresh two_points refl found

-- A host without the local file, whose downloads have the pinned digest of 2 ^ 14 + 1 points.
abbrev pub served : Host
served = record host { download = λ last. ok (7 ∷ []) }

abbrev pub without_files : State
without_files = record fresh { files = λ path. err "missing" }

ensure_srs-Guards_example :
    Guards served (2 ^ 14 + 1) without_files (ensure_srs served (2 ^ 14 + 1) without_files).1
ensure_srs-Guards_example = ensure_srs-Guards served (2 ^ 14 + 1) without_files

given_pinned : (ensure_srs served (2 ^ 14 + 1) without_files).1.handed ≡ (7 ∷ [], 2 ^ 14 + 1) ∷ []
unfolding ensure_srs outbe_circuits.Srs.initialise outbe_circuits.Srs.choose_g1 local_g1
    local_g1_path outbe_circuits.Srs.u32_of outbe_circuits.Srs.fetch_g1 outbe_circuits.Srs.net_g1
    verify_g1 outbe_circuits.Srs.find_pin outbe_circuits.Srs.cache_g1 outbe_circuits.Srs.hand_over
given_pinned = refl

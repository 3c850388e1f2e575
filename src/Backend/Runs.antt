-- ===== src/Backend/Runs.antt =====
-- The backend on concrete inputs.
use outbe_circuits.Prelude.{
  ℕ, ◌+◌, ◌^◌, ◌≤◌, ◌<◌, ◌≡◌, refl, true, false, some, List, [], ◌∷◌, ◌++◌, arith, ok, err, leb,
  ◌==◌, if◌then◌else◌, length, All,
}
use outbe_circuits.FieldRuns.{Residue, bn254}
use outbe_circuits.Bytes.{to_be_bytes, length-to_be_bytes, to_be_bytes-IsBytes}
use outbe_circuits.Zkproof.PublicLaws.{concat}
use outbe_circuits.Verifier.{verify_combined}
use outbe_circuits.Srs.Process.{Host, State}
use outbe_circuits.Srs.{ensure_srs, already}
use outbe_circuits.Srs.Runs.{host, fresh, served, without_files}
use outbe_circuits.Srs.Checked.{IsPinned}
use outbe_circuits.Srs.Trust.{IsSettled}
use outbe_circuits.Backend.{preinit_srs, init_crs, ensure_srs_for, default, canonical_srs_points}
use outbe_circuits.Backend.Prove.{Circuit, Tools, verify}
use outbe_circuits.Backend.OneShot.{preinits, outside, Reach, here, next, Reach-IsPinned}
use outbe_circuits.Backend.Ready.{ensure_srs-Covers_ever, init_crs_memo, ensure_srs_for-Covers}
use outbe_circuits.Backend.Agreement.{words_of, raw_verify, verify-verify_combined}

abbrev emptied : State → State
emptied s = record s { files = λ path. err "gone" }

-- A pinned number of points is set, then the files vanish, then more are asked for.
abbrev later : State
later =
    (preinit_srs served canonical_srs_points
      (emptied (preinit_srs served (2 ^ 14 + 1) without_files).1)).1

reached : Reach served without_files later
reached =
    next (next (next here (preinits (2 ^ 14 + 1))) (outside (λ path. err "gone")))
      (preinits canonical_srs_points)

Reach-IsPinned_example : All (IsPinned served) later.handed × IsSettled later
Reach-IsPinned_example =
    Reach-IsPinned served (record { points = refl; init = refl; handed = refl }) reached

abbrev ready : State
ready = (ensure_srs host 2 fresh).1

readied : ensure_srs host 2 fresh ≡ (ok tt, ready)
unfolding ensure_srs outbe_circuits.Srs.initialise outbe_circuits.Srs.choose_g1
    outbe_circuits.Srs.local_g1 outbe_circuits.Srs.local_g1_path outbe_circuits.Srs.u32_of
    outbe_circuits.Srs.verify_g1 outbe_circuits.Srs.find_pin outbe_circuits.Srs.hand_over
readied = refl

ensure_srs-Covers_ever_example :
    (k : ℕ) × (2 ≤ k)
    × ((u : State)
        → Reach host ready u
        → (m : ℕ) → ensure_srs host m u ≡ (if leb m k then ok tt else err (already k m), u))
ensure_srs-Covers_ever_example = ensure_srs-Covers_ever host 2 fresh ready readied

abbrev offline : Host
offline = record host { with_network_srs = false }

abbrev tried : State
tried = (init_crs offline (emptied fresh)).1

init_crs_memo_example :
    init_crs offline (record tried { files = fresh.files })
    ≡ ((init_crs offline (emptied fresh)).0, record tried { files = fresh.files })
init_crs_memo_example =
    init_crs_memo offline (emptied fresh) tried (record tried { files = fresh.files })
      (init_crs offline (emptied fresh)).0 refl (next here (outside fresh.files))

abbrev large : State
large = record fresh { points = some (2 ^ 17 + 1) }

enough : ensure_srs_for host [] false large ≡ (ok tt, large)
unfolding ensure_srs_for outbe_circuits.Backend.subgroup_size
    outbe_circuits.Backend.compute_subgroup_size outbe_circuits.Srs.u32_of
    outbe_circuits.Backend.log2_ceil ensure_srs
enough = refl

ensure_srs_for-Covers_example :
    (k : ℕ) × (large.points ≡ some k) × (90 < k) × (128 < k) × (canonical_srs_points ≤ k)
ensure_srs_for-Covers_example =
    ensure_srs_for-Covers host [] false large large 90 128 refl (omega arith) (omega arith) enough

abbrev tools : Tools Residue
tools = record {
  base64_decode = λ text. ok text;
  gunzip = λ bytes. ok bytes;
  Program = Unit {0};
  Function = Unit {0};
  deserialize_program = λ bytes. ok tt;
  functions = λ p. tt ∷ [];
  solve = λ p f w. ok w;
  serialize = λ w. ok [];
  circuit_prove = λ label acir vk solved z. ok [];
  circuit_verify = λ vk words proof z. ok (length words == length proof);
}

abbrev circuit : Circuit Residue (Unit {0}) Residue
circuit = record {
  id = record {
    label = [];
    version = [];
    circuit_hash = [];
    bytecode_b64 = [];
    vk_bytes = [];
    vk_hash = [];
  };
  public_inputs = λ x. x ∷ [];
  witness_inputs = λ w x. x ∷ [];
}

abbrev proof : List (List ℕ)
proof = to_be_bytes 32 5 ∷ []

verified : verify host bn254 tools circuit default (bn254.from 3) proof large ≡ (ok true, large)
unfolding verify outbe_circuits.Backend.Prove.public_words outbe_circuits.Backend.Prove.padded
    to_be_bytes outbe_circuits.Backend.Prove.acir_buffer outbe_circuits.Backend.api ensure_srs_for
    outbe_circuits.Backend.subgroup_size outbe_circuits.Backend.compute_subgroup_size
    outbe_circuits.Srs.u32_of outbe_circuits.Backend.log2_ceil ensure_srs
verified = refl

verify-verify_combined_example :
    verify_combined
      (raw_verify host tools default)
      []
      (to_be_bytes 4 1 ++ (concat (words_of bn254 (bn254.from 3 ∷ [])) ++ concat proof))
    ≡ ok true
verify-verify_combined_example =
    verify-verify_combined host bn254 tools circuit default (bn254.from 3) proof large large true
      ((to_be_bytes-IsBytes 32 5, length-to_be_bytes 32 5), tt) (omega arith) verified

-- ===== src/Backend.antt =====
-- crates/outbe-zk-backend/src/barretenberg/mod.rs and the sizes in srs.rs: the entry points of the prover,
-- each of which runs with the lock `BB_LOCK` held, so one after the other.
use outbe_circuits.Prelude.{
  ℕ, zero, suc, ◌+◌, ◌-◌, ◌*◌, ◌/◌, ◌%◌, ◌^◌, ◌≤◌, ◌<◌, min, max, String, ◌≡◌, refl, sym, ap, ◌∙◌,
  ◌≢◌, ◌↔◌, ◌⊎◌, inl, inr, Bool, true, false, not, ◌&&◌, ◌||◌, Option, none, some, List, [], ◌∷◌,
  ◌++◌, map, arith, Result, ok, err, panic, guard, map_err, ok_or, expect, index, assert, ltb, leb,
  ◌==◌, if◌then◌else◌, ltb→lt, lt→ltb, leb→le, le→leb, ==_iff, ==_refl, Bool-cases, Option-cases,
  length, get_elem?, get_or, set, take, drop, replicate, All, length-append, length-set,
  length-take, length-drop, length-replicate, take-append, drop-append, take-append-drop,
  get_elem?-some, get_elem?-none, bit_xor-one, bind_ok, ok_inj, err_ok, guard-eq-ok, ok_or-eq-ok,
  Result-cases,
}
use outbe_circuits.Error.{Error, Message, Arg, to_string}
use outbe_circuits.Srs.Process.{Host, State, Action, pure, lift, ◌>>=◌, ◌>>◌}
use outbe_circuits.Srs.{set_srs_path, u32_of, ensure_srs}
pub mod Prove
pub mod Steps
mod Runs
pub mod Agreement
pub mod Ready
pub mod OneShot

-- `CANONICAL_SRS_POINTS`
abbrev pub canonical_srs_points : ℕ
canonical_srs_points = 2 ^ 16 + 1

abbrev pub failure : String → String → Error
failure what e = Error.proof (Message.fmt what (Arg.str e ∷ []))

-- The exponent of the first power of two that is not below `n`; `fuel` bounds it.
unfoldable pub log2_ceil : ℕ → ℕ → ℕ → ℕ
log2_ceil zero k n = k
log2_ceil (suc fuel) k n = if leb n (2 ^ k) then k else log2_ceil fuel (suc k) n

-- The logarithm of 0 is cast to 0; `2u32.pow` is a 32-bit result.
unfoldable pub compute_subgroup_size : Bool → ℕ → Result Error ℕ
compute_subgroup_size checks circuit_size = u32_of checks (2 ^ log2_ceil 32 0 circuit_size)

unfoldable pub subgroup_size : Host → List ℕ → Bool → Action ℕ
subgroup_size host acir disable_zk = do
  (num_gates, num_gates_dyadic) ←
      lift (map_err (failure "bb circuit_stats: {}") (host.circuit_stats acir disable_zk))
  size ← lift (compute_subgroup_size host.overflow_checks num_gates)
  pure (max num_gates_dyadic size)

unfoldable pub ensure_srs_for : Host → List ℕ → Bool → Action (Unit {0})
ensure_srs_for host acir disable_zk = do
  size ← subgroup_size host acir disable_zk
  num_points ← lift (u32_of host.overflow_checks (size + 1))
  ensure_srs host (max num_points canonical_srs_points)

-- `Barretenberg::api`
unfoldable pub api : Host → Action (Unit {0})
api host = lift (map_err (failure "bb init: {}") host.new_backend)

unfoldable pub preinit_srs : Host → ℕ → Action (Unit {0})
preinit_srs host num_points = do api host; ensure_srs host num_points

-- What the closure of `init_crs` returns, a panic included.
abbrev pub outcome : Result Error (Unit {0}) → Result Message (Unit {0})
outcome (ok u) = ok u
outcome (err error) = err (to_string error)
outcome panic = err (Message.fmt "Barretenberg SRS initialization panicked" [])

abbrev pub with_path : Option (List ℕ) → State → State
with_path none s = s
with_path (some path) s = set_srs_path path s

abbrev keep : Result Error (Unit {0}) × State → Result Error (Unit {0}) × State
keep (r, s) = (map_err Error.proof (outcome r), record s { init = some (outcome r) })

-- `INIT.get_or_init(..).clone().map_err(Error::Proof)`
abbrev pub init_given : Host → Option (Result Message (Unit {0})) → Action (Unit {0})
init_given host (some r) s = (map_err Error.proof r, s)
init_given host none s =
    keep (preinit_srs host canonical_srs_points (with_path host.outbe_bb_srs_path s))

unfoldable pub init_crs : Host → Action (Unit {0})
init_crs host s = init_given host s.init s

-- `struct Barretenberg`
pub record Barretenberg : Type 0 where
  pub disable_zk : Bool
  pub low_memory : Bool
  pub max_storage_usage : Option ℕ

-- `Barretenberg::default`
abbrev pub default : Barretenberg
default = record { disable_zk = false; low_memory = false; max_storage_usage = none }

abbrev budget_of : Option ℕ → Option ℕ → Option ℕ
budget_of none old = old
budget_of (some budget) old = some budget

unfoldable pub configure_memory : Barretenberg → Action (Unit {0})
configure_memory b s = (
  ok tt,
  record s {
    slow_low_memory = some b.low_memory;
    storage_budget = budget_of b.max_storage_usage s.storage_budget;
  },
)

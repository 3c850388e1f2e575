-- ===== src/Srs/Process.antt =====
-- crates/outbe-zk-backend/src/barretenberg/srs.rs: the statics, and what the process finds around it.
use outbe_circuits.Prelude.{ℕ, String, Bool, Option, List, Result, ok, err, panic}
use outbe_circuits.Error.{Error, Message}

-- What the process finds outside: digests, variables, the network and the prover's library.
pub record Host : Type 0 where
  pub sha256 : List ℕ → List ℕ
  pub bb_crs_path : Option (List ℕ)
  pub home : Option (List ℕ)
  pub can_write : List ℕ → Bool
  pub with_network_srs : Bool
  -- `resp.bytes()` for the header `Range: bytes=0-{last}`
  pub download : ℕ → Result String (List ℕ)
  -- `srs_init_srs` of the points, their number and the second group
  pub srs_init_srs : List ℕ → ℕ → List ℕ → Result String (Unit {0})
  -- `circuit_stats`: `num_gates` and `num_gates_dyadic`
  pub circuit_stats : List ℕ → Bool → Result String (ℕ × ℕ)
  pub overflow_checks : Bool
  -- `FfiBackend::new`
  pub new_backend : Result String (Unit {0})
  pub outbe_bb_srs_path : Option (List ℕ)

-- `SRS_POINTS`, `SRS_PATH_OVERRIDE`, the outcome that `init_crs` keeps, the variables that
-- `configure_memory` sets, the files, and the calls that `srs_init_srs` has had.
pub record State : Type 0 where
  pub points : Option ℕ
  pub path_override : Option (List ℕ)
  pub init : Option (Result Message (Unit {0}))
  pub slow_low_memory : Option Bool
  pub storage_budget : Option ℕ
  pub files : List ℕ → Result String (List ℕ)
  pub handed : List (List ℕ × ℕ)

abbrev pub Action : Type 0 → Type 0
Action A = State → Result Error A × State

-- `?` in code that changes no state
abbrev pub bound : {A B : Type 0} → Result Error A → (A → Result Error B) → Result Error B
bound (ok a) f = f a
bound (err e) f = err e
bound panic f = panic

abbrev pub pure : {A : Type 0} → A → Action A
pure a s = (ok a, s)

abbrev pub lift : {A : Type 0} → Result Error A → Action A
lift r s = (r, s)

abbrev pub after : {A B : Type 0} → (A → Action B) → Result Error A × State → Result Error B × State
after f (ok a, s) = f a s
after f (err e, s) = (err e, s)
after f (panic, s) = (panic, s)

infixl 5 ◌>>=◌ ◌>>◌
abbrev pub ◌>>=◌ : {A B : Type 0} → Action A → (A → Action B) → Action B
◌>>=◌ m f s = after f (m s)

abbrev pub ◌>>◌ : {B : Type 0} → Action (Unit {0}) → Action B → Action B
m >> k = m >>= (λ _. k)

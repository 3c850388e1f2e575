-- ===== src/Backend/OneShot.antt =====
-- What holds of every process that uses the backend: the reference string is set once.
use outbe_circuits.Prelude.{
  ℕ, String, ◌≡◌, refl, sym, ◌∙◌, Option, none, some, List, [], Result, All,
}
use outbe_circuits.Error.{Message}
use outbe_circuits.Field.{PrimeField}
use outbe_circuits.Srs.Process.{Host, State}
use outbe_circuits.Srs.{set_srs_path}
use outbe_circuits.Srs.Checked.{IsPinned}
use outbe_circuits.Srs.Trust.{IsSettled, Grows-refl}
use outbe_circuits.Backend.{
  Barretenberg, canonical_srs_points, preinit_srs, init_crs, init_given, with_path,
}
use outbe_circuits.Backend.Prove.{Circuit, Tools, generate, verify}
use outbe_circuits.Backend.Steps.{
  Advances, Grows-Advances, Advances-trans, final_state, preinit_srs-Grows, generate-Grows,
  verify-Grows,
}

-- One call of the backend, or another program that changes the files.
pub data Step (host : Host) (s : State) : State → Type 1 where
  sets_path : (path : List ℕ) → Step host s (set_srs_path path s)
  preinits : (n : ℕ) → Step host s (preinit_srs host n s).1
  inits : Step host s (init_crs host s).1
  generates :
      {Fr Witness PublicInputs : Type 0} (T : Tools Fr) (c : Circuit Fr Witness PublicInputs)
      (b : Barretenberg) (w : Witness) (p : PublicInputs)
      → Step host s (generate host T c b w p s).1
  verifies :
      {Fr Witness PublicInputs : Type 0} (F : PrimeField Fr) (T : Tools Fr)
      (c : Circuit Fr Witness PublicInputs) (b : Barretenberg) (p : PublicInputs)
      (proof : List (List ℕ))
      → Step host s (verify host F T c b p proof s).1
  outside : (files : List ℕ → Result String (List ℕ)) → Step host s (record s { files = files })

pub data Reach (host : Host) (s : State) : State → Type 1 where
  here : Reach host s s
  next : {t u : State} → Reach host s t → Step host t u → Reach host s u

-- `set_srs_path` after the first call changes nothing, and never more than the path.
set_srs_path-Advances :
    (host : Host) (path : List ℕ) (s : State) → Advances host s (set_srs_path path s)
unfolding set_srs_path
set_srs_path-Advances host path s = given s.path_override
  where
    given :
        (p : Option (List ℕ))
        → Advances host s (elim p [ none ↦ record s { path_override = some path } | some q ↦ s ])
    given none = record {
      kept = λ k e. (e, refl);
      pinned = λ all. all;
      settled = λ old. old;
      memo = λ r e. e;
    }
    given (some q) = record {
      kept = λ k e. (e, refl);
      pinned = λ all. all;
      settled = λ old. old;
      memo = λ r e. e;
    }

with_path-Advances :
    (host : Host) (path : Option (List ℕ)) (s : State) → Advances host s (with_path path s)
with_path-Advances host none s = Grows-Advances host s s (Grows-refl host s)
with_path-Advances host (some path) s = set_srs_path-Advances host path s

preinit_srs-Advances : (host : Host) (n : ℕ) (s : State) → Advances host s (preinit_srs host n s).1
preinit_srs-Advances host n s =
    Grows-Advances host s _ (final_state host s (preinit_srs host n s) (preinit_srs-Grows host n s))

init_crs-Advances : (host : Host) (s : State) → Advances host s (init_crs host s).1
unfolding init_crs
init_crs-Advances host s = given s.init refl
  where
    given :
        (o : Option (Result Message (Unit {0})))
        → s.init ≡ o
        → Advances host s (init_given host o s).1
    given (some r) e = Grows-Advances host s s (Grows-refl host s)
    given none e =
        let t : State = with_path host.outbe_bb_srs_path s in
        let a : Advances host s (preinit_srs host canonical_srs_points t).1 =
          Advances-trans host s t _ (with_path-Advances host host.outbe_bb_srs_path s)
            (preinit_srs-Advances host canonical_srs_points t) in
        record { kept = a.kept; pinned = a.pinned; settled = a.settled; memo = λ r q. cc }

Step-Advances : {host : Host} {s t : State} → Step host s t → Advances host s t
Step-Advances {host} {s} (sets_path path) = set_srs_path-Advances host path s
Step-Advances {host} {s} (preinits n) = preinit_srs-Advances host n s
Step-Advances {host} {s} inits = init_crs-Advances host s
Step-Advances {host} {s} (generates T c b w p) =
    Grows-Advances host s _
      (final_state host s (generate host T c b w p s) (generate-Grows host T b c w p s))
Step-Advances {host} {s} (verifies F T c b p proof) =
    Grows-Advances host s _
      (final_state host s (verify host F T c b p proof s) (verify-Grows host T b F c p proof s))
Step-Advances {host} {s} (outside files) = record {
  kept = λ k e. (e, refl);
  pinned = λ all. all;
  settled = λ old. old;
  memo = λ r e. e;
}

pub Reach-Advances : {host : Host} {s t : State} → Reach host s t → Advances host s t
Reach-Advances {host} {s} here = Grows-Advances host s s (Grows-refl host s)
Reach-Advances {host} {s} (next {t} {u} r st) =
    Advances-trans host s t u (Reach-Advances r) (Step-Advances st)

-- A process that has just started.
pub record IsFresh (s : State) : Type 0 where
  pub points : s.points ≡ none
  pub init : s.init ≡ none
  pub handed : s.handed ≡ []

-- In every state that a fresh process reaches, by any calls and any changes of the files, all points that
-- were given to the library under one of the three pinned numbers have the digest pinned for it (those of
-- other numbers are not checked), and a number that is set is that of the points given last.
pub Reach-IsPinned :
    (host : Host) {s t : State}
    → IsFresh s
    → Reach host s t
    → All (IsPinned host) t.handed × IsSettled t
Reach-IsPinned host {s} {t} fresh r =
    let a : Advances host s t = Reach-Advances r in
    let handed : List (List ℕ × ℕ) = s.handed in
    (a.pinned (rw fresh.handed tt), a.settled (λ k e. absurd (none_some k (sym fresh.points ∙ e))))
  where
    none_some : (k : ℕ) → ◌≡◌ {A = Option ℕ} none (some k) → ⊥
    none_some k e = cc

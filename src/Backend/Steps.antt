-- ===== src/Backend/Steps.antt =====
-- The entry points of the backend as steps of one process, one after the other behind `BB_LOCK`, with
-- other programs that change the files in between.
use outbe_circuits.Prelude.{
  ℕ, ◌+◌, max, ◌≡◌, refl, ◌∙◌, Bool, some, List, Result, ok, err, panic, map_err, All,
}
use outbe_circuits.Error.{Error, Message}
use outbe_circuits.Field.{PrimeField}
use outbe_circuits.Srs.Process.{Host, State, Action, after, lift}
use outbe_circuits.Srs.{u32_of}
use outbe_circuits.Srs.Checked.{IsPinned, Post-bind}
use outbe_circuits.Srs.Trust.{IsSettled, Grows, GrowsOf, Grows-trans, Grows-refl, ensure_srs-Grows}
use outbe_circuits.Backend.{
  Barretenberg, canonical_srs_points, api, preinit_srs, subgroup_size, compute_subgroup_size,
  ensure_srs_for, configure_memory, failure,
}
use outbe_circuits.Backend.Prove.{
  Circuit, Tools, generate, verify, solved_witness, acir_buffer, public_words,
}

-- `Grows` but for the files and the outcome of `init_crs`, which stays once it is there.
pub record Advances (host : Host) (s t : State) : Type 0 where
  pub kept : (k : ℕ) → s.points ≡ some k → (t.points ≡ some k) × (t.handed ≡ s.handed)
  pub pinned : All (IsPinned host) s.handed → All (IsPinned host) t.handed
  pub settled : IsSettled s → IsSettled t
  pub memo : (r : Result Message (Unit {0})) → s.init ≡ some r → t.init ≡ some r

pub Grows-Advances : (host : Host) (s t : State) → Grows host s t → Advances host s t
Grows-Advances host s t g = record {
  kept = g.kept;
  pinned = g.pinned;
  settled = g.settled;
  memo = λ r e. g.init ∙ e;
}

pub Advances-trans :
    (host : Host) (s t u : State) → Advances host s t → Advances host t u → Advances host s u
Advances-trans host s t u a b = record {
  kept = λ k e. let (p, q) = a.kept k e in let (p', q') = b.kept k p in (p', q' ∙ q);
  pinned = λ all. b.pinned (a.pinned all);
  settled = λ old. b.settled (a.settled old);
  memo = λ r e. b.memo r (a.memo r e);
}

pub final_state :
    {A : Type 0} (host : Host) (s : State) (r : Result Error A × State)
    → GrowsOf host s r
    → Grows host s r.1
final_state host s (ok a, t) g = g
final_state host s (err e, t) g = g
final_state host s (panic, t) g = g

-- A sequence of actions, each of which grows the state it is given.
Grows_bind :
    {A B : Type 0} (host : Host) (s : State) (r : Result Error A × State) (f : A → Action B)
    → GrowsOf host s r
    → ((a : A) (t : State) → GrowsOf host t (f a t))
    → GrowsOf host s (after f r)
Grows_bind host s r f h k =
    Post-bind (λ a t. Grows host s t) (λ b t. Grows host s t) (Grows host s) r f h
      λ a t g. moved g (f a t) (k a t)
  where
    moved :
        {B : Type 0} {t : State}
        → Grows host s t
        → (r : Result Error B × State) → GrowsOf host t r
        → GrowsOf host s r
    moved {B} {t} g (ok b, u) g' = Grows-trans host s t u g g'
    moved {B} {t} g (err e, u) g' = Grows-trans host s t u g g'
    moved {B} {t} g (panic, u) g' = Grows-trans host s t u g g'

lift-Grows : {A : Type 0} (host : Host) (s : State) (r : Result Error A) → GrowsOf host s (lift r s)
lift-Grows host s (ok a) = Grows-refl host s
lift-Grows host s (err e) = Grows-refl host s
lift-Grows host s panic = Grows-refl host s

pub preinit_srs-Grows : (host : Host) (n : ℕ) (s : State) → GrowsOf host s (preinit_srs host n s)
unfolding preinit_srs api
preinit_srs-Grows host n s =
    Grows_bind host s _ _ (lift-Grows host s (map_err (failure "bb init: {}") host.new_backend))
      λ u t. ensure_srs-Grows host n t

subgroup_size-Grows :
    (host : Host) (acir : List ℕ) (z : Bool) (s : State)
    → GrowsOf host s (subgroup_size host acir z s)
unfolding subgroup_size
subgroup_size-Grows host acir z s =
    Grows_bind host s _ _
      (lift-Grows host s (map_err (failure "bb circuit_stats: {}") (host.circuit_stats acir z)))
      λ (gates, dyadic) t.
        Grows_bind host t _ _ (lift-Grows host t (compute_subgroup_size host.overflow_checks gates))
          λ size u. lift-Grows host u (ok (max dyadic size))

pub ensure_srs_for-Grows :
    (host : Host) (acir : List ℕ) (z : Bool) (s : State)
    → GrowsOf host s (ensure_srs_for host acir z s)
unfolding ensure_srs_for
ensure_srs_for-Grows host acir z s =
    Grows_bind host s _ _ (subgroup_size-Grows host acir z s) λ size t.
      Grows_bind host t _ _ (lift-Grows host t (u32_of host.overflow_checks (size + 1)))
        λ n u. ensure_srs-Grows host (max n canonical_srs_points) u

configure_memory-Grows :
    (host : Host) (b : Barretenberg) (s : State) → GrowsOf host s (configure_memory b s)
unfolding configure_memory
configure_memory-Grows host b s = record {
  kept = λ k e. (e, refl);
  pinned = λ all. all;
  settled = λ old. old;
  init = refl;
}

module _ {Fr Witness PublicInputs : Type 0} (host : Host) (T : Tools Fr) (b : Barretenberg) where
  pub generate-Grows :
      (c : Circuit Fr Witness PublicInputs) (w : Witness) (p : PublicInputs) (s : State)
      → GrowsOf host s (generate host T c b w p s)
  unfolding generate api
  generate-Grows c w p s =
      Grows_bind host s _ _ (lift-Grows host s (solved_witness T c w p)) λ solved s1.
        Grows_bind host s1 _ _ (lift-Grows host s1 (acir_buffer T c.id)) λ acir s2.
          Grows_bind host s2 _ _ (configure_memory-Grows host b s2) λ u s3.
            Grows_bind host s3 _ _
              (lift-Grows host s3 (map_err (failure "bb init: {}") host.new_backend))
              λ v s4.
                Grows_bind host s4 _ _ (ensure_srs_for-Grows host acir b.disable_zk s4) λ x s5.
                  lift-Grows host s5 (
                    map_err (failure "bb prove: {}")
                      (T.circuit_prove c.id.label acir c.id.vk_bytes solved b.disable_zk))

  pub verify-Grows :
      (F : PrimeField Fr) (c : Circuit Fr Witness PublicInputs) (p : PublicInputs)
      (proof : List (List ℕ)) (s : State)
      → GrowsOf host s (verify host F T c b p proof s)
  unfolding verify api
  verify-Grows F c p proof s =
      Grows_bind host s _ _ (lift-Grows host s (public_words F (c.public_inputs p))) λ words s1.
        Grows_bind host s1 _ _ (lift-Grows host s1 (acir_buffer T c.id)) λ acir s2.
          Grows_bind host s2 _ _
            (lift-Grows host s2 (map_err (failure "bb init: {}") host.new_backend))
            λ v s3. Grows_bind host s3 _ _ (ensure_srs_for-Grows host acir b.disable_zk s3) λ x s4.
              lift-Grows host s4 (
                map_err (failure "bb verify: {}")
                  (T.circuit_verify c.id.vk_bytes words proof b.disable_zk))

-- ===== src/Backend/Agreement.antt =====
-- The two ways to verify: by the type of a circuit, and from the bytes of a combined proof.
use outbe_circuits.Prelude.{
  ℕ, suc, ◌^◌, ◌<◌, String, ◌≡◌, refl, sym, ap, ◌∙◌, Bool, List, [], ◌∷◌, ◌++◌, arith, Result, ok,
  err, panic, ◌>>◌, map_err, length, ok_inj,
}
use outbe_circuits.Error.{Error}
use outbe_circuits.Field.{PrimeField}
use outbe_circuits.Bytes.{to_be_bytes, length-to_be_bytes, to_be_bytes-IsBytes}
use outbe_circuits.Zkproof.PublicLaws.{concat, AreWords}
use outbe_circuits.Verifier.{verify_combined, verify_combined-wire}
use outbe_circuits.Srs.Process.{Host, State}
use outbe_circuits.Srs.Checked.{Post, Post-bind, Post-lift, Post-any}
use outbe_circuits.Backend.Ready.{Post-ok}
use outbe_circuits.Backend.{Barretenberg, failure, api, ensure_srs_for}
use outbe_circuits.Backend.Prove.{Circuit, Tools, verify, public_words, padded, acir_buffer}

-- The public inputs as words: every element's representative in 32 bytes.
unfoldable pub words_of : {Fr : Type 0} → PrimeField Fr → List Fr → List (List ℕ)
words_of F [] = []
words_of F (f ∷ fs) = to_be_bytes 32 (F.into_bigint f) ∷ words_of F fs

padded_full : (be : List ℕ) → length be ≡ 32 → padded be ≡ ok be
unfolding padded
padded_full be e = rw e refl

-- The conversion never panics, and needs no padding.
pub public_words-words_of :
    {Fr : Type 0} (F : PrimeField Fr) (fs : List Fr) → public_words F fs ≡ ok (words_of F fs)
unfolding public_words words_of
public_words-words_of F [] = refl
public_words-words_of F (f ∷ fs) =
    let be : List ℕ = to_be_bytes 32 (F.into_bigint f) in
    rw (padded_full be (length-to_be_bytes 32 (F.into_bigint f)), public_words-words_of F fs) refl

words_of-AreWords : {Fr : Type 0} (F : PrimeField Fr) (fs : List Fr) → AreWords (words_of F fs)
unfolding words_of
words_of-AreWords F [] = tt
words_of-AreWords F (f ∷ fs) = (
  (to_be_bytes-IsBytes 32 (F.into_bigint f), length-to_be_bytes 32 (F.into_bigint f)),
  words_of-AreWords F fs,
)

length-words_of :
    {Fr : Type 0} (F : PrimeField Fr) (fs : List Fr) → length (words_of F fs) ≡ length fs
unfolding words_of
length-words_of F [] = refl
length-words_of F (f ∷ fs) = ap suc (length-words_of F fs)

-- The calls that `verify_combined` makes.
unfoldable pub raw_verify :
    {Fr : Type 0}
    → Host
    → Tools Fr
    → Barretenberg
    → List ℕ
    → List (List ℕ)
    → List (List ℕ)
    → Result Error Bool
raw_verify host T b vk public proof =
    map_err (failure "bb init: {}") host.new_backend
    >> map_err (failure "bb raw verify: {}") (T.circuit_verify vk public proof b.disable_zk)

Post-verdict :
    (T : Result String Bool) (what : String) (s : State) (init : Result Error (Unit {0}))
    → init ≡ ok tt
    → Post (λ v t. (init ≡ ok tt) × (T ≡ ok v)) (λ t. Unit {0}) (map_err (failure what) T, s)
Post-verdict (ok v) what s init e = (e, refl)
Post-verdict (err x) what s init e = tt
Post-verdict panic what s init e = tt

-- A verdict of `verify` is the library's on the words of the public inputs, and the library could start.
verify-verdict :
    {Fr Witness PublicInputs : Type 0} (host : Host) (F : PrimeField Fr) (T : Tools Fr)
    (c : Circuit Fr Witness PublicInputs) (b : Barretenberg) (public : PublicInputs)
    (proof : List (List ℕ)) (s : State)
    → Post
        (λ v t.
          (map_err (failure "bb init: {}") host.new_backend ≡ ok tt)
          × (T.circuit_verify c.id.vk_bytes (words_of F (c.public_inputs public)) proof b.disable_zk
              ≡ ok v))
        (λ t. Unit {0})
        (verify host F T c b public proof s)
unfolding verify api
verify-verdict host F T c b public proof s =
    let words : List (List ℕ) = words_of F (c.public_inputs public) in
    let Q : Bool → State → Type 0 = λ v t.
      (map_err (failure "bb init: {}") host.new_backend ≡ ok tt)
      × (T.circuit_verify c.id.vk_bytes words proof b.disable_zk ≡ ok v) in
    let E : State → Type 0 = λ t. Unit {0} in
    Post-lift Q E (public_words F (c.public_inputs public)) s _ tt λ ws found.
      let same : ws ≡ words =
        ok_inj (sym found ∙ public_words-words_of F (c.public_inputs public)) in
      Post-lift Q E (acir_buffer T c.id) s _ tt λ acir e.
        Post-lift Q E (map_err (failure "bb init: {}") host.new_backend) s _ tt λ u e'.
          Post-bind (λ v t. Unit {0}) Q E (ensure_srs_for host acir b.disable_zk s) _
            (Post-any (ensure_srs_for host acir b.disable_zk s))
            λ v t w. rw same (
              Post-verdict (T.circuit_verify c.id.vk_bytes words proof b.disable_zk) "bb verify: {}"
                t (map_err (failure "bb init: {}") host.new_backend) e')

-- A verdict of `verify` on a proof of whole words is what `verify_combined` answers to the combined
-- bytes: the number of public words, these words, the words of the proof.
pub verify-verify_combined :
    {Fr Witness PublicInputs : Type 0} (host : Host) (F : PrimeField Fr) (T : Tools Fr)
    (c : Circuit Fr Witness PublicInputs) (b : Barretenberg) (public : PublicInputs)
    (proof : List (List ℕ)) (s t : State) (v : Bool)
    → AreWords proof
    → length (c.public_inputs public) < 2 ^ 32
    → verify host F T c b public proof s ≡ (ok v, t)
    → verify_combined (raw_verify host T b) c.id.vk_bytes (
        to_be_bytes 4 (length (c.public_inputs public))
        ++ (concat (words_of F (c.public_inputs public)) ++ concat proof))
      ≡ ok v
unfolding raw_verify
verify-verify_combined host F T c b public proof s t v all few e =
    let words : List (List ℕ) = words_of F (c.public_inputs public) in
    let size : length words ≡ length (c.public_inputs public) =
      length-words_of F (c.public_inputs public) in
    let (started, verdict) : (map_err (failure "bb init: {}") host.new_backend ≡ ok tt)
        × (T.circuit_verify c.id.vk_bytes words proof b.disable_zk ≡ ok v) =
      Post-ok _ (λ u. Unit {0}) (verify host F T c b public proof s) v t
        (verify-verdict host F T c b public proof s) e in
    rw (← size) (
      verify_combined-wire (raw_verify host T b) c.id.vk_bytes words proof
        (words_of-AreWords F (c.public_inputs public)) all (omega arith)
      ∙ rw (started, verdict) refl)

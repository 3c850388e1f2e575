-- ===== src/Release/Names.antt =====
-- xtask/src/main.rs: the circuits, their labels, and the numbers of versions.
use outbe_circuits.Prelude.{
  ℕ, ◌+◌, ◌^◌, String, Bool, List, [], ◌∷◌, ◌++◌, Result, ok, panic, ◌>>=◌, ltb, ◌==◌,
  if◌then◌else◌, get_or,
}
use outbe_circuits.Text.{codes, show_u64}
use outbe_circuits.Slices.{bytes_eq}
use outbe_circuits.Registry.Version.{parts}

-- `CIRCUITS`
abbrev pub circuits : List (String × String)
circuits =
    ("outbe-ownership-circuit", "ownership_proof")
    ∷ ("demo-tribute", "demo_tribute")
    ∷ ("outbe-emit-mint-circuit", "emit_mint")
    ∷ ("outbe-paynote-circuit", "paynote")
    ∷ ("outbe-pledgenote-issue-circuit", "pledgenote_issue")
    ∷ ("outbe-pledgenote-unpledge-circuit", "pledgenote_unpledge")
    ∷ ("outbe-paynote-merge-circuit", "paynote_merge")
    ∷ ("niflheim-tribute", "niflheim_tribute")
    ∷ []

unfoldable pub label : {E : Type 0} → List ℕ → Result E (List ℕ)
label m =
    if bytes_eq m (codes "ownership_proof")
    then ok (codes "outbe.ownership")
    else if bytes_eq m (codes "demo_tribute")
    then ok (codes "demo.tribute")
    else if bytes_eq m (codes "emit_mint")
    then ok (codes "outbe.emit.mint")
    else if bytes_eq m (codes "paynote")
    then ok (codes "outbe.paynote")
    else if bytes_eq m (codes "pledgenote_issue")
    then ok (codes "outbe.pledgenote.issue")
    else if bytes_eq m (codes "pledgenote_unpledge")
    then ok (codes "outbe.pledgenote.unpledge")
    else if bytes_eq m (codes "paynote_merge")
    then ok (codes "outbe.paynote.merge")
    else if bytes_eq m (codes "niflheim_tribute")
    then ok (codes "niflheim.tribute")
    else panic

-- `p += 1` on 64 bits, which wraps where the build does not check for overflow.
unfoldable pub increment : {E : Type 0} → Bool → ℕ → Result E ℕ
increment checks p = if ltb (p + 1) (2 ^ 64) then ok (p + 1) else if checks then panic else ok 0

-- `format!("{}.{}.{}")`
unfoldable pub version_text : ℕ → ℕ → ℕ → List ℕ
version_text a b c = show_u64 a ++ (46 ∷ (show_u64 b ++ (46 ∷ show_u64 c)))

-- The parts of the version, padded to three; further parts are not printed.
unfoldable pub bump : {E : Type 0} → Bool → List ℕ → ℕ → Result E (List ℕ)
bump checks ver level =
    let a : ℕ = get_or (parts ver) 0 0 in
    let b : ℕ = get_or (parts ver) 1 0 in
    let c : ℕ = get_or (parts ver) 2 0 in
    if level == 0
    then (increment checks a >>= λ n. ok (version_text n 0 0))
    else if level == 1
    then (increment checks b >>= λ n. ok (version_text a n 0))
    else (increment checks c >>= λ n. ok (version_text a b n))

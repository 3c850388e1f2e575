-- ===== src/Release/Bumps.antt =====
-- A bumped version is read as the next one.
use outbe_circuits.Prelude.{
  ℕ, ◌+◌, ◌-◌, ◌^◌, ◌<◌, ◌≡◌, refl, sym, ◌∙◌, inl, inr, Bool, true, List, [], ◌∷◌, ◌++◌, arith, ok,
  ◌==◌, if◌then◌else◌, Bool-cases, get_or,
}
use outbe_circuits.Text.{show_u64}
use outbe_circuits.Text.Numerals.{parse_u64-show_u64, no_dot-show_u64, split_part, split_last}
use outbe_circuits.Registry.Version.{parts, version_key, key_lt}
use outbe_circuits.Release.Names.{increment, version_text, bump}

parts-version_text :
    (a b c : ℕ) → a < 2 ^ 64 → b < 2 ^ 64 → c < 2 ^ 64 → parts (version_text a b c) ≡ a ∷ b ∷ c ∷ []
unfolding parts version_text
parts-version_text a b c ha hb hc =
    rw
      (
        split_part (show_u64 a) (show_u64 b ++ (46 ∷ show_u64 c)) (no_dot-show_u64 a),
        split_part (show_u64 b) (show_u64 c) (no_dot-show_u64 b),
        split_last (show_u64 c) (no_dot-show_u64 c),
        parse_u64-show_u64 a ha,
        parse_u64-show_u64 b hb,
        parse_u64-show_u64 c hc,
      )
      refl

version_key-version_text :
    (a b c : ℕ)
    → a < 2 ^ 64
    → b < 2 ^ 64
    → c < 2 ^ 64
    → version_key (version_text a b c) ≡ (a, b, c)
unfolding version_key
version_key-version_text a b c ha hb hc = rw (parts-version_text a b c ha hb hc) refl

increment-fits :
    {E : Type 0} (checks : Bool) (p : ℕ) → p < 2 ^ 64 - 1 → increment {E = E} checks p ≡ ok (p + 1)
unfolding increment
increment-fits checks p h = ground arith

-- The key after a bump: of the major, of the minor, or of the last number.
unfoldable pub next_key : ℕ → ℕ × ℕ × ℕ → ℕ × ℕ × ℕ
next_key level (a, b, c) =
    if level == 0 then (a + 1, 0, 0) else if level == 1 then (a, b + 1, 0) else (a, b, c + 1)

key_lt-next_key : (level : ℕ) (k : ℕ × ℕ × ℕ) → key_lt k (next_key level k) ≡ true
unfolding next_key key_lt
key_lt-next_key level (a, b, c) = ground arith

-- What a bump promises of its result.
abbrev IsNext : (E : Type 0) → Bool → List ℕ → ℕ → Type 0
IsNext E checks ver level =
    (w : List ℕ) × (bump {E = E} checks ver level ≡ ok w)
    × (version_key w ≡ next_key level (version_key ver))
    × (key_lt (version_key ver) (version_key w) ≡ true)

printed :
    {E : Type 0} (checks : Bool) (ver : List ℕ) (level a b c : ℕ)
    → a < 2 ^ 64
    → b < 2 ^ 64
    → c < 2 ^ 64
    → next_key level (version_key ver) ≡ (a, b, c)
    → bump {E = E} checks ver level ≡ ok (version_text a b c)
    → IsNext E checks ver level
printed checks ver level a b c ha hb hc e run =
    let key : version_key (version_text a b c) ≡ next_key level (version_key ver) =
      version_key-version_text a b c ha hb hc ∙ sym e in
    (version_text a b c, run, key, rw key (key_lt-next_key level (version_key ver)))

-- Below the greatest 64-bit number a bump of any text succeeds; the key of its result is the next one at
-- the level, and greater than the key before.
pub bump-next_key :
    {E : Type 0} (checks : Bool) (ver : List ℕ) (level : ℕ)
    → (version_key ver).0 < 2 ^ 64 - 1
    → (version_key ver).1 < 2 ^ 64 - 1
    → (version_key ver).2 < 2 ^ 64 - 1
    → (w : List ℕ) × (bump {E = E} checks ver level ≡ ok w)
      × (version_key w ≡ next_key level (version_key ver))
      × (key_lt (version_key ver) (version_key w) ≡ true)
unfolding bump next_key version_key
bump-next_key checks ver level ha hb hc =
    let a : ℕ = get_or (parts ver) 0 0 in
    let b : ℕ = get_or (parts ver) 1 0 in
    let c : ℕ = get_or (parts ver) 2 0 in
    elim (Bool-cases (level == 0)) [
      | inl q ↦
          printed checks ver level (a + 1) 0 0 (omega arith) (omega arith) (omega arith) (rw q refl)
            (rw (q, increment-fits checks a ha) refl)
      | inr q ↦ elim (Bool-cases (level == 1)) [
        | inl r ↦
            printed checks ver level a (b + 1) 0 (omega arith) (omega arith) (omega arith)
              (rw (q, r) refl) (rw (q, r, increment-fits checks b hb) refl)
        | inr r ↦
            printed checks ver level a b (c + 1) (omega arith) (omega arith) (omega arith)
              (rw (q, r) refl) (rw (q, r, increment-fits checks c hc) refl)
      ]
    ]

-- ===== src/Registry/Version.antt =====
-- build.rs: `version_key` and the order of versions.
use outbe_circuits.Prelude.{
  ℕ, ◌≡◌, Bool, true, false, ◌&&◌, ◌||◌, Option, none, some, List, map, arith, ltb, ◌==◌, get_or,
}
use outbe_circuits.Text.{split, parse_u64}

abbrev or_zero : Option ℕ → ℕ
or_zero none = 0
or_zero (some n) = n

-- The numbers between the dots; what is no number counts as 0.
unfoldable pub parts : List ℕ → List ℕ
parts v = map (λ p. or_zero (parse_u64 p)) (split 46 v)

-- `it.next().unwrap_or(0)` three times.
unfoldable pub version_key : List ℕ → ℕ × ℕ × ℕ
version_key v = (get_or (parts v) 0 0, get_or (parts v) 1 0, get_or (parts v) 2 0)

-- The order of triples.
unfoldable pub key_lt : ℕ × ℕ × ℕ → ℕ × ℕ × ℕ → Bool
key_lt (a, b, c) (x, y, z) = ltb a x || a == x && (ltb b y || b == y && ltb c z)

pub key_lt_irrefl : (k : ℕ × ℕ × ℕ) → key_lt k k ≡ false
unfolding key_lt
key_lt_irrefl (a, b, c) = ground arith

-- Where neither of two steps goes down, the two together do not.
pub key_lt_trans :
    (k l m : ℕ × ℕ × ℕ) → key_lt l k ≡ false → key_lt m l ≡ false → key_lt m k ≡ false
unfolding key_lt
key_lt_trans (a, b, c) (d, e, f) (g, h, i) p q = ground arith

pub key_lt_asym : (k l : ℕ × ℕ × ℕ) → key_lt k l ≡ true → key_lt l k ≡ false
unfolding key_lt
key_lt_asym (a, b, c) (d, e, f) p = ground arith

-- ===== src/Text.antt =====
-- Texts as lists of their code points, with the methods of `str` that crates/outbe-zk-canonical/build.rs,
-- crates/outbe-zk-backend and xtask call.
use Prim.Native.Char.{code}
use outbe_circuits.Prelude.{
  ℕ, zero, suc, ◌+◌, ◌-◌, ◌*◌, ◌/◌, ◌%◌, ◌^◌, ◌≤◌, ◌<◌, min, max, String, ◌≡◌, refl, sym, ap, ◌∙◌,
  ◌≢◌, ◌↔◌, ◌⊎◌, inl, inr, Bool, true, false, not, ◌&&◌, ◌||◌, Option, none, some, List, [], ◌∷◌,
  ◌++◌, map, arith, Result, ok, err, panic, ◌>>=◌, ◌>>◌, guard, map_err, ok_or, expect, index,
  assert, ltb, leb, ◌==◌, if◌then◌else◌, ltb→lt, lt→ltb, leb→le, le→leb, ==_iff, ==_refl,
  Bool-cases, Option-cases, length, get_elem?, get_or, set, take, drop, replicate, All,
  length-append, length-set, length-take, length-drop, length-replicate, take-append, drop-append,
  take-append-drop, get_elem?-some, get_elem?-none, bit_xor-one, bind_ok, ok_inj, err_ok,
  guard-eq-ok, ok_or-eq-ok, Result-cases,
}
pub mod Numerals

-- The code points of a text, which are its bytes where it is ASCII.
abbrev pub codes : String → List ℕ
codes String.[] = []
codes (String.◌∷◌ c s) = code c ∷ codes s

-- `char::is_whitespace`
unfoldable pub is_whitespace : ℕ → Bool
is_whitespace c =
    leb 9 c && leb c 13
    || c == 32
    || c == 133
    || c == 160
    || c == 5760
    || leb 8192 c && leb c 8202
    || c == 8232
    || c == 8233
    || c == 8239
    || c == 8287
    || c == 12288

unfoldable pub trim_start : List ℕ → List ℕ
trim_start [] = []
trim_start (c ∷ cs) = elim (is_whitespace c) [ true ↦ trim_start cs | false ↦ c ∷ cs ]

abbrev reverse_onto : List ℕ → List ℕ → List ℕ
reverse_onto [] out = out
reverse_onto (c ∷ cs) out = reverse_onto cs (c ∷ out)

-- `str::trim`
unfoldable pub trim : List ℕ → List ℕ
trim text = reverse_onto (trim_start (reverse_onto (trim_start text) [])) []

-- `str::split` at a character, with the parts between its occurrences.
abbrev onto_first : ℕ → List (List ℕ) → List (List ℕ)
onto_first c [] = (c ∷ []) ∷ []
onto_first c (part ∷ parts) = (c ∷ part) ∷ parts

unfoldable pub split : ℕ → List ℕ → List (List ℕ)
split sep [] = [] ∷ []
split sep (c ∷ text) =
    let rest : List (List ℕ) = split sep text in if c == sep then [] ∷ rest else onto_first c rest

unfoldable pub decimal_loop : ℕ → List ℕ → Option ℕ
decimal_loop acc [] = some acc
decimal_loop acc (c ∷ text) =
    let rest : Option ℕ = decimal_loop (10 * acc + (c - 48)) text in
    if leb 48 c && leb c 57 then rest else none

abbrev pub fits : Option ℕ → Option ℕ
fits none = none
fits (some n) = if ltb n (2 ^ 64) then some n else none

-- `str::parse::<u64>`: digits, which may follow one plus sign.
unfoldable pub parse_u64 : List ℕ → Option ℕ
parse_u64 [] = none
parse_u64 (c ∷ []) = fits (decimal_loop 0 (c ∷ []))
parse_u64 (c ∷ d ∷ text) =
    if c == 43 then fits (decimal_loop 0 (d ∷ text)) else fits (decimal_loop 0 (c ∷ d ∷ text))

-- The decimal digits of a number, which `fuel` bounds.
unfoldable pub decimal : ℕ → ℕ → List ℕ
decimal zero n = []
decimal (suc fuel) n =
    let rest : List ℕ = decimal fuel (n / 10) in
    if ltb n 10 then (48 + n) ∷ [] else rest ++ (48 + n % 10) ∷ []

-- `format!("{}", n)` of 64 bits has at most 20 digits.
unfoldable pub show_u64 : ℕ → List ℕ
show_u64 n = decimal 20 n

-- The order of `str`, by bytes.
unfoldable pub text_lt : List ℕ → List ℕ → Bool
text_lt xs [] = false
text_lt [] (y ∷ ys) = true
text_lt (x ∷ xs) (y ∷ ys) = ltb x y || x == y && text_lt xs ys

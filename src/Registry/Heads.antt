-- ===== src/Registry/Heads.antt =====
-- build.rs: which version `generate_circuit_modules` takes for each module.
pub mod Latest
use outbe_circuits.Prelude.{
  ℕ, zero, suc, ◌+◌, ◌-◌, ◌*◌, ◌/◌, ◌%◌, ◌^◌, ◌≤◌, ◌<◌, min, max, String, ◌≡◌, refl, sym, ap, ◌∙◌,
  ◌≢◌, ◌↔◌, ◌⊎◌, inl, inr, Bool, true, false, not, ◌&&◌, ◌||◌, Option, none, some, List, [], ◌∷◌,
  ◌++◌, map, arith, Result, ok, err, panic, ◌>>=◌, ◌>>◌, guard, map_err, ok_or, expect, index,
  assert, ltb, leb, ◌==◌, if◌then◌else◌, ltb→lt, lt→ltb, leb→le, le→leb, ==_iff, ==_refl,
  Bool-cases, Option-cases, length, get_elem?, get_or, set, take, drop, replicate, All,
  length-append, length-set, length-take, length-drop, length-replicate, take-append, drop-append,
  take-append-drop, get_elem?-some, get_elem?-none, bit_xor-one, bind_ok, ok_inj, err_ok,
  guard-eq-ok, ok_or-eq-ok, Result-cases,
}
use outbe_circuits.Text.{codes, text_lt}
use outbe_circuits.Slices.{bytes_eq}
use outbe_circuits.Registry.Manifest.{Loaded}
use outbe_circuits.Registry.Load.{is_some}
use outbe_circuits.Registry.Version.{version_key, key_lt}
use outbe_circuits.Registry.Ordered.{lookup, insert}

-- Active, with an ABI and with its bytecode.
unfoldable pub is_provable : Loaded → Bool
is_provable l = bytes_eq l.status (codes "active") && (is_some l.abi && l.has_bytecode)

-- `and_modify(..).or_insert(l)`
abbrev pub newer : Loaded → Option Loaded → Loaded
newer l none = l
newer l (some cur) = if key_lt (version_key cur.version) (version_key l.version) then l else cur

unfoldable pub add_head : Loaded → List (List ℕ × Loaded) → List (List ℕ × Loaded)
add_head l head =
    if is_provable l
    then insert bytes_eq text_lt l.module_name (newer l (lookup bytes_eq l.module_name head)) head
    else head

unfoldable pub heads_loop : List (List ℕ × Loaded) → List Loaded → List (List ℕ × Loaded)
heads_loop head [] = head
heads_loop head (l ∷ loaded) = heads_loop (add_head l head) loaded

-- The heads, by module.
unfoldable pub heads : List Loaded → List (List ℕ × Loaded)
heads loaded = heads_loop [] loaded

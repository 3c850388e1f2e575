-- ===== src/Derive.antt =====
-- crates/outbe-protocol-derive/src/lib.rs: the derive macro for entities, from the parsed struct to what the
-- generated implementations encode.
pub mod Syntax
pub mod Ordering
pub mod Expansion
mod Runs
use outbe_circuits.Prelude.{
  ℕ, zero, suc, ◌+◌, ◌-◌, ◌*◌, ◌/◌, ◌%◌, ◌^◌, ◌≤◌, ◌<◌, min, max, String, ◌≡◌, refl, sym, ap, ◌∙◌,
  ◌≢◌, ◌↔◌, ◌⊎◌, inl, inr, Bool, true, false, not, ◌&&◌, ◌||◌, Option, none, some, List, [], ◌∷◌,
  ◌++◌, map, arith, Result, ok, err, panic, ◌>>=◌, ◌>>◌, guard, map_err, ok_or, expect, index,
  assert, ltb, leb, ◌==◌, if◌then◌else◌, ltb→lt, lt→ltb, leb→le, le→leb, ==_iff, ==_refl,
  Bool-cases, Option-cases, length, get_elem?, get_or, set, take, drop, replicate, All,
  length-append, length-set, length-take, length-drop, length-replicate, take-append, drop-append,
  take-append-drop, get_elem?-some, get_elem?-none, bit_xor-one, bind_ok, ok_inj, err_ok,
  guard-eq-ok, ok_or-eq-ok, Result-cases, some_inj, expect-eq-ok, assert-eq-ok,
}
use outbe_circuits.Error.{Message, Arg}
use outbe_circuits.Text.{codes}
use outbe_circuits.Slices.{bytes_eq}
use outbe_circuits.Codec.Sets.{sort_by_key}
use Syntax.{Ty, Args, Meta, Attr, Field, Input, other, angle, bare, end, type_arg, other_arg}

-- `struct Roles` and `struct FieldCfg`
pub record FieldCfg : Type 0 where
  pub id_seed : Bool
  pub id_body : Bool
  pub body : Bool
  pub owner : Bool
  pub skip : Bool
  pub pos : Option ℕ
  pub limbed : Bool

abbrev pub default : FieldCfg
default = record {
  id_seed = false;
  id_body = false;
  body = false;
  owner = false;
  skip = false;
  pos = none;
  limbed = false;
}

abbrev pub syn_error : {A : Type 0} → String → List Arg → Result Message A
syn_error text args = err (Message.fmt text args)

-- `meta.value()?.parse()?`
abbrev set_pos : FieldCfg → Result Message ℕ → Result Message FieldCfg
set_pos cfg value = do n ← value; ok (record cfg { pos = some n })

-- The `match` on a key.
unfoldable pub keyed : FieldCfg → Meta → List ℕ → Result Message FieldCfg
keyed cfg meta id =
    if bytes_eq id (codes "id_seed")
    then ok (record cfg { id_seed = true })
    else if bytes_eq id (codes "id_body")
    then ok (record cfg { id_body = true })
    else if bytes_eq id (codes "body")
    then ok (record cfg { body = true })
    else if bytes_eq id (codes "owner")
    then ok (record cfg { owner = true })
    else if bytes_eq id (codes "skip")
    then ok (record cfg { skip = true })
    else if bytes_eq id (codes "limbed")
    then ok (record cfg { limbed = true })
    else if bytes_eq id (codes "pos") || bytes_eq id (codes "position")
    then set_pos cfg meta.value
    else syn_error
        "unknown outbe key `{other}` (expected id_seed, id_body, body, owner, skip, limbed, or pos = N)"
        (Arg.text id ∷ [])

unfoldable pub apply_key : FieldCfg → Meta → Result Message FieldCfg
apply_key cfg meta = do
  id ← ok_or (Message.fmt "expected a bare role ident" []) meta.path
  keyed cfg meta id

unfoldable pub apply_keys : FieldCfg → List Meta → Result Message FieldCfg
apply_keys cfg [] = ok cfg
apply_keys cfg (meta ∷ metas) = do next ← apply_key cfg meta; apply_keys next metas

unfoldable pub apply_attrs : FieldCfg → List Attr → Result Message FieldCfg
apply_attrs cfg [] = ok cfg
apply_attrs cfg (attr ∷ attrs) = do
  next ← if attr.is_outbe then apply_keys cfg attr.metas else ok cfg
  apply_attrs next attrs

abbrev saw_outbe : List Attr → Bool
saw_outbe [] = false
saw_outbe (attr ∷ attrs) = attr.is_outbe || saw_outbe attrs

unfoldable pub parse_field_cfg : Field → Result Message FieldCfg
parse_field_cfg field = do
  cfg ← apply_attrs default field.attrs
  guard (saw_outbe field.attrs) (
      Message.fmt
        "every field must carry a `#[outbe(...)]` role (use `#[outbe(skip)]` to exclude it from the hash)"
        [])
  ok cfg

-- The first type among the arguments.
abbrev first_type : Args → Option Ty
first_type end = none
first_type (type_arg ty args) = some ty
first_type (other_arg args) = first_type args

abbrev pub vec_elem : Ty → Option Ty
vec_elem (other text) = none
vec_elem (bare ident) = none
vec_elem (angle ident args) = if bytes_eq ident (codes "Vec") then first_type args else none

-- A field of a group: its position, its name and its payload.
abbrev pub Member : Type 0 → Type 0
Member P = Option ℕ × List ℕ × P

-- The same with the position there.
abbrev pub Keyed : Type 0 → Type 0
Keyed P = ℕ × (List ℕ × P)

module _ {P : Type 0} where
  abbrev pub none_placed : List (Member P) → Bool
  none_placed [] = true
  none_placed ((none, i, p) ∷ fields) = none_placed fields
  none_placed ((some n, i, p) ∷ fields) = false

  abbrev pub without_pos : List (Member P) → List (List ℕ × P)
  without_pos [] = []
  without_pos ((n, i, p) ∷ fields) = (i, p) ∷ without_pos fields

  abbrev cons_keyed : Keyed P → Result Message (List (Keyed P)) → Result Message (List (Keyed P))
  cons_keyed x (ok xs) = ok (x ∷ xs)
  cons_keyed x (err e) = err e
  cons_keyed x panic = panic

  -- Every position, or the first field that has none.
  unfoldable pub placed : String → List (Member P) → Result Message (List (Keyed P))
  placed what [] = ok []
  placed what ((none, i, p) ∷ fields) =
      syn_error
        "`{ident}` has no `pos`, but another `{what}` field does; set `pos` on every `{what}` field or none"
        (Arg.text i ∷ Arg.str what ∷ [])
  placed what ((some n, i, p) ∷ fields) = cons_keyed (n, (i, p)) (placed what fields)

  -- `fields.windows(2)`
  unfoldable pub no_duplicate : String → List (Keyed P) → Result Message (Unit {0})
  no_duplicate what [] = ok tt
  no_duplicate what (a ∷ []) = ok tt
  no_duplicate what (a ∷ b ∷ fields) =
      let rest : Result Message (Unit {0}) = no_duplicate what (b ∷ fields) in
      if a.0 == b.0
      then syn_error "duplicate `pos = {}` among `{what}` fields" (Arg.num b.0 ∷ Arg.str what ∷ [])
      else rest

  unfoldable pub order_group : String → List (Member P) → Result Message (List (List ℕ × P))
  order_group what fields = if none_placed fields then ok (without_pos fields) else do
    keyed ← placed what fields
    let sorted = sort_by_key {T = List ℕ × P} keyed
    no_duplicate what sorted
    ok (map (λ x. x.1) sorted)

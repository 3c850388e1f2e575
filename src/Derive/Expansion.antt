-- ===== src/Derive/Expansion.antt =====
-- crates/outbe-protocol-derive/src/lib.rs: `expand`, as what the generated implementations read, encode and require.
use outbe_circuits.Prelude.{
  ℕ, String, Bool, true, false, not, ◌&&◌, ◌||◌, Option, none, some, List, [], ◌∷◌, ◌++◌, map,
  Result, ok, ◌>>=◌, ◌>>◌, guard, ok_or, if◌then◌else◌,
}
use outbe_circuits.Error.{Message}
use outbe_circuits.Slices.{bytes_eq}
use outbe_circuits.Derive.Syntax.{Ty, Field, Input}
use outbe_circuits.Derive.{parse_field_cfg, vec_elem, Member, order_group, syn_error}

-- The type of a field and whether it is `limbed`.
abbrev pub Payload : Type 0
Payload = Ty × Bool

-- A call that `emit_encode` emits, of the field.
pub data Emitted : Type 0 where
  sorted_set : List ℕ → Emitted
  limbs : List ℕ → Emitted
  element : List ℕ → Emitted

abbrev pub is_vec : Ty → Bool
is_vec ty = elim (vec_elem ty) [ none ↦ false | some t ↦ true ]

unfoldable pub emit_encode : List ℕ × Payload → Emitted
emit_encode (ident, (ty, limbed)) =
    if is_vec ty then sorted_set ident else if limbed then limbs ident else element ident

-- What the loop over the fields collects.
pub record Groups : Type 0 where
  pub seed : Option (List ℕ × Ty)
  pub owner : Option (List ℕ × Ty)
  pub id_body : List (Member Payload)
  pub body : List (Member Payload)

abbrev pub only :
    String → Bool → Option (List ℕ × Ty) → List ℕ × Ty → Result Message (Option (List ℕ × Ty))
only text false old new = ok old
only text true none new = ok (some new)
only text true (some old) new = syn_error text []

unfoldable pub add_field : Groups → Field → Result Message Groups
add_field g f = do
  cfg ← parse_field_cfg f
  if cfg.skip then ok g else do
    guard (not (cfg.limbed && is_vec f.ty)) (
        Message.fmt
          "`limbed` applies to scalar fields; a `Vec<T>` field is a set of single-element items" [])
    seed ← only "duplicate `#[outbe(id_seed)]`" cfg.id_seed g.seed (f.ident, f.ty)
    owner ← only "duplicate `#[outbe(owner)]`" cfg.owner g.owner (f.ident, f.ty)
    let member : Member Payload = (cfg.pos, f.ident, (f.ty, cfg.limbed))
    ok (record {
      seed = seed;
      owner = owner;
      id_body = if cfg.id_body then g.id_body ++ member ∷ [] else g.id_body;
      body = if cfg.body then g.body ++ member ∷ [] else g.body;
    })

unfoldable pub add_fields : Groups → List Field → Result Message Groups
add_fields g [] = ok g
add_fields g (f ∷ fields) = do next ← add_field g f; add_fields next fields

-- A predicate: whether it asks for `FieldElement` or else for `FieldEncode`, and of which type.
abbrev pub Predicate : Type 0
Predicate = Bool × Ty

abbrev pub predicate_of : List ℕ × Payload → Predicate
predicate_of (ident, (ty, limbed)) = elim (vec_elem ty) [
  | some elem ↦ (true, elem)
  | none ↦ (not limbed, ty)
]

abbrev bool_eq : Bool → Bool → Bool
bool_eq true b = b
bool_eq false b = not b

module _ (print : Ty → List ℕ) where
  abbrev seen : Predicate → List Predicate → Bool
  seen p [] = false
  seen p (q ∷ predicates) = bool_eq p.0 q.0 && bytes_eq (print p.1) (print q.1) || seen p predicates

  -- `push_pred`, by the printed type.
  unfoldable pub push_preds : List Predicate → List Predicate → List Predicate
  push_preds predicates [] = predicates
  push_preds predicates (p ∷ more) =
      push_preds (if seen p predicates then predicates else predicates ++ p ∷ []) more

-- The implementations of `Entity` and `Owned`.
pub record Expanded : Type 0 where
  pub seed : List ℕ
  pub id_body : List Emitted
  pub body : List Emitted
  pub owner : Option (List ℕ)
  pub predicates : List Predicate

abbrev owner_ident : Option (List ℕ × Ty) → Option (List ℕ)
owner_ident none = none
owner_ident (some (ident, ty)) = some ident

abbrev pub empty_groups : Groups
empty_groups = record { seed = none; owner = none; id_body = []; body = [] }

unfoldable pub expand : (Ty → List ℕ) → Input → Result Message Expanded
expand print input = do
  guard (not input.has_generics)
      (Message.fmt "#[derive(Entity)] requires a struct with no generic parameters" [])
  guard input.is_struct (Message.fmt "#[derive(Entity)] can only be derived for structs" [])
  fields ←
      ok_or (Message.fmt "#[derive(Entity)] requires a struct with named fields" []) input.fields
  groups ← add_fields empty_groups fields
  (seed, seed_ty) ←
      ok_or (Message.fmt "an entity needs exactly one `#[outbe(id_seed)]` field" []) groups.seed
  id_body ← order_group "id_body" groups.id_body
  body ← order_group "body" groups.body
  ok (record {
    seed = seed;
    id_body = map emit_encode id_body;
    body = map emit_encode body;
    owner = owner_ident groups.owner;
    predicates = push_preds print ((true, seed_ty) ∷ []) (map predicate_of (id_body ++ body));
  })

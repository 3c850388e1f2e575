-- ===== src/Error.antt =====
-- crates/outbe-protocol/src/error.rs, and the messages that errors carry.
use outbe_circuits.Prelude.{ℕ, String, List, [], ◌∷◌}

-- A value put into a message by `format!`.
pub data Arg : Type 0 where
  num : ℕ → Arg
  str : String → Arg
  text : List ℕ → Arg

-- The text of an error: the format string, and what fills its places; or a text put into another.
pub data Message : Type 0 where
  fmt : String → List Arg → Message
  within : String → Message → Message

-- `enum Error`
pub data Error : Type 0 where
  hash : String → Error
  identity : String → Error
  signature : String → Error
  owner_mismatch : Error
  non_canonical : String → Error
  unsorted_set : String → Error
  proof : Message → Error
  merkle : Message → Error

abbrev one : String → String → Message
one format s = Message.fmt format (Arg.str s ∷ [])

-- `to_string`, which the attributes `error` of the variants define.
unfoldable pub to_string : Error → Message
to_string (Error.hash s) = one "hash error: {0}" s
to_string (Error.identity s) = one "unexpected identity point: {0}" s
to_string (Error.signature s) = one "signature error: {0}" s
to_string Error.owner_mismatch =
    Message.fmt "owner mismatch: commit(pk, nonce) != entity.owner()" []
to_string (Error.non_canonical s) = one "non-canonical field encoding: {0}" s
to_string (Error.unsorted_set s) = one "non-canonical set encoding: {0}" s
to_string (Error.proof m) = Message.within "zk proof error: {0}" m
to_string (Error.merkle m) = Message.within "merkle error: {0}" m

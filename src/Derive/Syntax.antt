-- ===== src/Derive/Syntax.antt =====
-- What `syn` gives the derive macro of crates/outbe-protocol-derive/src/lib.rs: the parsed struct.
use outbe_circuits.Prelude.{ℕ, Bool, Option, List, Result}
use outbe_circuits.Error.{Message}

mutual
  -- A type: a path by its last segment, with or without arguments in angle brackets, or any other.
  pub data Ty : Type 0 where
    other : List ℕ → Ty
    bare : List ℕ → Ty
    angle : List ℕ → Args → Ty

  pub data Args : Type 0 where
    end : Args
    type_arg : Ty → Args → Args
    other_arg : Args → Args

-- One item of an attribute: its path where that is one word, and what reading `= N` after it gives.
pub record Meta : Type 0 where
  pub path : Option (List ℕ)
  pub value : Result Message ℕ

pub record Attr : Type 0 where
  pub is_outbe : Bool
  pub metas : List Meta

pub record Field : Type 0 where
  pub ident : List ℕ
  pub ty : Ty
  pub attrs : List Attr

-- The deriving type: its fields are there where it is a struct with named fields.
pub record Input : Type 0 where
  pub ident : List ℕ
  pub has_generics : Bool
  pub is_struct : Bool
  pub fields : Option (List Field)

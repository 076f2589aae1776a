-- ===== src/Contracts/Canonical.antt =====
-- packages/contracts/src/robotics_runtime_contracts/canonical.py and serialization.py: the values
-- that a canonical document may hold, the limits on documents and what the checks raise.
--
-- A string is the list of its code points, surrogates included, as in Python.
pub mod Text
pub mod Paths
pub mod Checks
pub mod Weights
pub mod Sound
pub mod Complete
pub mod Limits
pub mod Ascii
pub mod Pieces
pub mod Rendered
pub mod Output
mod Tests
use robotics_runtime.Base.{ℕ, Bool, List}
use robotics_runtime.Base.Float.{Float}
use robotics_runtime.Base.Int.{ℤ}

-- `MAX_DOCUMENT_BYTES`, `MAX_DOCUMENT_DEPTH` and `MAX_DOCUMENT_NODES`
abbrev pub max_document_bytes : ℕ
max_document_bytes = 8388608

abbrev pub max_document_depth : ℕ
max_document_depth = 64

abbrev pub max_document_nodes : ℕ
max_document_nodes = 100000

-- A key of a `dict`: a string, or an object of another type.
pub data Key : Type 0 where
  text : List ℕ → Key
  other_key : Key

-- An object: `other` has a type that JSON does not have.
mutual
  pub data Document (F : Type 0) : Type 0 where
    null other : Document F
    bool : Bool → Document F
    int : ℤ → Document F
    float : Float F → Document F
    str : List ℕ → Document F
    arr : Elements F → Document F
    obj : Entries F → Document F

  pub data Elements (F : Type 0) : Type 0 where
    nil : Elements F
    cons : Document F → Elements F → Elements F

  pub data Entries (F : Type 0) : Type 0 where
    end : Entries F
    entry : Key → Document F → Entries F → Entries F

-- A member of a path: a key or an index.
pub data Step : Type 0 where
  at_key : List ℕ → Step
  at_index : ℕ → Step

-- `ContractError` and its subclasses, by `error_id`, with the rendered `json_path`
pub data ContractError : Type 0 where
  limit_exceeded invalid_unicode invalid_type non_finite_number duplicate_key :
      List ℕ → ContractError

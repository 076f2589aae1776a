-- ===== src/Contracts/Canonical/Checks.antt =====
-- packages/contracts/src/robotics_runtime_contracts/canonical.py: the checks of a value before it is
-- encoded, with the budget of nodes and bytes that they count up.
--
-- The interpreter's limit on decimal conversion is a parameter; 0 stands for no limit.
use robotics_runtime.Base.{
  ℕ, ◌+◌, ◌*◌, Bool, true, false, not, ◌&&◌, ◌||◌, List, [], ◌∷◌, ◌++◌, ltb, if◌then◌else◌, Result,
  ok, err, ◌>>=◌, ◌>>◌, raise_if, length, any,
}
use robotics_runtime.Base.Float
use robotics_runtime.Base.Float.{Float}
use robotics_runtime.Base.Int.{ℤ, pos}
use robotics_runtime.Contracts.Canonical.{
  text, other_key, Document, null, bool, int, float, str, arr, obj, Elements, nil, cons, Entries,
  end, entry, Step, at_key, at_index, ContractError, limit_exceeded, invalid_unicode, invalid_type,
  non_finite_number, max_document_bytes, max_document_depth, max_document_nodes,
}
use robotics_runtime.Contracts.Canonical.Text.{
  is_surrogate, encoded_length, magnitude, bit_length, decimal,
}
use robotics_runtime.Contracts.Canonical.Paths.{render_path}

-- `budget`: the nodes and the bytes counted so far
pub record Budget : Type 0 where
  pub nodes : ℕ
  pub bytes : ℕ

-- `str(value)` raises beyond the interpreter's limit, which does not count the sign.
abbrev pub over_digit_limit : ℕ → ℤ → Bool
over_digit_limit digit_limit z =
    ltb 0 digit_limit && ltb digit_limit (length (decimal (pos (magnitude z))))

-- `[0, 0]`
abbrev pub zero_budget : Budget
zero_budget = record { nodes = 0; bytes = 0 }

module _ (is_identifier : List ℕ → Bool) (digit_limit : ℕ) where
  -- `_check_string`; the path of a key's error ends with the key
  unfoldable pub check_string : List ℕ → List Step → Bool → Result ContractError ℕ
  unfolding encoded_length render_path
  check_string value path is_key = do
    raise_if (ltb max_document_bytes (length value))
        (limit_exceeded (render_path is_identifier path))
    raise_if (any is_surrogate value) (
        invalid_unicode
          (render_path is_identifier (if is_key then path ++ (at_key value ∷ []) else path)))
    raise_if (ltb max_document_bytes (encoded_length value))
        (limit_exceeded (render_path is_identifier path))
    ok (encoded_length value)

  -- `_check_integer`
  unfoldable pub check_integer : ℤ → List Step → Result ContractError ℕ
  unfolding render_path
  check_integer value path = do
    raise_if (ltb (4 * max_document_bytes) (bit_length value))
        (limit_exceeded (render_path is_identifier path))
    raise_if (over_digit_limit digit_limit value) (limit_exceeded (render_path is_identifier path))
    raise_if (ltb max_document_bytes (length (decimal value)))
        (limit_exceeded (render_path is_identifier path))
    ok (length (decimal value))

  -- the counting of a node, and its test
  unfoldable pub enter : List Step → ℕ → Budget → Result ContractError Budget
  unfolding render_path
  enter path depth budget = do
    raise_if (ltb max_document_depth depth || ltb max_document_nodes (budget.nodes + 1))
        (limit_exceeded (render_path is_identifier path))
    ok (record { nodes = budget.nodes + 1; bytes = budget.bytes })

  -- the counting of a scalar's bytes, and its test
  unfoldable pub charge : Result ContractError ℕ → List Step → Budget → Result ContractError Budget
  unfolding render_path
  charge checked path budget = do
    size ← checked
    raise_if (ltb max_document_bytes (budget.bytes + size))
        (limit_exceeded (render_path is_identifier path))
    ok (record { nodes = budget.nodes; bytes = budget.bytes + size })

  -- `_check_value` of a key
  unfoldable pub check_key : List ℕ → List Step → ℕ → Budget → Result ContractError Budget
  unfolding enter charge check_string
  check_key key path depth budget =
      enter path depth budget >>= charge (check_string key path false) path

  module _ {F : Type 0} where
    -- `_check_scalar`
    unfoldable pub check_scalar : Document F → List Step → Result ContractError ℕ
    unfolding check_string check_integer render_path
    check_scalar (str value) path = check_string value path false
    check_scalar (int value) path = check_integer value path
    check_scalar (float value) path =
        raise_if (not (Float.is_finite value)) (non_finite_number (render_path is_identifier path))
        >> ok 1
    check_scalar null path = ok 1
    check_scalar (bool _) path = ok 1
    check_scalar _ path = err (invalid_type (render_path is_identifier path))

    -- `_check_value` after the node is counted, with its two loops
    unfoldable mutual
      unfolding enter charge check_string check_scalar check_key

      pub check_content : Document F → List Step → ℕ → Budget → Result ContractError Budget
      check_content (obj entries) path depth budget = check_entries entries path depth budget
      check_content (arr elements) path depth budget = check_elements elements path 0 depth budget
      check_content value path depth budget = charge (check_scalar value path) path budget

      pub check_entries : Entries F → List Step → ℕ → Budget → Result ContractError Budget
      check_entries end path depth budget = ok budget
      check_entries (entry other_key child rest) path depth budget =
          err (invalid_type (render_path is_identifier path))
      check_entries (entry (text key) child rest) path depth budget = do
        check_string key path true
        keyed ← check_key key (path ++ (at_key key ∷ [])) (depth + 1) budget
        opened ← enter (path ++ (at_key key ∷ [])) (depth + 1) keyed
        counted ← check_content child (path ++ (at_key key ∷ [])) (depth + 1) opened
        check_entries rest path depth counted

      pub check_elements : Elements F → List Step → ℕ → ℕ → Budget → Result ContractError Budget
      check_elements nil path index depth budget = ok budget
      check_elements (cons child rest) path index depth budget = do
        opened ← enter (path ++ (at_index index ∷ [])) (depth + 1) budget
        counted ← check_content child (path ++ (at_index index ∷ [])) (depth + 1) opened
        check_elements rest path (index + 1) depth counted

    -- `_check_value`
    unfoldable pub check_value : Document F → List Step → ℕ → Budget → Result ContractError Budget
    unfolding enter check_content
    check_value value path depth budget = enter path depth budget >>= check_content value path depth

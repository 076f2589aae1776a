-- ===== src/Contracts/Canonical/Weights.antt =====
-- What the limits on a document measure, read off the value alone: its nodes, the bytes of its
-- scalars, its height, and that each of its scalars and keys may be written.
use robotics_runtime.Base.{ℕ, ◌+◌, ◌*◌, ◌≤◌, ◌<◌, max, ◌≡◌, true, false, List, arith, length, any}
use robotics_runtime.Base.Float
use robotics_runtime.Contracts.Canonical.{
  Key, text, other_key, Document, other, int, float, str, arr, obj, Elements, nil, cons, Entries,
  end, entry, max_document_bytes, max_document_depth, max_document_nodes,
}
use robotics_runtime.Contracts.Canonical.Text.{is_surrogate, encoded_length, bit_length, decimal}
use robotics_runtime.Contracts.Canonical.Checks.{over_digit_limit}

-- The bytes of a key, or 0 for one that is no string.
abbrev pub key_bytes : Key → ℕ
key_bytes (text key) = encoded_length key
key_bytes other_key = 0

-- The string has a UTF-8 encoding.
abbrev pub IsEncodable : List ℕ → Type 0
IsEncodable s = any is_surrogate s ≡ false

abbrev pub IsStringKey : Key → Type 0
IsStringKey (text key) = IsEncodable key
IsStringKey other_key = ⊥

module _ {F : Type 0} where
  -- A key is a node of its own.
  unfoldable mutual
    pub node_count : Document F → ℕ
    node_count (obj entries) = 1 + nodes_of_entries entries
    node_count (arr elements) = 1 + nodes_of_elements elements
    node_count _ = 1

    pub nodes_of_entries : Entries F → ℕ
    nodes_of_entries end = 0
    nodes_of_entries (entry key child rest) = 1 + node_count child + nodes_of_entries rest

    pub nodes_of_elements : Elements F → ℕ
    nodes_of_elements nil = 0
    nodes_of_elements (cons child rest) = node_count child + nodes_of_elements rest

  -- A lower bound of what the scalars take once they are encoded.
  unfoldable mutual
    pub byte_count : Document F → ℕ
    byte_count (obj entries) = bytes_of_entries entries
    byte_count (arr elements) = bytes_of_elements elements
    byte_count (str value) = encoded_length value
    byte_count (int value) = length (decimal value)
    byte_count _ = 1

    pub bytes_of_entries : Entries F → ℕ
    bytes_of_entries end = 0
    bytes_of_entries (entry key child rest) =
        key_bytes key + byte_count child + bytes_of_entries rest

    pub bytes_of_elements : Elements F → ℕ
    bytes_of_elements nil = 0
    bytes_of_elements (cons child rest) = byte_count child + bytes_of_elements rest

  unfoldable mutual
    pub height : Document F → ℕ
    height (obj entries) = 1 + height_of_entries entries
    height (arr elements) = 1 + height_of_elements elements
    height _ = 1

    pub height_of_entries : Entries F → ℕ
    height_of_entries end = 0
    height_of_entries (entry key child rest) = max (height child) (height_of_entries rest)

    pub height_of_elements : Elements F → ℕ
    height_of_elements nil = 0
    height_of_elements (cons child rest) = max (height child) (height_of_elements rest)

  -- Each scalar has a JSON type and an encoding, and each key is such a string.
  unfoldable mutual
    pub IsAdmissible : ℕ → Document F → Type 0
    IsAdmissible digit_limit (obj entries) = AreAdmissibleEntries digit_limit entries
    IsAdmissible digit_limit (arr elements) = AreAdmissible digit_limit elements
    IsAdmissible digit_limit (str value) = IsEncodable value
    IsAdmissible digit_limit (int value) =
        (bit_length value ≤ 4 * max_document_bytes) × (over_digit_limit digit_limit value ≡ false)
    IsAdmissible digit_limit (float value) = Float.is_finite value ≡ true
    IsAdmissible digit_limit other = ⊥
    IsAdmissible digit_limit _ = Unit

    pub AreAdmissibleEntries : ℕ → Entries F → Type 0
    AreAdmissibleEntries digit_limit end = Unit
    AreAdmissibleEntries digit_limit (entry key child rest) =
        IsStringKey key × IsAdmissible digit_limit child × AreAdmissibleEntries digit_limit rest

    pub AreAdmissible : ℕ → Elements F → Type 0
    AreAdmissible digit_limit nil = Unit
    AreAdmissible digit_limit (cons child rest) =
        IsAdmissible digit_limit child × AreAdmissible digit_limit rest

  -- The document keeps the limits.
  pub record IsBounded (digit_limit : ℕ) (value : Document F) : Type 0 where
    pub admissible : IsAdmissible digit_limit value
    pub nodes : node_count value ≤ max_document_nodes
    pub bytes : byte_count value ≤ max_document_bytes
    pub deep : height value ≤ max_document_depth

  pub node_count-pos : (value : Document F) → 0 < node_count value
  unfolding node_count
  node_count-pos (obj entries) = omega arith
  node_count-pos (arr elements) = omega arith
  node_count-pos _ = omega arith

  pub height-pos : (value : Document F) → 0 < height value
  unfolding height
  height-pos (obj entries) = omega arith
  height-pos (arr elements) = omega arith
  height-pos _ = omega arith

-- ===== src/Contracts/Canonical/Tests.antt =====
-- Runs of the canonical writer on a small document.
use robotics_runtime.Base.{
  ℕ, ◌≤◌, ◌≡◌, refl, ◌↔◌, Bool, true, false, List, [], ◌∷◌, ◌==◌, ok, err, length,
}
use robotics_runtime.Base.Float.{Float}
use robotics_runtime.Base.Int.{negsuc}
use robotics_runtime.Base.Double.{bits}
use robotics_runtime.Contracts.Canonical.{
  Document, bool, int, float, str, arr, obj, nil, cons, end, entry, text, at_key, at_index,
  max_document_bytes, invalid_unicode, non_finite_number,
}
use robotics_runtime.Contracts.Canonical.Text.{encoded_length, digits, escaped}
use robotics_runtime.Contracts.Canonical.Paths.{render_path}
use robotics_runtime.Contracts.Canonical.Checks.{zero_budget, check_value}
use robotics_runtime.Contracts.Canonical.Weights.{IsBounded, node_count, byte_count}
use robotics_runtime.Contracts.Canonical.Limits.{check_value-ok_iff}
use robotics_runtime.Contracts.Canonical.Output.{concat, dumps_canonical, dumps_canonical-ok_iff}
use robotics_runtime.Contracts.Canonical.Rendered.{render_path-le}

-- The one key that the parameter takes for an identifier is `a`.
abbrev is_a : List ℕ → Bool
is_a key = elim key [ [] ↦ false | c ∷ _ ↦ c == 97 ]

-- {"a": [-12, true]}
abbrev document : Document ℕ
document = obj (entry (text (97 ∷ [])) (arr (cons (int (negsuc 11)) (cons (bool true) nil))) end)

checked : check_value is_a 4300 document [] 1 zero_budget ≡ ok (record { nodes = 5; bytes = 5 })
unfolding check_value encoded_length digits bits
checked = refl

-- {"é": [NaN]} and a lone surrogate
refused :
    check_value is_a 4300 {F = ℕ}
      (obj (entry (text (233 ∷ [])) (arr (cons (float Float.nan) nil)) end))
      []
      1
      zero_budget
    ≡ err (
        non_finite_number
          (36 ∷ 91 ∷ 34 ∷ 92 ∷ 117 ∷ 48 ∷ 48 ∷ 101 ∷ 57 ∷ 34 ∷ 93 ∷ 91 ∷ 48 ∷ 93 ∷ []))
unfolding check_value encoded_length render_path escaped digits
refused = refl

surrogate :
    check_value is_a 4300 {F = ℕ} (str (55296 ∷ [])) [] 1 zero_budget
    ≡ err (invalid_unicode (36 ∷ []))
unfolding check_value render_path
surrogate = refl

check_value-ok_iff_example :
    (check_value is_a 4300 document [] 1 zero_budget
      ≡ ok (record { nodes = node_count document; bytes = byte_count document }))
    ↔ IsBounded 4300 document
check_value-ok_iff_example = check_value-ok_iff is_a 4300 document

render_path-le_example :
    encoded_length (render_path is_a (at_key (97 ∷ []) ∷ at_index 3 ∷ [])) ≤ max_document_bytes
render_path-le_example = render_path-le is_a (at_key (97 ∷ []) ∷ at_index 3 ∷ [])

abbrev empty : Document ℕ
empty = obj end

-- An encoder that writes `{}` in two pieces.
abbrev pieces : Document ℕ → List (List ℕ)
pieces _ = (123 ∷ []) ∷ (125 ∷ []) ∷ []

written : dumps_canonical is_a 4300 pieces empty ≡ ok (123 ∷ 125 ∷ [])
unfolding dumps_canonical
written = refl

dumps_canonical-ok_iff_example : (dumps_canonical is_a 4300 pieces empty ≡ ok (123 ∷ 125 ∷ [])) ↔ (
    IsBounded 4300 empty
    × (123 ∷ 125 ∷ [] ≡ concat (pieces empty))
    × (length {A = ℕ} (123 ∷ 125 ∷ []) ≤ max_document_bytes))
dumps_canonical-ok_iff_example = dumps_canonical-ok_iff is_a 4300 pieces empty (123 ∷ 125 ∷ [])

-- ===== src/Contracts/Canonical/Paths.antt =====
-- packages/contracts/src/robotics_runtime_contracts/canonical.py: the rendering of a path, which
-- stops at the last complete member that the byte limit leaves room for.
--
-- The output is written as a list of code points. `str.isidentifier` is a parameter.
use robotics_runtime.Base.{
  take, drop, ℕ, zero, suc, ◌+◌, ◌-◌, Bool, true, false, Option, none, some, List, [], ◌∷◌, ◌++◌,
  ltb, leb, if◌then◌else◌, length,
}
use robotics_runtime.Base.Int.{pos}
use robotics_runtime.Contracts.Canonical.{Step, at_key, at_index, max_document_bytes}
use robotics_runtime.Contracts.Canonical.Text.{encoded_length, escaped, decimal}

-- The loop over the pieces of a key: each is escaped and written, until the size is more than what
-- remains. `json.dumps` escapes code point by code point, and a piece has 4096 of them at most;
-- a fuel of the length of the key is enough, as `write_pieces-enough` shows
unfoldable pub write_pieces : ℕ → List ℕ → ℕ → ℕ → Option (List ℕ × ℕ)
unfolding take drop escaped
write_pieces fuel [] size remaining = some ([], size)
write_pieces zero (c ∷ cs) size remaining = none
write_pieces (suc fuel) (c ∷ cs) size remaining =
    let piece = escaped (take 4096 (c ∷ cs)) in
    elim (ltb remaining (size + length piece)) [
      | true ↦ none
      | false ↦ elim (write_pieces fuel (drop 4096 (c ∷ cs)) (size + length piece) remaining) [
        | none ↦ none
        | some (rest, total) ↦ some (piece ++ rest, total)
      ]
    ]

module _ (is_identifier : List ℕ → Bool) where
  -- `_write_member`: what is written, and its size; `none` where the source returns `None`
  unfoldable pub write_member : List ℕ → ℕ → Option (List ℕ × ℕ)
  unfolding encoded_length write_pieces
  write_member key remaining =
      if is_identifier key
      then (if ltb remaining (1 + encoded_length key)
          then none
          else some (46 ∷ key, 1 + encoded_length key))
      else (if ltb remaining 4 then none else elim (write_pieces (length key) key 4 remaining) [
        | none ↦ none
        | some (pieces, size) ↦ some (91 ∷ 34 ∷ (pieces ++ (34 ∷ 93 ∷ [])), size)
      ])

  -- one member, a key or an index
  unfoldable pub write_step : Step → ℕ → Option (List ℕ × ℕ)
  unfolding write_member
  write_step (at_key key) remaining = write_member key remaining
  write_step (at_index index) remaining =
      let suffix = 91 ∷ (decimal (pos index) ++ (93 ∷ [])) in
      if leb (length suffix) remaining then some (suffix, length suffix) else none

  -- the loop of `_render_path`
  unfoldable pub render_from : List Step → ℕ → List ℕ
  unfolding write_step
  render_from [] remaining = []
  render_from (s ∷ ss) remaining = elim (write_step s remaining) [
    | none ↦ []
    | some (written, size) ↦ written ++ render_from ss (remaining - size)
  ]

  -- `_render_path`
  unfoldable pub render_path : List Step → List ℕ
  unfolding render_from
  render_path path = 36 ∷ render_from path (max_document_bytes - 1)

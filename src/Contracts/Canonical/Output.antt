-- ===== src/Contracts/Canonical/Output.antt =====
-- packages/contracts/src/robotics_runtime_contracts/canonical.py: the output of the encoder, under
-- the byte limit.
--
-- The encoder of the standard library is a parameter: the pieces that `iterencode` yields, each
-- encoded as UTF-8.
use robotics_runtime.Base.{
  length-append, append_assoc, append_nil, ℕ, ◌+◌, ◌≤◌, ◌≡◌, sym, ap, ◌∙◌, subst, ◌↔◌, Bool, false,
  List, [], ◌∷◌, ◌++◌, ok_injective, bind-ok, raise_if-ok, arith, ltb, Result, ok, ◌>>◌, raise_if,
  length,
}
use robotics_runtime.Contracts.Canonical.{Document, ContractError, max_document_bytes}
use robotics_runtime.Contracts.Canonical.Checks.{check_value}
use robotics_runtime.Contracts.Canonical.Weights.{IsBounded}
use robotics_runtime.Contracts.Canonical.{limit_exceeded}
use robotics_runtime.Contracts.Canonical.Checks.{zero_budget}
use robotics_runtime.Contracts.Canonical.Limits.{check_value-counted, check_value_complete}

-- The bytes that are written.
abbrev pub concat : List (List ℕ) → List ℕ
concat [] = []
concat (chunk ∷ chunks) = chunk ++ concat chunks

-- the loop over the pieces; `_limit` has the root as its default path
unfoldable pub write_chunks : List ℕ → List (List ℕ) → Result ContractError (List ℕ)
write_chunks output [] = ok output
write_chunks output (chunk ∷ chunks) =
    raise_if (ltb max_document_bytes (length output + length chunk)) (limit_exceeded (36 ∷ []))
    >> write_chunks (output ++ chunk) chunks

write_chunks-ok :
    (output : List ℕ) (chunks : List (List ℕ)) (written : List ℕ)
    → length output ≤ max_document_bytes
    → write_chunks output chunks ≡ ok written
    → (written ≡ output ++ concat chunks) × (length written ≤ max_document_bytes)
unfolding write_chunks
write_chunks-ok output [] written l h = (
  sym (ok_injective h) ∙ sym (append_nil output),
  subst (λ w. length w ≤ max_document_bytes) (ok_injective h) l,
)
write_chunks-ok output (chunk ∷ chunks) written l h =
    let (u, r, k) =
      bind-ok (raise_if (ltb max_document_bytes (length output + length chunk)) _) _ written h in
    let fits = raise_if-ok (ltb max_document_bytes (length output + length chunk)) _ u r in
    let (e, m) =
      write_chunks-ok (output ++ chunk) chunks written
        (ground (arith, fits, length-append output chunk)) k in
    (e ∙ append_assoc output chunk (concat chunks), m)

write_chunks_complete :
    (output : List ℕ) (chunks : List (List ℕ))
    → length output + length (concat chunks) ≤ max_document_bytes
    → write_chunks output chunks ≡ ok (output ++ concat chunks)
unfolding write_chunks
write_chunks_complete output [] l = ap ok (sym (append_nil output))
write_chunks_complete output (chunk ∷ chunks) l =
    let size = length-append chunk (concat chunks) in
    let rest =
      write_chunks_complete (output ++ chunk) chunks
        (ground (arith, l, size, length-append output chunk)) in
    rw (fits output chunk (omega (arith, l, size)))
      (rest ∙ ap ok (append_assoc output chunk (concat chunks)))
  where
    fits :
        (xs ys : List ℕ)
        → length xs + length ys ≤ max_document_bytes
        → ltb max_document_bytes (length xs + length ys) ≡ false
    fits xs ys h = ground arith

module _ (is_identifier : List ℕ → Bool) (digit_limit : ℕ) {F : Type 0}
    (encode : Document F → List (List ℕ)) where
  -- `dumps_canonical`
  unfoldable pub dumps_canonical : Document F → Result ContractError (List ℕ)
  unfolding check_value write_chunks
  dumps_canonical document =
      check_value is_identifier digit_limit document [] 1 zero_budget
      >> write_chunks [] (encode document)

  -- A document is written as some bytes exactly when it keeps the limits, the bytes are the
  -- pieces of the encoder one after another, and there are no more of them than the byte limit.
  pub dumps_canonical-ok_iff :
      (document : Document F) (output : List ℕ)
      → (dumps_canonical document ≡ ok output) ↔ (
          IsBounded digit_limit document
          × (output ≡ concat (encode document))
          × (length output ≤ max_document_bytes))
  unfolding dumps_canonical
  dumps_canonical-ok_iff document output = (
    λ h.
        let (c, e, k) =
          bind-ok (check_value is_identifier digit_limit document [] 1 zero_budget)
            (λ _. write_chunks [] (encode document)) output h in
        let (w, l) = write_chunks-ok [] (encode document) output (omega arith) k in
        ((check_value-counted is_identifier digit_limit document c e).0, w, l),
    λ (bounded, w, l).
        let (c, e) = check_value_complete is_identifier digit_limit document bounded in
        let fits : length (concat (encode document)) ≤ max_document_bytes =
          subst (λ o. length o ≤ max_document_bytes) w l in
        rw e (write_chunks_complete [] (encode document) (omega (arith, fits)) ∙ ap ok (sym w)),
  )

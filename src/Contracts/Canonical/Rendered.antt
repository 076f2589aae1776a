-- ===== src/Contracts/Canonical/Rendered.antt =====
-- A rendered path keeps the byte limit of a document.
use robotics_runtime.Base.{
  length-append, ℕ, ◌+◌, ◌-◌, ◌≤◌, ◌≡◌, refl, sym, subst, Bool, true, false, Option, none, some,
  List, [], ◌∷◌, ◌++◌, le-of-not-ltb, some_injective, arith, ltb, leb, if◌then◌else◌, if_ind,
  length,
}
use robotics_runtime.Base.Int.{pos}
use robotics_runtime.Contracts.Canonical.{Step, at_key, at_index, max_document_bytes}
use robotics_runtime.Contracts.Canonical.Text.{encoded_length, decimal}
use robotics_runtime.Contracts.Canonical.Paths.{
  write_pieces, write_member, write_step, render_from, render_path,
}
use robotics_runtime.Contracts.Canonical.Ascii.{
  IsAscii, IsAscii-append, digits-IsAscii, encoded_length-append, encoded_length-ascii,
}
use robotics_runtime.Contracts.Canonical.Pieces.{Fits, write_pieces-Fits}

-- A written member is counted by its bytes, and fits.
abbrev IsMeasured : ℕ → List ℕ × ℕ → Type 0
IsMeasured remaining (out, size) = (size ≡ encoded_length out) × (size ≤ remaining)

passed {ℓ} :
    {A : Type ℓ} (b : Bool) (r : Option A) (w : A)
    → (if b then none else r) ≡ some w
    → (b ≡ false) × (r ≡ some w)
passed true r w h = cc
passed false r w h = (refl, h)

dotted : (key : List ℕ) → 1 + encoded_length key ≡ encoded_length (46 ∷ key)
unfolding encoded_length
dotted key = omega arith

quoted-IsMeasured :
    (remaining : ℕ) (r : Option (List ℕ × ℕ)) (written : List ℕ × ℕ)
    → ((w : List ℕ × ℕ) → r ≡ some w → Fits 4 remaining w)
    → (elim r as (λ _. Option (List ℕ × ℕ)) [
      | none ↦ none
      | some (pieces, size) ↦ some (91 ∷ 34 ∷ (pieces ++ (34 ∷ 93 ∷ [])), size)
    ])
      ≡ some written
    → IsMeasured remaining written
quoted-IsMeasured remaining none written f h = cc
quoted-IsMeasured remaining (some (pieces, size)) written f h =
    let (ascii, sized, fits) = f (pieces, size) refl in
    let whole = IsAscii-append pieces (34 ∷ 93 ∷ []) ascii (omega arith, (omega arith, tt)) in
    subst (IsMeasured remaining) (some_injective h) (
      omega (
        arith,
        sized,
        length-append pieces (34 ∷ 93 ∷ []),
        encoded_length-ascii (91 ∷ 34 ∷ (pieces ++ (34 ∷ 93 ∷ [])))
            (omega arith, (omega arith, whole)),
      ),
      fits,
    )

suffix-IsAscii : (index : ℕ) → IsAscii (91 ∷ (decimal (pos index) ++ (93 ∷ [])))
suffix-IsAscii index = (
  omega arith,
  IsAscii-append (decimal (pos index)) (93 ∷ []) (digits-IsAscii index index [] tt)
      (omega arith, tt),
)

module _ (is_identifier : List ℕ → Bool) where
  write_member-IsMeasured :
      (key : List ℕ) (remaining : ℕ) (written : List ℕ × ℕ)
      → write_member is_identifier key remaining ≡ some written
      → IsMeasured remaining written
  unfolding write_member
  write_member-IsMeasured key remaining written h =
      if_ind (λ o. o ≡ some written → IsMeasured remaining written) (is_identifier key)
        (λ _ k.
          let (room, e) = passed (ltb remaining (1 + encoded_length key)) _ written k in
          subst (IsMeasured remaining) (some_injective e) (dotted key, le-of-not-ltb _ _ room))
        (λ _ k.
          let (room, e) = passed (ltb remaining 4) _ written k in
          quoted-IsMeasured remaining (write_pieces (length key) key 4 remaining) written
            (λ w f.
              write_pieces-Fits (length key) key 4 remaining w (le-of-not-ltb 4 remaining room) f)
            e)
        h

  write_step-IsMeasured :
      (s : Step) (remaining : ℕ) (written : List ℕ × ℕ)
      → write_step is_identifier s remaining ≡ some written
      → IsMeasured remaining written
  unfolding write_step
  write_step-IsMeasured (at_key key) remaining written h =
      write_member-IsMeasured key remaining written h
  write_step-IsMeasured (at_index index) remaining written h =
      let suffix = 91 ∷ (decimal (pos index) ++ (93 ∷ [])) in
      if_ind (λ o. o ≡ some written → IsMeasured remaining written) (leb (length suffix) remaining)
        (λ room e.
          subst (IsMeasured remaining) (some_injective e)
            (sym (encoded_length-ascii suffix (suffix-IsAscii index)), ground (arith, room)))
        (λ _ e. cc) h

  render_from-le :
      (path : List Step) (remaining : ℕ)
      → encoded_length (render_from is_identifier path remaining) ≤ remaining
  unfolding render_from encoded_length
  render_from-le [] remaining = omega arith
  render_from-le (s ∷ ss) remaining =
      go (write_step is_identifier s remaining) (λ w e. write_step-IsMeasured s remaining w e)
        (λ n. render_from-le ss n)
    where
      go :
          (r : Option (List ℕ × ℕ))
          → ((w : List ℕ × ℕ) → r ≡ some w → IsMeasured remaining w)
          → ((n : ℕ) → encoded_length (render_from is_identifier ss n) ≤ n)
          → encoded_length (elim r as (λ _. List ℕ) [
            | none ↦ []
            | some (written, size) ↦ written ++ render_from is_identifier ss (remaining - size)
          ])
            ≤ remaining
      go none f g = omega arith
      go (some (written, size)) f g =
          let (sized, fits) = f (written, size) refl in
          omega (
            arith,
            sized,
            fits,
            encoded_length-append written (render_from is_identifier ss (remaining - size)),
            g (remaining - size),
          )

  -- A rendered path takes no more bytes than the limit on a document, whatever keys and indices
  -- it holds.
  pub render_path-le :
      (path : List Step) → encoded_length (render_path is_identifier path) ≤ max_document_bytes
  unfolding render_path encoded_length
  render_path-le path = omega (arith, render_from-le path (max_document_bytes - 1))

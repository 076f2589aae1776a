-- ===== src/Contracts/Canonical/Pieces.antt =====
-- packages/contracts/src/robotics_runtime_contracts/canonical.py: the pieces in which a key is written.
use robotics_runtime.Base.{
  take, drop, take-drop, length-drop, length-append, append_assoc, some_injective, ℕ, zero, suc,
  ◌+◌, ◌≤◌, ◌≡◌, refl, sym, ap, ◌∙◌, subst, Bool, true, false, Option, none, some, List, [], ◌∷◌,
  ◌++◌, arith, ltb, length,
}
use robotics_runtime.Contracts.Canonical.Text.{escaped_char, escaped}
use robotics_runtime.Contracts.Canonical.Paths.{write_pieces}
use robotics_runtime.Contracts.Canonical.Ascii.{IsAscii, IsAscii-append, escaped-IsAscii}

-- What was written is ASCII, it is as long as was counted, and it fits.
abbrev pub Fits : ℕ → ℕ → List ℕ × ℕ → Type 0
Fits size remaining (out, total) = IsAscii out × (total ≡ size + length out) × (total ≤ remaining)

pub write_pieces-Fits :
    (fuel : ℕ) (key : List ℕ) (size remaining : ℕ) (written : List ℕ × ℕ)
    → size ≤ remaining
    → write_pieces fuel key size remaining ≡ some written
    → Fits size remaining written
unfolding write_pieces
write_pieces-Fits fuel [] size remaining written l h =
    subst (Fits size remaining) (some_injective h) (tt, omega arith, l)
write_pieces-Fits zero (c ∷ cs) size remaining written l h = cc
write_pieces-Fits (suc fuel) (c ∷ cs) size remaining written l h =
    go (ltb remaining (size + length piece))
      (write_pieces fuel (drop 4096 (c ∷ cs)) (size + length piece) remaining) (λ e. ground arith)
      (λ w fits e.
        write_pieces-Fits fuel (drop 4096 (c ∷ cs)) (size + length piece) remaining w fits e)
      refl refl h
  where
    piece : List ℕ
    piece = escaped (take 4096 (c ∷ cs))

    go :
        (b : Bool) (r : Option (List ℕ × ℕ))
        → (b ≡ false → size + length piece ≤ remaining)
        → ((w : List ℕ × ℕ)
            → size + length piece ≤ remaining
            → write_pieces fuel (drop 4096 (c ∷ cs)) (size + length piece) remaining ≡ some w
            → Fits (size + length piece) remaining w)
        → ltb remaining (size + length piece) ≡ b
        → write_pieces fuel (drop 4096 (c ∷ cs)) (size + length piece) remaining ≡ r
        → (elim b as (λ _. Option (List ℕ × ℕ)) [
          | true ↦ none
          | false ↦ elim r as (λ _. Option (List ℕ × ℕ)) [
            | none ↦ none
            | some (rest, total) ↦ some (piece ++ rest, total)
          ]
        ])
          ≡ some written
        → Fits size remaining written
    go true r f g e k h = cc
    go false none f g e k h = cc
    go false (some (rest, total)) f g e k h =
        let (ascii, sized, fits) = g (rest, total) (f refl) k in
        subst (Fits size remaining) (some_injective h) (
          IsAscii-append piece rest (escaped-IsAscii (take 4096 (c ∷ cs))) ascii,
          omega (arith, sized, length-append piece rest),
          fits,
        )

pub escaped-append : (xs ys : List ℕ) → escaped (xs ++ ys) ≡ escaped xs ++ escaped ys
unfolding escaped
escaped-append [] ys = refl
escaped-append (x ∷ xs) ys =
    ap (λ t. escaped_char x ++ t) (escaped-append xs ys)
    ∙ sym (append_assoc (escaped_char x) (escaped xs) (escaped ys))

pub not_above : (n k : ℕ) → n ≤ k → ltb k n ≡ false
not_above n k h = ground arith

pub joined :
    (piece : List ℕ) (b : Bool) (r : Option (List ℕ × ℕ)) (x : List ℕ) (n : ℕ)
    → b ≡ false
    → r ≡ some (x, n)
    → (elim b as (λ _. Option (List ℕ × ℕ)) [
      | true ↦ none
      | false ↦ elim r as (λ _. Option (List ℕ × ℕ)) [
        | none ↦ none
        | some (rest, total) ↦ some (piece ++ rest, total)
      ]
    ])
      ≡ some (piece ++ x, n)
joined piece b r x n e f = rw (e, f) refl

-- With enough fuel, a key that fits is written whole: its pieces are those of the escaped key.
pub write_pieces-enough :
    (fuel : ℕ) (key : List ℕ) (size remaining : ℕ)
    → length key ≤ fuel
    → size + length (escaped key) ≤ remaining
    → write_pieces fuel key size remaining ≡ some (escaped key, size + length (escaped key))
unfolding write_pieces
write_pieces-enough fuel [] size remaining l h = ap (λ n. some ([], n)) (omega arith)
write_pieces-enough zero (c ∷ cs) size remaining l h = absurd (omega arith)
write_pieces-enough (suc fuel) (c ∷ cs) size remaining l h =
    let key = c ∷ cs in
    let piece = escaped (take 4096 key) in
    let left = drop 4096 key in
    let whole : escaped key ≡ piece ++ escaped left =
      ap escaped (sym (take-drop 4096 key)) ∙ escaped-append (take 4096 key) left in
    let total : length (escaped key) ≡ length piece + length (escaped left) =
      ap length whole ∙ length-append piece (escaped left) in
    let rest =
      write_pieces-enough fuel left (size + length piece) remaining
        (omega (arith, l, length-drop 4095 cs)) (omega (arith, h, total)) in
    joined piece (ltb remaining (size + length piece))
      (write_pieces fuel left (size + length piece) remaining) (escaped left)
      (size + length piece + length (escaped left))
      (not_above (size + length piece) remaining (omega (arith, h, total))) rest
    ∙ (ap (λ x. some (x, size + length piece + length (escaped left))) (sym whole)
        ∙ ap (λ n. some (escaped key, n)) (omega (arith, total)))

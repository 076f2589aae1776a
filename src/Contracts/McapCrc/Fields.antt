-- ===== src/Contracts/McapCrc/Fields.antt =====
-- What it takes to read a field and go on: each step of a chain, with the steps behind it.
use robotics_runtime.Base.{
  ℕ, ◌+◌, ◌≤◌, ◌<◌, ◌≡◌, refl, sym, ap, subst, ◌↔◌, Bool, true, false, not, List, drop, length-drop,
  length-take, le-of-not-ltb, ok_injective, bind-ok, arith, ltb, ◌==◌, Result, ok, ◌>>=◌, ◌>>◌,
  raise_if, length,
}
use robotics_runtime.Contracts.McapCrc.{
  CrcError, truncated_fields, field_exceeds_record, from_bytes, read, read_integer, skip,
  skip_field,
}

not-ltb : {a b : ℕ} → a ≤ b → ltb b a ≡ false
not-ltb h = ground arith

eq-true : {a b : ℕ} → a ≡ b → (a == b) ≡ true
eq-true h = ground arith

not-true : {a b : ℕ} → not (a == b) ≡ false → a ≡ b
not-true h = ground arith

-- Where a field can be read: inside its record and inside the file.
abbrev pub Fits : List ℕ → ℕ → ℕ → ℕ → Type 0
Fits bytes position size end = (position + size ≤ end) × (position + size ≤ length bytes)

pub raise_if-then_iff :
    {E : Type 0} {B : Type 0} (bad : Bool) (e : E) (k : Result E B) (b : B)
    → ((raise_if bad e >> k) ≡ ok b) ↔ ((bad ≡ false) × (k ≡ ok b))
raise_if-then_iff true e k b = (λ h. cc, λ h. cc)
raise_if-then_iff false e k b = (λ h. (refl, h), λ (_, h). h)

module _ (bytes : List ℕ) where
  length-read :
      (position size : ℕ)
      → 0 < size
      → length (read bytes position size) ≡ size
      → position + size ≤ length bytes
  length-read position size h e =
      omega (arith, h, e, length-take size (drop position bytes), length-drop position bytes)

  read-length :
      (position size : ℕ)
      → position + size ≤ length bytes
      → length (read bytes position size) ≡ size
  read-length position size h =
      omega (arith, h, length-take size (drop position bytes), length-drop position bytes)

  read_integer-Fits :
      (position size end : ℕ)
      → Fits bytes position size end
      → read_integer bytes position size end
        ≡ ok (from_bytes (read bytes position size), position + size)
  unfolding read_integer
  read_integer-Fits position size end (a, c) =
      rw (read_integer, not-ltb a, eq-true (read-length position size c)) refl

  skip-within :
      (position size end : ℕ)
      → position + size ≤ end
      → skip bytes position size end ≡ ok (position + size)
  unfolding skip
  skip-within position size end a = rw (skip, not-ltb a) refl

  pub read_integer-then_iff :
      {B : Type 0} (position size end : ℕ) (k : ℕ × ℕ → Result CrcError B) (b : B)
      → 0 < size
      → ((read_integer bytes position size end >>= k) ≡ ok b) ↔ (
          Fits bytes position size end
          × (k (from_bytes (read bytes position size), position + size) ≡ ok b))
  unfolding read_integer
  read_integer-then_iff position size end k b pos = (
    λ h.
        let (r, p, q) = bind-ok (read_integer bytes position size end) k b h in
        let (a, c) = (raise_if-then_iff (ltb end (position + size)) truncated_fields _ r).0 p in
        let (d, e) =
          (raise_if-then_iff (not (length (read bytes position size) == size)) truncated_fields _
              r).0
            c in
        (
          (le-of-not-ltb (position + size) end a, length-read position size pos (not-true d)),
          subst (λ t. k t ≡ ok b) (sym (ok_injective e)) q,
        ),
    λ (f, h). rw (read_integer-Fits position size end f) h,
  )

  pub skip-then_iff :
      {B : Type 0} (position size end : ℕ) (k : ℕ → Result CrcError B) (b : B)
      → ((skip bytes position size end >>= k) ≡ ok b)
        ↔ ((position + size ≤ end) × (k (position + size) ≡ ok b))
  unfolding skip
  skip-then_iff position size end k b = (
    λ h.
        let (r, p, q) = bind-ok (skip bytes position size end) k b h in
        let (a, c) = (raise_if-then_iff (ltb end (position + size)) field_exceeds_record _ r).0 p in
        (le-of-not-ltb (position + size) end a, subst (λ t. k t ≡ ok b) (sym (ok_injective c)) q),
    λ (a, h). rw (skip-within position size end a) h,
  )

  pub skip_field-then_iff :
      {B : Type 0} (position size end : ℕ) (k : ℕ → Result CrcError B) (b : B)
      → 0 < size
      → ((skip_field bytes position size end >>= k) ≡ ok b) ↔ (
          Fits bytes position size end
          × (position + size + from_bytes (read bytes position size) ≤ end)
          × (k (position + size + from_bytes (read bytes position size)) ≡ ok b))
  skip_field-then_iff position size end k b pos = (
    λ h.
        let (r, p, q) = bind-ok (skip_field bytes position size end) k b h in
        let (f, e) = (read_integer-then_iff position size end _ r pos).0 p in
        let (l, c) =
          (skip-then_iff (position + size) (from_bytes (read bytes position size)) end ok r).0
            (ap (λ m. m >>= ok) e) in
        (f, l, subst (λ t. k t ≡ ok b) (sym (ok_injective c)) q),
    λ (f, l, h).
        rw
          (
            read_integer-Fits position size end f,
            skip-within (position + size) (from_bytes (read bytes position size)) end l,
          )
          h,
  )

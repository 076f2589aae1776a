-- ===== src/Contracts/McapCrc/Walk.antt =====
-- What a whole file needs to pass: its records tile it up to the trailing magic, each one checked.
use robotics_runtime.Base.{
  ℕ, zero, suc, ◌+◌, ◌≤◌, ◌≡◌, refl, sym, ap, ◌∙◌, subst, ◌≢◌, ◌↔◌, ◌⊎◌, inl, inr, Bool, true,
  false, not, List, [], ◌++◌, le-of-not-ltb, ok_injective, bind-ok, arith, ltb, ◌==◌, if◌then◌else◌,
  Bool-cases, Result, ok, ◌>>=◌, ◌>>◌, raise_if, length,
}
use robotics_runtime.Contracts.McapCrc.{
  CrcError, record_past_end, footer_not_last, from_bytes, read, read_integer, attachment_crc,
  footer_crc, limit, check_record, record_at, walk, verify_extra_crcs,
}
use robotics_runtime.Contracts.McapCrc.Fields.{raise_if-then_iff, read_integer-then_iff}
use robotics_runtime.Contracts.McapCrc.{
  CrcError, record_past_end, footer_not_last, from_bytes, read, read_integer, attachment_crc,
  footer_crc, limit, check_record, record_at, walk, verify_extra_crcs,
}
use robotics_runtime.Contracts.McapCrc.Records.{
  IsAttachment, IsFooter, attachment_crc-ok_iff, footer_crc-ok_iff,
}

not-true : {a b : ℕ} → not (a == b) ≡ false → a ≡ b
not-true h = ground arith

not-of : {a b : ℕ} → a ≡ b → not (a == b) ≡ false
not-of h = ground arith

not-ltb : {a b : ℕ} → a ≤ b → ltb b a ≡ false
not-ltb h = ground arith

-- where the record ends that starts at a position
abbrev pub record_end : List ℕ → ℕ → ℕ
record_end bytes position = position + 1 + 8 + from_bytes (read bytes (position + 1) 8)

module _ (magic_size attachment_opcode footer_opcode : ℕ) (crc32 : List ℕ → ℕ → ℕ)
    (bytes : List ℕ) where
  pub record IsRecord (opcode start end : ℕ) : Type 0 where
    attachment : opcode ≡ attachment_opcode → IsAttachment crc32 bytes start end
    footer :
        opcode ≢ attachment_opcode
        → opcode ≡ footer_opcode
        → (end ≡ limit magic_size bytes) × IsFooter crc32 bytes magic_size start end

  -- From a position on, checked records follow one another up to the trailing magic.
  pub data IsTiled : ℕ → Type 0 where
    done : {position : ℕ} → limit magic_size bytes ≤ position → IsTiled position
    next :
        {position : ℕ}
        → position + 9 ≤ limit magic_size bytes
        → record_end bytes position ≤ limit magic_size bytes
        → IsRecord
            (from_bytes (read bytes position 1))
            (position + 1 + 8)
            (record_end bytes position)
        → IsTiled (record_end bytes position)
        → IsTiled position

  IsTiled-step :
      {position : ℕ}
      → IsTiled position
      → (limit magic_size bytes ≤ position)
        ⊎ ((position + 9 ≤ limit magic_size bytes)
            × (record_end bytes position ≤ limit magic_size bytes)
            × IsRecord
                (from_bytes (read bytes position 1))
                (position + 1 + 8)
                (record_end bytes position)
            × IsTiled (record_end bytes position))
  IsTiled-step (done l) = inl l
  IsTiled-step (next a b c d) = inr (a, b, c, d)

module _ (magic_size attachment_opcode footer_opcode : ℕ) (crc32 : List ℕ → ℕ → ℕ)
    (crc32_nil : (c : ℕ) → crc32 [] c ≡ c)
    (crc32_append : (xs ys : List ℕ) (c : ℕ) → crc32 (xs ++ ys) c ≡ crc32 ys (crc32 xs c))
    (bytes : List ℕ) where
  check_record-ok_iff :
      (opcode start end : ℕ)
      → end ≤ length bytes
      → (check_record magic_size attachment_opcode footer_opcode crc32 bytes opcode start end
          ≡ ok tt)
        ↔ IsRecord magic_size attachment_opcode footer_opcode crc32 bytes opcode start end
  unfolding check_record
  check_record-ok_iff opcode start end l =
      by_opcode (opcode == attachment_opcode) (opcode == footer_opcode) refl refl
    where
      footer_iff :
          ((raise_if (not (end == limit magic_size bytes)) footer_not_last
              >> footer_crc magic_size crc32 bytes start end)
            ≡ ok tt)
          ↔ ((end ≡ limit magic_size bytes) × IsFooter crc32 bytes magic_size start end)
      footer_iff = (
        λ h.
            let (e, k) =
              (raise_if-then_iff (not (end == limit magic_size bytes)) footer_not_last _ tt).0 h in
            (
              not-true e,
              (footer_crc-ok_iff crc32 crc32_nil crc32_append bytes magic_size start end l).0 k,
            ),
        λ (e, k). (raise_if-then_iff (not (end == limit magic_size bytes)) footer_not_last _ tt).1 (
          not-of e,
          (footer_crc-ok_iff crc32 crc32_nil crc32_append bytes magic_size start end l).1 k,
        ),
      )

      by_opcode :
          (a f : Bool)
          → (opcode == attachment_opcode) ≡ a
          → (opcode == footer_opcode) ≡ f
          → ((if a
                then attachment_crc crc32 bytes start end
                else if f
                then (raise_if (not (end == limit magic_size bytes)) footer_not_last
                    >> footer_crc magic_size crc32 bytes start end)
                else ok tt)
              ≡ ok tt)
            ↔ IsRecord magic_size attachment_opcode footer_opcode crc32 bytes opcode start end
      by_opcode true f p q = (
        λ h. record {
          attachment =
              λ _. (attachment_crc-ok_iff crc32 crc32_nil crc32_append bytes start end l).0 h;
          footer = λ n. absurd (ground (arith, p, n));
        },
        λ r.
            (attachment_crc-ok_iff crc32 crc32_nil crc32_append bytes start end l).1
              (r.attachment (ground (arith, p))),
      )
      by_opcode false true p q = (
        λ h. record {
          attachment = λ e. absurd (ground (arith, p, e));
          footer = λ _ _. footer_iff.0 h;
        },
        λ r. footer_iff.1 (r.footer (ground (arith, p)) (ground (arith, q))),
      )
      by_opcode false false p q = (
        λ h. record {
          attachment = λ e. absurd (ground (arith, p, e));
          footer = λ _ e. absurd (ground (arith, q, e));
        },
        λ r. refl,
      )

  record_at-then_iff :
      (position : ℕ) (k : ℕ → Result CrcError (Unit {0}))
      → ((record_at magic_size attachment_opcode footer_opcode crc32 bytes position >>= k) ≡ ok tt)
        ↔ ((position + 9 ≤ limit magic_size bytes)
            × (record_end bytes position ≤ limit magic_size bytes)
            × IsRecord magic_size attachment_opcode footer_opcode crc32 bytes
                (from_bytes (read bytes position 1))
                (position + 1 + 8)
                (record_end bytes position)
            × (k (record_end bytes position) ≡ ok tt))
  unfolding record_at
  record_at-then_iff position k = (
    λ h.
        let (r, h0, g) =
          bind-ok (record_at magic_size attachment_opcode footer_opcode crc32 bytes position) k tt
            h in
        let (_, h1) = (read_integer-then_iff bytes position 1 last step1 r (omega arith)).0 h0 in
        let ((a, _), h2) =
          (read_integer-then_iff bytes (position + 1) 8 last (step2 opcode) r (omega arith)).0 h1 in
        let (b, h3) =
          (raise_if-then_iff (ltb last (record_end bytes position)) record_past_end _ r).0 h2 in
        let (_, c, h4) =
          bind-ok
            (check_record magic_size attachment_opcode footer_opcode crc32 bytes opcode
              (position + 1 + 8) (record_end bytes position))
            _ r h3 in
        let inside = le-of-not-ltb (record_end bytes position) last b in
        (
          omega (arith, a),
          inside,
          (check_record-ok_iff opcode (position + 1 + 8) (record_end bytes position)
                (omega (arith, inside))).0
              c,
          subst (λ t. k t ≡ ok tt) (sym (ok_injective h4)) g,
        ),
    λ (a, b, c, h).
        ap (λ m. m >>= k)
          ((read_integer-then_iff bytes position 1 last step1 (record_end bytes position)
              (omega arith)).1
            (
              (omega (arith, a), omega (arith, a)),
              (read_integer-then_iff bytes (position + 1) 8 last (step2 opcode)
                    (record_end bytes position) (omega arith)).1
                  (
                    (omega (arith, a), omega (arith, a)),
                    (raise_if-then_iff (ltb last (record_end bytes position)) record_past_end _
                          (record_end bytes position)).1
                        (
                          not-ltb b,
                          ap (λ m. m >> ok (record_end bytes position))
                              ((check_record-ok_iff opcode (position + 1 + 8)
                                  (record_end bytes position) (omega (arith, b))).1
                                c),
                        ),
                  ),
            ))
        ∙ h,
  )
    where
      last : ℕ
      last = limit magic_size bytes

      opcode : ℕ
      opcode = from_bytes (read bytes position 1)

      step2 : ℕ → ℕ × ℕ → Result CrcError ℕ
      step2 code (size, start) =
          raise_if (ltb last (start + size)) record_past_end
          >> (check_record magic_size attachment_opcode footer_opcode crc32 bytes code start
                (start + size)
              >> ok (start + size))

      step1 : ℕ × ℕ → Result CrcError ℕ
      step1 (code, behind_opcode) = read_integer bytes behind_opcode 8 last >>= step2 code

  walk_step-ok_iff :
      (fuel position : ℕ)
      → (walk magic_size attachment_opcode footer_opcode crc32 bytes fuel
            (record_end bytes position)
          ≡ ok tt)
        ↔ IsTiled magic_size attachment_opcode footer_opcode crc32 bytes (record_end bytes position)
      → (walk magic_size attachment_opcode footer_opcode crc32 bytes (suc fuel) position ≡ ok tt)
        ↔ IsTiled magic_size attachment_opcode footer_opcode crc32 bytes position
  unfolding walk
  walk_step-ok_iff fuel position rest_iff = elim (Bool-cases (ltb position last)) [
    | inl e ↦ (
      λ h. going_on (record_iff.0 (subst (λ r. r ≡ ok tt) (opened e) h)),
      λ t. opened e ∙ record_iff.1 (first e t),
    )
    | inr e ↦ (λ _. done (le-of-not-ltb last position e), λ _. rw (walk, e) refl)
  ]
    where
      last : ℕ
      last = limit magic_size bytes

      rest : ℕ → Result CrcError (Unit {0})
      rest = walk magic_size attachment_opcode footer_opcode crc32 bytes fuel

      opened :
          ltb position last ≡ true
          → walk magic_size attachment_opcode footer_opcode crc32 bytes (suc fuel) position
            ≡ (record_at magic_size attachment_opcode footer_opcode crc32 bytes position >>= rest)
      opened e = rw (walk, e) refl

      Step : Type 0
      Step =
          (position + 9 ≤ last)
          × (record_end bytes position ≤ last)
          × IsRecord magic_size attachment_opcode footer_opcode crc32 bytes
              (from_bytes (read bytes position 1)) (position + 1 + 8) (record_end bytes position)
          × (rest (record_end bytes position) ≡ ok tt)

      record_iff :
          ((record_at magic_size attachment_opcode footer_opcode crc32 bytes position >>= rest)
            ≡ ok tt)
          ↔ Step
      record_iff = record_at-then_iff position rest

      going_on : Step → IsTiled magic_size attachment_opcode footer_opcode crc32 bytes position
      going_on (a, b, c, h) = next a b c (rest_iff.0 h)

      first :
          ltb position last ≡ true
          → IsTiled magic_size attachment_opcode footer_opcode crc32 bytes position
          → Step
      first e t = elim (IsTiled-step magic_size attachment_opcode footer_opcode crc32 bytes t) [
        | inl n ↦ absurd (ground (arith, e, n))
        | inr (a, b, c, d) ↦ (a, b, c, rest_iff.1 d)
      ]

  walk-ok_iff :
      (fuel position : ℕ)
      → limit magic_size bytes ≤ position + fuel
      → (walk magic_size attachment_opcode footer_opcode crc32 bytes fuel position ≡ ok tt)
        ↔ IsTiled magic_size attachment_opcode footer_opcode crc32 bytes position
  unfolding walk
  walk-ok_iff zero position l = (
    λ _. done (omega (arith, l)),
    λ _.
        rw (walk, not-ltb (let e : limit magic_size bytes ≤ position = omega (arith, l) in e)) refl,
  )
  walk-ok_iff (suc fuel) position l =
      walk_step-ok_iff fuel position
        (walk-ok_iff fuel (record_end bytes position) (omega (arith, l)))

  -- With a checksum that can be continued over a concatenation, a file passes exactly when
  -- checked records follow one another from the leading to the trailing magic: each lies inside
  -- that range, the checksum behind the three fields of an attachment is absent or that of its
  -- bytes, and a footer is the last record, has 20 bytes, names a summary inside the file or
  -- none, and its checksum is absent or that of the summary.
  pub verify_extra_crcs-ok_iff :
      (verify_extra_crcs magic_size attachment_opcode footer_opcode crc32 bytes ≡ ok tt)
      ↔ IsTiled magic_size attachment_opcode footer_opcode crc32 bytes magic_size
  unfolding verify_extra_crcs
  verify_extra_crcs-ok_iff = walk-ok_iff (length bytes) magic_size (omega arith)

-- ===== src/Contracts/McapCrc/Fuel.antt =====
-- No loop of the walk runs out of its fuel, whatever the bytes are.
use robotics_runtime.Base.{
  ℕ, zero, suc, ◌+◌, ◌-◌, ◌≤◌, ◌<◌, min, ◌≡◌, refl, ◌≢◌, inl, inr, Bool, true, false, not, List,
  ok_injective, bind-ok, arith, ltb, ◌==◌, Bool-cases, if_ind, Result, ok, err, ◌>>=◌, ◌>>◌,
  raise_if, length,
}
use robotics_runtime.Contracts.McapCrc.Fields.{read_integer-then_iff, raise_if-then_iff}
use robotics_runtime.Contracts.McapCrc.{
  summary_from, CrcError, truncated_fields, field_exceeds_record, crc_mismatch,
  truncated_attachment_crc, footer_length, summary_range, record_past_end, footer_not_last,
  out_of_fuel, from_bytes, block_size, read, read_integer, skip, crc_blocks, check_crc, skip_field,
  attachment_crc, bad_summary_start, footer_crc, limit, check_record, record_at, walk,
  verify_extra_crcs,
}

not-ltb : {a b : ℕ} → a ≤ b → ltb b a ≡ false
not-ltb h = ground arith

-- a result that is not the end of the fuel
abbrev pub Ends : {A : Type 0} → Result CrcError A → Type 0
Ends r = r ≢ err out_of_fuel

Ends-bind :
    {A : Type 0} {B : Type 0} (m : Result CrcError A) (k : A → Result CrcError B)
    → Ends m
    → ((a : A) → m ≡ ok a → Ends (k a))
    → Ends (m >>= k)
Ends-bind (ok a) k p q = q a refl
Ends-bind (err e) k p q = λ h. p (cc)

Ends-ok : {A : Type 0} (a : A) → Ends (ok a)
Ends-ok a h = cc

Ends-raise : (bad : Bool) (e : CrcError) → e ≢ out_of_fuel → Ends (raise_if bad e)
Ends-raise true e n h = n (cc)
Ends-raise false e n h = cc

module _ (bytes : List ℕ) where
  read_integer-Ends : (position size end : ℕ) → Ends (read_integer bytes position size end)
  unfolding read_integer
  read_integer-Ends position size end =
      Ends-bind _ _ (Ends-raise (ltb end (position + size)) truncated_fields (λ h. cc)) (λ _ _.
        Ends-bind _ _
          (Ends-raise (not (length (read bytes position size) == size)) truncated_fields (λ h. cc))
          (λ _ _. Ends-ok _))

  skip-Ends : (position size end : ℕ) → Ends (skip bytes position size end)
  unfolding skip
  skip-Ends position size end =
      Ends-bind _ _ (Ends-raise (ltb end (position + size)) field_exceeds_record (λ h. cc))
        (λ _ _. Ends-ok _)

  skip_field-Ends : (position size end : ℕ) → Ends (skip_field bytes position size end)
  skip_field-Ends position size end =
      Ends-bind _ _ (read_integer-Ends position size end) (λ r _. skip-Ends r.1 r.0 end)

  module _ (crc32 : List ℕ → ℕ → ℕ) where
    crc_blocks-Ends :
        (fuel position remaining actual : ℕ)
        → remaining ≤ fuel
        → Ends (crc_blocks crc32 bytes fuel position remaining actual)
    unfolding crc_blocks
    crc_blocks-Ends fuel position zero actual l = Ends-ok actual
    crc_blocks-Ends zero position (suc remaining) actual l = absurd (omega arith)
    crc_blocks-Ends (suc fuel) position (suc remaining) actual l =
        let block = read bytes position (min (suc remaining) block_size) in
        elim (Bool-cases (length block == 0)) [
          | inl e ↦ rw (crc_blocks, e) (λ h. cc)
          | inr e ↦
              rw (crc_blocks, e)
                (crc_blocks-Ends fuel (position + length block) (suc remaining - length block)
                  (crc32 block actual) (ground (arith, e, l)))
        ]

    check_crc-Ends : (start end : ℕ) → Ends (check_crc crc32 bytes start end)
    unfolding check_crc
    check_crc-Ends start end =
        Ends-bind _ _ (read_integer-Ends end 4 (end + 4)) (λ r _. by_stored r.0)
      where
        by_stored :
            (stored : ℕ)
            → Ends (elim (stored == 0) as (λ _. Result CrcError (Unit {0})) [
              | true ↦ ok tt
              | false ↦ crc_blocks crc32 bytes (end - start) start (end - start) 0 >>= λ actual.
                  raise_if (not (actual == stored)) crc_mismatch
            ])
        by_stored stored =
            elim (stored == 0)
              as (λ b. Ends (elim b as (λ _. Result CrcError (Unit {0})) [
                | true ↦ ok tt
                | false ↦ crc_blocks crc32 bytes (end - start) start (end - start) 0 >>= λ actual.
                    raise_if (not (actual == stored)) crc_mismatch
              ])) [
                | true ↦ Ends-ok tt
                | false ↦
                    Ends-bind _ _
                      (crc_blocks-Ends (end - start) start (end - start) 0 (omega arith))
                      (λ actual _. Ends-raise (not (actual == stored)) crc_mismatch (λ h. cc))
              ]

    attachment_crc-Ends : (start end : ℕ) → Ends (attachment_crc crc32 bytes start end)
    unfolding attachment_crc
    attachment_crc-Ends start end = Ends-bind _ _ (skip-Ends start 16 end) (λ p _.
        Ends-bind _ _ (skip_field-Ends p 4 end) (λ q _.
          Ends-bind _ _ (skip_field-Ends q 4 end) (λ r _.
            Ends-bind _ _ (skip_field-Ends r 8 end) (λ s _.
              Ends-bind _ _ (Ends-raise (ltb end (s + 4)) truncated_attachment_crc (λ h. cc))
                (λ _ _. check_crc-Ends start s)))))

    footer_crc-Ends :
        (magic_size start end : ℕ) → Ends (footer_crc magic_size crc32 bytes start end)
    unfolding footer_crc
    footer_crc-Ends magic_size start end =
        Ends-bind _ _ (Ends-raise (not (end == start + 20)) footer_length (λ h. cc)) (λ _ _.
          Ends-bind _ _ (read_integer-Ends start 8 end) (λ r _.
            Ends-bind _ _
              (Ends-raise (bad_summary_start magic_size r.0 start) summary_range (λ h. cc))
              (λ _ _. check_crc-Ends (summary_from r.0 start) (end - 4))))

module _ (magic_size attachment_opcode footer_opcode : ℕ) (crc32 : List ℕ → ℕ → ℕ)
    (bytes : List ℕ) where
  check_record-Ends :
      (opcode start end : ℕ)
      → Ends (check_record magic_size attachment_opcode footer_opcode crc32 bytes opcode start end)
  unfolding check_record
  check_record-Ends opcode start end =
      if_ind Ends (opcode == attachment_opcode) (λ _. attachment_crc-Ends bytes crc32 start end)
        (λ _.
          if_ind Ends (opcode == footer_opcode)
            (λ _.
              Ends-bind _ _
                (Ends-raise (not (end == limit magic_size bytes)) footer_not_last (λ h. cc))
                (λ _ _. footer_crc-Ends bytes crc32 magic_size start end))
            (λ _. Ends-ok tt))

  record_at-Ends :
      (position : ℕ)
      → Ends (record_at magic_size attachment_opcode footer_opcode crc32 bytes position)
  unfolding record_at
  record_at-Ends position = Ends-bind _ _ (read_integer-Ends bytes position 1 last) (λ r _.
      Ends-bind _ _ (read_integer-Ends bytes r.1 8 last) (λ q _.
        Ends-bind _ _ (Ends-raise (ltb last (q.1 + q.0)) record_past_end (λ h. cc))
          (λ _ _. Ends-bind _ _ (check_record-Ends r.0 q.1 (q.1 + q.0)) (λ _ _. Ends-ok _))))
    where
      last : ℕ
      last = limit magic_size bytes

  -- The position moves on with each record.
  record_at-moves :
      (position position' : ℕ)
      → record_at magic_size attachment_opcode footer_opcode crc32 bytes position ≡ ok position'
      → position < position'
  unfolding record_at
  record_at-moves position position' h =
      let (_, h1) =
        (read_integer-then_iff bytes position 1 last step1 position' (omega arith)).0 h in
      let (_, h2) =
        (read_integer-then_iff bytes (position + 1) 8 last (step2 opcode) position' (omega arith)).0
          h1 in
      let (_, h3) =
        (raise_if-then_iff (ltb last (position + 1 + 8 + size)) record_past_end _ position').0 h2 in
      let (_, _, h4) =
        bind-ok
          (check_record magic_size attachment_opcode footer_opcode crc32 bytes opcode
            (position + 1 + 8) (position + 1 + 8 + size))
          _ position' h3 in
      omega (arith, ok_injective h4)
    where
      last : ℕ
      last = limit magic_size bytes

      opcode : ℕ
      opcode = from_bytes (read bytes position 1)

      size : ℕ
      size = from_bytes (read bytes (position + 1) 8)

      step2 : ℕ → ℕ × ℕ → Result CrcError ℕ
      step2 code (size, start) =
          raise_if (ltb last (start + size)) record_past_end
          >> (check_record magic_size attachment_opcode footer_opcode crc32 bytes code start
                (start + size)
              >> ok (start + size))

      step1 : ℕ × ℕ → Result CrcError ℕ
      step1 (code, behind_opcode) = read_integer bytes behind_opcode 8 last >>= step2 code

  walk-Ends :
      (fuel position : ℕ)
      → limit magic_size bytes ≤ position + fuel
      → Ends (walk magic_size attachment_opcode footer_opcode crc32 bytes fuel position)
  unfolding walk
  walk-Ends zero position l =
      rw (walk, not-ltb (let e : limit magic_size bytes ≤ position = omega (arith, l) in e))
        (Ends-ok tt)
  walk-Ends (suc fuel) position l = elim (Bool-cases (ltb position (limit magic_size bytes))) [
    | inl e ↦
        rw (walk, e)
          (Ends-bind _ _ (record_at-Ends position) (λ position' r.
            walk-Ends fuel position' (omega (arith, l, record_at-moves position position' r))))
    | inr e ↦ rw (walk, e) (Ends-ok tt)
  ]

  -- The walk over the records does not end for want of fuel, whatever the bytes, the opcodes and
  -- the checksum are.
  pub verify_extra_crcs-Ends :
      Ends (verify_extra_crcs magic_size attachment_opcode footer_opcode crc32 bytes)
  unfolding verify_extra_crcs
  verify_extra_crcs-Ends = walk-Ends (length bytes) magic_size (omega arith)

-- ===== src/Contracts/McapCrc/Records.antt =====
-- What an attachment and a footer need to pass, as a description of their layout.
use robotics_runtime.Base.{
  ℕ, ◌+◌, ◌-◌, ◌≤◌, ◌≡◌, ◌↔◌, ◌⊎◌, false, not, List, [], ◌++◌, le-of-not-ltb, arith, ltb, ◌==◌,
  Result, ok, ◌>>=◌, ◌>>◌, raise_if, length,
}
use robotics_runtime.Contracts.McapCrc.{
  summary_from, CrcError, truncated_attachment_crc, footer_length, summary_range, from_bytes, read,
  check_crc, skip_field, attachment_crc, bad_summary_start, footer_crc,
}
use robotics_runtime.Contracts.McapCrc.Fields.{
  raise_if-then_iff, read_integer-then_iff, skip-then_iff, skip_field-then_iff,
}
use robotics_runtime.Contracts.McapCrc.{
  CrcError, truncated_attachment_crc, footer_length, summary_range, from_bytes, read, check_crc,
  skip_field, attachment_crc, bad_summary_start, footer_crc,
}
use robotics_runtime.Contracts.McapCrc.Ranges.{IsChecked, check_crc-ok_iff}

not-true : {a b : ℕ} → not (a == b) ≡ false → a ≡ b
not-true h = ground arith

not-ltb : {a b : ℕ} → a ≤ b → ltb b a ≡ false
not-ltb h = ground arith

not-of : {a b : ℕ} → a ≡ b → not (a == b) ≡ false
not-of h = ground arith

in_range :
    (magic_size stored start : ℕ)
    → (bad_summary_start magic_size stored start ≡ false)
      ↔ ((stored ≡ 0) ⊎ ((magic_size ≤ stored) × (stored + 9 ≤ start)))
in_range magic_size stored start = (λ h. ground arith, λ r. ground arith)

from-le :
    (magic_size stored start end : ℕ)
    → end ≡ start + 20
    → (stored ≡ 0) ⊎ ((magic_size ≤ stored) × (stored + 9 ≤ start))
    → summary_from stored start ≤ end - 4
from-le magic_size stored start end e r = ground arith

module _ (bytes : List ℕ) where
  -- behind a field whose length stands before it in `size` bytes
  abbrev pub behind_field : ℕ → ℕ → ℕ
  behind_field size position = position + size + from_bytes (read bytes position size)

  -- Behind the two timestamps, the name, the media type and the content stands the checksum.
  abbrev pub attachment_crc_offset : ℕ → ℕ
  attachment_crc_offset start = behind_field 8 (behind_field 4 (behind_field 4 (start + 16)))

module _ (crc32 : List ℕ → ℕ → ℕ) (bytes : List ℕ) where
  abbrev pub IsAttachment : ℕ → ℕ → Type 0
  IsAttachment start end =
      (attachment_crc_offset bytes start + 4 ≤ end)
      × IsChecked crc32 bytes start (attachment_crc_offset bytes start)

  abbrev pub IsFooter : ℕ → ℕ → ℕ → Type 0
  IsFooter magic_size start end =
      (end ≡ start + 20)
      × ((from_bytes (read bytes start 8) ≡ 0)
          ⊎ ((magic_size ≤ from_bytes (read bytes start 8))
              × (from_bytes (read bytes start 8) + 9 ≤ start)))
      × IsChecked crc32 bytes (summary_from (from_bytes (read bytes start 8)) start) (end - 4)

module _ (crc32 : List ℕ → ℕ → ℕ) (crc32_nil : (c : ℕ) → crc32 [] c ≡ c)
    (crc32_append : (xs ys : List ℕ) (c : ℕ) → crc32 (xs ++ ys) c ≡ crc32 ys (crc32 xs c))
    (bytes : List ℕ) where
  pub attachment_crc-ok_iff :
      (start end : ℕ)
      → end ≤ length bytes
      → (attachment_crc crc32 bytes start end ≡ ok tt) ↔ IsAttachment crc32 bytes start end
  unfolding attachment_crc
  attachment_crc-ok_iff start end l = (
    λ h.
        let (a, h1) = (skip-then_iff bytes start 16 end step1 tt).0 h in
        let (f1, l1, h2) = (skip_field-then_iff bytes p1 4 end step2 tt (omega arith)).0 h1 in
        let (f2, l2, h3) = (skip_field-then_iff bytes p2 4 end step3 tt (omega arith)).0 h2 in
        let (f3, l3, h4) = (skip_field-then_iff bytes p3 8 end step4 tt (omega arith)).0 h3 in
        let (b, h5) = (raise_if-then_iff (ltb end (p4 + 4)) truncated_attachment_crc _ tt).0 h4 in
        (
          le-of-not-ltb (p4 + 4) end b,
          (check_crc-ok_iff crc32 crc32_nil crc32_append bytes start p4 (omega arith)).0 h5,
        ),
    λ (b, c). (skip-then_iff bytes start 16 end step1 tt).1 (
      omega arith,
      (skip_field-then_iff bytes p1 4 end step2 tt (omega arith)).1 (
        (omega (arith, b, l), omega (arith, b, l)),
        omega (arith, b, l),
        (skip_field-then_iff bytes p2 4 end step3 tt (omega arith)).1 (
          (omega (arith, b, l), omega (arith, b, l)),
          omega (arith, b, l),
          (skip_field-then_iff bytes p3 8 end step4 tt (omega arith)).1 (
            (omega (arith, b, l), omega (arith, b, l)),
            omega (arith, b, l),
            (raise_if-then_iff (ltb end (p4 + 4)) truncated_attachment_crc _ tt).1 (
              not-ltb b,
              (check_crc-ok_iff crc32 crc32_nil crc32_append bytes start p4 (omega arith)).1 c,
            ),
          ),
        ),
      ),
    ),
  )
    where
      step4 : ℕ → Result CrcError (Unit {0})
      step4 crc_offset =
          raise_if (ltb end (crc_offset + 4)) truncated_attachment_crc
          >> check_crc crc32 bytes start crc_offset

      step3 : ℕ → Result CrcError (Unit {0})
      step3 position = skip_field bytes position 8 end >>= step4

      step2 : ℕ → Result CrcError (Unit {0})
      step2 position = skip_field bytes position 4 end >>= step3

      step1 : ℕ → Result CrcError (Unit {0})
      step1 position = skip_field bytes position 4 end >>= step2

      p1 : ℕ
      p1 = start + 16

      p2 : ℕ
      p2 = behind_field bytes 4 p1

      p3 : ℕ
      p3 = behind_field bytes 4 p2

      p4 : ℕ
      p4 = behind_field bytes 8 p3

  pub footer_crc-ok_iff :
      (magic_size start end : ℕ)
      → end ≤ length bytes
      → (footer_crc magic_size crc32 bytes start end ≡ ok tt)
        ↔ IsFooter crc32 bytes magic_size start end
  unfolding footer_crc
  footer_crc-ok_iff magic_size start end l = (
    λ h.
        let (e, h1) = (raise_if-then_iff (not (end == start + 20)) footer_length _ tt).0 h in
        let (_, h2) = (read_integer-then_iff bytes start 8 end step1 tt (omega arith)).0 h1 in
        let (c, h3) =
          (raise_if-then_iff (bad_summary_start magic_size stored start) summary_range _ tt).0 h2 in
        let r = (in_range magic_size stored start).0 c in
        (
          not-true e,
          r,
          (check_crc-ok_iff crc32 crc32_nil crc32_append bytes _ (end - 4)
                (from-le magic_size stored start end (not-true e) r)).0
              h3,
        ),
    λ (e, r, c). (raise_if-then_iff (not (end == start + 20)) footer_length _ tt).1 (
      not-of e,
      (read_integer-then_iff bytes start 8 end step1 tt (omega arith)).1 (
        (omega (arith, e), omega (arith, e, l)),
        (raise_if-then_iff (bad_summary_start magic_size stored start) summary_range _ tt).1 (
          (in_range magic_size stored start).1 r,
          (check_crc-ok_iff crc32 crc32_nil crc32_append bytes _ (end - 4)
                (from-le magic_size stored start end e r)).1
              c,
        ),
      ),
    ),
  )
    where
      stored : ℕ
      stored = from_bytes (read bytes start 8)

      step1 : ℕ × ℕ → Result CrcError (Unit {0})
      step1 (summary_start, _) =
          raise_if (bad_summary_start magic_size summary_start start) summary_range
          >> check_crc crc32 bytes (summary_from summary_start start) (end - 4)

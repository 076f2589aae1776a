-- ===== src/Contracts/McapCrc.antt =====
-- packages/contracts/src/robotics_runtime_contracts/_mcap_crc.py: the walk over the records of an
-- MCAP file that checks the attachment and the summary checksums.
--
-- The stream is its bytes, and a position where the source seeks; every position is an argument.
-- `crc32`, the size of the magic and the two opcodes are parameters.
pub mod Ranges
pub mod Fields
pub mod Records
pub mod Walk
pub mod Fuel
mod Tests
use robotics_runtime.Base.{
  ℕ, zero, suc, ◌+◌, ◌-◌, ◌*◌, min, Bool, true, false, not, ◌&&◌, List, [], ◌∷◌, take, drop, ltb,
  leb, ◌==◌, if◌then◌else◌, Result, ok, err, ◌>>=◌, ◌>>◌, raise_if, length,
}

pub data CrcError : Type 0 where
  truncated_fields field_exceeds_record truncated_range crc_mismatch truncated_attachment_crc
        footer_length summary_range record_past_end footer_not_last :
      CrcError
  -- the fuel was used up; see `verify_extra_crcs-Ends`
  out_of_fuel : CrcError

-- `int.from_bytes(raw, "little")`
unfoldable pub from_bytes : List ℕ → ℕ
from_bytes [] = 0
from_bytes (b ∷ bs) = b + 256 * from_bytes bs

abbrev pub block_size : ℕ
block_size = 65536

module _ (bytes : List ℕ) where
  -- `stream.read(size)` at a position
  abbrev pub read : ℕ → ℕ → List ℕ
  read position size = take size (drop position bytes)

  -- `_read_integer`: the value, and the position behind it
  unfoldable pub read_integer : ℕ → ℕ → ℕ → Result CrcError (ℕ × ℕ)
  unfolding from_bytes take drop
  read_integer position size end = do
    raise_if (ltb end (position + size)) truncated_fields
    raise_if (not (length (read position size) == size)) truncated_fields
    ok (from_bytes (read position size), position + size)

  -- `_skip`: the new position
  unfoldable pub skip : ℕ → ℕ → ℕ → Result CrcError ℕ
  skip position size end =
      raise_if (ltb end (position + size)) field_exceeds_record >> ok (position + size)

  -- a length-prefixed field: the prefix has `size` bytes
  abbrev pub skip_field : ℕ → ℕ → ℕ → Result CrcError ℕ
  skip_field position size end =
      read_integer position size end >>= λ (length, behind). skip behind length end

module _ (crc32 : List ℕ → ℕ → ℕ) (bytes : List ℕ) where
  -- the loop over the blocks of a range; a fuel of `remaining` is enough, as `crc_blocks-whole` shows
  unfoldable pub crc_blocks : ℕ → ℕ → ℕ → ℕ → Result CrcError ℕ
  unfolding take drop
  crc_blocks fuel position zero actual = ok actual
  crc_blocks zero position (suc remaining) actual = err out_of_fuel
  crc_blocks (suc fuel) position (suc remaining) actual =
      let block = read bytes position (min (suc remaining) block_size) in
      elim (length block == 0) [
        | true ↦ err truncated_range
        | false ↦
            crc_blocks fuel (position + length block) (suc remaining - length block)
              (crc32 block actual)
      ]

  -- `_check_crc`, for a range with `start <= end`
  unfoldable pub check_crc : ℕ → ℕ → Result CrcError (Unit {0})
  unfolding read_integer crc_blocks
  check_crc start end = read_integer bytes end 4 (end + 4) >>= λ (expected, _).
      elim (expected == 0) [
        | true ↦ ok tt
        | false ↦ crc_blocks (end - start) start (end - start) 0 >>= λ actual.
            raise_if (not (actual == expected)) crc_mismatch
      ]

  -- `_attachment_crc`
  unfoldable pub attachment_crc : ℕ → ℕ → Result CrcError (Unit {0})
  unfolding skip read_integer check_crc
  attachment_crc start end = do
    behind_times ← skip bytes start 16 end
    behind_name ← skip_field bytes behind_times 4 end
    behind_media_type ← skip_field bytes behind_name 4 end
    crc_offset ← skip_field bytes behind_media_type 8 end
    raise_if (ltb end (crc_offset + 4)) truncated_attachment_crc
    check_crc start crc_offset

-- `summary_start and not MAGIC_SIZE <= summary_start <= start - 9`
abbrev pub bad_summary_start : ℕ → ℕ → ℕ → Bool
bad_summary_start magic_size summary_start start =
    not (summary_start == 0) && not (leb magic_size summary_start && leb (summary_start + 9) start)

-- `summary_start or start - 9`
abbrev pub summary_from : ℕ → ℕ → ℕ
summary_from summary_start start = if summary_start == 0 then start - 9 else summary_start

-- `limit`
abbrev pub limit : ℕ → List ℕ → ℕ
limit magic_size bytes = length bytes - magic_size

module _ (magic_size : ℕ) (crc32 : List ℕ → ℕ → ℕ) (bytes : List ℕ) where
  -- `_footer_crc`
  unfoldable pub footer_crc : ℕ → ℕ → Result CrcError (Unit {0})
  unfolding read_integer check_crc
  footer_crc start end = do
    raise_if (not (end == start + 20)) footer_length
    (summary_start, _) ← read_integer bytes start 8 end
    raise_if (bad_summary_start magic_size summary_start start) summary_range
    check_crc crc32 bytes (summary_from summary_start start) (end - 4)

module _ (magic_size attachment_opcode footer_opcode : ℕ) (crc32 : List ℕ → ℕ → ℕ)
    (bytes : List ℕ) where
  -- the check of one record, by its opcode
  unfoldable pub check_record : ℕ → ℕ → ℕ → Result CrcError (Unit {0})
  unfolding attachment_crc footer_crc
  check_record opcode start end =
      if opcode == attachment_opcode
      then attachment_crc crc32 bytes start end
      else if opcode == footer_opcode
      then (raise_if (not (end == limit magic_size bytes)) footer_not_last
          >> footer_crc magic_size crc32 bytes start end)
      else ok tt

  -- the body of the loop of `verify_extra_crcs`: the next position
  unfoldable pub record_at : ℕ → Result CrcError ℕ
  unfolding read_integer check_record
  record_at position = do
    (opcode, behind_opcode) ← read_integer bytes position 1 (limit magic_size bytes)
    (length, start) ← read_integer bytes behind_opcode 8 (limit magic_size bytes)
    raise_if (ltb (limit magic_size bytes) (start + length)) record_past_end
    check_record opcode start (start + length)
    ok (start + length)

  unfoldable pub walk : ℕ → ℕ → Result CrcError (Unit {0})
  unfolding record_at
  walk zero position = elim (ltb position (limit magic_size bytes)) [
    | true ↦ err out_of_fuel
    | false ↦ ok tt
  ]
  walk (suc fuel) position = elim (ltb position (limit magic_size bytes)) [
    | true ↦ record_at position >>= walk fuel
    | false ↦ ok tt
  ]

  -- `verify_extra_crcs`: each record takes at least nine bytes, so the number of bytes is enough fuel.
  unfoldable pub verify_extra_crcs : Result CrcError (Unit {0})
  unfolding walk
  verify_extra_crcs = walk (length bytes) magic_size

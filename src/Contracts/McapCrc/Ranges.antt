-- ===== src/Contracts/McapCrc/Ranges.antt =====
-- The checksum of a range, block by block, is the checksum of the whole range.
--
-- `crc32_nil` and `crc32_append` are what zlib documents of the running checksum.
use robotics_runtime.Base.{
  ℕ, zero, suc, ◌+◌, ◌-◌, ◌≤◌, ◌<◌, min, ◌≡◌, refl, sym, ap, ◌∙◌, subst, ◌↔◌, ◌⊎◌, inl, inr, Bool,
  true, false, not, List, [], ◌++◌, take, drop, length-drop, length-take, take_sum, drop_sum, arith,
  ◌==◌, Result, ok, ◌>>=◌, raise_if, length,
}
use robotics_runtime.Contracts.McapCrc.Fields.{Fits, read_integer-then_iff}
use robotics_runtime.Contracts.McapCrc.{
  CrcError, crc_mismatch, from_bytes, block_size, read, crc_blocks, check_crc,
}

nonempty : (n : ℕ) → 0 < n → (n == 0) ≡ false
nonempty n h = ground arith

same_of : (a b : ℕ) → raise_if (not (a == b)) crc_mismatch ≡ ok tt → a ≡ b
same_of a b h = ground arith

of_same : (a b : ℕ) → a ≡ b → raise_if (not (a == b)) crc_mismatch ≡ ok tt
of_same a b h = ground arith

-- the bytes of a range
abbrev pub slice : List ℕ → ℕ → ℕ → List ℕ
slice bytes position size = take size (drop position bytes)

-- The checksum stored at `end` is absent, or it is that of the bytes between `start` and `end`.
abbrev pub IsChecked : (List ℕ → ℕ → ℕ) → List ℕ → ℕ → ℕ → Type 0
IsChecked crc32 bytes start end =
    (end + 4 ≤ length bytes)
    × ((from_bytes (read bytes end 4) ≡ 0)
        ⊎ (crc32 (slice bytes start (end - start)) 0 ≡ from_bytes (read bytes end 4)))

module _ (crc32 : List ℕ → ℕ → ℕ) (crc32_nil : (c : ℕ) → crc32 [] c ≡ c)
    (crc32_append : (xs ys : List ℕ) (c : ℕ) → crc32 (xs ++ ys) c ≡ crc32 ys (crc32 xs c))
    (bytes : List ℕ) where
  length-slice :
      (position size : ℕ)
      → position + size ≤ length bytes
      → length (slice bytes position size) ≡ size
  length-slice position size h =
      omega (arith, h, length-take size (drop position bytes), length-drop position bytes)

  slice-split :
      (position n m : ℕ)
      → slice bytes position (n + m) ≡ slice bytes position n ++ slice bytes (position + n) m
  slice-split position n m =
      take_sum n m (drop position bytes)
      ∙ ap (λ t. slice bytes position n ++ take m t) (sym (drop_sum position n bytes))

  slice-step :
      (position n remaining actual : ℕ)
      → n ≤ remaining
      → length (slice bytes position n) ≡ n
      → crc32
          (slice bytes
            (position + length (slice bytes position n))
            (remaining - length (slice bytes position n)))
          (crc32 (slice bytes position n) actual)
        ≡ crc32 (slice bytes position remaining) actual
  slice-step position n remaining actual l whole =
      subst
        (λ k.
          crc32 (slice bytes (position + k) (remaining - k)) (crc32 (slice bytes position n) actual)
          ≡ crc32 (slice bytes position remaining) actual)
        (sym whole)
        (sym (
            crc32_append (slice bytes position n) (slice bytes (position + n) (remaining - n))
              actual)
          ∙ ap (λ t. crc32 t actual)
              (sym (slice-split position n (remaining - n))
                ∙ ap (slice bytes position)
                    (let e : n + (remaining - n) ≡ remaining = omega (arith, l) in e)))

  -- With a checksum that can be continued over a concatenation and as much fuel as bytes, the
  -- checksum of a range inside the file, computed block by block from a running value, is that of
  -- the whole range at once.
  pub crc_blocks-whole :
      (fuel position remaining actual : ℕ)
      → remaining ≤ fuel
      → position + remaining ≤ length bytes
      → crc_blocks crc32 bytes fuel position remaining actual
        ≡ ok (crc32 (slice bytes position remaining) actual)
  unfolding crc_blocks
  crc_blocks-whole fuel position zero actual l h = ap ok (sym (crc32_nil actual))
  crc_blocks-whole zero position (suc remaining) actual l h = absurd (omega arith)
  crc_blocks-whole (suc fuel) position (suc remaining) actual l h =
      let n = min (suc remaining) block_size in
      let block = slice bytes position n in
      let whole : length block ≡ n = length-slice position n (omega (arith, h)) in
      let rest =
        crc_blocks-whole fuel (position + length block) (suc remaining - length block)
          (crc32 block actual) (omega (arith, l, whole)) (omega (arith, h, whole)) in
      rw (crc_blocks, nonempty (length block) (omega (arith, whole)))
        (rest ∙ ap ok (slice-step position n (suc remaining) actual (omega arith) whole))

  -- the comparison behind the stored checksum
  compare_crc : ℕ → ℕ → ℕ → Result CrcError (Unit {0})
  compare_crc start end stored = elim (stored == 0) [
    | true ↦ ok tt
    | false ↦ crc_blocks crc32 bytes (end - start) start (end - start) 0 >>= λ actual.
        raise_if (not (actual == stored)) crc_mismatch
  ]

  compare_crc-ok_iff :
      (start end stored : ℕ)
      → start ≤ end
      → end + 4 ≤ length bytes
      → (compare_crc start end stored ≡ ok tt)
        ↔ ((stored ≡ 0) ⊎ (crc32 (slice bytes start (end - start)) 0 ≡ stored))
  unfolding compare_crc
  compare_crc-ok_iff start end stored l room = go (stored == 0) refl
    where
      whole :
          crc_blocks crc32 bytes (end - start) start (end - start) 0
          ≡ ok (crc32 (slice bytes start (end - start)) 0)
      whole =
          crc_blocks-whole (end - start) start (end - start) 0 (omega arith)
            (omega (arith, l, room))

      go :
          (b : Bool)
          → (stored == 0) ≡ b
          → ((elim b as (λ _. Result CrcError (Unit {0})) [
            | true ↦ ok tt
            | false ↦ crc_blocks crc32 bytes (end - start) start (end - start) 0 >>= λ actual.
                raise_if (not (actual == stored)) crc_mismatch
          ])
              ≡ ok tt)
            ↔ ((stored ≡ 0) ⊎ (crc32 (slice bytes start (end - start)) 0 ≡ stored))
      go true e = (λ _. inl (ground (arith, e)), λ _. refl)
      go false e = (
        λ h. inr (
            same_of _ stored (
              subst (λ r. (r >>= λ actual. raise_if (not (actual == stored)) crc_mismatch) ≡ ok tt)
                whole h)),
        λ c. elim c [
          | inl z ↦ absurd (ground (arith, e, z))
          | inr q ↦ rw whole (of_same _ stored q)
        ],
      )

  pub check_crc-ok_iff :
      (start end : ℕ)
      → start ≤ end
      → (check_crc crc32 bytes start end ≡ ok tt) ↔ IsChecked crc32 bytes start end
  unfolding check_crc compare_crc
  check_crc-ok_iff start end l = (
    λ h.
        let ((_, room), k) = (fields).0 h in
        (room, (compare_crc-ok_iff start end stored l room).0 k),
    λ (room, c). (fields).1 ((omega arith, room), (compare_crc-ok_iff start end stored l room).1 c),
  )
    where
      stored : ℕ
      stored = from_bytes (read bytes end 4)

      fields :
          (check_crc crc32 bytes start end ≡ ok tt)
          ↔ (Fits bytes end 4 (end + 4) × (compare_crc start end stored ≡ ok tt))
      fields =
          read_integer-then_iff bytes end 4 (end + 4) (λ (e, _). compare_crc start end e) tt
            (omega arith)

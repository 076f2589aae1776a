-- ===== src/Contracts/McapCrc/Tests.antt =====
-- A file with one attachment and a footer, under a running sum in place of the checksum.
use robotics_runtime.Base.{ℕ, zero, suc, ◌+◌, ◌≡◌, ◌↔◌, refl, List, [], ◌∷◌, ◌++◌, ok, err, arith}
use robotics_runtime.Contracts.McapCrc.{
  crc_mismatch, footer_not_last, crc_blocks, verify_extra_crcs,
}
use robotics_runtime.Contracts.McapCrc.Ranges.{slice, crc_blocks-whole}
use robotics_runtime.Contracts.McapCrc.Walk.{IsTiled, verify_extra_crcs-ok_iff}
use robotics_runtime.Contracts.McapCrc.Fuel.{Ends, verify_extra_crcs-Ends}

abbrev total : List ℕ → ℕ
total [] = 0
total (b ∷ bs) = b + total bs

abbrev running_sum : List ℕ → ℕ → ℕ
running_sum bs c = c + total bs

total-append : (xs ys : List ℕ) → total (xs ++ ys) ≡ total xs + total ys
total-append [] ys = omega arith
total-append (x ∷ xs) ys = omega (arith, total-append xs ys)

running_sum_nil : (c : ℕ) → running_sum [] c ≡ c
running_sum_nil c = omega arith

running_sum_append :
    (xs ys : List ℕ) (c : ℕ) → running_sum (xs ++ ys) c ≡ running_sum ys (running_sum xs c)
running_sum_append xs ys c = omega (arith, total-append xs ys)

abbrev zeros : ℕ → List ℕ → List ℕ
zeros zero rest = rest
zeros (suc n) rest = 0 ∷ zeros n rest

-- 9 is the attachment's opcode and 2 the footer's; the magic has one byte
abbrev file : ℕ → List ℕ
file stored =
    77
    ∷ 9
    ∷ 37
    ∷ zeros 7 (
        zeros 24 (
          1
          ∷ zeros 7 (5 ∷ stored ∷ zeros 3 (2 ∷ 20 ∷ zeros 7 (zeros 16 (22 ∷ zeros 3 (77 ∷ [])))))))

accepted : verify_extra_crcs 1 9 2 running_sum (file 6) ≡ ok tt
unfolding verify_extra_crcs
accepted = refl

mismatch : verify_extra_crcs 1 9 2 running_sum (file 7) ≡ err crc_mismatch
unfolding verify_extra_crcs
mismatch = refl

early_footer :
    verify_extra_crcs 1 9 2 running_sum (77 ∷ 2 ∷ zeros 8 (2 ∷ zeros 8 (77 ∷ [])))
    ≡ err footer_not_last
unfolding verify_extra_crcs
early_footer = refl

verify_extra_crcs-ok_iff_example :
    (verify_extra_crcs 1 9 2 running_sum (file 6) ≡ ok tt) ↔ IsTiled 1 9 2 running_sum (file 6) 1
verify_extra_crcs-ok_iff_example =
    verify_extra_crcs-ok_iff 1 9 2 running_sum running_sum_nil running_sum_append (file 6)

verify_extra_crcs-Ends_example : Ends (verify_extra_crcs 1 9 2 running_sum (file 7))
verify_extra_crcs-Ends_example = verify_extra_crcs-Ends 1 9 2 running_sum (file 7)

crc_blocks-whole_example :
    crc_blocks running_sum (file 6) 10 2 10 0 ≡ ok (running_sum (slice (file 6) 2 10) 0)
crc_blocks-whole_example =
    crc_blocks-whole running_sum running_sum_nil running_sum_append (file 6) 10 2 10 0 (omega arith)
      (omega arith)

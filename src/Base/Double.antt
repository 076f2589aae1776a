-- ===== src/Base/Double.antt =====
-- IEEE 754 doubles where the program multiplies an integer by a literal: rounding to 53 bits, half
-- to even, on exact numerators.
use robotics_runtime.Base.Tests.{ltb, leb, ◌==◌, if◌then◌else◌}
use Prim.Native.Nat.{ℕ, zero, suc, ◌+◌, ◌-◌, ◌*◌, ◌/◌, ◌%◌, ◌^◌, ◌<◌}
use mathlib.Core.Path.{◌≡◌, refl}
use mathlib.Core.Bool.{Bool, true, false, ◌&&◌, ◌||◌}
use native.Mathlib.Omega.{arith}
use native.Mathlib.Nat.{pow-suc}

-- The number of binary digits, of the first `f`: a number below 2 ^ f has all of them counted.
unfoldable pub bits : ℕ → ℕ → ℕ
bits zero n = 0
bits (suc f) n = elim (n == 0) [ true ↦ 0 | false ↦ suc (bits f (n / 2)) ]

half_below : (f n : ℕ) → n < 2 ^ suc f → n / 2 < 2 ^ f
half_below f n h = ground (arith, pow-suc 2 f)

bits-pow : (f n : ℕ) → n < 2 ^ f → n < 2 ^ bits f n
unfolding bits
bits-pow zero n h = h
bits-pow (suc f) n h = go (n == 0) (λ done. ground arith) (bits-pow f (n / 2) (half_below f n h))
  where
    go :
        (b : Bool)
        → (b ≡ true → n < 1)
        → n / 2 < 2 ^ bits f (n / 2)
        → n < 2 ^ elim b as (λ _. ℕ) [ true ↦ 0 | false ↦ suc (bits f (n / 2)) ]
    go true e l = e refl
    go false e l = rw pow-suc (omega arith)

-- `m / 2 ^ s`, rounded half to even
round_half_even : ℕ → ℕ → ℕ
round_half_even m s =
    let q = m / 2 ^ s in
    let r = m % 2 ^ s in if ltb (2 ^ s) (2 * r) || (2 * r == 2 ^ s && q % 2 == 1) then q + 1 else q

-- The nearest number with at most 53 significant bits, for a number below 2 ^ 256: the largest one
-- the program rounds is below 2 ^ 120.
to_53_bits : ℕ → ℕ
unfolding bits round_half_even
to_53_bits m =
    let k = bits 256 m in if leb k 53 then m else round_half_even m (k - 53) * 2 ^ (k - 53)

-- `int(n * 0.05)`: the literal is the double 3602879701896397 / 2 ^ 56.
unfoldable pub five_percent : ℕ → ℕ
unfolding to_53_bits
five_percent n = to_53_bits (to_53_bits n * 3602879701896397) / 2 ^ 56

five_percent_runs :
    (five_percent 1000000000 ≡ 50000000) × (five_percent 30 ≡ 1) × (five_percent 19 ≡ 0)
unfolding five_percent
five_percent_runs = (refl, refl, refl)

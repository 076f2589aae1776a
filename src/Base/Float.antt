-- ===== src/Base/Float.antt =====
-- Python's numbers: the finite ones behind an interface, and the infinities and NaN over them.
pub mod Order
use robotics_runtime.Base.Tests.{leb, if◌then◌else◌}
use robotics_runtime.Base.Int.{ℤ, pos, negsuc}
use Prim.Native.Nat.{ℕ, ◌+◌, ◌-◌, ◌*◌, ◌/◌, max}
use robotics_runtime.Base.Lists.{length}
use mathlib.Core.List.{List, [], ◌∷◌}
use native.Mathlib.Omega.{arith}
use mathlib.Core.Path.{◌≡◌}
use mathlib.Core.Bool.{Bool, true, false, not, ◌&&◌}
use mathlib.Core.Logic.{◌⊎◌}

pub data Float (F : Type 0) : Type 0 where
  nan neg_inf pos_inf : Float F
  finite : F → Float F

-- The finite numbers, floats and integers alike, under Python's exact comparison `<=`: a total
-- preorder (`-0.0` and `0.0` are equal). The operations carry no law but those of `magnitude`: a sum, a difference and a
-- product are rounded and may overflow, `quotient x n` is `x / n` for a positive integer `n`,
-- `ratio p q` is the float literal p / q, `sum_of` is Python's `sum`, and `mean_of` is `statistics.fmean`.
pub record Finite (F : Type 0) : Type 0 where
  pub le : F → F → Bool
  pub le_total : (a b : F) → (le a b ≡ true) ⊎ (le b a ≡ true)
  pub le_trans : (a b c : F) → le a b ≡ true → le b c ≡ true → le a c ≡ true
  pub origin : F
  pub magnitude : F → F
  pub magnitude_nonneg : (a : F) → le origin (magnitude a) ≡ true
  pub magnitude_ge : (a : F) → le a (magnitude a) ≡ true
  pub of_count : ℕ → F
  pub of_int : ℤ → F
  pub sum_of : List (Float F) → Float F
  pub quotient : F → ℕ → F
  pub plus : F → F → Float F
  pub minus : F → F → Float F
  pub times : F → F → Float F
  pub ratio : ℕ → ℕ → F
  pub floor_of : F → ℕ
  pub ceil_of : F → ℕ
  pub mean_of : List F → F

abbrev pub differs : Bool → Bool → Bool
differs true b = not b
differs false b = b

module _ {F : Type 0} where
  abbrev pub is_nan : Float F → Bool
  is_nan nan = true
  is_nan _ = false

  abbrev pub is_finite : Float F → Bool
  is_finite (finite x) = true
  is_finite _ = false

module _ {F : Type 0} ⦃finites : Finite F⦄ where
  -- IEEE 754: every comparison with NaN is false
  abbrev pub le : Float F → Float F → Bool
  le neg_inf nan = false
  le neg_inf y = true
  le (finite x) (finite y) = finites.le x y
  le (finite x) pos_inf = true
  le (finite x) y = false
  le pos_inf pos_inf = true
  le pos_inf y = false
  le nan y = false

  abbrev pub lt : Float F → Float F → Bool
  lt neg_inf neg_inf = false
  lt neg_inf nan = false
  lt neg_inf y = true
  lt (finite x) (finite y) = not (finites.le y x)
  lt (finite x) pos_inf = true
  lt (finite x) y = false
  lt pos_inf y = false
  lt nan y = false

  abbrev pub eq : Float F → Float F → Bool
  eq x y = le x y && le y x

  -- `max(x, y)` and `min(x, y)` keep the first argument unless the second is strictly beyond it.
  abbrev pub max_of : Float F → Float F → Float F
  max_of x y = if lt x y then y else x

  abbrev pub min_of : Float F → Float F → Float F
  min_of x y = if lt y x then y else x

  -- `abs(x)`
  abbrev pub abs : Float F → Float F
  abs neg_inf = pos_inf
  abs (finite x) = finite (finites.magnitude x)
  abs pos_inf = pos_inf
  abs nan = nan

  -- IEEE 754's `x + y` and `x - y`
  abbrev pub plus : Float F → Float F → Float F
  plus (finite x) (finite y) = finites.plus x y
  plus nan y = nan
  plus x nan = nan
  plus (finite x) y = y
  plus x (finite y) = x
  plus neg_inf neg_inf = neg_inf
  plus pos_inf pos_inf = pos_inf
  plus _ _ = nan

  abbrev pub minus : Float F → Float F → Float F
  minus (finite x) (finite y) = finites.minus x y
  minus x pos_inf = plus x neg_inf
  minus x neg_inf = plus x pos_inf
  minus x (finite y) = x
  minus x nan = nan

  -- IEEE 754's `x * y`
  abbrev pub infinite_product : Float F → Bool → Float F
  infinite_product (finite x) positive =
      if finites.le x finites.origin && finites.le finites.origin x
      then nan
      else if differs positive (finites.le finites.origin x)
      then neg_inf
      else pos_inf
  infinite_product nan positive = nan
  infinite_product pos_inf positive = if positive then pos_inf else neg_inf
  infinite_product neg_inf positive = if positive then neg_inf else pos_inf

  abbrev pub times : Float F → Float F → Float F
  times (finite x) (finite y) = finites.times x y
  times pos_inf y = infinite_product y true
  times neg_inf y = infinite_product y false
  times x pos_inf = infinite_product x true
  times x neg_inf = infinite_product x false
  times _ _ = nan

  abbrev pub zero_float : Float F
  zero_float = finite finites.origin

pub leb_total : (a b : ℕ) → (leb a b ≡ true) ⊎ (leb b a ≡ true)
leb_total a b = ground arith

pub leb_trans : (a b c : ℕ) → leb a b ≡ true → leb b c ≡ true → leb a c ≡ true
leb_trans a b c p q = ground arith

pub zero_leb : (a : ℕ) → leb 0 a ≡ true
zero_leb a = ground arith

pub leb_refl : (a : ℕ) → leb a a ≡ true
leb_refl a = ground arith

sum_naturals : List ℕ → ℕ
sum_naturals [] = 0
sum_naturals (x ∷ xs) = x + sum_naturals xs

pub naturals_mean : List ℕ → ℕ
naturals_mean xs = sum_naturals xs / max 1 (length xs)

abbrev pub natural_part : ℤ → ℕ
natural_part (pos n) = n
natural_part (negsuc n) = 0

abbrev pub sum_finite : List (Float ℕ) → Float ℕ
sum_finite [] = finite 0
sum_finite (finite x ∷ xs) = elim (sum_finite xs) [ finite y ↦ finite (x + y) | _ ↦ nan ]
sum_finite (_ ∷ xs) = nan

-- The natural numbers stand in for the finite numbers in tests.
instance abbrev pub naturals : Finite ℕ
naturals = record {
  le = leb;
  le_total = leb_total;
  le_trans = leb_trans;
  origin = 0;
  magnitude = λ a. a;
  magnitude_nonneg = zero_leb;
  magnitude_ge = leb_refl;
  of_count = λ n. n;
  of_int = natural_part;
  sum_of = sum_finite;
  quotient = λ x n. x / n;
  plus = λ x y. finite (x + y);
  minus = λ x y. finite (x - y);
  times = λ x y. finite (x * y);
  ratio = λ p q. p / q;
  floor_of = λ x. x;
  ceil_of = λ x. x;
  mean_of = naturals_mean;
}

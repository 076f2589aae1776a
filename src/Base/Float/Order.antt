-- ===== src/Base/Float/Order.antt =====
-- The order of Python's numbers, with the infinities; NaN stands in no comparison.
use mathlib.Core.Path.{◌≡◌}
use mathlib.Core.Bool.{true, false}
use native.Mathlib.Omega.{arith}
use robotics_runtime.Base.Float
use robotics_runtime.Base.Float.{Float, Finite}

module _ {F : Type 0} ⦃finites : Finite F⦄ where
  pub le_trans : (a b c : Float F) → Float.le a b ≡ true → Float.le b c ≡ true → Float.le a c ≡ true
  le_trans (Float.finite a) (Float.finite b) (Float.finite c) p q = finites.le_trans a b c p q
  le_trans _ _ _ p q = ground arith

  pub lt-le_trans :
      (a b c : Float F) → Float.lt a b ≡ true → Float.le b c ≡ true → Float.lt a c ≡ true
  lt-le_trans (Float.finite a) (Float.finite b) (Float.finite c) p q =
      ground (arith, finites.le_trans b c a)
  lt-le_trans _ _ _ p q = ground arith

  pub le-lt_trans :
      (a b c : Float F) → Float.le a b ≡ true → Float.lt b c ≡ true → Float.lt a c ≡ true
  le-lt_trans (Float.finite a) (Float.finite b) (Float.finite c) p q =
      ground (arith, finites.le_trans c a b)
  le-lt_trans _ _ _ p q = ground arith

  pub lt_le : (a b : Float F) → Float.lt a b ≡ true → Float.le a b ≡ true
  lt_le (Float.finite a) (Float.finite b) p = ground (arith, finites.le_total a b)
  lt_le _ _ p = ground arith

  pub lt_not_le : (a b : Float F) → Float.lt a b ≡ true → Float.le b a ≡ false
  lt_not_le (Float.finite a) (Float.finite b) p = ground arith
  lt_not_le _ _ p = ground arith

  pub le_not_lt : (a b : Float F) → Float.le a b ≡ true → Float.lt b a ≡ false
  le_not_lt (Float.finite a) (Float.finite b) p = ground arith
  le_not_lt _ _ p = ground arith

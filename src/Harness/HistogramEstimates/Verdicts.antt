-- ===== src/Harness/HistogramEstimates/Verdicts.antt =====
-- A verdict on an interval is a verdict on every number in it.
use robotics_runtime.Base.{
  ◌≡◌, refl, ◌≢◌, inl, inr, Bool, true, false, arith, Bool-cases, and_true, or_cases, and_parts,
  and_false, ok,
}
use robotics_runtime.Base.Float
use robotics_runtime.Base.Float.Order.{
  le_trans, lt-le_trans, le-lt_trans, lt_le, lt_not_le, le_not_lt,
}
use robotics_runtime.Base.Float.{Float, Finite}
use robotics_runtime.Harness.HistogramEstimates.{
  Comparison, passed, failed, skipped, Operator, lt, lte, gt, gte, eq, Estimate, strictly_above,
  outcomes, compare, compare_values,
}
use robotics_runtime.Harness.HistogramEstimates.Events.{Contains}

module _ {F : Type 0} ⦃finites : Finite F⦄ (e : Estimate F) (x : F) (c : Contains e x) where
  abbrev value : Float F
  value = Float.finite x

  lower_le : Float.le e.lower value ≡ true
  lower_le = elim (Bool-cases e.lower_exclusive) [
    | inl ex ↦ lt_le e.lower value (ground (arith, c.above))
    | inr inclusive ↦ ground (arith, c.above)
  ]

  above_threshold : (t : Float F) → strictly_above e t ≡ true → Float.lt t value ≡ true
  unfolding strictly_above
  above_threshold t h = elim (or_cases (Float.lt t e.lower) _ h) [
    | inl below ↦ lt-le_trans t e.lower value below lower_le
    | inr at ↦
        let (exclusive, same) = and_parts e.lower_exclusive (Float.eq e.lower t) at in
        le-lt_trans t e.lower value (and_parts (Float.le e.lower t) _ same).1
          (ground (arith, c.above))
  ]

  outcomes_right :
      (op : Operator) (t : Float F)
      → ((outcomes e op t).0 ≡ true → compare_values op value t ≡ true)
        × ((outcomes e op t).1 ≡ true → compare_values op value t ≡ false)
  unfolding outcomes compare_values
  outcomes_right lt t = (
    λ p. le-lt_trans value e.upper t c.below p,
    λ q. le_not_lt t value (le_trans t e.lower value q lower_le),
  )
  outcomes_right lte t =
      (λ p. le_trans value e.upper t c.below p, λ q. lt_not_le t value (above_threshold t q))
  outcomes_right gt t =
      (λ p. above_threshold t p, λ q. le_not_lt value t (le_trans value e.upper t c.below q))
  outcomes_right gte t = (
    λ p. le_trans t e.lower value p lower_le,
    λ q. lt_not_le value t (le-lt_trans value e.upper t c.below q),
  )
  outcomes_right eq t = (
    λ p.
        let (ends, top) = and_parts (Float.eq e.lower e.upper) _ p in
        let (ul, lu) = and_parts (Float.le e.upper t) _ top in
        and_true (le_trans value e.upper t c.below ul) (
          le_trans t e.upper value lu (
            le_trans e.upper e.lower value (and_parts (Float.le e.lower e.upper) _ ends).1
              lower_le)),
    λ q. and_false (Float.le value t) (Float.le t value) (λ vt tv.
        elim (or_cases (strictly_above e t) _ q) [
          | inl above ↦ cc (vt, lt_not_le t value (above_threshold t above))
          | inr below ↦ cc (tv, lt_not_le value t (le-lt_trans value e.upper t c.below below))
        ]),
  )

abbrev pub did_pass : Comparison → Bool
did_pass passed = true
did_pass _ = false

-- If the interval of an estimate holds a number, a verdict on the estimate other than `skipped`
-- is the outcome of the comparison for that number.
pub compare-right :
    {F : Type 0} ⦃finites : Finite F⦄ (e : Estimate F) (op : Operator) (t : Float F) (x : F)
    (verdict : Comparison)
    → Contains e x
    → compare e op t ≡ ok verdict
    → verdict ≢ skipped
    → compare_values op (Float.finite x) t ≡ did_pass verdict
unfolding compare
compare-right e op t x passed c h n = (outcomes_right e x c op t).0 (ground arith)
compare-right e op t x failed c h n = (outcomes_right e x c op t).1 (ground arith)
compare-right e op t x skipped c h n = absurd (n refl)

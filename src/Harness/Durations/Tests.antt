-- ===== src/Harness/Durations/Tests.antt =====
-- A gauge over the window [10, 20] that is above 5 from 12 to 17.
use robotics_runtime.Base.{ℕ, ◌*◌, ◌≡◌, refl, none, List, [], ◌∷◌, ok, err, true, false, arith}
use robotics_runtime.Base.Float.{Float, naturals}
use robotics_runtime.Harness.Samples.{gauge, aggregation_error, uncovered_sample_gap}
use robotics_runtime.Harness.HistogramEstimates.{Operator}
use robotics_runtime.Harness.Points.{MetricPoint, scalar}
use robotics_runtime.Harness.Durations.{
  RequirementKind, minimum_contiguous, maximum_contiguous_violation, DurationAssertion,
  duration_evaluation,
}
use robotics_runtime.Harness.Durations.Measured.{IsMeasured, duration_evaluation-IsMeasured}

abbrev second : ℕ
second = 1000000000

abbrev nanoseconds : ℕ → ℕ
nanoseconds s = s * second

abbrev point : ℕ → ℕ → MetricPoint ℕ
point at value = scalar (record {
  name = "battery";
  value = Float.finite value;
  unit = "V";
  observed_at_ns = at * second;
  attributes = [];
  instrument_kind = gauge;
  temporality = none;
  start_time_ns = 0;
  monotonic = false;
})

abbrev assertion : RequirementKind → ℕ → DurationAssertion ℕ
assertion kind duration_sec = record {
  operator = Operator.gt;
  threshold = Float.finite 5;
  max_sample_gap_sec = 3;
  kind = kind;
  duration_sec = duration_sec;
}

abbrev points : List (MetricPoint ℕ)
points = point 10 4 ∷ point 15 7 ∷ point 12 6 ∷ point 17 5 ∷ point 19 8 ∷ []

above :
    duration_evaluation nanoseconds
      (assertion minimum_contiguous 5)
      (10 * second)
      (20 * second)
      points
    ≡ ok (5, true)
unfolding duration_evaluation
above = refl

below :
    duration_evaluation nanoseconds
      (assertion maximum_contiguous_violation 1)
      (10 * second)
      (20 * second)
      points
    ≡ ok (2, false)
unfolding duration_evaluation
below = refl

gap :
    duration_evaluation nanoseconds
      (assertion minimum_contiguous 5)
      (10 * second)
      (24 * second)
      points
    ≡ err (aggregation_error uncovered_sample_gap)
unfolding duration_evaluation
gap = refl

duration_evaluation-IsMeasured_example :
    IsMeasured (assertion minimum_contiguous 5) (20 * second) points 5 true
duration_evaluation-IsMeasured_example =
    duration_evaluation-IsMeasured nanoseconds (assertion minimum_contiguous 5) (10 * second)
      (20 * second) points 5 true
      (
        (omega arith, omega arith),
        (
          (omega arith, omega arith),
          (
            (omega arith, omega arith),
            ((omega arith, omega arith), ((omega arith, omega arith), tt)),
          ),
        ),
      )
      above

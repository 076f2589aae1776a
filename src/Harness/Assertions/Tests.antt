-- ===== src/Harness/Assertions/Tests.antt =====
-- One gauge under three assertions: one that holds, one over an unknown metric, one in another unit.
use robotics_runtime.Base.{
  ℕ, ◌*◌, ◌≡◌, ◌≤◌, refl, none, some, String, List, [], ◌∷◌, ok, err, false,
}
use robotics_runtime.Base.Float.{Float, naturals}
use robotics_runtime.Harness.Samples.{gauge}
use robotics_runtime.Harness.HistogramEstimates.{Aggregation, Operator}
use robotics_runtime.Harness.Points.{MetricPoint, scalar}
use robotics_runtime.Harness.Assertions.{
  passed, error, AssertionEvaluation, MetricAssertion, threshold_question,
  evaluate_metric_assertions, MetricDefinition, gauge_kind, sum_kind, instantaneous,
  unexpected_kind, validate_metric_definitions,
}
use robotics_runtime.Harness.Assertions.Outcomes.{Paired, evaluate_metric_assertions-Paired}

abbrev point : ℕ → ℕ → MetricPoint ℕ
point at value = scalar (record {
  name = "battery";
  value = Float.finite value;
  unit = "V";
  observed_at_ns = at;
  attributes = [];
  instrument_kind = gauge;
  temporality = none;
  start_time_ns = 0;
  monotonic = false;
})

abbrev assertion : String → String → String → MetricAssertion ℕ
assertion id name unit = record {
  assertion_id = id;
  metric_name = name;
  attribute_match = [];
  unit = unit;
  window_sec = 1;
  question = threshold_question Aggregation.max Operator.lt (Float.finite 9);
}

abbrev nanoseconds : ℕ → ℕ
nanoseconds s = s * 1000000000

abbrev assertions : List (MetricAssertion ℕ)
assertions =
    assertion "a" "battery" "V" ∷ assertion "b" "current" "A" ∷ assertion "c" "battery" "mV" ∷ []

abbrev points : List (MetricPoint ℕ)
points = point 5 20 ∷ point 12 7 ∷ point 15 8 ∷ []

abbrev evaluations : List (AssertionEvaluation ℕ)
evaluations =
    record {
      assertion_id = "a";
      status = passed;
      observed_value = some (Float.finite 8);
      unit = "V";
    }
    ∷ record { assertion_id = "b"; status = error; observed_value = none; unit = "A" }
    ∷ record { assertion_id = "c"; status = error; observed_value = none; unit = "mV" }
    ∷ []

evaluated :
    evaluate_metric_assertions nanoseconds (some 10) (some 20) assertions points ≡ ok evaluations
unfolding evaluate_metric_assertions
evaluated = refl

-- A short window leaves the first point out, and a long one does not reach behind the start.
recent :
    evaluate_metric_assertions
      (λ s. s * 5)
      (some 10)
      (some 20)
      (assertion "a" "battery" "V" ∷ [])
      (point 12 20 ∷ point 16 8 ∷ [])
    ≡ ok (
        record {
          assertion_id = "a";
          status = passed;
          observed_value = some (Float.finite 8);
          unit = "V";
        }
        ∷ [])
unfolding evaluate_metric_assertions
recent = refl

evaluate_metric_assertions-Paired_example :
    (10 ≤ 20) × Paired nanoseconds 10 20 points assertions evaluations
evaluate_metric_assertions-Paired_example =
    evaluate_metric_assertions-Paired nanoseconds 10 20 assertions points evaluations evaluated

abbrev definition : MetricDefinition
definition = record {
  metric_name = "battery";
  unit = "V";
  instrument_kind = gauge_kind;
  temporality = instantaneous;
  monotonic = false;
}

defined : validate_metric_definitions (definition ∷ []) points ≡ ok tt
unfolding validate_metric_definitions
defined = refl

drifted :
    validate_metric_definitions (record definition { instrument_kind = sum_kind } ∷ []) points
    ≡ err (unexpected_kind "battery")
unfolding validate_metric_definitions
drifted = refl

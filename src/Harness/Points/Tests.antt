-- ===== src/Harness/Points/Tests.antt =====
-- Scalar points over the window [10, 20].
use robotics_runtime.Base.{ℕ, ◌≡◌, refl, none, [], ◌∷◌, ok, err, false}
use robotics_runtime.Base.Float.{Float, naturals}
use robotics_runtime.Harness.Samples.{
  gauge, sum, InstrumentKind, aggregation_error, no_window_samples, generic_sum,
}
use robotics_runtime.Harness.HistogramEstimates.{Aggregation}
use robotics_runtime.Harness.Points.{MetricPoint, scalar, aggregate_metric_points}

abbrev point : InstrumentKind → ℕ → ℕ → MetricPoint ℕ
point kind at value = scalar (record {
  name = "m";
  value = Float.finite value;
  unit = "1";
  observed_at_ns = at;
  attributes = [];
  instrument_kind = kind;
  temporality = none;
  start_time_ns = 0;
  monotonic = false;
})

greatest :
    aggregate_metric_points Aggregation.max 10 20
      (point gauge 9 90 ∷ point gauge 10 4 ∷ point gauge 20 6 ∷ [])
    ≡ ok (Float.finite 6)
unfolding aggregate_metric_points
greatest = refl

outside :
    aggregate_metric_points Aggregation.max 10 20 (point gauge 9 90 ∷ [])
    ≡ err (aggregation_error no_window_samples)
unfolding aggregate_metric_points
outside = refl

sums :
    aggregate_metric_points Aggregation.max 10 20 (point sum 10 4 ∷ [])
    ≡ err (aggregation_error generic_sum)
unfolding aggregate_metric_points
sums = refl

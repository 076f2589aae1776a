-- ===== src/Harness/DeltaPoints/Tests.antt =====
-- Delta points of two series, accepted and refused.
use robotics_runtime.Base.{
  ℕ, ◌≤◌, String, ◌≡◌, refl, true, some, List, [], ◌∷◌, ok, err, keep, count_if, All,
}
use robotics_runtime.Base.Float.{Float, naturals}
use robotics_runtime.Harness.Samples.{
  aggregation_error, overlapping_intervals, MetricSample, sum, delta, text, Attributes,
}
use robotics_runtime.Harness.DeltaPoints.{in_window, by_series, validated_delta_points}
use robotics_runtime.Harness.DeltaPoints.Disjoint.{spans, validated_delta_points-disjoint}

abbrev point : String → ℕ → ℕ → MetricSample ℕ
point topic start_time_ns observed_at_ns = record {
  name = "robotics.messages";
  value = Float.finite 1;
  unit = "1";
  observed_at_ns = observed_at_ns;
  attributes = ("topic", text topic) ∷ [];
  instrument_kind = sum;
  temporality = some delta;
  start_time_ns = start_time_ns;
  monotonic = true;
}

abbrev early_point : MetricSample ℕ
early_point = point "scan" 10 20

abbrev points : List (MetricSample ℕ)
points = point "odom" 12 18 ∷ point "scan" 20 30 ∷ early_point ∷ []

abbrev observed : MetricSample ℕ → ℕ
observed p = p.observed_at_ns

abbrev started : MetricSample ℕ → ℕ
started p = p.start_time_ns

abbrev attributes_of : MetricSample ℕ → Attributes ℕ
attributes_of p = p.attributes

accepted :
    validated_delta_points observed started attributes_of 10 40 (point "scan" 5 9 ∷ points)
    ≡ ok points
unfolding validated_delta_points
accepted = refl

refused :
    validated_delta_points observed started attributes_of 10 40 (point "scan" 15 25 ∷ points)
    ≡ err (aggregation_error overlapping_intervals)
unfolding validated_delta_points
refused = refl

validated_delta_points-disjoint_example :
    (points ≡ keep (in_window observed started attributes_of 10 40) (point "scan" 5 9 ∷ points))
    × All
        (λ series. count_if (spans observed started attributes_of 25) series.1 ≤ 1)
        (by_series observed started attributes_of points)
validated_delta_points-disjoint_example =
    validated_delta_points-disjoint observed started attributes_of 10 40 (point "scan" 5 9 ∷ points)
      points 25 accepted

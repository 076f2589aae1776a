-- ===== src/Harness/Windows/Tests.antt =====
-- Delta histograms of one series over the window [100, 200).
use robotics_runtime.Base.{ℕ, ◌+◌, ◌≡◌, refl, none, List, [], ◌∷◌, ok, err}
use robotics_runtime.Base.Double.{five_percent}
use robotics_runtime.Base.Float.{Float, naturals}
use robotics_runtime.Harness.Samples.{
  HistogramSample, MetricTemporality, delta, cumulative, insufficient_data, aggregation_error,
  starts_outside, mixed_temporality, not_increasing,
}
use robotics_runtime.Harness.Windows.{histogram_window_aggregate, histogram_contributions}
use robotics_runtime.Harness.Windows.Covered.{CountsWindow, histogram_window_aggregate-CountsWindow}

abbrev sample : MetricTemporality → ℕ → ℕ → ℕ → ℕ → HistogramSample ℕ
sample temporality start_ns end_ns low high = record {
  name = "latency";
  unit = "ms";
  observed_at_ns = end_ns;
  count = low + high;
  bucket_counts = low ∷ high ∷ [];
  explicit_bounds = Float.finite 5 ∷ [];
  attributes = [];
  temporality = temporality;
  start_time_ns = start_ns;
  sum = none;
  min = none;
  max = none;
}

-- the first sample starts before the window
abbrev samples : List (HistogramSample ℕ)
samples = sample delta 90 100 7 7 ∷ sample delta 100 150 1 2 ∷ sample delta 150 198 3 0 ∷ []

abbrev merged : HistogramSample ℕ
merged = record {
  name = "latency";
  unit = "ms";
  observed_at_ns = 198;
  count = 6;
  bucket_counts = 4 ∷ 2 ∷ [];
  explicit_bounds = Float.finite 5 ∷ [];
  attributes = [];
  temporality = delta;
  start_time_ns = 0;
  sum = none;
  min = none;
  max = none;
}

aggregated : histogram_window_aggregate 100 200 samples ≡ ok merged
unfolding histogram_window_aggregate five_percent not_increasing
aggregated = refl

late_start :
    histogram_window_aggregate 100 200 (sample delta 106 200 1 2 ∷ [])
    ≡ err (insufficient_data starts_outside)
unfolding histogram_window_aggregate five_percent not_increasing
late_start = refl

mixed :
    histogram_contributions 100 200 (sample delta 100 150 1 2 ∷ sample cumulative 100 150 1 2 ∷ [])
    ≡ err (aggregation_error mixed_temporality)
unfolding histogram_contributions
mixed = refl

histogram_window_aggregate-CountsWindow_example : CountsWindow 100 200 samples merged
histogram_window_aggregate-CountsWindow_example =
    histogram_window_aggregate-CountsWindow 100 200 (sample delta 90 100 7 7)
      (sample delta 100 150 1 2 ∷ sample delta 150 198 3 0 ∷ []) merged refl aggregated

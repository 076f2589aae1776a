-- ===== src/Harness/Cumulative/Tests.antt =====
-- A cumulative series of two histograms, and what it contributes to a window.
use robotics_runtime.Base.{ℕ, ◌≡◌, refl, none, some, List, [], ◌∷◌, ok, err, ◌>>=◌}
use mathlib.Core.List.{Perm}
use robotics_runtime.Base.Float.{Float, naturals}
use robotics_runtime.Harness.Samples.{
  total, not_increasing, insufficient_data, no_baseline, HistogramSample, cumulative,
}
use robotics_runtime.Harness.Cumulative.{checked_cumulative_series, cumulative_window_sample}
use robotics_runtime.Harness.Cumulative.Checked.{
  InOrder, Follows, checked_cumulative_series-InOrder,
}

abbrev histogram : ℕ → List ℕ → ℕ → HistogramSample ℕ
histogram at counts count = record {
  name = "robotics.message.age";
  unit = "ms";
  observed_at_ns = at;
  count = count;
  bucket_counts = counts;
  explicit_bounds = Float.finite 5 ∷ [];
  attributes = [];
  temporality = cumulative;
  start_time_ns = 1;
  sum = none;
  min = none;
  max = none;
}

abbrev early : HistogramSample ℕ
early = histogram 10 (1 ∷ 0 ∷ []) 1

abbrev late : HistogramSample ℕ
late = histogram 20 (3 ∷ 1 ∷ []) 4

accepted : checked_cumulative_series (late ∷ early ∷ []) ≡ ok (early ∷ late ∷ [])
unfolding checked_cumulative_series
accepted = refl

counted :
    (cumulative_window_sample (late ∷ early ∷ []) 10 >>= λ h.
    ok (elim h [ none ↦ [] | some x ↦ x.bucket_counts ]))
    ≡ ok (2 ∷ 1 ∷ [])
unfolding cumulative_window_sample total not_increasing
counted = refl

without_baseline :
    cumulative_window_sample (late ∷ early ∷ []) 5 ≡ err (insufficient_data no_baseline)
unfolding cumulative_window_sample
without_baseline = refl

checked_cumulative_series-InOrder_example :
    Perm (early ∷ late ∷ []) (late ∷ early ∷ []) × InOrder Follows (early ∷ late ∷ [])
checked_cumulative_series-InOrder_example =
    checked_cumulative_series-InOrder (late ∷ early ∷ []) (early ∷ late ∷ []) accepted

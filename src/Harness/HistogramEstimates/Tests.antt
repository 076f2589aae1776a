-- ===== src/Harness/HistogramEstimates/Tests.antt =====
-- A small histogram with its events, and the theorems at it.
use robotics_runtime.Base.{
  ℕ, ◌≡◌, refl, inl, inr, true, none, some, List, [], ◌∷◌, arith, ok, count_if,
}
use robotics_runtime.Base.Float.{Float, naturals}
use robotics_runtime.Harness.Samples.{HistogramSample, cumulative}
use robotics_runtime.Harness.HistogramEstimates.{
  passed, lte, p95, Estimate, occupied_from, last, rank_from, estimate, bisect_left, bucket_lower,
  bucket_upper, bucket_estimate, validate_extremum, validate_extrema, negative_bucket,
  has_negative_event, rank_of, by_rank, rank_estimate, estimate_events, estimate_statistic, compare,
  outcomes, compare_values,
}
use robotics_runtime.Harness.HistogramEstimates.Events.{tally, Describes, IsRank, Contains}
use robotics_runtime.Harness.HistogramEstimates.Soundness.{estimate_statistic-Contains}
use robotics_runtime.Harness.HistogramEstimates.Verdicts.{compare-right}

abbrev events : List ℕ
events = 3 ∷ 7 ∷ 12 ∷ 15 ∷ []

abbrev bounds : List ℕ
bounds = 5 ∷ 10 ∷ []

abbrev latency : HistogramSample ℕ
latency = record {
  name = "robotics.message.age";
  unit = "ms";
  observed_at_ns = 9;
  count = 4;
  bucket_counts = 1 ∷ 1 ∷ 2 ∷ [];
  explicit_bounds = Float.finite 5 ∷ Float.finite 10 ∷ [];
  attributes = [];
  temporality = cumulative;
  start_time_ns = 0;
  sum = none;
  min = none;
  max = some (Float.finite 15);
}

latency-Describes : Describes latency bounds events
unfolding tally count_if
latency-Describes = record {
  explicit_bounds = refl;
  bucket_counts = refl;
  count = refl;
  sum = inl refl;
  min = inl refl;
  max = inr (15, refl, (inr (inr (inr (inl refl))), (refl, (refl, (refl, (refl, tt))))));
}

fifteen-IsRank : IsRank (rank_of p95 4) 15 events
unfolding rank_of count_if
fifteen-IsRank = record {
  member = inr (inr (inr (inl refl)));
  below = omega arith;
  upto = omega arith;
}

abbrev p95_estimate : Estimate ℕ
p95_estimate = record { lower = Float.finite 10; upper = Float.finite 15; lower_exclusive = true }

latency_runs : estimate_statistic latency p95 true ≡ ok p95_estimate
unfolding estimate_statistic estimate_events rank_estimate by_rank rank_from bucket_estimate
    bucket_lower bucket_upper estimate rank_of has_negative_event negative_bucket validate_extrema
    validate_extremum occupied_from last bisect_left
latency_runs = refl

estimate_statistic-Contains_example :
    (e : Estimate ℕ) × (estimate_statistic latency p95 true ≡ ok e) × Contains e 15
estimate_statistic-Contains_example =
    estimate_statistic-Contains latency bounds events p95 true 15 latency-Describes
      (inr (refl, (refl, (refl, (refl, tt))))) fifteen-IsRank

compare-right_example : compare_values {F = ℕ} lte (Float.finite 12) (Float.finite 20) ≡ true
unfolding compare outcomes
compare-right_example =
    compare-right p95_estimate lte (Float.finite 20) 12 passed
      (record { above = refl; below = refl }) refl (λ e. cc)

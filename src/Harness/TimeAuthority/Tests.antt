-- ===== src/Harness/TimeAuthority/Tests.antt =====
-- Four latencies in one histogram, under a policy that they keep and one that they do not.
use robotics_runtime.Base.{
  ℕ, ◌≡◌, refl, inl, inr, true, false, none, some, List, [], ◌∷◌, arith, ok, count_if,
}
use robotics_runtime.Base.Double.{five_percent}
use robotics_runtime.Base.Float.{Float, naturals}
use robotics_runtime.Harness.Samples.{HistogramSample, delta, text, not_increasing}
use robotics_runtime.Harness.Windows.{histogram_statistic}
use robotics_runtime.Harness.HistogramEstimates.{
  Aggregation, occupied_from, last, rank_from, estimate, bisect_left, bucket_lower, bucket_upper,
  bucket_estimate, validate_extremum, validate_extrema, negative_bucket, has_negative_event,
  rank_of, by_rank, rank_estimate, estimate_events, estimate_statistic, compare, outcomes,
  strictly_above,
}
use robotics_runtime.Harness.HistogramEstimates.Events.{tally, Describes, IsRank}
use robotics_runtime.Harness.Points.{histogram}
use robotics_runtime.Harness.TimeAuthority.{
  passed, failed, skipped, Evaluation, LatencyLimits, TimeAuthorityObservation, latency_policy,
  evaluate_time_authority,
}
use robotics_runtime.Harness.TimeAuthority.Sound.{KeepsLimits, latency_policy-right}

abbrev events : List ℕ
events = 3 ∷ 7 ∷ 12 ∷ 15 ∷ []

abbrev bounds : List ℕ
bounds = 5 ∷ 10 ∷ []

abbrev latency : HistogramSample ℕ
latency = record {
  name = "robotics.time_authority.delivery_latency";
  unit = "ms";
  observed_at_ns = 200;
  count = 4;
  bucket_counts = 1 ∷ 1 ∷ 2 ∷ [];
  explicit_bounds = Float.finite 5 ∷ Float.finite 10 ∷ [];
  attributes =
      ("run.id", text "r")
      ∷ ("domain.id", text "d")
      ∷ ("time.source.id", text "s")
      ∷ ("time.measurement.method", text "rmw_source_to_reception_latency")
      ∷ [];
  temporality = delta;
  start_time_ns = 100;
  sum = none;
  min = none;
  max = some (Float.finite 15);
}

latency-Describes : Describes latency bounds events
unfolding tally count_if
latency-Describes = record {
  explicit_bounds = refl;
  bucket_counts = refl;
  count = refl;
  sum = inl refl;
  min = inl refl;
  max = inr (15, refl, (inr (inr (inr (inl refl))), (refl, (refl, (refl, (refl, tt))))));
}

seven-IsRank : IsRank (rank_of Aggregation.p50 4) 7 events
unfolding rank_of count_if
seven-IsRank = record { member = inr (inl refl); below = omega arith; upto = omega arith }

p95-IsRank : IsRank (rank_of Aggregation.p95 4) 15 events
unfolding rank_of count_if
p95-IsRank = record { member = inr (inr (inr (inl refl))); below = omega arith; upto = omega arith }

greatest-IsRank : IsRank (rank_of Aggregation.max 4) 15 events
unfolding rank_of count_if
greatest-IsRank = record {
  member = inr (inr (inr (inl refl)));
  below = omega arith;
  upto = omega arith;
}

abbrev limits : ℕ → LatencyLimits ℕ
limits most = record {
  min_samples = 3;
  max_p50_ms = Float.finite 10;
  max_p95_ms = Float.finite most;
  max_ms = Float.finite most;
}

abbrev kept : Evaluation
kept = record { status = passed; observed_value = some 4 }

judged_passed :
    latency_policy latency (limits 20)
    ≡ ok ((Float.finite 10, Float.finite 15, Float.finite 15), kept)
unfolding latency_policy histogram_statistic estimate_statistic estimate_events rank_estimate
    by_rank rank_from bucket_estimate bucket_lower bucket_upper estimate validate_extrema
    validate_extremum has_negative_event negative_bucket rank_of occupied_from last bisect_left
    compare outcomes strictly_above
judged_passed = refl

judged_failed :
    latency_policy latency (limits 14)
    ≡ ok (
      (Float.finite 10, Float.finite 15, Float.finite 15),
      record { status = failed; observed_value = some 4 },
    )
unfolding latency_policy histogram_statistic estimate_statistic estimate_events rank_estimate
    by_rank rank_from bucket_estimate bucket_lower bucket_upper estimate validate_extrema
    validate_extremum has_negative_event negative_bucket rank_of occupied_from last bisect_left
    compare outcomes strictly_above
judged_failed = refl

latency_policy-right_example :
    (kept.status ≡ passed → KeepsLimits (limits 20) events 7 15 15)
    × (kept.status ≡ failed → KeepsLimits (limits 20) events 7 15 15 → ⊥)
latency_policy-right_example =
    latency_policy-right latency bounds events latency-Describes (refl, (refl, (refl, (refl, tt))))
      (limits 20) 7 15 15 seven-IsRank p95-IsRank greatest-IsRank
      (Float.finite 10, Float.finite 15, Float.finite 15) kept judged_passed

abbrev nothing_matches : TimeAuthorityObservation ℕ
nothing_matches = record {
  source_id = "other";
  sample_count = 0;
  window_start_ns = 100;
  window_end_ns = 200;
  p50_ms = Float.finite 0;
  p95_ms = Float.finite 0;
  max_ms = Float.finite 0;
  within_policy = false;
  evaluation = record { status = skipped; observed_value = none };
}

no_match :
    evaluate_time_authority (limits 20) (histogram latency ∷ []) "r" "d" "other" 100 200
    ≡ ok nothing_matches
unfolding evaluate_time_authority
no_match = refl

within :
    evaluate_time_authority (limits 20) (histogram latency ∷ []) "r" "d" "s" 100 200
    ≡ ok (record {
      source_id = "s";
      sample_count = 4;
      window_start_ns = 100;
      window_end_ns = 200;
      p50_ms = Float.finite 10;
      p95_ms = Float.finite 15;
      max_ms = Float.finite 15;
      within_policy = true;
      evaluation = kept;
    })
unfolding evaluate_time_authority estimate_statistic estimate_events rank_estimate by_rank rank_from
    bucket_estimate bucket_lower bucket_upper estimate validate_extrema validate_extremum
    has_negative_event negative_bucket rank_of occupied_from last bisect_left outcomes
    strictly_above five_percent not_increasing
within = refl

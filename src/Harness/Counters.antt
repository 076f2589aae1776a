-- ===== src/Harness/Counters.antt =====
-- packages/harness/src/robotics_acceptance_harness/metrics.py: the increase of a monotonic counter
-- over a window, with the intervals that produced it.
pub mod Latest
pub mod Increase
pub mod Summed
pub mod Disjoint
mod Tests
use robotics_runtime.Base.{
  ℕ, String, Bool, true, false, not, ◌&&◌, Option, none, some, List, [], ◌∷◌, ◌++◌, map, str_eq,
  ltb, leb, ◌==◌, if◌then◌else◌, Result, ok, err, ◌>>=◌, ◌>>◌, raise_if, length, any, all, keep,
}
use robotics_runtime.Base.Float
use robotics_runtime.Base.Float.{Float, Finite}
use robotics_runtime.Harness.Samples.{
  MetricError, aggregation_error, no_points, wrong_unit, not_monotonic_sum, negative_counter,
  mixed_temporality, unspecified_temporality, duplicate_observations, moved_backwards, no_baseline,
  empty_interval, MetricSample, MetricTemporality, delta, cumulative, Attributes,
}
use robotics_runtime.Harness.Series.{
  sorted, grouped, grouped_onto, same_series, series_key, series_before, MetricSeriesKey,
}
use robotics_runtime.Harness.Merging.{attribute_kept}
use robotics_runtime.Harness.DeltaPoints.{validated_delta_points, require_disjoint}
use robotics_runtime.Harness.Cumulative.{last_of}
use robotics_runtime.Harness.Windows.{SeriesInterval, coverage_before, same_reset, temporality_eq}
use robotics_runtime.Harness.Points.{
  MetricPoint, scalar, histogram, point_name, point_unit, point_attributes, scalars, is_sum,
}

-- `CounterWindowAggregate`
pub record CounterWindowAggregate (F : Type 0) : Type 0 where
  pub total : Float F
  pub coverage : List (SeriesInterval F)
  pub temporality : MetricTemporality

-- `isinstance(sample, MetricSample) and sample.instrument_kind == "sum" and sample.monotonic`
abbrev pub is_monotonic_sum : {F : Type 0} → MetricPoint F → Bool
is_monotonic_sum (scalar s) = is_sum s.instrument_kind && s.monotonic
is_monotonic_sum (histogram h) = false

-- `temporalities` holds one value
abbrev pub same_temporality : Option MetricTemporality → Option MetricTemporality → Bool
same_temporality none none = true
same_temporality (some a) (some b) = temporality_eq a b
same_temporality _ _ = false

module _ {F : Type 0} ⦃finites : Finite F⦄ where
  -- `matching`
  abbrev pub matching_points : String → Attributes F → List (MetricPoint F) → List (MetricPoint F)
  matching_points metric_name attribute_match samples =
      keep
        (λ p.
          str_eq (point_name p) metric_name
          && all (attribute_kept (point_attributes p)) attribute_match)
        samples

  abbrev pub is_negative : MetricSample F → Bool
  is_negative s = Float.lt s.value Float.zero_float

  abbrev pub interval_of_scalar : MetricSample F → SeriesInterval F
  interval_of_scalar s = (series_key s.attributes, (s.start_time_ns, s.observed_at_ns))

  -- the branch of delta points
  unfoldable pub delta_aggregate :
      ℕ → ℕ → List (MetricSample F) → Result MetricError (CounterWindowAggregate F)
  unfolding validated_delta_points sorted series_key series_before same_series
  delta_aggregate window_start_ns window_end_ns counters = do
    points ←
        validated_delta_points (λ s. s.observed_at_ns) (λ s. s.start_time_ns) (λ s. s.attributes)
          window_start_ns window_end_ns counters
    raise_if (length points == 0) (aggregation_error no_points)
    raise_if (any is_negative points) (aggregation_error negative_counter)
    ok (record {
      total = finites.sum_of (map (λ s. s.value) points);
      coverage = sorted coverage_before (map interval_of_scalar points);
      temporality = delta;
    })

  -- the loop over `pairwise(ordered)`
  unfoldable pub check_steps :
      MetricSample F → List (MetricSample F) → Result MetricError (Unit {0})
  check_steps previous [] = ok tt
  check_steps previous (current ∷ rest) = do
    raise_if (current.observed_at_ns == previous.observed_at_ns)
        (aggregation_error duplicate_observations)
    raise_if (Float.lt current.value previous.value) (aggregation_error moved_backwards)
    check_steps current rest

  -- the increase of a series and the start of its interval, from its baselines
  unfoldable pub increase_since :
      MetricSample F → List (MetricSample F) → Result MetricError (Float F × ℕ)
  increase_since latest [] = err (aggregation_error no_baseline)
  increase_since latest (b ∷ bs) =
      let baseline = last_of b bs in
      ok (Float.minus latest.value baseline.value, baseline.observed_at_ns)

  -- `baselines`
  abbrev pub is_baseline : ℕ → MetricSample F → MetricSample F → Bool
  is_baseline window_start_ns latest s =
      (s.start_time_ns == latest.start_time_ns)
      && (leb s.observed_at_ns window_start_ns && ltb s.observed_at_ns latest.observed_at_ns)

  -- the checks of an increase, and what it adds
  abbrev pub checked_increase :
      MetricSample F → Float F × ℕ → Result MetricError (Option (Float F × (ℕ × ℕ)))
  checked_increase latest (increase, interval_start_ns) = do
    raise_if (Float.lt increase Float.zero_float) (aggregation_error moved_backwards)
    raise_if (leb latest.observed_at_ns interval_start_ns) (aggregation_error empty_interval)
    ok (some (increase, (interval_start_ns, latest.observed_at_ns)))

  -- the body of the loop over `grouped.items()`, for a series in order; a group is not empty
  unfoldable pub series_increase :
      ℕ → List (MetricSample F) → Result MetricError (Option (Float F × (ℕ × ℕ)))
  unfolding check_steps increase_since
  series_increase window_start_ns [] = ok none
  series_increase window_start_ns (first ∷ rest) =
      let latest = last_of first rest in
      check_steps first rest
      >> (if ltb latest.observed_at_ns window_start_ns
          then ok none
          else (if leb window_start_ns latest.start_time_ns
              then ok (latest.value, latest.start_time_ns)
              else increase_since latest (keep (is_baseline window_start_ns latest) (first ∷ rest)))
            >>= checked_increase latest)

  abbrev pub scalar_before : MetricSample F → MetricSample F → Bool
  scalar_before a b = ltb a.observed_at_ns b.observed_at_ns

  -- what a series adds to the total and to the coverage
  abbrev pub added :
      MetricSeriesKey F
      → Option (Float F × (ℕ × ℕ))
      → Float F × List (SeriesInterval F)
      → Float F × List (SeriesInterval F)
  added key none (total, coverage) = (total, coverage)
  added key (some (increase, interval)) (total, coverage) =
      (Float.plus total increase, coverage ++ ((key, interval) ∷ []))

  -- the loop over `grouped.items()`
  unfoldable pub sum_series :
      ℕ
      → List ((MetricSeriesKey F × ℕ) × List (MetricSample F))
      → Float F × List (SeriesInterval F)
      → Result MetricError (Float F × List (SeriesInterval F))
  unfolding series_increase sorted
  sum_series window_start_ns [] state = ok state
  sum_series window_start_ns (((key, _), series) ∷ rest) state =
      series_increase window_start_ns (sorted scalar_before series) >>= λ increase.
      sum_series window_start_ns rest (added key increase state)

  -- the loop over `by_series.values()`
  unfoldable pub require_no_overlap :
      List (MetricSeriesKey F × List (ℕ × ℕ)) → Result MetricError (Unit {0})
  unfolding require_disjoint
  require_no_overlap [] = ok tt
  require_no_overlap ((_, intervals) ∷ rest) =
      require_disjoint {F = F} (λ i. i.1) (λ i. i.0) (λ i. []) none intervals
      >> require_no_overlap rest

  -- `grouped`
  abbrev pub counter_groups :
      ℕ → List (MetricSample F) → List ((MetricSeriesKey F × ℕ) × List (MetricSample F))
  counter_groups window_end_ns counters = grouped same_reset (
      map (λ s. ((series_key s.attributes, s.start_time_ns), s))
        (keep (λ s. leb s.observed_at_ns window_end_ns) counters))

  -- the branch of cumulative points
  unfoldable pub cumulative_aggregate :
      ℕ → ℕ → List (MetricSample F) → Result MetricError (CounterWindowAggregate F)
  unfolding sum_series require_no_overlap sorted grouped_onto same_series series_key series_before
  cumulative_aggregate window_start_ns window_end_ns counters = do
    (total, coverage) ←
        sum_series window_start_ns (counter_groups window_end_ns counters) (Float.zero_float, [])
    raise_if (length coverage == 0) (aggregation_error no_points)
    let ordered = sorted coverage_before coverage
    require_no_overlap (grouped same_series ordered)
    ok (record { total = total; coverage = ordered; temporality = cumulative })

  -- the branches on the temporality
  unfoldable pub aggregate_counters :
      Option MetricTemporality
      → ℕ
      → ℕ
      → List (MetricSample F)
      → Result MetricError (CounterWindowAggregate F)
  unfolding delta_aggregate cumulative_aggregate
  aggregate_counters (some delta) window_start_ns window_end_ns counters =
      delta_aggregate window_start_ns window_end_ns counters
  aggregate_counters (some cumulative) window_start_ns window_end_ns counters =
      cumulative_aggregate window_start_ns window_end_ns counters
  aggregate_counters _ window_start_ns window_end_ns counters =
      err (aggregation_error unspecified_temporality)

  -- `counter_window_aggregate`, of the counters that match
  unfoldable pub checked_counters :
      ℕ → ℕ → List (MetricSample F) → Result MetricError (CounterWindowAggregate F)
  unfolding aggregate_counters
  checked_counters window_start_ns window_end_ns [] = err (aggregation_error no_points)
  checked_counters window_start_ns window_end_ns (first ∷ rest) = do
    raise_if (any is_negative (first ∷ rest)) (aggregation_error negative_counter)
    raise_if (any (λ s. not (same_temporality first.temporality s.temporality)) rest)
        (aggregation_error mixed_temporality)
    aggregate_counters first.temporality window_start_ns window_end_ns (first ∷ rest)

  -- `counter_window_aggregate`
  unfoldable pub counter_window_aggregate :
      String
      → Attributes F
      → String
      → ℕ
      → ℕ
      → List (MetricPoint F)
      → Result MetricError (CounterWindowAggregate F)
  unfolding checked_counters
  counter_window_aggregate metric_name attribute_match expected_unit window_start_ns window_end_ns
        samples =
      let matching = matching_points metric_name attribute_match samples in
      do
        raise_if (length matching == 0) (aggregation_error no_points)
        raise_if (any (λ p. not (str_eq (point_unit p) expected_unit)) matching)
            (aggregation_error wrong_unit)
        raise_if (not (all is_monotonic_sum matching)) (aggregation_error not_monotonic_sum)
        checked_counters window_start_ns window_end_ns (scalars matching)

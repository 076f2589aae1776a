-- ===== src/Harness/Points.antt =====
-- packages/harness/src/robotics_acceptance_harness/metrics.py: scalar and histogram points, and
-- their aggregate over a window.
--
-- The values of scalar points are finite, as `metric_sample` makes them.
mod Tests
use robotics_runtime.Base.{
  ℕ, ◌-◌, String, Bool, true, false, not, ◌&&◌, Option, none, some, List, [], ◌∷◌, map, leb, ◌==◌,
  if◌then◌else◌, Result, ok, err, ◌>>=◌, ◌>>◌, raise_if, length, get_elem?, any, all, keep,
}
use robotics_runtime.Base.Float
use robotics_runtime.Base.Float.{Float, Finite}
use robotics_runtime.Harness.Samples.{
  MetricError, input_error, aggregation_error, insufficient_data, index_error, no_samples,
  infinite_value, no_window_samples, mixed_kinds, generic_sum, mixed_points, bounded_only,
  MetricSample, HistogramSample, InstrumentKind, gauge, sum, Attributes,
}
use robotics_runtime.Harness.Series.{sorted}
use robotics_runtime.Harness.Merging.{extremum_of}
use robotics_runtime.Harness.Windows.{histogram_window_aggregate, histogram_statistic}
use robotics_runtime.Harness.HistogramEstimates.{Aggregation}

-- `MetricPoint`
pub data MetricPoint (F : Type 0) : Type 0 where
  scalar : MetricSample F → MetricPoint F
  histogram : HistogramSample F → MetricPoint F

-- the fields that both kinds of points have
abbrev pub point_name : {F : Type 0} → MetricPoint F → String
point_name (scalar s) = s.name
point_name (histogram h) = h.name

abbrev pub point_unit : {F : Type 0} → MetricPoint F → String
point_unit (scalar s) = s.unit
point_unit (histogram h) = h.unit

abbrev pub point_time : {F : Type 0} → MetricPoint F → ℕ
point_time (scalar s) = s.observed_at_ns
point_time (histogram h) = h.observed_at_ns

abbrev pub point_attributes : {F : Type 0} → MetricPoint F → Attributes F
point_attributes (scalar s) = s.attributes
point_attributes (histogram h) = h.attributes

-- `[sample for sample in samples if isinstance(sample, MetricSample)]`, and of histograms
abbrev pub scalars : {F : Type 0} → List (MetricPoint F) → List (MetricSample F)
scalars [] = []
scalars (scalar s ∷ rest) = s ∷ scalars rest
scalars (histogram h ∷ rest) = scalars rest

abbrev pub histograms : {F : Type 0} → List (MetricPoint F) → List (HistogramSample F)
histograms [] = []
histograms (scalar s ∷ rest) = histograms rest
histograms (histogram h ∷ rest) = h ∷ histograms rest

-- `isinstance(sample, MetricSample)`
abbrev pub is_scalar : {F : Type 0} → MetricPoint F → Bool
is_scalar (scalar s) = true
is_scalar (histogram h) = false

abbrev pub is_sum : InstrumentKind → Bool
is_sum sum = true
is_sum gauge = false

abbrev pub same_kind : InstrumentKind → InstrumentKind → Bool
same_kind sum k = is_sum k
same_kind gauge k = not (is_sum k)

-- `_matching_window`
abbrev pub matching_window : {F : Type 0} → ℕ → ℕ → List (MetricPoint F) → List (MetricPoint F)
matching_window window_start_ns window_end_ns samples =
    keep (λ p. leb window_start_ns (point_time p) && leb (point_time p) window_end_ns) samples

-- `values[index]`
abbrev pub value_at : {A : Type 0} → List A → ℕ → Result MetricError A
value_at values index = elim (get_elem? values index) [ none ↦ err index_error | some v ↦ ok v ]

-- the numbers of finite floats
abbrev pub finite_values : {F : Type 0} → List (Float F) → Option (List F)
finite_values [] = some []
finite_values (Float.finite x ∷ rest) = elim (finite_values rest) [
  | none ↦ none
  | some xs ↦ some (x ∷ xs)
]
finite_values (_ ∷ rest) = none

module _ {F : Type 0} ⦃finites : Finite F⦄ where
  -- `lower + (upper - lower) * fraction` of finite numbers, each operation rounded
  abbrev pub interpolated : Float F → Float F → Float F → Float F
  interpolated low high fraction = Float.plus low (Float.times (Float.minus high low) fraction)

  -- between the values at `floor(position)` and `ceil(position)`
  unfoldable pub between : List (Float F) → F → Result MetricError (Float F)
  between ordered position =
      let lower = finites.floor_of position in
      let upper = finites.ceil_of position in
      do
        low ← value_at ordered lower
        high ← value_at ordered upper
        ok (
            if lower == upper
            then low
            else interpolated low high
                (Float.minus (Float.finite position) (Float.finite (finites.of_count lower))))

  -- `percentile`, with the quantile of the literal p / q
  unfoldable pub percentile : ℕ → ℕ → List (Float F) → Result MetricError (Float F)
  unfolding between sorted
  percentile p q values =
      let ordered = sorted Float.lt values in
      if length ordered == 1
      then value_at ordered 0
      else elim (finites.times (finites.of_count (length ordered - 1)) (finites.ratio p q)) [
        | Float.finite position ↦ between ordered position
        | other ↦ err (input_error infinite_value)
      ]

  -- `_aggregate`, of at least one value
  unfoldable pub aggregate : Aggregation → List (Float F) → Result MetricError (Float F)
  unfolding percentile
  aggregate Aggregation.min [] = err (input_error no_samples)
  aggregate Aggregation.min (x ∷ xs) = ok (extremum_of Float.min_of x xs)
  aggregate Aggregation.max [] = err (input_error no_samples)
  aggregate Aggregation.max (x ∷ xs) = ok (extremum_of Float.max_of x xs)
  aggregate Aggregation.mean values = elim (finite_values values) [
    | none ↦ err (input_error infinite_value)
    | some xs ↦ ok (Float.finite (finites.mean_of xs))
  ]
  aggregate Aggregation.p50 values = percentile 50 100 values
  aggregate Aggregation.p95 values = percentile 95 100 values
  aggregate Aggregation.p99 values = percentile 99 100 values
  aggregate Aggregation.count values = ok (Float.finite (finites.of_count (length values)))

  -- the first branch of `aggregate_metric_points`, of the scalars of the window
  unfoldable pub aggregate_scalars :
      Aggregation → List (MetricSample F) → Result MetricError (Float F)
  unfolding aggregate
  aggregate_scalars aggregation [] = err (aggregation_error no_window_samples)
  aggregate_scalars aggregation (first ∷ rest) = do
    raise_if (any (λ s. not (same_kind first.instrument_kind s.instrument_kind)) rest)
        (aggregation_error mixed_kinds)
    raise_if (any (λ s. is_sum s.instrument_kind) (first ∷ rest)) (aggregation_error generic_sum)
    aggregate aggregation (map (λ s. s.value) (first ∷ rest))

  -- the second branch
  unfoldable pub aggregate_histograms :
      Aggregation → ℕ → ℕ → List (HistogramSample F) → Result MetricError (Float F)
  unfolding histogram_window_aggregate histogram_statistic
  aggregate_histograms aggregation window_start_ns window_end_ns samples = do
    merged ← histogram_window_aggregate window_start_ns window_end_ns samples
    estimate ← histogram_statistic merged aggregation false
    raise_if (not (Float.eq estimate.lower estimate.upper)) (insufficient_data bounded_only)
    ok estimate.lower

  -- `aggregate_metric_points`
  unfoldable pub aggregate_metric_points :
      Aggregation → ℕ → ℕ → List (MetricPoint F) → Result MetricError (Float F)
  unfolding aggregate_scalars aggregate_histograms
  aggregate_metric_points aggregation window_start_ns window_end_ns [] =
      err (aggregation_error no_samples)
  aggregate_metric_points aggregation window_start_ns window_end_ns (p ∷ ps) =
      if all is_scalar (p ∷ ps)
      then aggregate_scalars aggregation
          (scalars (matching_window window_start_ns window_end_ns (p ∷ ps)))
      else if any is_scalar (p ∷ ps)
      then err (aggregation_error mixed_points)
      else aggregate_histograms aggregation window_start_ns window_end_ns (histograms (p ∷ ps))

-- ===== src/Harness/Windows.antt =====
-- packages/harness/src/robotics_acceptance_harness/metrics.py: what the histograms of an evaluation
-- window contribute to it, their sum, and its statistics.
pub mod Covered
mod Tests
use robotics_runtime.Base.{
  ℕ, Bool, true, false, not, ◌&&◌, Option, none, some, List, [], ◌∷◌, map, ltb, leb, ◌==◌,
  if◌then◌else◌, Result, ok, err, ◌>>=◌, ◌>>◌, raise_if, any, keep,
}
use Prim.Native.Nat
use robotics_runtime.Base.Float
use robotics_runtime.Base.Float.{Finite}
use robotics_runtime.Harness.Samples.{
  MetricError, input_error, aggregation_error, insufficient_data, no_samples, mixed_temporality,
  unspecified_temporality, no_events, no_sum, HistogramSample, MetricTemporality, delta, cumulative,
  unspecified,
}
use robotics_runtime.Harness.Series.{
  sorted, grouped, grouped_onto, interval_before, same_series, series_key, series_before,
  MetricSeriesKey,
}
use robotics_runtime.Harness.Merging.{merge_histograms, is_none}
use robotics_runtime.Harness.DeltaPoints.{validated_delta_points}
use robotics_runtime.Harness.Cumulative.{cumulative_window_sample}
use robotics_runtime.Harness.Coverage.{require_window_coverage, coverage_tolerance_ns}
use robotics_runtime.Harness.HistogramEstimates.{Aggregation, Estimate, estimate_statistic}

abbrev pub temporality_eq : MetricTemporality → MetricTemporality → Bool
temporality_eq delta delta = true
temporality_eq cumulative cumulative = true
temporality_eq unspecified unspecified = true
temporality_eq _ _ = false

-- `aggregation == "count"` and `aggregation == "mean"`
abbrev pub is_count : Aggregation → Bool
is_count Aggregation.count = true
is_count _ = false

abbrev pub is_mean : Aggregation → Bool
is_mean Aggregation.mean = true
is_mean _ = false

-- `except MetricAggregationError as error: raise MetricInsufficientData(str(error))`
abbrev pub as_insufficient : {A : Type 0} → Result MetricError A → Result MetricError A
as_insufficient (err (aggregation_error c)) = err (insufficient_data c)
as_insufficient r = r

-- `except ValueError as error: raise MetricAggregationError(str(error))`
abbrev pub as_aggregation_error : {A : Type 0} → Result MetricError A → Result MetricError A
as_aggregation_error (err (input_error c)) = err (aggregation_error c)
as_aggregation_error (err (insufficient_data c)) = err (aggregation_error c)
as_aggregation_error r = r

-- an interval of a series: its key, its start and its end
abbrev pub SeriesInterval : Type 0 → Type 0
SeriesInterval F = MetricSeriesKey F × (ℕ × ℕ)

-- the part of an interval inside the window, if it is not empty
abbrev pub clipped : {F : Type 0} → ℕ → ℕ → List (SeriesInterval F) → List (SeriesInterval F)
clipped window_start_ns window_end_ns [] = []
clipped window_start_ns window_end_ns ((k, (s, e)) ∷ rest) =
    let others = clipped window_start_ns window_end_ns rest in
    let start_ns = Nat.max s window_start_ns in
    let end_ns = Nat.min e window_end_ns in
    if ltb start_ns end_ns then (k, (start_ns, end_ns)) ∷ others else others

module _ {F : Type 0} ⦃finites : Finite F⦄ where
  -- Python's order of these tuples
  abbrev pub coverage_before : SeriesInterval F → SeriesInterval F → Bool
  coverage_before (k, a) (j, b) = if same_series k j then interval_before a b else series_before k j

  abbrev pub interval_of : HistogramSample F → SeriesInterval F
  interval_of h = (series_key h.attributes, (h.start_time_ns, h.observed_at_ns))

  -- `_interval_coverage`, of histograms
  unfoldable pub interval_coverage : List (HistogramSample F) → List (SeriesInterval F)
  unfolding sorted series_key same_series series_before
  interval_coverage samples = sorted coverage_before (map interval_of samples)

  -- the key of the groups of cumulative histograms
  abbrev pub same_reset : MetricSeriesKey F × ℕ → MetricSeriesKey F × ℕ → Bool
  same_reset (k, a) (j, b) = same_series k j && (a == b)

  abbrev pub by_reset :
      List (HistogramSample F) → List ((MetricSeriesKey F × ℕ) × List (HistogramSample F))
  by_reset samples =
      grouped same_reset (map (λ h. ((series_key h.attributes, h.start_time_ns), h)) samples)

  -- the loop over `grouped.values()`
  unfoldable pub contributions_of :
      ℕ
      → List ((MetricSeriesKey F × ℕ) × List (HistogramSample F))
      → Result MetricError (List (HistogramSample F))
  unfolding cumulative_window_sample
  contributions_of window_start_ns [] = ok []
  contributions_of window_start_ns ((_, series) ∷ rest) =
      cumulative_window_sample series window_start_ns >>= λ contribution.
      (contributions_of window_start_ns rest >>= λ others.
      ok (elim contribution [ none ↦ others | some h ↦ h ∷ others ]))

  -- the branches of `_histogram_contributions` on the temporality
  unfoldable pub contributions_by :
      MetricTemporality
      → ℕ
      → ℕ
      → List (HistogramSample F)
      → Result MetricError (List (HistogramSample F))
  unfolding validated_delta_points contributions_of grouped_onto same_series series_key
  contributions_by unspecified window_start_ns window_end_ns samples =
      err (aggregation_error unspecified_temporality)
  contributions_by delta window_start_ns window_end_ns samples =
      validated_delta_points (λ h. h.observed_at_ns) (λ h. h.start_time_ns) (λ h. h.attributes)
        window_start_ns window_end_ns samples
  contributions_by cumulative window_start_ns window_end_ns samples =
      contributions_of window_start_ns
        (by_reset (keep (λ h. leb h.observed_at_ns window_end_ns) samples))

  -- `_histogram_contributions`
  unfoldable pub histogram_contributions :
      ℕ → ℕ → List (HistogramSample F) → Result MetricError (List (HistogramSample F))
  unfolding contributions_by
  histogram_contributions window_start_ns window_end_ns [] = err (insufficient_data no_samples)
  histogram_contributions window_start_ns window_end_ns (first ∷ rest) = do
    raise_if (any (λ h. not (temporality_eq h.temporality first.temporality)) rest)
        (aggregation_error mixed_temporality)
    contributions_by first.temporality window_start_ns window_end_ns (first ∷ rest)

  -- `histogram_window_coverage`
  unfoldable pub histogram_window_coverage :
      ℕ → ℕ → List (HistogramSample F) → Result MetricError (List (SeriesInterval F))
  unfolding histogram_contributions interval_coverage
  histogram_window_coverage window_start_ns window_end_ns [] = err (aggregation_error no_samples)
  histogram_window_coverage window_start_ns window_end_ns (first ∷ rest) =
      histogram_contributions window_start_ns window_end_ns (first ∷ rest) >>= λ contributions.
      ok (clipped window_start_ns window_end_ns (interval_coverage contributions))

  -- the temporality of `samples[0]`
  abbrev pub first_temporality : List (HistogramSample F) → Option MetricTemporality
  first_temporality [] = none
  first_temporality (h ∷ _) = some h.temporality

  -- `histogram_window_aggregate`; without samples, `_histogram_contributions` has raised
  unfoldable pub histogram_window_aggregate :
      ℕ → ℕ → List (HistogramSample F) → Result MetricError (HistogramSample F)
  unfolding histogram_contributions merge_histograms require_window_coverage interval_coverage
      coverage_tolerance_ns
  histogram_window_aggregate window_start_ns window_end_ns samples = do
    contributions ← histogram_contributions window_start_ns window_end_ns samples
    merged ← merge_histograms contributions
    as_insufficient (
        require_window_coverage (first_temporality samples) window_start_ns window_end_ns
          same_series coverage_tolerance_ns (interval_coverage contributions))
    ok merged

  -- `histogram_statistic`
  unfoldable pub histogram_statistic :
      HistogramSample F → Aggregation → Bool → Result MetricError (Estimate F)
  unfolding estimate_statistic
  histogram_statistic h aggregation nonnegative = do
    raise_if (not (is_count aggregation) && (h.count == 0)) (insufficient_data no_events)
    raise_if (is_mean aggregation && is_none h.sum) (insufficient_data no_sum)
    as_aggregation_error (estimate_statistic h aggregation nonnegative)

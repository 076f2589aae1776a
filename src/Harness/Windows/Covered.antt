-- ===== src/Harness/Windows/Covered.antt =====
-- packages/harness/src/robotics_acceptance_harness/metrics.py: a window of delta histograms is
-- counted once and almost whole.
use robotics_runtime.Base.{
  ℕ, ◌-◌, ◌≤◌, ◌≡◌, ◌∙◌, subst, not, List, ◌∷◌, bind-ok, Result, ok, err, raise_if, any, keep,
  count_if, All,
}
use Prim.Native.Nat
use robotics_runtime.Base.Float.{Finite}
use robotics_runtime.Base.Double.{five_percent}
use robotics_runtime.Harness.Samples.{
  MetricError, aggregation_error, mixed_temporality, HistogramSample, delta,
}
use robotics_runtime.Harness.Series.{grouped, same_series}
use robotics_runtime.Harness.Merging.{merge_histograms}
use robotics_runtime.Harness.DeltaPoints.{in_window, by_series, validated_delta_points}
use robotics_runtime.Harness.DeltaPoints.Disjoint.{spans, validated_delta_points-disjoint}
use robotics_runtime.Harness.Coverage.{require_window_coverage, coverage_tolerance_ns}
use robotics_runtime.Harness.Coverage.Gaps.{uncovered_ns}
use robotics_runtime.Harness.Coverage.Sound.{require_window_coverage-uncovered}
use robotics_runtime.Harness.Windows.{
  as_insufficient, interval_coverage, contributions_by, histogram_contributions,
  histogram_window_aggregate, temporality_eq, first_temporality,
}

as_insufficient-ok :
    {A : Type 0} (r : Result MetricError A) (a : A) → as_insufficient r ≡ ok a → r ≡ ok a
as_insufficient-ok (ok b) a h = h
as_insufficient-ok (err (aggregation_error c)) a h = absurd (cc)
as_insufficient-ok (err e) a h = absurd (cc)

module _ {F : Type 0} ⦃finites : Finite F⦄ (window_start_ns window_end_ns : ℕ) where
  -- What the aggregate of a window has counted: the samples that lie in it, each series without
  -- overlap, and with little of the window left out.
  pub record CountsWindow (samples : List (HistogramSample F)) (h : HistogramSample F)
      : Type 0 where
    selected : List (HistogramSample F)
    is_selected :
        selected
        ≡ keep
            (in_window
              (λ h. h.observed_at_ns)
              (λ h. h.start_time_ns)
              (λ h. h.attributes)
              window_start_ns
              window_end_ns)
            samples
    merged : merge_histograms selected ≡ ok h
    once :
        (t : ℕ)
        → All
            (λ series.
              count_if
                (spans (λ h. h.observed_at_ns) (λ h. h.start_time_ns) (λ h. h.attributes) t)
                series.1
              ≤ 1)
            (by_series (λ h. h.observed_at_ns) (λ h. h.start_time_ns) (λ h. h.attributes) selected)
    covered :
        All
          (λ series.
            uncovered_ns window_start_ns window_end_ns series.1
            ≤ Nat.min 1000000000 (five_percent (window_end_ns - window_start_ns)))
          (grouped same_series (interval_coverage selected))

  -- Delta histograms contribute what the validation selects.
  delta_contributions :
      (first : HistogramSample F) (rest selected : List (HistogramSample F))
      → first.temporality ≡ delta
      → histogram_contributions window_start_ns window_end_ns (first ∷ rest) ≡ ok selected
      → validated_delta_points
          (λ h. h.observed_at_ns)
          (λ h. h.start_time_ns)
          (λ h. h.attributes)
          window_start_ns
          window_end_ns
          (first ∷ rest)
        ≡ ok selected
  unfolding histogram_contributions contributions_by
  delta_contributions first rest selected e h =
      let (u, _, k) =
        bind-ok
          (raise_if (any (λ h. not (temporality_eq h.temporality first.temporality)) rest)
            (aggregation_error mixed_temporality))
          _ selected h in
      subst (λ t. contributions_by t window_start_ns window_end_ns (first ∷ rest) ≡ ok selected) e k

  -- If delta histograms have an aggregate over a window, it is the merge of exactly the samples
  -- that lie in the window, no nanosecond stands in two intervals of one series among them, and
  -- the intervals of each series leave at most a second and at most a twentieth of the window
  -- uncovered.
  pub histogram_window_aggregate-CountsWindow :
      (first : HistogramSample F) (rest : List (HistogramSample F)) (h : HistogramSample F)
      → first.temporality ≡ delta
      → histogram_window_aggregate window_start_ns window_end_ns (first ∷ rest) ≡ ok h
      → CountsWindow (first ∷ rest) h
  unfolding histogram_window_aggregate coverage_tolerance_ns
  histogram_window_aggregate-CountsWindow first rest h e given =
      let (selected, contributed, g1) =
        bind-ok (histogram_contributions window_start_ns window_end_ns (first ∷ rest)) _ h given in
      let (m, merged, g2) = bind-ok (merge_histograms selected) _ h g1 in
      let (u, accepted, g3) =
        bind-ok
          (as_insufficient (
            require_window_coverage (first_temporality (first ∷ rest)) window_start_ns window_end_ns
              same_series coverage_tolerance_ns (interval_coverage selected)))
          _ h g2 in
      let validated = delta_contributions first rest selected e contributed in
      record {
        selected = selected;
        is_selected =
            (validated_delta_points-disjoint (λ h. h.observed_at_ns) (λ h. h.start_time_ns)
              (λ h. h.attributes) window_start_ns window_end_ns (first ∷ rest) selected 0
              validated).0;
        merged = merged ∙ g3;
        once = λ t.
            (validated_delta_points-disjoint (λ h. h.observed_at_ns) (λ h. h.start_time_ns)
              (λ h. h.attributes) window_start_ns window_end_ns (first ∷ rest) selected t
              validated).1;
        covered =
            require_window_coverage-uncovered (first_temporality (first ∷ rest)) window_start_ns
              window_end_ns same_series 1000000000 (interval_coverage selected)
              (as_insufficient-ok _ tt accepted);
      }

-- ===== src/Harness/Cumulative.antt =====
-- packages/harness/src/robotics_acceptance_harness/metrics.py: what a cumulative series of
-- histograms contributes to a window.
pub mod Checked
mod Tests
use robotics_runtime.Base.{
  ℕ, Bool, true, false, not, ◌&&◌, ◌||◌, Option, none, some, List, [], ◌∷◌, str_eq, ltb, leb, ◌==◌,
  if◌then◌else◌, Result, ok, err, ◌>>=◌, ◌>>◌, raise_if, any, keep,
}
use robotics_runtime.Harness.Samples.{
  MetricError, aggregation_error, insufficient_data, index_error, stop_iteration, identity_changed,
  duplicate_observations, bounds_changed, reset_without_start, no_baseline, baseline_before_window,
  HistogramSample, histogram_sample,
}
use robotics_runtime.Base.Float.{Finite}
use robotics_runtime.Harness.Series.{sorted}
use robotics_runtime.Harness.Merging.{zip_strict, bounds_equal, subtract_histograms}

-- `xs[-1]` after the first element
abbrev pub last_of {ℓ} : {A : Type ℓ} → A → List A → A
last_of x [] = x
last_of x (y ∷ ys) = last_of y ys

-- `next(x for x in xs if p(x))`
abbrev pub next_of : {A : Type 0} → List A → Result MetricError A
next_of [] = err stop_iteration
next_of (x ∷ xs) = ok x

-- `==` on tuples of counts
abbrev pub counts_equal : List ℕ → List ℕ → Bool
counts_equal [] [] = true
counts_equal (x ∷ xs) (y ∷ ys) = (x == y) && counts_equal xs ys
counts_equal _ _ = false

module _ {F : Type 0} ⦃finites : Finite F⦄ where
  -- the body of the loop of `_checked_cumulative_series`
  unfoldable pub check_pair : HistogramSample F → HistogramSample F → Result MetricError (Unit {0})
  check_pair previous current = do
    raise_if (not (str_eq current.name previous.name) || not (str_eq current.unit previous.unit))
        (aggregation_error identity_changed)
    raise_if (current.observed_at_ns == previous.observed_at_ns)
        (aggregation_error duplicate_observations)
    raise_if (not (bounds_equal current.explicit_bounds previous.explicit_bounds))
        (aggregation_error bounds_changed)
    pairs ← zip_strict previous.bucket_counts current.bucket_counts
    raise_if (any (λ (left, right). ltb right left) pairs) (insufficient_data reset_without_start)

  unfoldable pub check_pairs :
      HistogramSample F → List (HistogramSample F) → Result MetricError (Unit {0})
  unfolding check_pair
  check_pairs previous [] = ok tt
  check_pairs previous (current ∷ rest) = check_pair previous current >> check_pairs current rest

  abbrev pub by_time : HistogramSample F → HistogramSample F → Bool
  by_time a b = ltb a.observed_at_ns b.observed_at_ns

  -- `pairwise(ordered)`
  abbrev pub check_series : List (HistogramSample F) → Result MetricError (Unit {0})
  check_series [] = ok tt
  check_series (first ∷ rest) = check_pairs first rest

  -- `_checked_cumulative_series`
  unfoldable pub checked_cumulative_series :
      List (HistogramSample F) → Result MetricError (List (HistogramSample F))
  unfolding sorted check_pairs
  checked_cumulative_series samples =
      check_series (sorted by_time samples) >> ok (sorted by_time samples)

  -- the baseline at the start of the window
  unfoldable pub baseline_at :
      ℕ → List (HistogramSample F) → HistogramSample F → Result MetricError (HistogramSample F)
  unfolding histogram_sample
  baseline_at window_start_ns ordered baseline =
      if ltb baseline.observed_at_ns window_start_ns
      then (next_of (keep (λ h. ltb window_start_ns h.observed_at_ns) ordered) >>= λ following.
          (raise_if (not (counts_equal baseline.bucket_counts following.bucket_counts))
              (insufficient_data baseline_before_window)
            >> histogram_sample (record {
              name = baseline.name;
              unit = baseline.unit;
              observed_at_ns = window_start_ns;
              count = baseline.count;
              bucket_counts = baseline.bucket_counts;
              explicit_bounds = baseline.explicit_bounds;
              attributes = baseline.attributes;
              temporality = baseline.temporality;
              start_time_ns = baseline.start_time_ns;
              sum = baseline.sum;
              min = baseline.min;
              max = baseline.max;
            })))
      else ok baseline

  -- from `baselines` on
  abbrev pub since_baseline :
      ℕ
      → List (HistogramSample F)
      → HistogramSample F
      → List (HistogramSample F)
      → Result MetricError (Option (HistogramSample F))
  since_baseline window_start_ns ordered latest [] = err (insufficient_data no_baseline)
  since_baseline window_start_ns ordered latest (b ∷ bs) =
      baseline_at window_start_ns ordered (last_of b bs) >>= λ baseline.
      (subtract_histograms latest baseline >>= λ h. ok (some h))

  -- `_cumulative_window_sample`, once the series is checked
  abbrev pub window_sample :
      ℕ → List (HistogramSample F) → Result MetricError (Option (HistogramSample F))
  window_sample window_start_ns [] = err index_error
  window_sample window_start_ns (first ∷ rest) =
      let latest = last_of first rest in
      if leb latest.observed_at_ns window_start_ns
      then ok none
      else if leb window_start_ns latest.start_time_ns
      then (if first.start_time_ns == first.observed_at_ns
          then (subtract_histograms latest first >>= λ h. ok (some h))
          else ok (some latest))
      else since_baseline window_start_ns (first ∷ rest) latest
          (keep (λ h. leb h.observed_at_ns window_start_ns) (first ∷ rest))

  -- `_cumulative_window_sample`
  unfoldable pub cumulative_window_sample :
      List (HistogramSample F) → ℕ → Result MetricError (Option (HistogramSample F))
  unfolding checked_cumulative_series baseline_at subtract_histograms
  cumulative_window_sample samples window_start_ns =
      checked_cumulative_series samples >>= window_sample window_start_ns

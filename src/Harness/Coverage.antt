-- ===== src/Harness/Coverage.antt =====
-- packages/harness/src/robotics_acceptance_harness/metrics.py: how much of the evaluation window
-- the intervals of each series leave uncovered.
--
-- The key of a series is any type with Python's `==` on it. Where the source subtracts timestamps
-- under `max(0, …)`, the subtraction of natural numbers stops at 0.
pub mod Gaps
pub mod Sound
mod Tests
use robotics_runtime.Base.{
  ℕ, ◌+◌, ◌-◌, min, max, Bool, true, false, ◌&&◌, Option, none, some, List, [], ◌∷◌, leb, ltb,
  if◌then◌else◌, Result, ok, err, ◌>>=◌, ◌>>◌, raise_if,
}
use robotics_runtime.Base.Double.{five_percent}
use robotics_runtime.Base.Int.{ℤ, pos, negsuc}
use robotics_runtime.Harness.Samples.{
  MetricError, input_error, aggregation_error, MetricTemporality, delta, empty_interval,
  overlapping_intervals, gapped_intervals, no_coverage, starts_outside, ends_outside,
  not_enough_coverage, negative_tolerance, empty_window,
}
use robotics_runtime.Harness.Series.{sorted, grouped, grouped_onto, interval_before}

-- `METRIC_WINDOW_COVERAGE_TOLERANCE_NS`
unfoldable pub coverage_tolerance_ns : ℤ
coverage_tolerance_ns = pos 1000000000

-- `temporality != "delta"`
abbrev pub not_delta : Option MetricTemporality → Bool
not_delta (some delta) = false
not_delta _ = true

-- `abs(a - b)`
abbrev pub distance : ℕ → ℕ → ℕ
distance a b = (a - b) + (b - a)

-- `ordered[-1][1]`, after the interval at hand
unfoldable pub last_end : ℕ → List (ℕ × ℕ) → ℕ
last_end end_ns [] = end_ns
last_end end_ns ((_, e) ∷ rest) = last_end e rest

module _ (temporality : Option MetricTemporality) (window_start_ns window_end_ns : ℕ) where
  -- the test of an interval against the end of the one before it, and the gap between them
  unfoldable pub gap_after : Option ℕ → ℕ → Result MetricError ℕ
  gap_after none start_ns = ok 0
  gap_after (some previous_end_ns) start_ns = do
    raise_if (ltb start_ns previous_end_ns) (aggregation_error overlapping_intervals)
    raise_if (ltb previous_end_ns start_ns && not_delta temporality)
        (aggregation_error gapped_intervals)
    ok (min start_ns window_end_ns - max previous_end_ns window_start_ns)

  -- the loop of `_interior_coverage_gap_ns`
  unfoldable pub gaps_from : ℕ → Option ℕ → List (ℕ × ℕ) → Result MetricError ℕ
  unfolding gap_after
  gaps_from uncovered_ns previous_end_ns [] = ok uncovered_ns
  gaps_from uncovered_ns previous_end_ns ((start_ns, end_ns) ∷ rest) =
      raise_if (leb end_ns start_ns) (aggregation_error empty_interval)
      >> (gap_after previous_end_ns start_ns >>= λ gap.
          gaps_from (uncovered_ns + gap) (some end_ns) rest)

  -- `_interior_coverage_gap_ns`
  abbrev pub interior_coverage_gap_ns : List (ℕ × ℕ) → Result MetricError ℕ
  interior_coverage_gap_ns = gaps_from 0 none

  -- one series: the body of the loop over `by_series.values()`; a series has an interval
  unfoldable pub require_ordered : ℕ → List (ℕ × ℕ) → Result MetricError (Unit {0})
  unfolding gaps_from last_end
  require_ordered effective_tolerance_ns [] = err (aggregation_error no_coverage)
  require_ordered effective_tolerance_ns ((start_ns, end_ns) ∷ rest) =
      interior_coverage_gap_ns ((start_ns, end_ns) ∷ rest) >>= λ interior_gap_ns.
      (let last_end_ns = last_end end_ns rest in
        do
          raise_if (ltb effective_tolerance_ns (distance start_ns window_start_ns))
              (aggregation_error starts_outside)
          raise_if (ltb effective_tolerance_ns (distance last_end_ns window_end_ns))
              (aggregation_error ends_outside)
          raise_if
              (ltb effective_tolerance_ns
                ((start_ns - window_start_ns) + interior_gap_ns + (window_end_ns - last_end_ns)))
              (aggregation_error not_enough_coverage))

  abbrev pub require_series : ℕ → List (ℕ × ℕ) → Result MetricError (Unit {0})
  require_series effective_tolerance_ns intervals =
      require_ordered effective_tolerance_ns (sorted interval_before intervals)

  unfoldable pub effective_tolerance : ℕ → ℕ
  effective_tolerance tolerance_ns =
      min tolerance_ns (five_percent (window_end_ns - window_start_ns))

  module _ {K : Type 0} where
    unfoldable pub require_each : ℕ → List (K × List (ℕ × ℕ)) → Result MetricError (Unit {0})
    unfolding require_ordered sorted
    require_each effective_tolerance_ns [] = ok tt
    require_each effective_tolerance_ns ((_, intervals) ∷ rest) =
        require_series effective_tolerance_ns intervals >> require_each effective_tolerance_ns rest

    unfoldable pub require_window_coverage :
        (K → K → Bool) → ℤ → List (K × (ℕ × ℕ)) → Result MetricError (Unit {0})
    unfolding effective_tolerance require_each grouped_onto
    require_window_coverage same (negsuc _) coverage = err (input_error negative_tolerance)
    require_window_coverage same (pos tolerance_ns) [] =
        if leb window_end_ns window_start_ns
        then err (input_error empty_window)
        else err (aggregation_error no_coverage)
    require_window_coverage same (pos tolerance_ns) (entry ∷ coverage) =
        if leb window_end_ns window_start_ns
        then err (input_error empty_window)
        else require_each (effective_tolerance tolerance_ns) (grouped same (entry ∷ coverage))

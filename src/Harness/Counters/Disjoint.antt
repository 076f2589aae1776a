-- ===== src/Harness/Counters/Disjoint.antt =====
-- packages/harness/src/robotics_acceptance_harness/metrics.py: the intervals of a cumulative
-- counter are not empty, and those of a series do not overlap.
use robotics_runtime.Base.{
  ℕ, ◌≤◌, ◌<◌, Bool, ◌&&◌, Option, none, some, List, ltb, leb, count_if, All,
}
use robotics_runtime.Base.Float
use robotics_runtime.Base.Float.{Float, Finite}
use robotics_runtime.Harness.Samples.{MetricSample}
use robotics_runtime.Harness.Series.{grouped, same_series}
use robotics_runtime.Harness.Windows.{SeriesInterval}
use robotics_runtime.Harness.Counters.Increase.{IsCounted}
use robotics_runtime.Harness.Counters.{CounterWindowAggregate, counter_groups}

-- An interval holds a nanosecond: it starts there or before, and ends after it.
abbrev pub holds : ℕ → ℕ × ℕ → Bool
holds t (start_ns, end_ns) = leb start_ns t && ltb t end_ns

abbrev pub IsInterval : ℕ × ℕ → Type 0
IsInterval (start_ns, end_ns) = start_ns < end_ns

module _ {F : Type 0} ⦃finites : Finite F⦄ where
  -- what a series adds
  abbrev IsIncrease : Option (Float F × (ℕ × ℕ)) → Type 0
  IsIncrease none = Unit
  IsIncrease (some (_, interval)) = IsInterval interval

  abbrev pub AllIntervals : List (SeriesInterval F) → Type 0
  AllIntervals coverage = All (λ i. IsInterval i.1) coverage

  -- The total is that of the increases of the series, each over an interval of the coverage, and the
  -- nanosecond `t` stands in at most one interval of each series.
  abbrev pub CountsOnce : ℕ → ℕ → List (MetricSample F) → CounterWindowAggregate F → ℕ → Type 0
  CountsOnce window_start_ns window_end_ns counters r t =
      IsCounted window_start_ns (counter_groups window_end_ns counters) r.total r.coverage
      × AllIntervals r.coverage
      × All (λ series. count_if (holds t) series.1 ≤ 1) (grouped same_series r.coverage)

-- ===== src/Harness/Counters/Increase.antt =====
-- packages/harness/src/robotics_acceptance_harness/metrics.py: what each series adds to the total of
-- a counter.
use robotics_runtime.Base.{
  ℕ, ◌≤◌, ◌<◌, ◌≡◌, ◌⊎◌, true, false, Option, none, some, List, [], ◌∷◌, All, Any,
}
use robotics_runtime.Base.Float
use robotics_runtime.Base.Float.{Float, Finite}
use robotics_runtime.Harness.Samples.{MetricSample}
use robotics_runtime.Harness.Series.{sorted, MetricSeriesKey}
use robotics_runtime.Harness.Cumulative.Checked.{Linked}
use robotics_runtime.Harness.Windows.{SeriesInterval, coverage_before}
use robotics_runtime.Harness.Counters.{scalar_before}
use robotics_runtime.Harness.Counters.Latest.{IsLatest}

-- what a series adds, if it adds something: a number and an interval
abbrev pub Increase : Type 0 → Type 0
Increase F = Option (Float F × (ℕ × ℕ))

-- a series with its key and its start
abbrev pub Group : Type 0 → Type 0
Group F = (MetricSeriesKey F × ℕ) × List (MetricSample F)

module _ {F : Type 0} ⦃finites : Finite F⦄ where
  -- later, and no smaller
  abbrev pub Rises : MetricSample F → MetricSample F → Type 0
  Rises previous current =
      (previous.observed_at_ns < current.observed_at_ns)
      × (Float.lt current.value previous.value ≡ false)

  abbrev pub Rising : List (MetricSample F) → Type 0
  Rising [] = Unit
  Rising (x ∷ xs) = Linked Rises x xs

  -- the newest sample of a series
  abbrev pub IsNewest : List (MetricSample F) → MetricSample F → Type 0
  IsNewest series l = IsLatest (λ s. s.observed_at_ns) (λ _. true) series l

  -- the newest sample of the series that is observed at the start of the window or before it, and
  -- before the sample `l`, since the same start
  pub record IsBaseline (window_start_ns : ℕ) (series : List (MetricSample F))
      (l b : MetricSample F) : Type 0 where
    pub given : Any (λ s. s ≡ b) series
    pub same_start : b.start_time_ns ≡ l.start_time_ns
    pub not_inside : b.observed_at_ns ≤ window_start_ns
    pub before : b.observed_at_ns < l.observed_at_ns
    pub newest :
        All
          (λ s.
            s.start_time_ns ≡ l.start_time_ns
            → s.observed_at_ns ≤ window_start_ns
            → s.observed_at_ns < l.observed_at_ns
            → s.observed_at_ns ≤ b.observed_at_ns)
          series

  -- The number is what the newest sample says, if its series starts in the window, and else the
  -- difference to the baseline; the interval starts at the one or the other.
  abbrev pub CountsFrom : ℕ → List (MetricSample F) → MetricSample F → Float F → ℕ → Type 0
  CountsFrom window_start_ns series l x start_ns =
      ((window_start_ns ≤ l.start_time_ns) × (x ≡ l.value) × (start_ns ≡ l.start_time_ns))
      ⊎ ((l.start_time_ns < window_start_ns)
          × (b : MetricSample F) × IsBaseline window_start_ns series l b
          × (x ≡ Float.minus l.value b.value)
          × (start_ns ≡ b.observed_at_ns))

  -- what a series adds: nothing, if all of it is before the window
  abbrev pub Adds : ℕ → List (MetricSample F) → Increase F → Type 0
  Adds window_start_ns series none = All (λ s. s.observed_at_ns < window_start_ns) series
  Adds window_start_ns series (some (x, (start_ns, end_ns))) =
      (l : MetricSample F) × IsNewest series l
      × (window_start_ns ≤ l.observed_at_ns)
      × (end_ns ≡ l.observed_at_ns)
      × (Float.lt x Float.zero_float ≡ false)
      × CountsFrom window_start_ns series l x start_ns

  -- one increase for each series
  abbrev pub Increases : ℕ → List (Group F) → List (Increase F) → Type 0
  Increases window_start_ns [] [] = Unit
  Increases window_start_ns ((_, series) ∷ rest) (o ∷ os) =
      (Rising (sorted scalar_before series) × Adds window_start_ns series o)
      × Increases window_start_ns rest os
  Increases window_start_ns _ _ = Unit → ⊥

  -- the numbers among the increases, and their sum from left to right
  abbrev pub amounts : List (Increase F) → List (Float F)
  amounts [] = []
  amounts (none ∷ os) = amounts os
  amounts (some (x, _) ∷ os) = x ∷ amounts os

  abbrev pub float_sum : Float F → List (Float F) → Float F
  float_sum total [] = total
  float_sum total (x ∷ xs) = float_sum (Float.plus total x) xs

  -- the intervals among them, each under the key of its series
  abbrev pub intervals : List (Group F) → List (Increase F) → List (SeriesInterval F)
  intervals (((key, _), _) ∷ rest) (none ∷ os) = intervals rest os
  intervals (((key, _), _) ∷ rest) (some (_, i) ∷ os) = (key, i) ∷ intervals rest os
  intervals _ _ = []

  -- The total is the sum of one increase for each series, and the coverage are the intervals of
  -- these increases.
  pub record IsCounted (window_start_ns : ℕ) (groups : List (Group F)) (total : Float F)
      (coverage : List (SeriesInterval F)) : Type 0 where
    pub counted : List (Increase F)
    pub increases : Increases window_start_ns groups counted
    pub summed : total ≡ float_sum Float.zero_float (amounts counted)
    pub covers : coverage ≡ sorted coverage_before (intervals groups counted)

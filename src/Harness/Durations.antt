-- ===== src/Harness/Durations.antt =====
-- packages/harness/src/robotics_acceptance_harness/metrics.py: for how long a gauge satisfies a
-- predicate without interruption.
--
-- `nanoseconds` stands for `int(float(seconds) * 1_000_000_000)`.
pub mod Runs
pub mod Longest
pub mod Measured
mod Tests
use robotics_runtime.Base.{
  ℕ, ◌+◌, ◌-◌, Bool, true, false, not, ◌||◌, Option, none, some, List, [], ◌∷◌, map, ltb, leb, ◌==◌,
  if◌then◌else◌, Result, ok, err, ◌>>=◌, ◌>>◌, raise_if, length, any,
}
use Prim.Native.Nat
use robotics_runtime.Base.Float
use robotics_runtime.Base.Float.{Float, Finite}
use robotics_runtime.Harness.Samples.{
  MetricError, aggregation_error, gauges_required, one_series_required, uncovered_sample_gap,
  MetricSample,
}
use robotics_runtime.Harness.Series.{sorted, same_series, series_key}
use robotics_runtime.Harness.HistogramEstimates.{Operator, compare_values}
use robotics_runtime.Harness.Points.{MetricPoint, scalar, histogram, is_sum}

pub data RequirementKind : Type 0 where
  minimum_contiguous maximum_contiguous_violation : RequirementKind

-- the members of the assertion that are read
pub record DurationAssertion (F : Type 0) : Type 0 where
  pub operator : Operator
  pub threshold : Float F
  pub max_sample_gap_sec : F
  pub kind : RequirementKind
  pub duration_sec : F

-- the variables of the sweep
pub record Sweep : Type 0 where
  pub longest_true_ns : ℕ
  pub longest_false_ns : ℕ
  pub current_value : Option Bool
  pub current_duration_ns : ℕ

abbrev pub start_sweep : Sweep
start_sweep = record {
  longest_true_ns = 0;
  longest_false_ns = 0;
  current_value = none;
  current_duration_ns = 0;
}

-- `value == current_value`
abbrev pub is_current : Bool → Option Bool → Bool
is_current value none = false
is_current true (some b) = b
is_current false (some b) = not b

-- the rest of the loop's body, for a segment that is not empty
unfoldable pub advance : Bool → ℕ → Sweep → Sweep
advance value length_ns st =
    let duration =
      (if is_current value st.current_value then st.current_duration_ns else 0) + length_ns in
    record {
      longest_true_ns = if value then Nat.max st.longest_true_ns duration else st.longest_true_ns;
      longest_false_ns =
          if value then st.longest_false_ns else Nat.max st.longest_false_ns duration;
      current_value = some value;
      current_duration_ns = duration;
    }

-- the end of a segment: the next sample, or that of the window
abbrev pub segment_end : ℕ → List (ℕ × Bool) → ℕ
segment_end window_end_ns [] = window_end_ns
segment_end window_end_ns ((t, _) ∷ _) = Nat.min t window_end_ns

-- the loop over the gauges: their times, and whether their values satisfy the predicate
unfoldable pub sweep : ℕ → ℕ → List (ℕ × Bool) → Sweep → Sweep
unfolding advance
sweep window_start_ns window_end_ns [] st = st
sweep window_start_ns window_end_ns ((t, value) ∷ rest) st =
    let segment_start = Nat.max t window_start_ns in
    let end_ns = segment_end window_end_ns rest in
    sweep window_start_ns window_end_ns rest
      (if leb end_ns segment_start then st else advance value (end_ns - segment_start) st)

-- `any` of the gaps between samples, and from the last one to the end, is over the allowance
abbrev pub has_gap : ℕ → ℕ → ℕ → List ℕ → Bool
has_gap max_gap_ns window_end_ns t [] = ltb max_gap_ns (window_end_ns - t)
has_gap max_gap_ns window_end_ns t (u ∷ us) =
    ltb max_gap_ns (u - t) || has_gap max_gap_ns window_end_ns u us

module _ {F : Type 0} ⦃finites : Finite F⦄ where
  -- `isinstance(sample, MetricSample) and sample.instrument_kind == "gauge"`
  abbrev pub gauges_of : List (MetricPoint F) → List (MetricSample F)
  gauges_of [] = []
  gauges_of (scalar s ∷ rest) =
      let others = gauges_of rest in if is_sum s.instrument_kind then others else s ∷ others
  gauges_of (histogram h ∷ rest) = gauges_of rest

  abbrev pub gauge_before : MetricSample F → MetricSample F → Bool
  gauge_before a b = ltb a.observed_at_ns b.observed_at_ns

  abbrev pub same_as : MetricSample F → MetricSample F → Bool
  same_as first s = same_series (series_key first.attributes) (series_key s.attributes)

  -- a gauge's time, and whether its value satisfies the predicate
  abbrev pub judged : DurationAssertion F → MetricSample F → ℕ × Bool
  judged a s = (s.observed_at_ns, compare_values a.operator s.value a.threshold)

  -- `ns / 1_000_000_000`
  abbrev pub seconds_of : ℕ → F
  seconds_of ns = finites.quotient (finites.of_count ns) 1000000000

  -- what a requirement says of the longest stretches
  unfoldable pub required : RequirementKind → F → Sweep → F × Bool
  required minimum_contiguous duration_sec st =
      (seconds_of st.longest_true_ns, finites.le duration_sec (seconds_of st.longest_true_ns))
  required maximum_contiguous_violation duration_sec st =
      (seconds_of st.longest_false_ns, finites.le (seconds_of st.longest_false_ns) duration_sec)

  -- `_duration_evaluation`, of the gauges in order
  unfoldable pub evaluate_gauges :
      (F → ℕ) → DurationAssertion F → ℕ → ℕ → List (MetricSample F) → Result MetricError (F × Bool)
  unfolding same_series series_key sweep required compare_values
  evaluate_gauges nanoseconds a window_start_ns window_end_ns [] =
      err (aggregation_error one_series_required)
  evaluate_gauges nanoseconds a window_start_ns window_end_ns (first ∷ rest) = do
    raise_if (any (λ s. not (same_as first s)) rest) (aggregation_error one_series_required)
    let max_gap_ns = nanoseconds a.max_sample_gap_sec
    raise_if
        (ltb max_gap_ns (first.observed_at_ns - window_start_ns)
          || has_gap max_gap_ns window_end_ns first.observed_at_ns
              (map (λ s. s.observed_at_ns) rest))
        (aggregation_error uncovered_sample_gap)
    ok (
        required a.kind a.duration_sec
          (sweep window_start_ns window_end_ns (map (judged a) (first ∷ rest)) start_sweep))

  -- `_duration_evaluation`
  unfoldable pub duration_evaluation :
      (F → ℕ) → DurationAssertion F → ℕ → ℕ → List (MetricPoint F) → Result MetricError (F × Bool)
  unfolding evaluate_gauges sorted
  duration_evaluation nanoseconds a window_start_ns window_end_ns samples = do
    raise_if (not (length (gauges_of samples) == length samples))
        (aggregation_error gauges_required)
    evaluate_gauges nanoseconds a window_start_ns window_end_ns
        (sorted gauge_before (gauges_of samples))

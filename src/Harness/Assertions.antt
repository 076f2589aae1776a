-- ===== src/Harness/Assertions.antt =====
-- packages/harness/src/robotics_acceptance_harness/metrics.py: the evaluation of metric assertions,
-- and the definitions that the observed instruments have to keep.
--
-- An evaluation has no message. A window that would start before the epoch starts at it.
-- `nanoseconds` stands for `int(float(seconds) * 1_000_000_000)`.
pub mod Answers
pub mod Outcomes
mod Tests
use robotics_runtime.Base.{
  ℕ, ◌-◌, String, Bool, true, false, not, ◌&&◌, ◌||◌, Option, none, some, List, [], ◌∷◌, map,
  str_eq, ltb, ◌==◌, if◌then◌else◌, Result, ok, err, ◌>>=◌, ◌>>◌, raise_if, length, any, all, keep,
}
use Prim.Native.Nat
use robotics_runtime.Base.Float
use robotics_runtime.Base.Float.{Float, Finite}
use robotics_runtime.Harness.Samples.{
  MetricError, input_error, aggregation_error, insufficient_data, empty_window, MetricTemporality,
  HistogramSample, Attributes,
}
use robotics_runtime.Harness.Merging.{attribute_kept, latest_of}
use robotics_runtime.Harness.HistogramEstimates.{
  Aggregation, Comparison, Operator, Estimate, compare, compare_values,
}
use robotics_runtime.Harness.Windows.{
  histogram_window_aggregate, histogram_statistic, temporality_eq,
}
use robotics_runtime.Harness.Points.{
  MetricPoint, scalar, histogram, point_name, point_unit, point_time, point_attributes, histograms,
  is_scalar, is_sum, matching_window, aggregate_metric_points,
}
use robotics_runtime.Harness.Durations.{DurationAssertion, duration_evaluation}
use robotics_runtime.Harness.Counters.{is_monotonic_sum}

pub data EvaluationStatus : Type 0 where
  passed failed error skipped : EvaluationStatus

-- `AssertionEvaluation`
pub record AssertionEvaluation (F : Type 0) : Type 0 where
  pub assertion_id : String
  pub status : EvaluationStatus
  pub observed_value : Option (Float F)
  pub unit : String

-- what an assertion asks for: a threshold, or, with the kind "metric_duration", a duration
pub data Question (F : Type 0) : Type 0 where
  threshold_question : Aggregation → Operator → Float F → Question F
  duration_question : DurationAssertion F → Question F

pub record MetricAssertion (F : Type 0) : Type 0 where
  pub assertion_id : String
  pub metric_name : String
  pub attribute_match : Attributes F
  pub unit : String
  pub window_sec : F
  pub question : Question F

abbrev pub status_of : Comparison → EvaluationStatus
status_of Comparison.passed = passed
status_of Comparison.failed = failed
status_of Comparison.skipped = skipped

-- `operator in {"gt", "gte"}`
abbrev pub is_lower_bound : Operator → Bool
is_lower_bound Operator.gt = true
is_lower_bound Operator.gte = true
is_lower_bound _ = false

abbrev pub is_undecided : Comparison → Bool
is_undecided Comparison.skipped = true
is_undecided _ = false

-- "passed" or "failed"
abbrev pub verdict_of : Bool → EvaluationStatus
verdict_of true = passed
verdict_of false = failed

-- the temporality that a definition names
pub data DeclaredTemporality : Type 0 where
  instantaneous : DeclaredTemporality
  declared : MetricTemporality → DeclaredTemporality

pub data DeclaredKind : Type 0 where
  gauge_kind sum_kind histogram_kind : DeclaredKind

pub record MetricDefinition : Type 0 where
  pub metric_name : String
  pub unit : String
  pub instrument_kind : DeclaredKind
  pub temporality : DeclaredTemporality
  pub monotonic : Bool

-- `MetricDefinitionError`, for each of its messages
pub data DefinitionError : Type 0 where
  unexpected_unit unexpected_kind unexpected_temporality not_monotonic : String → DefinitionError

abbrev pub kind_matches : {F : Type 0} → DeclaredKind → MetricPoint F → Bool
kind_matches histogram_kind (histogram h) = true
kind_matches sum_kind (scalar s) = is_sum s.instrument_kind
kind_matches gauge_kind (scalar s) = not (is_sum s.instrument_kind)
kind_matches _ _ = false

-- the temporality of a point, as it is compared with a definition
abbrev pub temporality_matches : {F : Type 0} → DeclaredTemporality → MetricPoint F → Bool
temporality_matches instantaneous (histogram h) = false
temporality_matches (declared t) (histogram h) = temporality_eq h.temporality t
temporality_matches instantaneous (scalar s) = not (is_sum s.instrument_kind)
temporality_matches (declared t) (scalar s) =
    is_sum s.instrument_kind && (elim s.temporality [ none ↦ false | some u ↦ temporality_eq u t ])

module _ {F : Type 0} where
  -- the body of the loop of `validate_metric_definitions`
  unfoldable pub validate_definition :
      MetricDefinition → List (MetricPoint F) → Result DefinitionError (Unit {0})
  validate_definition definition samples =
      let observed = keep (λ p. str_eq (point_name p) definition.metric_name) samples in
      do
        raise_if (any (λ p. not (str_eq (point_unit p) definition.unit)) observed)
            (unexpected_unit definition.metric_name)
        raise_if (any (λ p. not (kind_matches definition.instrument_kind p)) observed)
            (unexpected_kind definition.metric_name)
        raise_if (any (λ p. not (temporality_matches definition.temporality p)) observed)
            (unexpected_temporality definition.metric_name)
        raise_if (definition.monotonic && not (all is_monotonic_sum observed))
            (not_monotonic definition.metric_name)

  -- `validate_metric_definitions`
  unfoldable pub validate_metric_definitions :
      List MetricDefinition → List (MetricPoint F) → Result DefinitionError (Unit {0})
  unfolding validate_definition
  validate_metric_definitions [] samples = ok tt
  validate_metric_definitions (d ∷ ds) samples =
      validate_definition d samples >> validate_metric_definitions ds samples

-- `end_ns`: that of the window, or the last observation
abbrev pub end_of : Option (ℕ × ℕ) → ℕ → List ℕ → ℕ
end_of none t times = latest_of t times
end_of (some (_, window_end_ns)) t times = window_end_ns

abbrev pub start_of : Option (ℕ × ℕ) → ℕ → ℕ
start_of none start_ns = start_ns
start_of (some (window_start_ns, _)) start_ns = Nat.max start_ns window_start_ns

module _ {F : Type 0} ⦃finites : Finite F⦄ where
  abbrev pub evaluation :
      MetricAssertion F → EvaluationStatus → Option (Float F) → String → AssertionEvaluation F
  evaluation a status observed_value unit = record {
    assertion_id = a.assertion_id;
    status = status;
    observed_value = observed_value;
    unit = unit;
  }

  -- the bound that `_histogram_assertion` shows
  abbrev pub shown : Operator → Estimate F → Comparison → Option (Float F)
  shown operator e status =
      let bound = if is_lower_bound operator then e.lower else e.upper in
      if Float.is_finite bound && not (is_undecided status) then some bound else none

  -- `_histogram_assertion`
  unfoldable pub histogram_assertion :
      MetricAssertion F
      → Aggregation
      → Operator
      → Float F
      → ℕ
      → ℕ
      → List (HistogramSample F)
      → Result MetricError (AssertionEvaluation F)
  unfolding histogram_window_aggregate histogram_statistic compare
  histogram_assertion a aggregation operator threshold start_ns end_ns samples = do
    merged ← histogram_window_aggregate start_ns end_ns samples
    estimate ← histogram_statistic merged aggregation false
    status ← compare estimate operator threshold
    ok (evaluation a (status_of status) (shown operator estimate status) a.unit)

  -- the `try` statement, without its `except`
  unfoldable pub answered :
      (F → ℕ)
      → MetricAssertion F
      → Question F
      → ℕ
      → ℕ
      → List (MetricPoint F)
      → Result MetricError (AssertionEvaluation F)
  unfolding duration_evaluation histogram_assertion aggregate_metric_points compare_values
  answered nanoseconds a (duration_question d) start_ns end_ns metric_samples =
      duration_evaluation nanoseconds d start_ns end_ns
        (matching_window start_ns end_ns metric_samples)
      >>= λ (observed, did_pass).
          ok (evaluation a (verdict_of did_pass) (some (Float.finite observed)) "s")
  answered nanoseconds a (threshold_question aggregation operator threshold) start_ns end_ns
        metric_samples =
      if any is_scalar metric_samples
      then (aggregate_metric_points aggregation start_ns end_ns metric_samples >>= λ observed. ok (
          evaluation a (verdict_of (compare_values operator observed threshold)) (some observed)
            a.unit))
      else histogram_assertion a aggregation operator threshold start_ns end_ns
          (histograms metric_samples)

  -- `except MetricAggregationError as error`
  abbrev pub reported_error :
      MetricAssertion F
      → Result MetricError (AssertionEvaluation F)
      → Result MetricError (AssertionEvaluation F)
  reported_error a (err (insufficient_data _)) = ok (evaluation a skipped none a.unit)
  reported_error a (err (aggregation_error _)) = ok (evaluation a error none a.unit)
  reported_error a r = r

  -- `metric_samples`
  abbrev pub metric_samples_of : MetricAssertion F → List (MetricPoint F) → List (MetricPoint F)
  metric_samples_of a samples =
      keep
        (λ p.
          str_eq (point_name p) a.metric_name
          && all (attribute_kept (point_attributes p)) a.attribute_match)
        samples

  -- from `window` on
  unfoldable pub evaluate_window :
      (F → ℕ)
      → MetricAssertion F
      → ℕ
      → ℕ
      → List (MetricPoint F)
      → Result MetricError (AssertionEvaluation F)
  unfolding answered
  evaluate_window nanoseconds a start_ns end_ns metric_samples =
      let window = matching_window start_ns end_ns metric_samples in
      if (length window == 0) || any (λ p. not (str_eq (point_unit p) a.unit)) window
      then ok (evaluation a error none a.unit)
      else reported_error a (answered nanoseconds a a.question start_ns end_ns metric_samples)

  -- the body of the loop of `evaluate_metric_assertions`, of the samples that match
  unfoldable pub evaluate_matching :
      (F → ℕ)
      → Option (ℕ × ℕ)
      → MetricAssertion F
      → List (MetricPoint F)
      → Result MetricError (AssertionEvaluation F)
  unfolding evaluate_window
  evaluate_matching nanoseconds window a [] = ok (evaluation a error none a.unit)
  evaluate_matching nanoseconds window a (p ∷ ps) =
      let end_ns = end_of window (point_time p) (map point_time ps) in
      evaluate_window nanoseconds a (start_of window (end_ns - nanoseconds a.window_sec)) end_ns
        (p ∷ ps)

  -- the loop of `evaluate_metric_assertions`
  unfoldable pub evaluate_each :
      (F → ℕ)
      → Option (ℕ × ℕ)
      → List (MetricAssertion F)
      → List (MetricPoint F)
      → Result MetricError (List (AssertionEvaluation F))
  unfolding evaluate_matching
  evaluate_each nanoseconds window [] samples = ok []
  evaluate_each nanoseconds window (a ∷ rest) samples =
      evaluate_matching nanoseconds window a (metric_samples_of a samples) >>= λ e.
      (evaluate_each nanoseconds window rest samples >>= λ es. ok (e ∷ es))

  -- `evaluate_metric_assertions`
  unfoldable pub evaluate_metric_assertions :
      (F → ℕ)
      → Option ℕ
      → Option ℕ
      → List (MetricAssertion F)
      → List (MetricPoint F)
      → Result MetricError (List (AssertionEvaluation F))
  unfolding evaluate_each
  evaluate_metric_assertions nanoseconds none none assertions samples =
      evaluate_each nanoseconds none assertions samples
  evaluate_metric_assertions nanoseconds (some window_start_ns) (some window_end_ns) assertions
        samples =
      raise_if (ltb window_end_ns window_start_ns) (input_error empty_window)
      >> evaluate_each nanoseconds (some (window_start_ns, window_end_ns)) assertions samples
  evaluate_metric_assertions nanoseconds _ _ assertions samples = err (input_error empty_window)

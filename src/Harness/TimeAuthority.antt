-- ===== src/Harness/TimeAuthority.antt =====
-- packages/harness/src/robotics_acceptance_harness/time_authority.py: whether the delivery latency
-- of a time source keeps the policy.
--
-- An evaluation has its status and its observed value; its id and its unit are constants. The
-- thresholds of the policy are floats.
pub mod Sound
mod Tests
use robotics_runtime.Base.{
  ℕ, String, Bool, true, false, not, ◌&&◌, ◌||◌, Option, none, some, List, [], ◌∷◌, str_eq, leb,
  ◌==◌, if◌then◌else◌, Result, ok, err, ◌>>=◌, ◌>>◌, raise_if, length, any, keep,
}
use robotics_runtime.Base.Float
use robotics_runtime.Base.Float.{Float, Finite}
use robotics_runtime.Harness.Samples.{
  MetricError, aggregation_error, insufficient_data, no_samples, incompatible_samples,
  HistogramSample, text, Attributes,
}
use robotics_runtime.Harness.Merging.{lookup}
use robotics_runtime.Harness.HistogramEstimates.{
  Aggregation, Comparison, Operator, Estimate, compare,
}
use robotics_runtime.Harness.Windows.{histogram_window_aggregate, histogram_statistic}
use robotics_runtime.Harness.Points.{
  MetricPoint, point_name, point_unit, point_time, point_attributes, histograms, is_scalar,
}

-- the constants of the module
abbrev pub delivery_latency_metric : String
delivery_latency_metric = "robotics.time_authority.delivery_latency"

abbrev pub run_attribute : String
run_attribute = "run.id"

abbrev pub domain_attribute : String
domain_attribute = "domain.id"

abbrev pub source_attribute : String
source_attribute = "time.source.id"

abbrev pub method_attribute : String
method_attribute = "time.measurement.method"

abbrev pub rmw_latency_method : String
rmw_latency_method = "rmw_source_to_reception_latency"

-- the status of an `AssertionEvaluation`
pub data EvaluationStatus : Type 0 where
  passed failed error skipped : EvaluationStatus

pub record Evaluation : Type 0 where
  pub status : EvaluationStatus
  pub observed_value : Option ℕ

-- the members of the time policy that are read
pub record LatencyLimits (F : Type 0) : Type 0 where
  pub min_samples : ℕ
  pub max_p50_ms : Float F
  pub max_p95_ms : Float F
  pub max_ms : Float F

-- `_LatencyContext`
pub record LatencyContext : Type 0 where
  pub run_id : String
  pub domain_id : String
  pub source_id : String
  pub start_ns : ℕ
  pub end_ns : ℕ

-- `TimeAuthorityObservation`
pub record TimeAuthorityObservation (F : Type 0) : Type 0 where
  pub source_id : String
  pub sample_count : ℕ
  pub window_start_ns : ℕ
  pub window_end_ns : ℕ
  pub p50_ms : Float F
  pub p95_ms : Float F
  pub max_ms : Float F
  pub within_policy : Bool
  pub evaluation : Evaluation

-- `sample.attributes.get(key) == value`, for a text
abbrev pub has_text : {F : Type 0} → Attributes F → String → String → Bool
has_text attributes key value = elim (lookup key attributes) [
  | some (text t) ↦ str_eq t value
  | _ ↦ false
]

-- `_LatencyContext.matches`
abbrev pub matches : {F : Type 0} → LatencyContext → MetricPoint F → Bool
matches context p =
    leb (point_time p) context.end_ns
    && (has_text (point_attributes p) run_attribute context.run_id
        && (has_text (point_attributes p) domain_attribute context.domain_id
            && (has_text (point_attributes p) source_attribute context.source_id
                && has_text (point_attributes p) method_attribute rmw_latency_method)))

abbrev pub is_failed : Comparison → Bool
is_failed Comparison.failed = true
is_failed _ = false

abbrev pub is_skipped : Comparison → Bool
is_skipped Comparison.skipped = true
is_skipped _ = false

-- `"failed" if "failed" in outcomes else "skipped" if "skipped" in outcomes else "passed"`
abbrev pub status_among : List Comparison → EvaluationStatus
status_among outcomes =
    if any is_failed outcomes then failed else if any is_skipped outcomes then skipped else passed

abbrev pub did_pass : EvaluationStatus → Bool
did_pass passed = true
did_pass _ = false

module _ {F : Type 0} ⦃finites : Finite F⦄ where
  -- `_latency_histogram`
  unfoldable pub latency_histogram :
      List (MetricPoint F) → LatencyContext → Result MetricError (HistogramSample F)
  unfolding histogram_window_aggregate
  latency_histogram samples context =
      let matching =
        keep (λ p. str_eq (point_name p) delivery_latency_metric && matches context p) samples in
      do
        raise_if (length matching == 0) (insufficient_data no_samples)
        raise_if (any (λ p. is_scalar p || not (str_eq (point_unit p) "ms")) matching)
            (aggregation_error incompatible_samples)
        histogram_window_aggregate context.start_ns context.end_ns (histograms matching)

  -- `_display_bound`
  abbrev pub display_bound : Estimate F → Float F
  display_bound e = if Float.is_finite e.upper then e.upper else e.lower

  -- `_latency_policy`, of a histogram with events: the numbers to display, and the evaluation
  unfoldable pub latency_verdict :
      HistogramSample F
      → LatencyLimits F
      → Result MetricError ((Float F × Float F × Float F) × Evaluation)
  unfolding histogram_statistic compare
  latency_verdict h policy = do
    p50 ← histogram_statistic h Aggregation.p50 true
    p95 ← histogram_statistic h Aggregation.p95 true
    maximum ← histogram_statistic h Aggregation.max true
    a ← compare p50 Operator.lte policy.max_p50_ms
    b ← compare p95 Operator.lte policy.max_p95_ms
    c ← compare maximum Operator.lte policy.max_ms
    let d = if leb policy.min_samples h.count then Comparison.passed else Comparison.failed
    ok (
      (display_bound p50, display_bound p95, display_bound maximum),
      record { status = status_among (a ∷ b ∷ c ∷ d ∷ []); observed_value = some h.count },
    )

  -- `_latency_policy`
  unfoldable pub latency_policy :
      HistogramSample F
      → LatencyLimits F
      → Result MetricError ((Float F × Float F × Float F) × Evaluation)
  unfolding latency_verdict
  latency_policy h policy = elim (h.count == 0) [
    | true ↦ ok (
      (Float.zero_float, Float.zero_float, Float.zero_float),
      record { status = failed; observed_value = some 0 },
    )
    | false ↦ latency_verdict h policy
  ]

  -- the observation of a context
  abbrev pub observation_of :
      LatencyContext → ℕ → Float F × Float F × Float F → Evaluation → TimeAuthorityObservation F
  observation_of context sample_count (p50, p95, maximum) evaluation = record {
    source_id = context.source_id;
    sample_count = sample_count;
    window_start_ns = context.start_ns;
    window_end_ns = context.end_ns;
    p50_ms = p50;
    p95_ms = p95;
    max_ms = maximum;
    within_policy = did_pass evaluation.status;
    evaluation = evaluation;
  }

  abbrev pub zeros : Float F × Float F × Float F
  zeros = (Float.zero_float, Float.zero_float, Float.zero_float)

  -- the `except` clause: `count` is what was counted before
  abbrev pub unavailable :
      LatencyContext → ℕ → MetricError → Result MetricError (TimeAuthorityObservation F)
  unavailable context sample_count (insufficient_data _) = ok (
      observation_of context sample_count zeros
        (record { status = skipped; observed_value = none }))
  unavailable context sample_count (aggregation_error _) =
      ok (
        observation_of context sample_count zeros
          (record { status = error; observed_value = none }))
  unavailable context sample_count e = err e

  -- `_observe_latency`
  unfoldable pub observe_latency :
      LatencyLimits F
      → List (MetricPoint F)
      → LatencyContext
      → Result MetricError (TimeAuthorityObservation F)
  unfolding latency_histogram latency_policy
  observe_latency policy samples context = elim (latency_histogram samples context) [
    | err e ↦ unavailable context 0 e
    | ok h ↦ elim (latency_policy h policy) [
      | err e ↦ unavailable context h.count e
      | ok (displayed, evaluation) ↦ ok (observation_of context h.count displayed evaluation)
    ]
  ]

  -- `evaluate_time_authority`
  unfoldable pub evaluate_time_authority :
      LatencyLimits F
      → List (MetricPoint F)
      → String
      → String
      → String
      → ℕ
      → ℕ
      → Result MetricError (TimeAuthorityObservation F)
  unfolding observe_latency
  evaluate_time_authority time_policy samples run_id domain_id source_id window_start_ns
        window_end_ns =
      observe_latency time_policy samples (record {
        run_id = run_id;
        domain_id = domain_id;
        source_id = source_id;
        start_ns = window_start_ns;
        end_ns = window_end_ns;
      })

-- ===== src/Harness/Samples.antt =====
-- packages/harness/src/robotics_acceptance_harness/metrics.py: the metric points and the errors.
--
-- Timestamps and counts are natural numbers: `__post_init__` refuses negative ones. The literal
-- types of instrument kinds and temporalities are data types, so the checks that refuse other
-- strings have nothing to refuse.
use robotics_runtime.Base.{
  ℕ, ◌+◌, suc, String, Bool, true, false, not, ◌&&◌, ◌||◌, Option, none, some, List, [], ◌∷◌, ltb,
  ◌==◌, Result, ok, ◌>>◌, raise_if, any, length,
}
use robotics_runtime.Base.Float
use robotics_runtime.Base.Float.{Float, Finite}
use robotics_runtime.Base.Int.{ℤ}

-- What an exception of this part says, a constructor for each message.
pub data Cause : Type 0 where
  start_after_observation bucket_arity bucket_total infinite_bound unordered_bounds infinite_summary
        min_above_max :
      Cause
  nan_estimate inconsistent_estimate infinite_threshold unknown_name : Cause
  extremum_contradiction rank_not_covered no_events negative_event no_sum : Cause
  empty_interval overlapping_intervals gapped_intervals no_coverage starts_outside ends_outside
        not_enough_coverage negative_tolerance empty_window :
      Cause
  no_samples identity_changed bounds_changed moved_backwards sum_availability duplicate_observations
        reset_without_start no_baseline baseline_before_window mixed_temporality
        unspecified_temporality incompatible_samples wrong_unit not_monotonic_sum negative_counter
        no_points :
      Cause
  infinite_value gauge_temporality sum_temporality sums_unavailable no_window_samples mixed_kinds
        generic_sum mixed_points bounded_only :
      Cause
  gauges_required one_series_required uncovered_sample_gap : Cause

-- `HarnessInputError`, `MetricAggregationError` and its subclass `MetricInsufficientData`
pub data MetricError : Type 0 where
  input_error aggregation_error insufficient_data : Cause → MetricError
  -- an index out of range
  index_error : MetricError
  -- a strict `zip` of sequences of different lengths
  zip_error : MetricError
  -- `next` of an empty iterator
  stop_iteration : MetricError

-- `MetricAttribute`
pub data MetricAttribute (F : Type 0) : Type 0 where
  text : String → MetricAttribute F
  flag : Bool → MetricAttribute F
  whole : ℤ → MetricAttribute F
  real : Float F → MetricAttribute F

-- A mapping as its items in insertion order; its keys are distinct.
abbrev pub Attributes : Type 0 → Type 0
Attributes F = List (String × MetricAttribute F)

pub data MetricTemporality : Type 0 where
  delta cumulative unspecified : MetricTemporality

pub data InstrumentKind : Type 0 where
  gauge sum : InstrumentKind

pub record MetricSample (F : Type 0) : Type 0 where
  pub name : String
  pub value : Float F
  pub unit : String
  pub observed_at_ns : ℕ
  pub attributes : Attributes F
  pub instrument_kind : InstrumentKind
  pub temporality : Option MetricTemporality
  pub start_time_ns : ℕ
  pub monotonic : Bool

pub record HistogramSample (F : Type 0) : Type 0 where
  pub name : String
  pub unit : String
  pub observed_at_ns : ℕ
  pub count : ℕ
  pub bucket_counts : List ℕ
  pub explicit_bounds : List (Float F)
  pub attributes : Attributes F
  pub temporality : MetricTemporality
  pub start_time_ns : ℕ
  pub sum : Option (Float F)
  pub min : Option (Float F)
  pub max : Option (Float F)

-- `sum(counts)`
unfoldable pub total : List ℕ → ℕ
total [] = 0
total (c ∷ cs) = c + total cs

-- `value is not None and not math.isfinite(value)`
abbrev pub given_infinite : {F : Type 0} → Option (Float F) → Bool
given_infinite none = false
given_infinite (some x) = not (Float.is_finite x)

module _ {F : Type 0} ⦃finites : Finite F⦄ where
  -- `any(current >= following for current, following in pairwise(bounds))`
  unfoldable pub not_increasing : List (Float F) → Bool
  not_increasing [] = false
  not_increasing (x ∷ []) = false
  not_increasing (x ∷ y ∷ rest) = Float.le y x || not_increasing (y ∷ rest)

  -- `self.min is not None and self.max is not None and self.min > self.max`
  abbrev pub min_exceeds_max : Option (Float F) → Option (Float F) → Bool
  min_exceeds_max (some low) (some high) = Float.lt high low
  min_exceeds_max _ _ = false

  -- `MetricSample.__post_init__`; whether a temporality agrees with the kind of the instrument
  abbrev pub gauge_with_temporality : MetricSample F → Bool
  gauge_with_temporality s = elim s.instrument_kind [
    | gauge ↦ elim s.temporality [ none ↦ false | some t ↦ true ]
    | sum ↦ false
  ]

  abbrev pub sum_without_temporality : MetricSample F → Bool
  sum_without_temporality s = elim s.instrument_kind [
    | gauge ↦ false
    | sum ↦ elim s.temporality [ none ↦ true | some t ↦ false ]
  ]

  unfoldable pub metric_sample : MetricSample F → Result MetricError (MetricSample F)
  metric_sample s = do
    raise_if (not (Float.is_finite s.value)) (input_error infinite_value)
    raise_if (gauge_with_temporality s) (input_error gauge_temporality)
    raise_if (sum_without_temporality s) (input_error sum_temporality)
    raise_if (ltb 0 s.start_time_ns && ltb s.observed_at_ns s.start_time_ns)
        (input_error start_after_observation)
    ok s

  -- `HistogramSample.__post_init__`
  unfoldable pub histogram_sample : HistogramSample F → Result MetricError (HistogramSample F)
  histogram_sample h = do
    raise_if (ltb 0 h.start_time_ns && ltb h.observed_at_ns h.start_time_ns)
        (input_error start_after_observation)
    raise_if (not (length h.bucket_counts == suc (length h.explicit_bounds)))
        (input_error bucket_arity)
    raise_if (not (total h.bucket_counts == h.count)) (input_error bucket_total)
    raise_if (any (λ b. not (Float.is_finite b)) h.explicit_bounds) (input_error infinite_bound)
    raise_if (not_increasing h.explicit_bounds) (input_error unordered_bounds)
    raise_if (given_infinite h.sum || (given_infinite h.min || given_infinite h.max))
        (input_error infinite_summary)
    raise_if (min_exceeds_max h.min h.max) (input_error min_above_max)
    ok h

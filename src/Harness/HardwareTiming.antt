-- ===== src/Harness/HardwareTiming.antt =====
-- packages/harness/src/robotics_acceptance_harness/hardware_timing.py: whether the clock of the
-- hardware keeps the time policy.
--
-- The standard deviation of the statistics library is a parameter. The time of the measurement is
-- in microseconds, as a datetime holds it.
pub mod Bounds
mod Tests
use robotics_runtime.Base.{
  ℕ, ◌+◌, ◌*◌, ◌/◌, ◌%◌, String, Bool, true, false, not, ◌||◌, none, some, List, [], ◌∷◌, ◌++◌, map,
  str_eq, ltb, ◌==◌, if◌then◌else◌, Result, ok, err, ◌>>=◌, ◌>>◌, raise_if, length, any, all,
}
use robotics_runtime.Base.Float
use robotics_runtime.Base.Float.{Float, Finite}
use robotics_runtime.Harness.Samples.{MetricSample, text}
use robotics_runtime.Harness.Series.{sorted, grouped, grouped_onto}
use robotics_runtime.Harness.Merging.{lookup, is_none, extremum_of}
use robotics_runtime.Harness.Points.{MetricPoint, scalar, histogram}
use robotics_runtime.Harness.Cumulative.{last_of}
use robotics_runtime.Contracts.QualificationPolicy.{ClockLimits, hardware_clock_within_policy}

-- the constants of the module
abbrev pub offset_metric : String
offset_metric = "robotics.hardware.clock.offset"

abbrev pub drift_metric : String
drift_metric = "robotics.hardware.clock.drift"

abbrev pub age_metric : String
age_metric = "robotics.hardware.message.age"

abbrev pub monotonic_metric : String
monotonic_metric = "robotics.hardware.clock.monotonic"

abbrev pub clock_protocol_attribute : String
clock_protocol_attribute = "robotics.clock.sync_protocol"

abbrev pub clock_source_attribute : String
clock_source_attribute = "robotics.clock.source"

-- `_METRIC_UNITS`
abbrev pub metric_units : List (String × String)
metric_units =
    (offset_metric, "ms")
    ∷ (drift_metric, "ppm")
    ∷ (age_metric, "ms")
    ∷ (monotonic_metric, "1")
    ∷ []

abbrev pub supported_sources : List String
supported_sources =
    "pmc" ∷ "chronyc_tracking" ∷ "mavlink_timesync_status" ∷ "controller_telemetry"
    ∷ "external_attestation" ∷ []

-- `HardwareTimingInputError`, for each of its messages, and the error of `max` on no values
pub data HardwareTimingError : Type 0 where
  not_scalar wrong_unit attributes_required : String → HardwareTimingError
  missing_metrics metadata_changed unsupported_source protocol_mismatch no_points :
      HardwareTimingError
  duplicate_point : String → ℕ → HardwareTimingError
  unaligned_point : ℕ → HardwareTimingError

-- a sample under its name
abbrev pub Entry : Type 0 → Type 0
Entry F = String × MetricSample F

-- the values at one time, by the name of the metric
abbrev pub Point : Type 0 → Type 0
Point F = ℕ × List (String × Float F)

-- `HardwareTimingObservation`
pub record HardwareTimingObservation (F : Type 0) : Type 0 where
  pub sync_protocol : String
  pub source : String
  pub measured_at_us : ℕ
  pub sample_count : ℕ
  pub offset_ms : Float F
  pub jitter_ms : Float F
  pub drift_ppm : Float F
  pub max_sample_age_ms : Float F
  pub monotonic : Bool
  pub within_policy : Bool

-- `utc_datetime_from_unix_ns`, in microseconds
abbrev pub datetime_us : ℕ → ℕ
datetime_us timestamp_ns =
    (timestamp_ns / 1000000000) * 1000000 + (timestamp_ns % 1000000000) / 1000

-- one protocol and one source, of the supported ones
unfoldable pub one_pair : List (String × String) → Result HardwareTimingError (String × String)
one_pair [] = err metadata_changed
one_pair ((protocol, source) ∷ rest) = do
  raise_if (any (λ (p, s). not (str_eq p protocol) || not (str_eq s source)) rest) metadata_changed
  raise_if (not (any (str_eq source) supported_sources)) unsupported_source
  ok (protocol, source)

module _ {F : Type 0} where
  -- the samples of the loop of `_timing_samples`
  unfoldable pub timing_entries : List (MetricPoint F) → Result HardwareTimingError (List (Entry F))
  timing_entries [] = ok []
  timing_entries (scalar s ∷ rest) = timing_entries rest >>= λ entries.
      ok (if is_none (lookup s.name metric_units) then entries else (s.name, s) ∷ entries)
  timing_entries (histogram h ∷ rest) =
      raise_if (not (is_none (lookup h.name metric_units))) (not_scalar h.name)
      >> timing_entries rest

  -- the items of `grouped`, one after another
  abbrev pub flattened_group : String → List (MetricSample F) → List (Entry F)
  flattened_group name samples = map (λ s. (name, s)) samples

  abbrev pub flattened : List (String × List (MetricSample F)) → List (Entry F)
  flattened [] = []
  flattened ((name, samples) ∷ rest) = flattened_group name samples ++ flattened rest

  -- `_timing_samples`
  unfoldable pub timing_samples :
      List (MetricPoint F) → Result HardwareTimingError (List (String × List (MetricSample F)))
  unfolding timing_entries grouped_onto
  timing_samples samples = do
    entries ← timing_entries samples
    let groups = grouped str_eq entries
    raise_if (any (λ (name, _). is_none (lookup name groups)) metric_units) missing_metrics
    ok groups

  -- the body of the loop of `_metadata`: the protocol and the source
  unfoldable pub metadata_of : Entry F → Result HardwareTimingError (String × String)
  metadata_of (name, s) = elim (lookup name metric_units) [
    | none ↦ err (wrong_unit name)
    | some unit ↦
        raise_if (not (str_eq s.unit unit)) (wrong_unit name)
        >> elim (lookup clock_protocol_attribute s.attributes) [
          | some (text protocol) ↦ elim (lookup clock_source_attribute s.attributes) [
            | some (text source) ↦ ok (protocol, source)
            | _ ↦ err (attributes_required name)
          ]
          | _ ↦ err (attributes_required name)
        ]
  ]

  unfoldable pub metadata_pairs :
      List (Entry F) → Result HardwareTimingError (List (String × String))
  unfolding metadata_of
  metadata_pairs [] = ok []
  metadata_pairs (e ∷ es) = metadata_of e >>= λ p. (metadata_pairs es >>= λ ps. ok (p ∷ ps))

  -- `_metadata`
  unfoldable pub clock_metadata :
      List (String × List (MetricSample F)) → Result HardwareTimingError (String × String)
  unfolding metadata_pairs one_pair
  clock_metadata groups = metadata_pairs (flattened groups) >>= one_pair

  -- `points[t][name] = value`, refused where it stands already
  unfoldable pub store_value :
      ℕ → String → Float F → List (Point F) → Result HardwareTimingError (List (Point F))
  store_value t name value [] = ok ((t, (name, value) ∷ []) ∷ [])
  store_value t name value ((u, values) ∷ rest) = elim (t == u) [
    | true ↦
        raise_if (not (is_none (lookup name values))) (duplicate_point name t)
        >> ok ((u, values ++ ((name, value) ∷ [])) ∷ rest)
    | false ↦ store_value t name value rest >>= λ others. ok ((u, values) ∷ others)
  ]

  -- the first loop of `_aligned_points`
  unfoldable pub store_all :
      List (Entry F) → List (Point F) → Result HardwareTimingError (List (Point F))
  unfolding store_value
  store_all [] points = ok points
  store_all ((name, s) ∷ rest) points =
      store_value s.observed_at_ns name s.value points >>= store_all rest

  -- the second one: each point has a value of each metric
  unfoldable pub require_aligned : List (Point F) → Result HardwareTimingError (Unit {0})
  require_aligned [] = ok tt
  require_aligned ((t, values) ∷ rest) =
      raise_if (any (λ (name, _). is_none (lookup name values)) metric_units) (unaligned_point t)
      >> require_aligned rest

  abbrev pub earlier_point : Point F → Point F → Bool
  earlier_point (t, _) (u, _) = ltb t u

  -- `_aligned_points`
  unfoldable pub aligned_points :
      List (String × List (MetricSample F)) → Result HardwareTimingError (List (Point F))
  unfolding store_all require_aligned sorted
  aligned_points groups = do
    points ← store_all (flattened groups) []
    require_aligned points
    ok (sorted earlier_point points)

  -- `[values[name] for _, values in points]`
  unfoldable pub column : String → List (Point F) → Result HardwareTimingError (List (Float F))
  column name [] = ok []
  column name ((t, values) ∷ rest) = elim (lookup name values) [
    | none ↦ err (unaligned_point t)
    | some v ↦ column name rest >>= λ vs. ok (v ∷ vs)
  ]

module _ {F : Type 0} ⦃finites : Finite F⦄ where
  -- `max(…)` of at least one value
  abbrev pub greatest_value : List (Float F) → Result HardwareTimingError (Float F)
  greatest_value [] = err no_points
  greatest_value (x ∷ xs) = ok (extremum_of Float.max_of x xs)

  abbrev pub is_one : Float F → Bool
  is_one v = Float.eq v (Float.finite (finites.of_count 1))

  abbrev pub last_time : List (Point F) → ℕ
  last_time [] = 0
  last_time (p ∷ ps) = (last_of p ps).0

  -- `evaluate_hardware_timing`, of the points
  unfoldable pub evaluate_points :
      (List (Float F) → Float F)
      → ClockLimits F
      → String × String
      → List (Point F)
      → Result HardwareTimingError (HardwareTimingObservation F)
  unfolding column hardware_clock_within_policy
  evaluate_points pstdev policy (protocol, source) points = do
    offsets ← column offset_metric points
    drifts ← column drift_metric points
    ages ← column age_metric points
    flags ← column monotonic_metric points
    let monotonic = all is_one flags
    offset_ms ← greatest_value (map Float.abs offsets)
    drift_ppm ← greatest_value (map Float.abs drifts)
    max_sample_age_ms ← greatest_value ages
    ok (record {
      sync_protocol = protocol;
      source = source;
      measured_at_us = datetime_us (last_time points);
      sample_count = length points;
      offset_ms = offset_ms;
      jitter_ms = pstdev offsets;
      drift_ppm = drift_ppm;
      max_sample_age_ms = max_sample_age_ms;
      monotonic = monotonic;
      within_policy =
          hardware_clock_within_policy policy
            (record {
              sample_count = length points;
              offset_ms = offset_ms;
              drift_ppm = drift_ppm;
              max_sample_age_ms = max_sample_age_ms;
            })
            monotonic;
    })

  -- `evaluate_hardware_timing`
  unfoldable pub evaluate_hardware_timing :
      (List (Float F) → Float F)
      → ClockLimits F
      → String
      → List (MetricPoint F)
      → Result HardwareTimingError (HardwareTimingObservation F)
  unfolding timing_samples clock_metadata aligned_points evaluate_points
  evaluate_hardware_timing pstdev policy clock_sync_protocol samples = do
    groups ← timing_samples samples
    (protocol, source) ← clock_metadata groups
    raise_if (not (str_eq protocol clock_sync_protocol)) protocol_mismatch
    points ← aligned_points groups
    evaluate_points pstdev policy (protocol, source) points

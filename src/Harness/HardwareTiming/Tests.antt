-- ===== src/Harness/HardwareTiming/Tests.antt =====
-- The hardware clock's points over natural numbers.
use robotics_runtime.Base.{
  ℕ, ◌≡◌, refl, none, List, [], ◌∷◌, ok, err, true, false, String, All, leb,
}
use robotics_runtime.Base.Float.{Float, naturals}
use robotics_runtime.Harness.Samples.{gauge, text}
use robotics_runtime.Harness.Points.{MetricPoint, scalar}
use robotics_runtime.Contracts.QualificationPolicy.{ClockLimits}
use robotics_runtime.Harness.HardwareTiming.{
  offset_metric, drift_metric, age_metric, monotonic_metric, clock_protocol_attribute,
  clock_source_attribute, HardwareTimingObservation, evaluate_points, evaluate_hardware_timing,
  missing_metrics, unaligned_point, duplicate_point, protocol_mismatch,
}
use robotics_runtime.Harness.HardwareTiming.Bounds.{
  HasNumbers, IsWithin, lookup-IsNumber, evaluate_points-IsWithin,
}

abbrev measured : String → String → ℕ → ℕ → MetricPoint ℕ
measured name unit at value = scalar (record {
  name = name;
  value = Float.finite value;
  unit = unit;
  observed_at_ns = at;
  attributes = (clock_protocol_attribute, text "ptp") ∷ (clock_source_attribute, text "pmc") ∷ [];
  instrument_kind = gauge;
  temporality = none;
  start_time_ns = 0;
  monotonic = false;
})

abbrev limits : ClockLimits ℕ
limits = record {
  time_authority_min_samples = 1;
  max_clock_offset_ms = Float.finite 5;
  max_clock_drift_ppm = Float.finite 5;
  max_message_age_ms = Float.finite 5;
}

abbrev spread : List (Float ℕ) → Float ℕ
spread vs = Float.finite 0

abbrev aligned : List (MetricPoint ℕ)
aligned =
    measured offset_metric "ms" 2000 3
    ∷ measured drift_metric "ppm" 2000 1
    ∷ measured age_metric "ms" 2000 4
    ∷ measured monotonic_metric "1" 2000 1
    ∷ []

abbrev observed : HardwareTimingObservation ℕ
observed = record {
  sync_protocol = "ptp";
  source = "pmc";
  measured_at_us = 2;
  sample_count = 1;
  offset_ms = Float.finite 3;
  jitter_ms = Float.finite 0;
  drift_ppm = Float.finite 1;
  max_sample_age_ms = Float.finite 4;
  monotonic = true;
  within_policy = true;
}

within : evaluate_hardware_timing spread limits "ptp" aligned ≡ ok observed
unfolding evaluate_hardware_timing
within = refl

other_protocol : evaluate_hardware_timing spread limits "ntp" aligned ≡ err protocol_mismatch
unfolding evaluate_hardware_timing
other_protocol = refl

missing : evaluate_hardware_timing spread limits "ptp" [] ≡ err missing_metrics
unfolding evaluate_hardware_timing
missing = refl

twice :
    evaluate_hardware_timing spread limits "ptp" (measured offset_metric "ms" 2000 1 ∷ aligned)
    ≡ err (duplicate_point offset_metric 2000)
unfolding evaluate_hardware_timing
twice = refl

apart :
    evaluate_hardware_timing spread limits "ptp" (measured offset_metric "ms" 3000 1 ∷ aligned)
    ≡ err (unaligned_point 3000)
unfolding evaluate_hardware_timing
apart = refl

abbrev values : List (String × Float ℕ)
values =
    (offset_metric, Float.finite 3)
    ∷ (drift_metric, Float.finite 1)
    ∷ (age_metric, Float.finite 4)
    ∷ (monotonic_metric, Float.finite 1)
    ∷ []

numbers : HasNumbers (2000, values)
numbers name v found = lookup-IsNumber values name v (refl, (refl, (refl, (refl, tt)))) found

within_points : evaluate_points spread limits ("ptp", "pmc") ((2000, values) ∷ []) ≡ ok observed
unfolding evaluate_points
within_points = refl

evaluate_points-IsWithin_example : (leb 1 1 ≡ true) × All (IsWithin limits) ((2000, values) ∷ [])
evaluate_points-IsWithin_example =
    evaluate_points-IsWithin spread limits ("ptp", "pmc") ((2000, values) ∷ []) observed
      (numbers, tt) within_points refl

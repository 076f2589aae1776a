-- ===== src/Harness/Counters/Tests.antt =====
-- A cumulative counter that was reset once, over the window [100, 200].
use robotics_runtime.Base.{ℕ, ◌≡◌, refl, some, List, [], ◌∷◌, ok, err, true}
use robotics_runtime.Base.Float.{Float, naturals}
use robotics_runtime.Harness.Samples.{
  sum, MetricTemporality, delta, cumulative, text, aggregation_error, no_baseline, moved_backwards,
  wrong_unit,
}
use robotics_runtime.Harness.Series.{MetricSeriesKey}
use robotics_runtime.Harness.Points.{MetricPoint, scalar}
use robotics_runtime.Harness.Counters.{CounterWindowAggregate, counter_window_aggregate}

abbrev point : MetricTemporality → ℕ → ℕ → ℕ → MetricPoint ℕ
point temporality start_ns end_ns value = scalar (record {
  name = "drops";
  value = Float.finite value;
  unit = "1";
  observed_at_ns = end_ns;
  attributes = ("topic", text "/scan") ∷ [];
  instrument_kind = sum;
  temporality = some temporality;
  start_time_ns = start_ns;
  monotonic = true;
})

abbrev key : MetricSeriesKey ℕ
key = ("topic", text "/scan") ∷ []

-- before the reset at 150 the counter goes from 3 to 5, and after it to 4
abbrev points : List (MetricPoint ℕ)
points = point cumulative 50 140 5 ∷ point cumulative 50 100 3 ∷ point cumulative 150 200 4 ∷ []

abbrev counted : CounterWindowAggregate ℕ
counted = record {
  total = Float.finite 6;
  coverage = (key, (100, 140)) ∷ (key, (150, 200)) ∷ [];
  temporality = cumulative;
}

unit_refused :
    counter_window_aggregate "drops" [] "ms" 100 200 points ≡ err (aggregation_error wrong_unit)
unfolding counter_window_aggregate
unit_refused = refl

backwards :
    counter_window_aggregate "drops" [] "1" 100 200
      (point cumulative 50 100 3 ∷ point cumulative 50 140 2 ∷ [])
    ≡ err (aggregation_error moved_backwards)
unfolding counter_window_aggregate
backwards = refl

no_start :
    counter_window_aggregate "drops" [] "1" 100 200 (point cumulative 50 140 2 ∷ [])
    ≡ err (aggregation_error no_baseline)
unfolding counter_window_aggregate
no_start = refl

deltas :
    counter_window_aggregate "drops" [] "1" 100 200
      (point delta 100 140 2 ∷ point delta 90 120 9 ∷ [])
    ≡ ok (record { total = Float.finite 2; coverage = (key, (100, 140)) ∷ []; temporality = delta })
unfolding counter_window_aggregate
deltas = refl

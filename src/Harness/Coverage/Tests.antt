-- ===== src/Harness/Coverage/Tests.antt =====
-- Runs of the coverage of a window of metrics.py.
use robotics_runtime.Base.{ℕ, ◌-◌, ◌≤◌, min, ◌≡◌, refl, some, List, [], ◌∷◌, ◌==◌, ok, err, All}
use robotics_runtime.Base.Int.{pos}
use robotics_runtime.Base.Double.{five_percent}
use robotics_runtime.Harness.Samples.{
  delta, cumulative, aggregation_error, gapped_intervals, overlapping_intervals,
}
use robotics_runtime.Harness.Series.{grouped}
use robotics_runtime.Harness.Coverage.{require_window_coverage}
use robotics_runtime.Harness.Coverage.Gaps.{uncovered_ns}
use robotics_runtime.Harness.Coverage.Sound.{require_window_coverage-uncovered}

-- Two series over the window [100, 140): the second one leaves two nanoseconds open.
abbrev entries : List (ℕ × (ℕ × ℕ))
entries = (7, (120, 140)) ∷ (8, (101, 120)) ∷ (7, (100, 120)) ∷ (8, (121, 140)) ∷ []

accepted : require_window_coverage (some delta) 100 140 (λ a b. a == b) (pos 2) entries ≡ ok tt
unfolding require_window_coverage five_percent
accepted = refl

gapped :
    require_window_coverage (some cumulative) 100 140 (λ a b. a == b) (pos 2) entries
    ≡ err (aggregation_error gapped_intervals)
unfolding require_window_coverage five_percent
gapped = refl

overlapping :
    require_window_coverage (some delta) 100 140 (λ a b. a == b) (pos 2) ((7, (100, 121)) ∷ entries)
    ≡ err (aggregation_error overlapping_intervals)
unfolding require_window_coverage five_percent
overlapping = refl

require_window_coverage-uncovered_example :
    All
      (λ series. uncovered_ns 100 140 series.1 ≤ min 2 (five_percent (140 - 100)))
      (grouped (λ a b. a == b) entries)
require_window_coverage-uncovered_example =
    require_window_coverage-uncovered (some delta) 100 140 (λ a b. a == b) 2 entries accepted

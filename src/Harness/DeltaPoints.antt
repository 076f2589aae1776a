-- ===== src/Harness/DeltaPoints.antt =====
-- packages/harness/src/robotics_acceptance_harness/metrics.py: the delta points of a window.
--
-- A point is a sample or a histogram; what is read of it are its two timestamps and its attributes.
pub mod Disjoint
mod Tests
use robotics_runtime.Base.{
  ℕ, Bool, false, ◌&&◌, Option, none, some, List, [], ◌∷◌, map, ltb, leb, Result, ok, ◌>>=◌, ◌>>◌,
  raise_if, any, keep,
}
use robotics_runtime.Base.Float.{Finite}
use robotics_runtime.Harness.Samples.{
  MetricError, aggregation_error, empty_interval, overlapping_intervals, Attributes,
}
use robotics_runtime.Harness.Series.{
  sorted, grouped, grouped_onto, interval_before, same_series, series_key, MetricSeriesKey,
}

module _ {F : Type 0} ⦃finites : Finite F⦄ {P : Type 0} (observed_at_ns start_time_ns : P → ℕ)
    (attributes : P → Attributes F) where
  -- `selected`
  abbrev pub in_window : ℕ → ℕ → P → Bool
  in_window window_start_ns window_end_ns p =
      leb window_start_ns (observed_at_ns p)
      && (leb (observed_at_ns p) window_end_ns && leb window_start_ns (start_time_ns p))

  -- `sample.start_time_ns >= sample.observed_at_ns`
  abbrev pub is_reversed : P → Bool
  is_reversed p = leb (observed_at_ns p) (start_time_ns p)

  -- the order of the key `(point.start_time_ns, point.observed_at_ns)`
  abbrev pub point_before : P → P → Bool
  point_before p q =
      interval_before (start_time_ns p, observed_at_ns p) (start_time_ns q, observed_at_ns q)

  -- `previous_end_ns is not None and sample.start_time_ns < previous_end_ns`
  abbrev pub overlaps : Option ℕ → P → Bool
  overlaps none p = false
  overlaps (some previous_end_ns) p = ltb (start_time_ns p) previous_end_ns

  -- the loop over a sorted series
  unfoldable pub require_disjoint : Option ℕ → List P → Result MetricError (Unit {0})
  require_disjoint previous_end_ns [] = ok tt
  require_disjoint previous_end_ns (p ∷ ps) =
      raise_if (overlaps previous_end_ns p) (aggregation_error overlapping_intervals)
      >> require_disjoint (some (observed_at_ns p)) ps

  -- the loop over `grouped.values()`
  unfoldable pub require_each_disjoint :
      List (MetricSeriesKey F × List P) → Result MetricError (Unit {0})
  unfolding require_disjoint sorted
  require_each_disjoint [] = ok tt
  require_each_disjoint ((_, series) ∷ rest) =
      require_disjoint none (sorted point_before series) >> require_each_disjoint rest

  -- `grouped`
  abbrev pub by_series : List P → List (MetricSeriesKey F × List P)
  by_series points = grouped same_series (map (λ p. (series_key (attributes p), p)) points)

  -- `_validated_delta_points`
  unfoldable pub validated_delta_points : ℕ → ℕ → List P → Result MetricError (List P)
  unfolding require_each_disjoint grouped_onto same_series series_key
  validated_delta_points window_start_ns window_end_ns samples =
      let selected = keep (in_window window_start_ns window_end_ns) samples in
      do
        raise_if (any is_reversed selected) (aggregation_error empty_interval)
        require_each_disjoint (by_series selected)
        ok selected

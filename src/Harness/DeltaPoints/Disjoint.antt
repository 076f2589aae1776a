-- ===== src/Harness/DeltaPoints/Disjoint.antt =====
-- packages/harness/src/robotics_acceptance_harness/metrics.py: the intervals of accepted delta
-- points do not overlap.
use robotics_runtime.Base.{
  ℕ, ◌≤◌, ◌<◌, ◌≡◌, refl, sym, subst, Bool, true, false, ◌&&◌, ◌||◌, none, some, List, [], ◌∷◌, map,
  bind-ok, ok_injective, raise_if-ok, arith, ltb, leb, ok, raise_if, any, keep, count_if, All,
}
use robotics_runtime.Base.Float.{Finite}
use robotics_runtime.Harness.Samples.{Attributes}
use robotics_runtime.Harness.Series.{
  sorted, same_series, series_key, MetricSeriesKey, All-sorted, All-grouped_onto, count_if-sorted,
}
use robotics_runtime.Harness.DeltaPoints.{
  in_window, is_reversed, point_before, overlaps, require_disjoint, require_each_disjoint,
  by_series, validated_delta_points,
}

or_parts_false : (a b : Bool) → (a || b) ≡ false → (a ≡ false) × (b ≡ false)
or_parts_false true b h = absurd (ground arith)
or_parts_false false b h = (refl, h)

module _ {F : Type 0} ⦃finites : Finite F⦄ {P : Type 0} (observed_at_ns start_time_ns : P → ℕ)
    (attributes : P → Attributes F) where
  -- The interval of a point holds the nanosecond `t`.
  abbrev pub spans : ℕ → P → Bool
  spans t p = leb (start_time_ns p) t && ltb t (observed_at_ns p)

  -- The interval of a point is not empty.
  abbrev pub IsProper : P → Type 0
  IsProper p = is_reversed observed_at_ns start_time_ns attributes p ≡ false

  disjoint_after :
      (t e : ℕ) (ps : List P) (u : Unit {0})
      → All IsProper ps
      → require_disjoint observed_at_ns start_time_ns attributes (some e) ps ≡ ok u
      → (count_if (spans t) ps ≤ 1) × (t < e → count_if (spans t) ps ≡ 0)
  unfolding require_disjoint count_if
  disjoint_after t e [] u h k = (omega arith, λ _. refl)
  disjoint_after t e (p ∷ ps) u (proper, others) k =
      let (v, first, rest) =
        bind-ok (raise_if (overlaps observed_at_ns start_time_ns attributes (some e) p) _) _ u k in
      let (one, zero_before) = disjoint_after t (observed_at_ns p) ps u others rest in
      let apart =
        raise_if-ok (overlaps observed_at_ns start_time_ns attributes (some e) p) _ v first in
      (
        ground (arith, one, zero_before, proper, apart),
        λ before. ground (arith, zero_before, proper, apart, before),
      )

  pub disjoint_series :
      (t : ℕ) (ps : List P) (u : Unit {0})
      → All IsProper ps
      → require_disjoint observed_at_ns start_time_ns attributes none ps ≡ ok u
      → count_if (spans t) ps ≤ 1
  unfolding require_disjoint count_if
  disjoint_series t [] u h k = omega arith
  disjoint_series t (p ∷ ps) u (proper, others) k =
      let (one, zero_before) = disjoint_after t (observed_at_ns p) ps u others k in
      ground (arith, one, zero_before)

  disjoint_each :
      (t : ℕ) (groups : List (MetricSeriesKey F × List P)) (u : Unit {0})
      → All (λ group. All IsProper group.1) groups
      → require_each_disjoint observed_at_ns start_time_ns attributes groups ≡ ok u
      → All (λ group. count_if (spans t) group.1 ≤ 1) groups
  unfolding require_each_disjoint
  disjoint_each t [] u h k = tt
  disjoint_each t ((key, series) ∷ rest) u (proper, others) k =
      let before = point_before observed_at_ns start_time_ns attributes in
      let (v, first, tail) =
        bind-ok
          (require_disjoint observed_at_ns start_time_ns attributes none (sorted before series)) _ u
          k in
      (
        subst (λ n. n ≤ 1) (count_if-sorted before (spans t) series)
            (disjoint_series t (sorted before series) v (All-sorted IsProper before series proper)
              first),
        disjoint_each t rest u others tail,
      )

  IsProper-any :
      (ps : List P)
      → any (is_reversed observed_at_ns start_time_ns attributes) ps ≡ false
      → All IsProper ps
  IsProper-any [] h = tt
  IsProper-any (p ∷ ps) h =
      let (here, there) =
        or_parts_false (is_reversed observed_at_ns start_time_ns attributes p) _ h in
      (here, IsProper-any ps there)

  keyed :
      (ps : List P)
      → All IsProper ps
      → All {A = MetricSeriesKey F × P}
          (λ e. IsProper e.1)
          (map (λ p. (series_key (attributes p), p)) ps)
  keyed [] h = tt
  keyed (p ∷ ps) (q, h) = (q, keyed ps h)

  -- If the delta points of a window are accepted, what is returned are the points that the window
  -- selects, and in each series no nanosecond stands in the intervals of two points.
  pub validated_delta_points-disjoint :
      (window_start_ns window_end_ns : ℕ) (samples selected : List P) (t : ℕ)
      → validated_delta_points observed_at_ns start_time_ns attributes window_start_ns window_end_ns
          samples
        ≡ ok selected
      → (selected
          ≡ keep
              (in_window observed_at_ns start_time_ns attributes window_start_ns window_end_ns)
              samples)
        × All
            (λ series. count_if (spans t) series.1 ≤ 1)
            (by_series observed_at_ns start_time_ns attributes selected)
  unfolding validated_delta_points
  validated_delta_points-disjoint window_start_ns window_end_ns samples selected t h =
      let kept =
        keep (in_window observed_at_ns start_time_ns attributes window_start_ns window_end_ns)
          samples in
      let (u, proper, k) =
        bind-ok (raise_if (any (is_reversed observed_at_ns start_time_ns attributes) kept) _) _
          selected h in
      let (v, disjoint, same) =
        bind-ok
          (require_each_disjoint observed_at_ns start_time_ns attributes
            (by_series observed_at_ns start_time_ns attributes kept))
          _ selected k in
      let all_proper = IsProper-any kept (raise_if-ok _ _ u proper) in
      let e = ok_injective same in
      (
        sym e,
        subst
            (λ ps.
              All (λ series. count_if (spans t) series.1 ≤ 1)
                (by_series observed_at_ns start_time_ns attributes ps))
            e
            (disjoint_each t (by_series observed_at_ns start_time_ns attributes kept) v
              (All-grouped_onto IsProper same_series []
                (map (λ p. (series_key (attributes p), p)) kept) tt (keyed kept all_proper))
              disjoint),
      )

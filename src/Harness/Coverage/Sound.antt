-- ===== src/Harness/Coverage/Sound.antt =====
-- packages/harness/src/robotics_acceptance_harness/metrics.py: a coverage that is accepted leaves
-- no more of the window uncovered than the effective tolerance, in any series.
use robotics_runtime.Base.{
  ℕ, ◌-◌, ◌≤◌, min, ◌≡◌, Bool, true, not, ◌&&◌, ◌||◌, Option, none, List, [], ◌∷◌, bind-ok, else-ok,
  raise_if-ok, arith, ltb, leb, ok, raise_if, any, All,
}
use robotics_runtime.Base.Int.{pos}
use robotics_runtime.Base.Double.{five_percent}
use robotics_runtime.Harness.Samples.{MetricTemporality}
use robotics_runtime.Harness.Series.{sorted, grouped, grouped_onto, interval_before, any-sorted}
use robotics_runtime.Harness.Coverage.{
  distance, gap_after, gaps_from, last_end, require_ordered, require_each, effective_tolerance,
  require_window_coverage,
}
use robotics_runtime.Harness.Coverage.Gaps.{
  holds, uncovered_ns, count_below_mono, count_below-or, count_below_interval, open_after,
  gaps_from-open_after,
}

uncovered-sorted :
    (window_start_ns window_end_ns : ℕ) (intervals : List (ℕ × ℕ))
    → uncovered_ns window_start_ns window_end_ns intervals
      ≤ uncovered_ns window_start_ns window_end_ns (sorted interval_before intervals)
uncovered-sorted window_start_ns window_end_ns intervals =
    count_below_mono _ _ (λ t h. rw (any-sorted interval_before (holds t) intervals) h)
      window_end_ns

module _ (temporality : Option MetricTemporality) (window_start_ns window_end_ns : ℕ) where
  first-split :
      (i : ℕ × ℕ) (rest : List (ℕ × ℕ)) (t : ℕ)
      → leb window_start_ns t && not (any (holds t) (i ∷ rest)) ≡ true
      → (leb window_start_ns t && (leb 0 t && ltb t i.0))
          || open_after temporality window_start_ns window_end_ns i.1 rest t
        ≡ true
  first-split (s, e) rest t h = ground arith

  require_ordered-uncovered :
      (tolerance : ℕ) (ordered : List (ℕ × ℕ)) (u : Unit {0})
      → require_ordered temporality window_start_ns window_end_ns tolerance ordered ≡ ok u
      → uncovered_ns window_start_ns window_end_ns ordered ≤ tolerance
  unfolding require_ordered gaps_from gap_after
  require_ordered-uncovered tolerance [] u h = cc
  require_ordered-uncovered tolerance ((s, e) ∷ rest) u h =
      let (g, g_eq, checks) =
        bind-ok (gaps_from temporality window_start_ns window_end_ns 0 none ((s, e) ∷ rest)) _ u
          h in
      let (_, _, tail) = bind-ok (raise_if (leb e s) _) _ _ g_eq in
      let (_, _, k) =
        bind-ok (raise_if (ltb tolerance (distance s window_start_ns)) _) _ u checks in
      let (_, _, total) =
        bind-ok (raise_if (ltb tolerance (distance (last_end e rest) window_end_ns)) _) _ u k in
      ground (
        arith,
        raise_if-ok _ _ u total,
        count_below_mono _ _ (first-split (s, e) rest) window_end_ns,
        count_below-or (λ t. leb window_start_ns t && (leb 0 t && ltb t s))
            (open_after temporality window_start_ns window_end_ns e rest) window_end_ns,
        count_below_interval 0 s window_start_ns window_end_ns,
        gaps_from-open_after temporality window_start_ns window_end_ns 0 e rest g tail,
      )

  module _ {K : Type 0} where
    require_each-uncovered :
        (tolerance : ℕ) (groups : List (K × List (ℕ × ℕ))) (u : Unit {0})
        → require_each temporality window_start_ns window_end_ns tolerance groups ≡ ok u
        → All (λ group. uncovered_ns window_start_ns window_end_ns group.1 ≤ tolerance) groups
    unfolding require_each
    require_each-uncovered tolerance [] u h = tt
    require_each-uncovered tolerance ((k, intervals) ∷ rest) u h =
        let (v, one, others) =
          bind-ok
            (require_ordered temporality window_start_ns window_end_ns tolerance
              (sorted interval_before intervals))
            _ u h in
        (
          omega (
            arith,
            uncovered-sorted window_start_ns window_end_ns intervals,
            require_ordered-uncovered tolerance (sorted interval_before intervals) v one,
          ),
          require_each-uncovered tolerance rest u others,
        )

    -- If a coverage is accepted, each of its series leaves at most the given tolerance, and at
    -- most a twentieth of the window as the source rounds it, of the window's nanoseconds outside
    -- every interval.
    pub require_window_coverage-uncovered :
        (same : K → K → Bool) (tolerance_ns : ℕ) (coverage : List (K × (ℕ × ℕ)))
        → require_window_coverage temporality window_start_ns window_end_ns same
            (pos tolerance_ns)
            coverage
          ≡ ok tt
        → All
            (λ series.
              uncovered_ns window_start_ns window_end_ns series.1
              ≤ min tolerance_ns (five_percent (window_end_ns - window_start_ns)))
            (grouped same coverage)
    unfolding require_window_coverage effective_tolerance grouped_onto
    require_window_coverage-uncovered same tolerance_ns [] h = tt
    require_window_coverage-uncovered same tolerance_ns (entry ∷ coverage) h =
        require_each-uncovered (min tolerance_ns (five_percent (window_end_ns - window_start_ns)))
          (grouped same (entry ∷ coverage)) tt
          (else-ok (leb window_end_ns window_start_ns) _ _ tt h)

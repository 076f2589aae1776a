-- ===== src/Harness/Coverage/Gaps.antt =====
-- packages/harness/src/robotics_acceptance_harness/metrics.py: the points of the evaluation window
-- that no interval of a series holds, counted one by one, and the gaps that the loop adds up.
use robotics_runtime.Base.{
  ℕ, zero, suc, ◌+◌, ◌-◌, ◌≤◌, ◌<◌, min, max, ◌≡◌, Bool, true, not, ◌&&◌, ◌||◌, Option, some, List,
  [], ◌∷◌, bind-ok, raise_if-ok, arith, ltb, leb, if◌then◌else◌, ok, raise_if, any,
}
use robotics_runtime.Harness.Samples.{MetricTemporality}
use robotics_runtime.Harness.Coverage.{gap_after, gaps_from, last_end}

-- How many of the numbers below `n` pass a test.
abbrev pub count_below : (ℕ → Bool) → ℕ → ℕ
count_below p zero = 0
count_below p (suc n) = let rest = count_below p n in if p n then suc rest else rest

abbrev pub holds : ℕ → ℕ × ℕ → Bool
holds t (start_ns, end_ns) = leb start_ns t && ltb t end_ns

-- How many nanoseconds of [window_start_ns, window_end_ns) stand in none of the intervals.
abbrev pub uncovered_ns : ℕ → ℕ → List (ℕ × ℕ) → ℕ
uncovered_ns window_start_ns window_end_ns intervals =
    count_below (λ t. leb window_start_ns t && not (any (holds t) intervals)) window_end_ns

pub count_below_mono :
    (p q : ℕ → Bool)
    → ((t : ℕ) → p t ≡ true → q t ≡ true)
    → (n : ℕ) → count_below p n ≤ count_below q n
count_below_mono p q h zero = omega arith
count_below_mono p q h (suc n) = ground (arith, h n, count_below_mono p q h n)

pub count_below-or :
    (p q : ℕ → Bool) (n : ℕ) → count_below (λ t. p t || q t) n ≤ count_below p n + count_below q n
count_below-or p q zero = omega arith
count_below-or p q (suc n) = ground (arith, count_below-or p q n)

pub count_below_interval :
    (a b c n : ℕ) → count_below (λ t. leb c t && (leb a t && ltb t b)) n ≤ min b n - max a c
count_below_interval a b c zero = omega arith
count_below_interval a b c (suc n) = ground (arith, count_below_interval a b c n)

count_below_from : (a n : ℕ) → count_below (λ t. leb a t) n ≤ n - a
count_below_from a zero = omega arith
count_below_from a (suc n) = ground (arith, count_below_from a n)

module _ (temporality : Option MetricTemporality) (window_start_ns window_end_ns : ℕ) where
  -- The points of the window from `end_ns` on that none of the intervals holds.
  abbrev pub open_after : ℕ → List (ℕ × ℕ) → ℕ → Bool
  open_after end_ns rest t = leb window_start_ns t && (leb end_ns t && not (any (holds t) rest))

  open_after-split :
      (end_ns : ℕ) (i : ℕ × ℕ) (rest : List (ℕ × ℕ)) (t : ℕ)
      → i.0 < i.1
      → open_after end_ns (i ∷ rest) t ≡ true
      → (leb window_start_ns t && (leb end_ns t && ltb t i.0)) || open_after i.1 rest t ≡ true
  open_after-split end_ns (s, e) rest t lt h = ground arith

  gap_after-some :
      (end_ns start_ns gap : ℕ)
      → gap_after temporality window_start_ns window_end_ns (some end_ns) start_ns ≡ ok gap
      → gap ≡ min start_ns window_end_ns - max end_ns window_start_ns
  unfolding gap_after
  gap_after-some end_ns start_ns gap h = ground arith

  -- What the loop adds up, with what is left behind the last interval, is at least the number of
  -- open points.
  pub gaps_from-open_after :
      (u end_ns : ℕ) (rest : List (ℕ × ℕ)) (g : ℕ)
      → gaps_from temporality window_start_ns window_end_ns u (some end_ns) rest ≡ ok g
      → u + count_below (open_after end_ns rest) window_end_ns
        ≤ g + (window_end_ns - last_end end_ns rest)
  unfolding gaps_from last_end
  gaps_from-open_after u end_ns [] g h = ground (
    arith,
    h,
    count_below_from end_ns window_end_ns,
    count_below_mono (open_after end_ns []) (λ t. leb end_ns t) (λ t k. ground arith) window_end_ns,
  )
  gaps_from-open_after u end_ns ((s, e) ∷ rest) g h =
      let (_, r, k) = bind-ok (raise_if (leb e s) _) _ _ h in
      let (gap, gap_eq, tail) =
        bind-ok (gap_after temporality window_start_ns window_end_ns (some end_ns) s) _ _ k in
      let lt = raise_if-ok (leb e s) _ _ r in
      let split =
        count_below_mono (open_after end_ns ((s, e) ∷ rest)) _
          (λ t. open_after-split end_ns (s, e) rest t (ground arith)) window_end_ns in
      ground (
        arith,
        split,
        gap_after-some end_ns s gap gap_eq,
        count_below-or (λ t. leb window_start_ns t && (leb end_ns t && ltb t s)) (open_after e rest)
            window_end_ns,
        count_below_interval end_ns s window_start_ns window_end_ns,
        gaps_from-open_after (u + gap) e rest g tail,
      )

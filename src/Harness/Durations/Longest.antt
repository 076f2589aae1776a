-- ===== src/Harness/Durations/Longest.antt =====
-- packages/harness/src/robotics_acceptance_harness/metrics.py: the sweep over the gauges finds the
-- longest stretches on which the last value satisfies the predicate, or violates it.
use Prim.Native.Nat
use robotics_runtime.Base.{
  ℕ, suc, ◌+◌, ◌-◌, ◌≤◌, ◌<◌, ◌≡◌, refl, sym, ◌∙◌, subst, ◌⊎◌, inl, inr, Bool, true, false, not,
  Option, none, some, List, [], ◌∷◌, arith, ltb, leb, if◌then◌else◌, Bool-cases, if_ind, leb_of_le,
}
use robotics_runtime.Harness.Durations.{Sweep, start_sweep, is_current, advance, sweep}
use robotics_runtime.Harness.Durations.Runs.{
  Constant, IsLongest, IsRun, IsLongest-same, IsLongest-other,
}

-- At a time, the value of the last sample there or before.
abbrev pub held : Bool → List (ℕ × Bool) → ℕ → Bool
held value [] t = value
held value ((u, next) ∷ rest) t = let later = held next rest t in if leb u t then later else value

-- Samples in the order of their times, from `t` on and up to `end`.
abbrev pub IsOrdered : ℕ → ℕ → List (ℕ × Bool) → Type 0
IsOrdered end t [] = t ≤ end
IsOrdered end t ((u, _) ∷ rest) = (t ≤ u) × IsOrdered end u rest

abbrev pub longest_ns : Bool → Sweep → ℕ
longest_ns true st = st.longest_true_ns
longest_ns false st = st.longest_false_ns

-- The run at hand, if there is one.
abbrev IsCurrent : (ℕ → Bool) → ℕ → ℕ → Option Bool → ℕ → Type 0
IsCurrent f start p none duration = p ≡ start
IsCurrent f start p (some v) duration = IsRun f v start p duration

-- What the sweep knows at a time.
record IsSwept (f : ℕ → Bool) (start p : ℕ) (st : Sweep) : Type 0 where
  current : IsCurrent f start p st.current_value st.current_duration_ns
  passing : IsLongest f true start p st.longest_true_ns
  violating : IsLongest f false start p st.longest_false_ns

is_current-same : (v u : Bool) → is_current v (some u) ≡ true → u ≡ v
is_current-same true u e = e
is_current-same false true e = absurd (cc)
is_current-same false false e = refl

is_current-other : (v u : Bool) → is_current v (some u) ≡ false → u ≡ not v
is_current-other true u e = e
is_current-other false true e = refl
is_current-other false false e = absurd (cc)

module _ (f : ℕ → Bool) (value : Bool) (start p k : ℕ) (inside : start ≤ p) (positive : 0 < k)
    (constant : Constant f value p (p + k)) where
  -- the run up to `p + k`, which began at `p` or before
  abbrev NextRun : ℕ → Type 0
  NextRun duration = (r : IsRun f value start (p + k) duration) × (r.from_ns ≤ p)

  fresh :
      (duration : ℕ)
      → duration ≡ 0
      → (p ≡ start) ⊎ ((t : ℕ) × (p ≡ suc t) × (start ≤ t) × (f t ≡ not value))
      → NextRun (duration + k)
  fresh duration z e = (
    record {
      from_ns = p;
      not_before = inside;
      spans = omega (arith, z);
      positive = omega (arith, positive);
      constant = constant;
      edge = e;
    },
    omega arith,
  )

  prolonged : (duration : ℕ) → IsRun f value start p duration → NextRun (duration + k)
  prolonged duration r = (
    record {
      from_ns = r.from_ns;
      not_before = r.not_before;
      spans = omega (arith, r.spans);
      positive = omega (arith, positive);
      constant = λ t a b. elim (Bool-cases (ltb t p)) [
        | inl e ↦ r.constant t a (ground (arith, e))
        | inr e ↦ constant t (ground (arith, e)) b
      ];
      edge = r.edge;
    },
    omega (arith, r.spans),
  )

  after_other :
      (other : Bool) (duration : ℕ)
      → other ≡ not value
      → IsRun f other start p duration
      → NextRun (0 + k)
  after_other other duration e r = fresh 0 refl (
      inr (
        p - 1,
        omega (arith, r.spans, r.positive),
        omega (arith, r.spans, r.positive, r.not_before),
        r.constant (p - 1) (omega (arith, r.spans, r.positive)) (omega (arith, r.spans, r.positive))
            ∙ e,
      ))

  next_run :
      (o : Option Bool) (duration : ℕ)
      → IsCurrent f start p o duration
      → NextRun ((if is_current value o then duration else 0) + k)
  next_run none duration c = fresh 0 refl (inl c)
  next_run (some u) duration c = elim (Bool-cases (is_current value (some u))) [
    | inl e ↦
        rw e (
          prolonged duration
            (subst (λ v. IsRun f v start p duration) (is_current-same value u e) c))
    | inr e ↦ rw e (after_other u duration (is_current-other value u e) c)
  ]

module _ (f : ℕ → Bool) (start p k : ℕ) (inside : start ≤ p) (positive : 0 < k) where
  advance-IsSwept :
      (value : Bool) (st : Sweep)
      → Constant f value p (p + k)
      → IsSwept f start p st
      → IsSwept f start (p + k) (advance value k st)
  unfolding advance
  advance-IsSwept true st c s =
      let (run, began) =
        next_run f true start p k inside positive c st.current_value st.current_duration_ns
          s.current in
      record {
        current = run;
        passing = IsLongest-same f true start p k st.longest_true_ns _ s.passing run began;
        violating = IsLongest-other f false start p k st.longest_false_ns s.violating c;
      }
  advance-IsSwept false st c s =
      let (run, began) =
        next_run f false start p k inside positive c st.current_value st.current_duration_ns
          s.current in
      record {
        current = run;
        passing = IsLongest-other f true start p k st.longest_true_ns s.passing c;
        violating = IsLongest-same f false start p k st.longest_false_ns _ s.violating run began;
      }

ordered-end : (end t : ℕ) (rest : List (ℕ × Bool)) → IsOrdered end t rest → t ≤ end
ordered-end end t [] o = o
ordered-end end t ((u, _) ∷ rest) (l, o) = omega (arith, l, ordered-end end u rest o)

module _ (f : ℕ → Bool) (start window_start_ns end : ℕ) where
  -- one turn of the loop, up to the time `u`
  step-IsSwept :
      (t u : ℕ) (value : Bool) (st : Sweep)
      → window_start_ns ≤ t
      → start ≤ t
      → t ≤ u
      → Constant f value t u
      → IsSwept f start t st
      → IsSwept f start u (
          if leb u (Nat.max t window_start_ns)
          then st
          else advance value (u - Nat.max t window_start_ns) st)
  step-IsSwept t u value st w l h c s =
      rw (let e : Nat.max t window_start_ns ≡ t = omega (arith, w) in e) (
        if_ind (IsSwept f start u) (leb u t)
          (λ e. subst (λ x. IsSwept f start x st) (let q : t ≡ u = ground (arith, e, h) in q) s)
          (λ e.
            subst (λ x. IsSwept f start x (advance value (u - t) st)) whole
              (advance-IsSwept f start t (u - t) l (ground (arith, e)) value st
                (subst (Constant f value t) (sym whole) c) s)))
    where
      whole : t + (u - t) ≡ u
      whole = omega (arith, h)

  sweep-IsSwept :
      (t : ℕ) (value : Bool) (rest : List (ℕ × Bool)) (st : Sweep)
      → window_start_ns ≤ t
      → start ≤ t
      → IsOrdered end t rest
      → ((x : ℕ) → t ≤ x → x < end → f x ≡ held value rest x)
      → IsSwept f start t st
      → IsSwept f start end (sweep window_start_ns end ((t, value) ∷ rest) st)
  unfolding sweep
  sweep-IsSwept t value [] st w l o agree s =
      step-IsSwept t end value st w l o (λ x a b. agree x a b) s
  sweep-IsSwept t value ((u, next) ∷ rest) st w l (h, o) agree s =
      sweep-IsSwept u next rest _ (omega (arith, w, h)) (omega (arith, l, h)) o
        (λ x a b. agree x (omega (arith, a, h)) b ∙ later x a)
        (rw (let e : Nat.min u end ≡ u = omega (arith, ordered-end end u rest o) in e) (
          step-IsSwept t u value st w l h
            (λ x a b. agree x a (omega (arith, b, ordered-end end u rest o)) ∙ earlier x b) s))
    where
      later : (x : ℕ) → u ≤ x → held value ((u, next) ∷ rest) x ≡ held next rest x
      later x a = rw (leb_of_le a) refl

      earlier : (x : ℕ) → x < u → held value ((u, next) ∷ rest) x ≡ value
      earlier x b = rw (let e : leb u x ≡ false = ground arith in e) refl

-- Nothing is swept before the first sample.
start-IsSwept : (f : ℕ → Bool) (t : ℕ) → IsSwept f t t start_sweep
start-IsSwept f t = record { current = refl; passing = nothing true; violating = nothing false }
  where
    nothing : (v : Bool) → IsLongest f v t t 0
    nothing v = record {
      from_ns = t;
      not_before = omega arith;
      not_behind = omega arith;
      constant = λ x a b. absurd (omega (arith, a, b));
      longest = λ a b l h c. omega (arith, l, h);
    }

pub sweep-IsLongest :
    (window_start_ns end t : ℕ) (value : Bool) (rest : List (ℕ × Bool)) (w : Bool)
    → window_start_ns ≤ t
    → IsOrdered end t rest
    → IsLongest
        (held value rest)
        w
        t
        end
        (longest_ns w (sweep window_start_ns end ((t, value) ∷ rest) start_sweep))
sweep-IsLongest window_start_ns end t value rest true l o =
    (sweep-IsSwept (held value rest) t window_start_ns end t value rest start_sweep l (omega arith)
      o (λ x _ _. refl) (start-IsSwept (held value rest) t)).passing
sweep-IsLongest window_start_ns end t value rest false l o =
    (sweep-IsSwept (held value rest) t window_start_ns end t value rest start_sweep l (omega arith)
      o (λ x _ _. refl) (start-IsSwept (held value rest) t)).violating

-- ===== src/Harness/HardwareTiming/Bounds.antt =====
-- packages/harness/src/robotics_acceptance_harness/hardware_timing.py: what the policy's answer says
-- of the single points.
use robotics_runtime.Base.{
  ℕ, String, ◌≡◌, refl, sym, ap, ◌∙◌, subst, Bool, true, false, ◌&&◌, Option, none, some, List, [],
  ◌∷◌, map, ok_injective, some_injective, bind-ok, arith, str_eq, leb, if◌then◌else◌, and_parts, ok,
  err, ◌>>=◌, length, all, All,
}
use robotics_runtime.Base.Float
use robotics_runtime.Base.Float.{Float, Finite}
use robotics_runtime.Base.Float.Order
use robotics_runtime.Harness.Merging.{lookup, extremum_of}
use robotics_runtime.Contracts.QualificationPolicy.{ClockLimits, hardware_clock_within_policy}
use robotics_runtime.Harness.HardwareTiming.{
  offset_metric, drift_metric, age_metric, monotonic_metric, unaligned_point, Point,
  HardwareTimingObservation, column, greatest_value, is_one, evaluate_points,
}

module _ {F : Type 0} where
  -- the point has a value under the name, with the property
  abbrev pub ValueWith : String → (Float F → Type 0) → Point F → Type 0
  ValueWith name P (t, values) = (v : Float F) × (lookup name values ≡ some v) × P v

  abbrev pub IsNumber : Float F → Type 0
  IsNumber v = Float.is_nan v ≡ false

  -- no value of the point is NaN
  abbrev pub HasNumbers : Point F → Type 0
  HasNumbers (t, values) = (name : String) (v : Float F) → lookup name values ≡ some v → IsNumber v

  -- A point whose values are all numbers
  pub lookup-IsNumber :
      (values : List (String × Float F)) (name : String) (v : Float F)
      → All (λ (k, w). IsNumber w) values
      → lookup name values ≡ some v
      → IsNumber v
  lookup-IsNumber [] name v a h = absurd (cc)
  lookup-IsNumber ((k, w) ∷ rest) name v (n, a) h =
      by_key (λ e. lookup-IsNumber rest name v a e) (str_eq k name) h
    where
      by_key :
          (lookup name rest ≡ some v → IsNumber v)
          → (b : Bool) → (if b then some w else lookup name rest) ≡ some v
          → IsNumber v
      by_key others true h = subst IsNumber (some_injective h) n
      by_key others false h = others h

  column_step :
      (name : String) (t : ℕ) (rest : List (Point F)) (o : Option (Float F)) (vs : List (Float F))
      → elim o [
        | none ↦ err (unaligned_point t)
        | some v ↦ column name rest >>= λ others. ok (v ∷ others)
      ]
        ≡ ok vs
      → (v : Float F) × (o ≡ some v)
        × (others : List (Float F)) × (column name rest ≡ ok others)
        × (v ∷ others ≡ vs)
  column_step name t rest none vs h = absurd (cc)
  column_step name t rest (some v) vs h =
      let (others, e, f) = bind-ok (column name rest) (λ others. ok (v ∷ others)) vs h in
      (v, refl, others, e, ok_injective f)

  column-All :
      (P : Float F → Type 0) (name : String) (points : List (Point F)) (vs : List (Float F))
      → column name points ≡ ok vs
      → All P vs
      → All (ValueWith name P) points
  unfolding column
  column-All P name [] vs h a = tt
  column-All P name ((t, values) ∷ rest) vs h a =
      let (v, found, others, e, f) = column_step name t rest (lookup name values) vs h in
      let (p, ps) = subst (All P) (sym f) a in ((v, found, p), column-All P name rest others e ps)

  column-HasNumbers :
      (name : String) (points : List (Point F)) (vs : List (Float F))
      → column name points ≡ ok vs
      → All HasNumbers points
      → All IsNumber vs
  unfolding column
  column-HasNumbers name [] vs h a = subst (All IsNumber) (ok_injective h) tt
  column-HasNumbers name ((t, values) ∷ rest) vs h (n, a) =
      let (v, found, others, e, f) = column_step name t rest (lookup name values) vs h in
      subst (All IsNumber) f (n name v found, column-HasNumbers name rest others e a)

module _ {F : Type 0} ⦃finites : Finite F⦄ where
  le_abs : (m l : Float F) → Float.le (Float.abs m) l ≡ true → Float.le m l ≡ true
  le_abs (Float.finite x) (Float.finite l) h =
      finites.le_trans x (finites.magnitude x) l (finites.magnitude_ge x) h
  le_abs _ _ h = ground arith

  not_lt_le :
      (x y : Float F)
      → Float.lt x y ≡ false
      → Float.is_nan x ≡ false
      → Float.is_nan y ≡ false
      → Float.le y x ≡ true
  not_lt_le (Float.finite x) (Float.finite y) h n m = ground arith
  not_lt_le _ _ h n m = ground arith

  -- every value is at most what the greatest one is
  extremum_of-bounded :
      (l x : Float F) (xs : List (Float F))
      → Float.le (extremum_of Float.max_of x xs) l ≡ true
      → IsNumber x
      → All IsNumber xs
      → All (λ v. Float.le v l ≡ true) (x ∷ xs)
  extremum_of-bounded l x [] h n a = (h, tt)
  extremum_of-bounded l x (y ∷ ys) h n (m, a) =
      by_order (λ z e k. extremum_of-bounded l z ys e k a) (Float.lt x y) refl h
    where
      by_order :
          ((z : Float F)
            → Float.le (extremum_of Float.max_of z ys) l ≡ true
            → IsNumber z
            → All (λ v. Float.le v l ≡ true) (z ∷ ys))
          → (b : Bool) → Float.lt x y ≡ b
          → Float.le (extremum_of Float.max_of (if b then y else x) ys) l ≡ true
          → All (λ v. Float.le v l ≡ true) (x ∷ y ∷ ys)
      by_order bounded true e h =
          let (p, ps) = bounded y h m in (Order.le_trans x y l (Order.lt_le x y e) p, (p, ps))
      by_order bounded false e h =
          let (p, ps) = bounded x h n in (p, (Order.le_trans y x l (not_lt_le x y e n m) p, ps))

  greatest_value-bounded :
      (l m : Float F) (xs : List (Float F))
      → greatest_value xs ≡ ok m
      → Float.le m l ≡ true
      → All IsNumber xs
      → All (λ v. Float.le v l ≡ true) xs
  greatest_value-bounded l m [] h w a = tt
  greatest_value-bounded l m (x ∷ xs) h w (n, a) =
      extremum_of-bounded l x xs (subst (λ z. Float.le z l ≡ true) (sym (ok_injective h)) w) n a

  abs-IsNumber : (v : Float F) → IsNumber v → IsNumber (Float.abs v)
  abs-IsNumber (Float.finite x) n = n
  abs-IsNumber Float.neg_inf n = n
  abs-IsNumber Float.pos_inf n = n
  abs-IsNumber Float.nan n = n

  map-abs-IsNumber : (xs : List (Float F)) → All IsNumber xs → All IsNumber (map Float.abs xs)
  map-abs-IsNumber [] a = tt
  map-abs-IsNumber (x ∷ xs) (n, a) = (abs-IsNumber x n, map-abs-IsNumber xs a)

  map-abs-All :
      (P : Float F → Type 0) (xs : List (Float F))
      → All P (map Float.abs xs)
      → All (λ v. P (Float.abs v)) xs
  map-abs-All P [] a = tt
  map-abs-All P (x ∷ xs) (p, a) = (p, map-abs-All P xs a)

  -- the magnitudes of a column under the limit that their greatest one keeps
  magnitudes-bounded :
      (name : String) (l m : Float F) (points : List (Point F)) (vs : List (Float F))
      → column name points ≡ ok vs
      → greatest_value (map Float.abs vs) ≡ ok m
      → Float.le (Float.abs m) l ≡ true
      → All HasNumbers points
      → All (ValueWith name (λ v. Float.le (Float.abs v) l ≡ true)) points
  magnitudes-bounded name l m points vs c g w a =
      column-All (λ v. Float.le (Float.abs v) l ≡ true) name points vs c
        (map-abs-All (λ v. Float.le v l ≡ true) vs
          (greatest_value-bounded l m (map Float.abs vs) g (le_abs m l w)
            (map-abs-IsNumber vs (column-HasNumbers name points vs c a))))

  -- the point keeps each of the limits
  abbrev pub IsWithin : ClockLimits F → Point F → Type 0
  IsWithin policy p =
      ValueWith offset_metric (λ v. Float.le (Float.abs v) policy.max_clock_offset_ms ≡ true) p
      × ValueWith drift_metric (λ v. Float.le (Float.abs v) policy.max_clock_drift_ppm ≡ true) p
      × ValueWith age_metric (λ v. Float.le v policy.max_message_age_ms ≡ true) p
      × ValueWith monotonic_metric (λ v. is_one v ≡ true) p

  All-IsWithin :
      (policy : ClockLimits F) (points : List (Point F))
      → All
          (ValueWith offset_metric (λ v. Float.le (Float.abs v) policy.max_clock_offset_ms ≡ true))
          points
      → All
          (ValueWith drift_metric (λ v. Float.le (Float.abs v) policy.max_clock_drift_ppm ≡ true))
          points
      → All (ValueWith age_metric (λ v. Float.le v policy.max_message_age_ms ≡ true)) points
      → All (ValueWith monotonic_metric (λ v. is_one v ≡ true)) points
      → All (IsWithin policy) points
  All-IsWithin policy [] o d g m = tt
  All-IsWithin policy (p ∷ ps) (o, os) (d, ds) (g, gs) (m, ms) =
      ((o, d, g, m), All-IsWithin policy ps os ds gs ms)

  all-is_one : (vs : List (Float F)) → all is_one vs ≡ true → All (λ v. is_one v ≡ true) vs
  all-is_one [] h = tt
  all-is_one (v ∷ vs) h =
      let (p, q) = and_parts (is_one v) (all is_one vs) h in (p, all-is_one vs q)

  -- what the policy asks, of the values of the observation
  policy_parts :
      (policy : ClockLimits F) (n : ℕ) (o d g : Float F) (monotonic : Bool)
      → hardware_clock_within_policy policy
          (record { sample_count = n; offset_ms = o; drift_ppm = d; max_sample_age_ms = g })
          monotonic
        ≡ true
      → (monotonic ≡ true)
        × (leb policy.time_authority_min_samples n ≡ true)
        × (Float.le (Float.abs o) policy.max_clock_offset_ms ≡ true)
        × (Float.le (Float.abs d) policy.max_clock_drift_ppm ≡ true)
        × (Float.le g policy.max_message_age_ms ≡ true)
  unfolding hardware_clock_within_policy
  policy_parts policy n o d g monotonic h =
      let enough = leb policy.time_authority_min_samples n in
      let offset = Float.le (Float.abs o) policy.max_clock_offset_ms in
      let drift = Float.le (Float.abs d) policy.max_clock_drift_ppm in
      let age = Float.le g policy.max_message_age_ms in
      let (a, h1) = and_parts monotonic (enough && (offset && (drift && age))) h in
      let (b, h2) = and_parts enough (offset && (drift && age)) h1 in
      let (c, h3) = and_parts offset (drift && age) h2 in
      let (e, f) = and_parts drift age h3 in (a, b, c, e, f)

  -- If no value of the points is NaN and the observation of them is within the policy, there are
  -- at least the samples that the policy wants, and every single point has a clock offset and a
  -- drift whose magnitudes keep their limits, an age that keeps its limit, and a monotonic flag
  -- of one.
  pub evaluate_points-IsWithin :
      (pstdev : List (Float F) → Float F) (policy : ClockLimits F) (pair : String × String)
      (points : List (Point F)) (o : HardwareTimingObservation F)
      → All HasNumbers points
      → evaluate_points pstdev policy pair points ≡ ok o
      → o.within_policy ≡ true
      → (leb policy.time_authority_min_samples (length points) ≡ true)
        × All (IsWithin policy) points
  unfolding evaluate_points
  evaluate_points-IsWithin pstdev policy (protocol, source) points o a h within =
      let (offsets, c, h1) = bind-ok (column offset_metric points) _ o h in
      let (drifts, d, h2) = bind-ok (column drift_metric points) _ o h1 in
      let (ages, g, h3) = bind-ok (column age_metric points) _ o h2 in
      let (flags, f, h4) = bind-ok (column monotonic_metric points) _ o h3 in
      let (offset_ms, c1, h5) = bind-ok (greatest_value (map Float.abs offsets)) _ o h4 in
      let (drift_ppm, d1, h6) = bind-ok (greatest_value (map Float.abs drifts)) _ o h5 in
      let (age_ms, g1, h7) = bind-ok (greatest_value ages) _ o h6 in
      let (m, enough, kept_o, kept_d, kept_g) =
        policy_parts policy (length points) offset_ms drift_ppm age_ms (all is_one flags)
          (ap (λ r. r.within_policy) (ok_injective h7) ∙ within) in
      (
        enough,
        All-IsWithin policy points
            (magnitudes-bounded offset_metric policy.max_clock_offset_ms offset_ms points offsets c
              c1 kept_o a)
            (magnitudes-bounded drift_metric policy.max_clock_drift_ppm drift_ppm points drifts d d1
              kept_d a)
            (column-All (λ v. Float.le v policy.max_message_age_ms ≡ true) age_metric points ages g
              (greatest_value-bounded policy.max_message_age_ms age_ms ages g1 kept_g
                (column-HasNumbers age_metric points ages g a)))
            (column-All (λ v. is_one v ≡ true) monotonic_metric points flags f
              (all-is_one flags m)),
      )

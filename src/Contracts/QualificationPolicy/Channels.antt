-- ===== src/Contracts/QualificationPolicy/Channels.antt =====
-- How a channel is classified from its counters and from the codes that were reported.
use robotics_runtime.Base.{
  ◌≤◌, String, ◌≡◌, refl, ap, ◌∙◌, ◌↔◌, ◌⊎◌, Bool, true, false, not, ◌&&◌, ◌||◌, List, [], ◌∷◌,
  ◌++◌, arith, leb, leb_of_le, le_of_leb, any, keep, All,
}
use mathlib.Core.Path.{ap₂}
use robotics_runtime.Base.Float
use robotics_runtime.Base.Float.{Float, Finite}
use robotics_runtime.Contracts.QualificationPolicy.{
  contains, passed, error, error_violations, channel_observation_status, Delivery, Measured,
  failing, checks, derive_channel_violations,
}

-- The six limits of the delivery policy.
pub record WithinLimits {F : Type 0} ⦃finites : Finite F⦄ (d : Delivery F) (m : Measured F)
    : Type 0 where
  pub enough : d.minimum_source_messages ≤ m.sent_count
  pub loss : Float.le m.loss_ratio d.max_loss_ratio ≡ true
  pub duplicates : m.duplicate_count ≤ d.max_duplicate_count
  pub order : m.out_of_order_count ≤ d.max_out_of_order_count
  pub age : Float.le m.max_message_age_ms d.max_message_age_ms ≡ true
  pub window : Float.le m.observation_duration_sec d.observation_window_sec ≡ true

reported_error : List String → Bool
reported_error = any (λ c. contains c error_violations)

any-keep : (p : String → Bool) (cs : List String) → any p (keep p cs) ≡ any p cs
any-keep p [] = refl
any-keep p (c ∷ cs) = ground (arith, any-keep p cs)

failing-nil : (cs : List (String × Bool)) → failing cs ≡ [] → All (λ c. c.1 ≡ true) cs
unfolding failing
failing-nil [] e = tt
failing-nil ((c, true) ∷ cs) e = (refl, failing-nil cs e)
failing-nil ((c, false) ∷ cs) e = cc

nil-failing : (cs : List (String × Bool)) → All (λ c. c.1 ≡ true) cs → failing cs ≡ []
unfolding failing
nil-failing [] h = refl
nil-failing ((c, b) ∷ cs) (h, hs) = rw h (nil-failing cs hs)

any-failing :
    (p : String → Bool) (cs : List (String × Bool))
    → any p (failing cs) ≡ any (λ c. not c.1 && p c.0) cs
unfolding failing
any-failing p [] = refl
any-failing p ((c, true) ∷ cs) = any-failing p cs
any-failing p ((c, false) ∷ cs) = ap (λ b. p c || b) (any-failing p cs)

append-nil_iff : (xs ys : List String) → (xs ++ ys ≡ []) ↔ ((xs ≡ []) × (ys ≡ []))
append-nil_iff [] ys = (λ e. (refl, e), λ h. h.1)
append-nil_iff (x ∷ xs) ys = (λ e. cc, λ h. cc (h.0))

keep-nil_iff : (p : String → Bool) (cs : List String) → (keep p cs ≡ []) ↔ (any p cs ≡ false)
keep-nil_iff p [] = (λ _. refl, λ _. refl)
keep-nil_iff p (c ∷ cs) = ground (arith, keep-nil_iff p cs)

any-append : (p : String → Bool) (xs ys : List String) → any p (xs ++ ys) ≡ (any p xs || any p ys)
any-append p [] ys = refl
any-append p (x ∷ xs) ys = ground (arith, any-append p xs ys)

skip : (a b : Bool) → (not a && false || b) ≡ b
skip true b = refl
skip false b = refl

of_tests :
    (a b c d e f : Bool)
    → (not a && false
        || (not b && false
            || (not c && false
                || (not d && false || (not e && false || (not f && true || false))))))
      ≡ not f
of_tests a b c d e true = rw (skip a, skip b, skip c, skip d, skip e)
of_tests a b c d e false = rw (skip a, skip b, skip c, skip d, skip e)

channel-passed_iff :
    (codes : List String) → (channel_observation_status codes ≡ passed) ↔ (codes ≡ [])
unfolding channel_observation_status
channel-passed_iff codes = ground arith

channel-error_iff :
    (codes : List String)
    → (channel_observation_status codes ≡ error) ↔ (reported_error codes ≡ true)
unfolding channel_observation_status reported_error
channel-error_iff codes = ground arith

module _ {F : Type 0} ⦃finites : Finite F⦄ (d : Delivery F) (m : Measured F) where
  of_checks : All (λ c. c.1 ≡ true) (checks d m) → WithinLimits d m
  unfolding checks
  of_checks (enough, (loss, (duplicates, (order, (age, (window, _)))))) = record {
    enough = le_of_leb enough;
    loss = loss;
    duplicates = le_of_leb duplicates;
    order = le_of_leb order;
    age = age;
    window = window;
  }

  to_checks : WithinLimits d m → All (λ c. c.1 ≡ true) (checks d m)
  unfolding checks
  to_checks w = (
    leb_of_le w.enough,
    (w.loss, (leb_of_le w.duplicates, (leb_of_le w.order, (w.age, (w.window, tt))))),
  )

  -- The window check is the only one whose code is an error.
  error-checks :
      any (λ c. not c.1 && contains c.0 error_violations) (checks d m)
      ≡ not (Float.le m.observation_duration_sec d.observation_window_sec)
  unfolding checks error_violations
  error-checks =
      of_tests (leb d.minimum_source_messages m.sent_count) (Float.le m.loss_ratio d.max_loss_ratio)
        (leb m.duplicate_count d.max_duplicate_count)
        (leb m.out_of_order_count d.max_out_of_order_count)
        (Float.le m.max_message_age_ms d.max_message_age_ms)
        (Float.le m.observation_duration_sec d.observation_window_sec)

  -- A channel passes exactly when its counters keep the six limits of the delivery policy and no
  -- error violation was reported, whatever else was reported.
  pub derive-passed_iff :
      (reported : List String)
      → (channel_observation_status (derive_channel_violations d m reported) ≡ passed)
        ↔ (WithinLimits d m × (any (λ c. contains c error_violations) reported ≡ false))
  unfolding derive_channel_violations
  derive-passed_iff reported = (
    λ e.
        let (a, b) = (append-nil_iff _ _).0 ((channel-passed_iff _).0 e) in
        (of_checks (failing-nil _ a), (keep-nil_iff _ reported).0 b),
    λ (w, n).
        (channel-passed_iff _).1
          ((append-nil_iff _ _).1 (nil-failing _ (to_checks w), (keep-nil_iff _ reported).1 n)),
  )

  -- A channel is in error exactly when it was observed for longer than its window or an error
  -- violation was reported.
  pub derive-error_iff :
      (reported : List String)
      → (channel_observation_status (derive_channel_violations d m reported) ≡ error) ↔ (
          (Float.le m.observation_duration_sec d.observation_window_sec ≡ false)
          ⊎ (any (λ c. contains c error_violations) reported ≡ true))
  unfolding derive_channel_violations reported_error
  derive-error_iff reported =
      let e : reported_error (derive_channel_violations d m reported) ≡ (
          not (Float.le m.observation_duration_sec d.observation_window_sec)
          || any (λ c. contains c error_violations) reported) =
        any-append _ (failing (checks d m)) _
        ∙ ap₂ ◌||◌ (any-failing _ (checks d m) ∙ error-checks) (any-keep _ reported) in
      (
        λ h. ground (arith, e, (channel-error_iff (derive_channel_violations d m reported)).0 h),
        λ h. (channel-error_iff _).1 (ground (arith, e)),
      )

-- ===== src/Harness/ForbiddenGraph/Observed.antt =====
-- packages/harness/src/robotics_acceptance_harness/forbidden_graph.py: what the monitor reports
-- after a window of snapshots.
use robotics_runtime.Base.{
  String, ◌≡◌, refl, sym, ap, ◌∙◌, ◌↔◌, Bool, true, false, ◌&&◌, ◌||◌, List, [], ◌∷◌, ◌++◌, arith,
  str_eq, eq_iff, if◌then◌else◌, if_ind, any,
}
use robotics_runtime.Harness.Series.{any-sorted}
use robotics_runtime.Harness.ForbiddenGraph.{
  GraphSnapshot, ForbiddenNames, Kind, topic, service, action, ForbiddenGraphViolation, kind_eq,
  violation_eq, violation_before, passed, is_published, is_served, violations_of,
  find_forbidden_graph_violations, ForbiddenGraphMonitor, monitor_of, update, observe, observe_all,
  result,
}

-- A snapshot exhibits a violation: the name is forbidden for its kind, and an interface of that
-- name is published or served.
abbrev pub exhibits : ForbiddenNames → ForbiddenGraphViolation → GraphSnapshot → Bool
exhibits forbidden (topic, n) s = any (str_eq n) forbidden.topics && is_published s n
exhibits forbidden (service, n) s = any (str_eq n) forbidden.services && is_served s.services n
exhibits forbidden (action, n) s = any (str_eq n) forbidden.actions && is_served s.actions n

any-append {ℓ} :
    {A : Type ℓ} (p : A → Bool) (xs ys : List A) → any p (xs ++ ys) ≡ (any p xs || any p ys)
any-append p [] ys = refl
any-append p (x ∷ xs) ys = ground (arith, any-append p xs ys)

violation_eq-path : (v w : ForbiddenGraphViolation) → violation_eq v w ≡ true → v ≡ w
violation_eq-path (topic, a) (topic, b) h = ap (λ n. (topic, n)) ((eq_iff a b).0 h)
violation_eq-path (service, a) (service, b) h = ap (λ n. (service, n)) ((eq_iff a b).0 h)
violation_eq-path (action, a) (action, b) h = ap (λ n. (action, n)) ((eq_iff a b).0 h)
violation_eq-path _ _ h = absurd (ground arith)

violation_eq_refl : (v : ForbiddenGraphViolation) → violation_eq v v ≡ true
violation_eq_refl (topic, a) = (eq_iff a a).1 refl
violation_eq_refl (service, a) = (eq_iff a a).1 refl
violation_eq_refl (action, a) = (eq_iff a a).1 refl

any-violations_of :
    (k j : Kind) (n : String) (is_live : String → Bool) (names : List String)
    → any (violation_eq (k, n)) (violations_of j is_live names)
      ≡ (kind_eq k j && (any (str_eq n) names && is_live n))
unfolding violations_of
any-violations_of k j n is_live [] = ground arith
any-violations_of k j n is_live (m ∷ ms) =
    let same : str_eq n m ≡ true → is_live n ≡ is_live m = λ h. ap is_live ((eq_iff n m).0 h) in
    ground (arith, same, any-violations_of k j n is_live ms)

-- At each kind, one of the three loops decides.
by_kind :
    (forbidden : ForbiddenNames) (s : GraphSnapshot) (k : Kind) (n : String)
    → ((kind_eq k topic && (any (str_eq n) forbidden.topics && is_published s n))
        || ((kind_eq k service && (any (str_eq n) forbidden.services && is_served s.services n))
            || (kind_eq k action && (any (str_eq n) forbidden.actions && is_served s.actions n))))
      ≡ exhibits forbidden (k, n) s
by_kind forbidden s topic n = ground arith
by_kind forbidden s service n = ground arith
by_kind forbidden s action n = refl

any-find :
    (forbidden : ForbiddenNames) (s : GraphSnapshot) (v : ForbiddenGraphViolation)
    → any (violation_eq v) (find_forbidden_graph_violations forbidden s) ≡ exhibits forbidden v s
unfolding find_forbidden_graph_violations
any-find forbidden s (k, n) =
    let topics = violations_of topic (is_published s) forbidden.topics in
    let services = violations_of service (is_served s.services) forbidden.services in
    let actions = violations_of action (is_served s.actions) forbidden.actions in
    ground (
      arith,
      any-sorted violation_before (violation_eq (k, n)) (topics ++ (services ++ actions)),
      any-append (violation_eq (k, n)) topics (services ++ actions),
      any-append (violation_eq (k, n)) services actions,
      any-violations_of k topic n (is_published s) forbidden.topics,
      any-violations_of k service n (is_served s.services) forbidden.services,
      any-violations_of k action n (is_served s.actions) forbidden.actions,
      by_kind forbidden s k n,
    )

or_known : (a b c : Bool) → (a ≡ true → b ≡ true) → (b || c) ≡ (b || (a || c))
or_known false b c h = refl
or_known true b c h = rw (h refl) refl

or_swap : (a b c : Bool) → ((a || b) || c) ≡ (b || (a || c))
or_swap true true c = refl
or_swap true false c = refl
or_swap false b c = refl

any-update :
    (v : ForbiddenGraphViolation) (held vs : List ForbiddenGraphViolation)
    → any (violation_eq v) (update held vs) ≡ (any (violation_eq v) held || any (violation_eq v) vs)
unfolding update
any-update v held [] = ground arith
any-update v held (w ∷ ws) =
    any-update v (if any (violation_eq w) held then held else w ∷ held) ws
    ∙ if_ind
        (λ kept.
          (any (violation_eq v) kept || any (violation_eq v) ws)
          ≡ (any (violation_eq v) held || any (violation_eq v) (w ∷ ws)))
        (any (violation_eq w) held)
        (λ known.
          let same : violation_eq v w ≡ true → any (violation_eq v) held ≡ true =
            λ h. ap (λ x. any (violation_eq x) held) (violation_eq-path v w h) ∙ known in
          or_known (violation_eq v w) (any (violation_eq v) held) (any (violation_eq v) ws) same)
        (λ _. or_swap (violation_eq v w) (any (violation_eq v) held) (any (violation_eq v) ws))

any-observe_all :
    (m : ForbiddenGraphMonitor) (ss : List GraphSnapshot) (v : ForbiddenGraphViolation)
    → any (violation_eq v) (observe_all m ss).violations
      ≡ (any (violation_eq v) m.violations || any (exhibits m.forbidden_graph v) ss)
unfolding observe_all
any-observe_all m [] v = ground arith
any-observe_all m (s ∷ ss) v = ground (
  arith,
  any-observe_all (observe m s) ss v,
  any-update v m.violations (find_forbidden_graph_violations m.forbidden_graph s),
  any-find m.forbidden_graph s v,
)

-- After any sequence of snapshots, the monitor reports a violation exactly when a snapshot has
-- exhibited it: its name is forbidden for its kind, and the snapshot had a publisher of the
-- topic, or a server of the service or the action.
pub any-result :
    (forbidden : ForbiddenNames) (snapshots : List GraphSnapshot) (v : ForbiddenGraphViolation)
    → any (violation_eq v) (result (observe_all (monitor_of forbidden) snapshots)).violations
      ≡ any (exhibits forbidden v) snapshots
unfolding result
any-result forbidden snapshots v =
    any-sorted violation_before (violation_eq v)
      (observe_all (monitor_of forbidden) snapshots).violations
    ∙ any-observe_all (monitor_of forbidden) snapshots v

passed-nil :
    (forbidden : ForbiddenNames) (snapshots : List GraphSnapshot) (v : ForbiddenGraphViolation)
    → passed (result (observe_all (monitor_of forbidden) snapshots)) ≡ true
    → any (exhibits forbidden v) snapshots ≡ false
passed-nil forbidden snapshots v h =
    sym (any-result forbidden snapshots v)
    ∙ none_held (result (observe_all (monitor_of forbidden) snapshots)).violations h
  where
    none_held :
        (vs : List ForbiddenGraphViolation)
        → elim vs as (λ _. Bool) [ [] ↦ true | w ∷ ws ↦ false ] ≡ true
        → any (violation_eq v) vs ≡ false
    none_held [] h = refl
    none_held (w ∷ ws) h = cc

nil-passed :
    (forbidden : ForbiddenNames) (snapshots : List GraphSnapshot)
    → ((v : ForbiddenGraphViolation) → any (exhibits forbidden v) snapshots ≡ false)
    → passed (result (observe_all (monitor_of forbidden) snapshots)) ≡ true
nil-passed forbidden snapshots h =
    empty (result (observe_all (monitor_of forbidden) snapshots)).violations
      (λ v. any-result forbidden snapshots v ∙ h v)
  where
    empty :
        (vs : List ForbiddenGraphViolation)
        → ((v : ForbiddenGraphViolation) → any (violation_eq v) vs ≡ false)
        → elim vs as (λ _. Bool) [ [] ↦ true | w ∷ ws ↦ false ] ≡ true
    empty [] h = refl
    empty (w ∷ ws) h = absurd (ground (arith, violation_eq_refl w, h w))

-- After any sequence of snapshots, the observation has passed exactly when no snapshot has
-- exhibited a violation.
pub passed_iff :
    (forbidden : ForbiddenNames) (snapshots : List GraphSnapshot)
    → (passed (result (observe_all (monitor_of forbidden) snapshots)) ≡ true)
      ↔ ((v : ForbiddenGraphViolation) → any (exhibits forbidden v) snapshots ≡ false)
passed_iff forbidden snapshots =
    (λ h v. passed-nil forbidden snapshots v h, nil-passed forbidden snapshots)

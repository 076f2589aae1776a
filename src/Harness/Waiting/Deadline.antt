-- ===== src/Harness/Waiting/Deadline.antt =====
-- packages/harness/src/robotics_acceptance_harness/readiness.py: how a wait ends that does not
-- return, and that it ends.
use robotics_runtime.Base.{
  ℕ, ◌+◌, ◌-◌, ◌≤◌, ◌<◌, ◌≡◌, refl, ap, ◌∙◌, ◌≢◌, ◌⊎◌, inl, inr, Option, none, some, List, [], ◌∷◌,
  arith, Any,
}
use robotics_runtime.Base.Float.{Finite}
use robotics_runtime.Harness.ForbiddenGraph.{GraphSnapshot}
use robotics_runtime.Harness.Readiness.{ExpectedGraph, ReadinessIssue, evaluate_graph}
use robotics_runtime.Harness.Waiting.{
  Wait, timed_out, polling, Poll, seconds, first_ready, decided, turn, wait_loop, required_ns_of,
  wait_for_readiness, expired_readiness_issues,
}

module _ {F : Type 0} ⦃finites : Finite F⦄ (deadline_ns required_ns : ℕ) where
  decided-none :
      (expired issues : List (ReadinessIssue F)) (since : Option ℕ) (p : Poll)
      → decided deadline_ns required_ns expired issues since p ≡ none
      → p.1 < deadline_ns
  unfolding decided
  decided-none (i ∷ is) issues since p h = absurd (cc)
  decided-none [] issues none (sn, now) h = ground arith
  decided-none [] issues (some t) (sn, now) h = ground arith

  decided-polling :
      (expired issues : List (ReadinessIssue F)) (since : Option ℕ) (p : Poll)
      → decided deadline_ns required_ns expired issues since p ≢ some polling
  unfolding decided
  decided-polling (i ∷ is) issues since p h = cc
  decided-polling [] issues none (sn, now) h = ground arith
  decided-polling [] issues (some t) (sn, now) h = ground arith

  -- What is raised are the expired issues, or those of a poll at or behind the deadline.
  decided-timed_out :
      (expired issues : List (ReadinessIssue F)) (since : Option ℕ) (p : Poll)
      (is : List (ReadinessIssue F))
      → decided deadline_ns required_ns expired issues since p ≡ some (timed_out is)
      → ((is ≢ []) × (is ≡ expired)) ⊎ ((expired ≡ []) × (deadline_ns ≤ p.1) × (is ≡ issues))
  unfolding decided
  decided-timed_out (i ∷ es) issues since p is h = inl ((λ e. cc), cc)
  decided-timed_out [] issues none (sn, now) is h = inr (refl, ground arith, ground (arith, h))
  decided-timed_out [] issues (some t) (sn, now) is h = inr (refl, ground arith, ground (arith, h))

module _ {F : Type 0} ⦃finites : Finite F⦄ (expected : ExpectedGraph F) (started_at_ns : ℕ) where
  -- what expires at a poll
  abbrev pub expired_at : Poll → List (ReadinessIssue F)
  expired_at (sn, now) = expired_readiness_issues expected sn (seconds (now - started_at_ns))

  -- A poll at which the issues are raised.
  abbrev pub IsRaised : ℕ → List (ReadinessIssue F) → Poll → Type 0
  IsRaised deadline_ns is p =
      ((is ≢ []) × (is ≡ expired_at p))
      ⊎ ((expired_at p ≡ []) × (deadline_ns ≤ p.1) × (is ≡ evaluate_graph expected p.0))

module _ {F : Type 0} ⦃finites : Finite F⦄ (expected : ExpectedGraph F)
    (started_at_ns deadline_ns required_ns : ℕ) where
  turn-none :
      (since : Option ℕ) (p : Poll)
      → turn expected started_at_ns deadline_ns required_ns since p ≡ none
      → p.1 < deadline_ns
  unfolding turn
  turn-none since (sn, now) h =
      decided-none deadline_ns required_ns (expired_at expected started_at_ns (sn, now))
        (evaluate_graph expected sn) (first_ready (evaluate_graph expected sn) since now) (sn, now)
        h

  turn-polling :
      (since : Option ℕ) (p : Poll)
      → turn expected started_at_ns deadline_ns required_ns since p ≢ some polling
  unfolding turn
  turn-polling since (sn, now) h =
      decided-polling deadline_ns required_ns (expired_at expected started_at_ns (sn, now))
        (evaluate_graph expected sn) (first_ready (evaluate_graph expected sn) since now) (sn, now)
        h

  turn-IsRaised :
      (since : Option ℕ) (p : Poll) (is : List (ReadinessIssue F))
      → turn expected started_at_ns deadline_ns required_ns since p ≡ some (timed_out is)
      → IsRaised expected started_at_ns deadline_ns is p
  unfolding turn
  turn-IsRaised since (sn, now) is h =
      decided-timed_out deadline_ns required_ns (expired_at expected started_at_ns (sn, now))
        (evaluate_graph expected sn) (first_ready (evaluate_graph expected sn) since now) (sn, now)
        is h

module _ {F : Type 0} ⦃finites : Finite F⦄ {S : Type 0} (on_snapshot : GraphSnapshot → S → S)
    (expected : ExpectedGraph F) (started_at_ns deadline_ns required_ns : ℕ) where
  -- A property of the result, from the turn that gives it or from the polls behind a turn that gives none.
  wait_loop_ind :
      (P : List Poll → Wait F → Type 0) (since : Option ℕ) (polls : List Poll) (state : S)
      → ((since : Option ℕ) (p : Poll) (rest : List Poll) (w : Wait F)
          → turn expected started_at_ns deadline_ns required_ns since p ≡ some w
          → P (p ∷ rest) w)
      → ((since : Option ℕ) (p : Poll) (rest : List Poll) (w : Wait F)
          → turn expected started_at_ns deadline_ns required_ns since p ≡ none
          → P rest w
          → P (p ∷ rest) w)
      → P [] polling
      → P polls
          (wait_loop on_snapshot expected started_at_ns deadline_ns required_ns since polls state).0
  unfolding wait_loop
  wait_loop_ind P since [] state last step end = end
  wait_loop_ind P since ((sn, now) ∷ polls) state last step end =
      by_turn (turn expected started_at_ns deadline_ns required_ns since (sn, now)) refl (
        wait_loop_ind P (first_ready (evaluate_graph expected sn) since now) polls
          (on_snapshot sn state) last step end)
    where
      rest : Wait F × S
      rest =
          wait_loop on_snapshot expected started_at_ns deadline_ns required_ns
            (first_ready (evaluate_graph expected sn) since now) polls (on_snapshot sn state)

      by_turn :
          (o : Option (Wait F))
          → turn expected started_at_ns deadline_ns required_ns since (sn, now) ≡ o
          → P polls rest.0
          → P
              ((sn, now) ∷ polls)
              (elim o as (λ _. Wait F × S) [ some w ↦ (w, on_snapshot sn state) | none ↦ rest ]).0
      by_turn none e ih = step since (sn, now) polls rest.0 e ih
      by_turn (some w) e ih = last since (sn, now) polls w e

module _ {F : Type 0} ⦃finites : Finite F⦄ {S : Type 0} (nanoseconds : F → ℕ)
    (on_snapshot : GraphSnapshot → S → S) (expected : ExpectedGraph F)
    (timeout_sec stable_for_sec : F) (started_at_ns : ℕ) where
  abbrev deadline : ℕ
  deadline = started_at_ns + nanoseconds timeout_sec

  abbrev required : ℕ
  required = required_ns_of nanoseconds expected stable_for_sec

  -- If a poll comes at or behind the deadline, the wait has ended: it returns or raises, and does
  -- not go on polling.
  pub wait_for_readiness-ends :
      (polls : List Poll) (state : S)
      → Any (λ p. started_at_ns + nanoseconds timeout_sec ≤ p.1) polls
      → (wait_for_readiness nanoseconds on_snapshot expected timeout_sec stable_for_sec
          started_at_ns polls state).0
        ≢ polling
  unfolding wait_for_readiness
  wait_for_readiness-ends polls state =
      wait_loop_ind on_snapshot expected started_at_ns deadline required
        (λ polls w. Any (λ p. deadline ≤ p.1) polls → w ≢ polling) none polls state
        (λ since p rest w e _ h.
          turn-polling expected started_at_ns deadline required since p (e ∙ ap some h))
        (λ since p rest w e ih late. elim late [
          | inl l ↦
              absurd
                (omega (arith, l, turn-none expected started_at_ns deadline required since p e))
          | inr l ↦ ih l
        ])
        (λ late. absurd (late tt))

  -- A wait that raises a timeout raises it at one of the polls, with the issues that have expired
  -- there, if there are any, or else at or behind the deadline with what the expected graph lacks
  -- there.
  pub wait_for_readiness-timed_out :
      (polls : List Poll) (state : S) (is : List (ReadinessIssue F))
      → (wait_for_readiness nanoseconds on_snapshot expected timeout_sec stable_for_sec
          started_at_ns polls state).0
        ≡ timed_out is
      → Any (IsRaised expected started_at_ns (started_at_ns + nanoseconds timeout_sec) is) polls
  unfolding wait_for_readiness
  wait_for_readiness-timed_out polls state is =
      wait_loop_ind on_snapshot expected started_at_ns deadline required
        (λ polls w. w ≡ timed_out is → Any (IsRaised expected started_at_ns deadline is) polls) none
        polls state
        (λ since p rest w e h.
          inl (turn-IsRaised expected started_at_ns deadline required since p is (e ∙ ap some h)))
        (λ since p rest w e ih h. inr (ih h)) (λ h. absurd (cc))

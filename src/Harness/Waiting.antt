-- ===== src/Harness/Waiting.antt =====
-- packages/harness/src/robotics_acceptance_harness/readiness.py: the wait until the expected graph
-- has lacked nothing for long enough.
--
-- The observer and the clock are the polls that they answer, one after another; the clock is
-- monotonic. Seconds are floats, and `nanoseconds` stands for `int(seconds * 1_000_000_000)`.
pub mod Stable
pub mod Deadline
mod Tests
use robotics_runtime.Base.{
  ℕ, suc, ◌+◌, ◌-◌, String, Bool, true, not, ◌&&◌, Option, none, some, List, [], ◌∷◌, ◌++◌, str_eq,
  leb, if◌then◌else◌,
}
use robotics_runtime.Base.Float.{Finite}
use robotics_runtime.Harness.Merging.{lookup}
use robotics_runtime.Harness.ForbiddenGraph.{GraphSnapshot, TopicObservation, LifecycleObservation}
use robotics_runtime.Harness.Readiness.{
  ExpectedTopic, ExpectedNode, ExpectedGraph, topic_part, node_part, no_message_before,
  state_not_reached, ReadinessIssue, issue_if, is_none, evaluate_graph,
}

-- a topic whose first message is overdue, in `_expired_readiness_issues`
abbrev pub is_silent : Option TopicObservation → Bool
is_silent none = true
is_silent (some o) = is_none o.first_message_at_ns

abbrev pub observed_state : Option LifecycleObservation → Option String
observed_state none = none
observed_state (some o) = some o.state

-- `lifecycle_observation is None or lifecycle_observation.state != expected["required_state"]`
abbrev pub is_not_in : String → Option LifecycleObservation → Bool
is_not_in required none = true
is_not_in required (some o) = not (str_eq o.state required)

module _ {F : Type 0} ⦃finites : Finite F⦄ where
  unfoldable pub expired_topics :
      ℕ → List (ExpectedTopic F) → GraphSnapshot → F → List (ReadinessIssue F)
  expired_topics index [] snapshot elapsed_sec = []
  expired_topics index (e ∷ es) snapshot elapsed_sec =
      issue_if
        (finites.le e.first_message_timeout_sec elapsed_sec
          && is_silent (lookup e.name snapshot.topics))
        topic_part index (no_message_before e.first_message_timeout_sec)
        (expired_topics (suc index) es snapshot elapsed_sec)

  unfoldable pub expired_nodes :
      ℕ → List (ExpectedNode F) → GraphSnapshot → F → List (ReadinessIssue F)
  expired_nodes index [] snapshot elapsed_sec = []
  expired_nodes index (e ∷ es) snapshot elapsed_sec =
      issue_if
        (finites.le e.timeout_sec elapsed_sec
          && is_not_in e.required_state (lookup e.name snapshot.lifecycle_nodes))
        node_part index
        (state_not_reached e.required_state
          (observed_state (lookup e.name snapshot.lifecycle_nodes)))
        (expired_nodes (suc index) es snapshot elapsed_sec)

  -- `_expired_readiness_issues`
  unfoldable pub expired_readiness_issues :
      ExpectedGraph F → GraphSnapshot → F → List (ReadinessIssue F)
  unfolding expired_topics expired_nodes
  expired_readiness_issues expected snapshot elapsed_sec =
      expired_topics 0 expected.topics snapshot elapsed_sec
      ++ expired_nodes 0 expected.lifecycle_nodes snapshot elapsed_sec

  -- `max(a, b)` of two floats, and of those of all nodes, 0.0 by default
  abbrev pub longer : F → F → F
  longer a b = if finites.le b a then a else b

  abbrev pub longest_of : F → List (ExpectedNode F) → F
  longest_of longest [] = longest
  longest_of longest (e ∷ es) = longest_of (longer longest e.stable_for_sec) es

  abbrev pub lifecycle_stability : List (ExpectedNode F) → F
  lifecycle_stability [] = finites.origin
  lifecycle_stability (e ∷ es) = longest_of e.stable_for_sec es

  -- `ns / 1_000_000_000`
  abbrev pub seconds : ℕ → F
  seconds ns = finites.quotient (finites.of_count ns) 1000000000

  -- `int(required_stability * 1_000_000_000)`
  abbrev pub required_ns_of : (F → ℕ) → ExpectedGraph F → F → ℕ
  required_ns_of nanoseconds expected stable_for_sec =
      nanoseconds (longer stable_for_sec (lifecycle_stability expected.lifecycle_nodes))

pub record ReadinessResult (F : Type 0) : Type 0 where
  pub snapshot : GraphSnapshot
  pub first_ready_at_ns : ℕ
  pub stable_for_sec : F

-- How the loop ends; `polling` stands for a loop that has not ended with the last poll.
pub data Wait (F : Type 0) : Type 0 where
  ready : ReadinessResult F → Wait F
  timed_out : List (ReadinessIssue F) → Wait F
  polling : Wait F

-- a snapshot of the observer, and the clock's answer behind it
abbrev pub Poll : Type 0
Poll = GraphSnapshot × ℕ

-- the new `first_ready_at_ns`
abbrev pub first_ready : {F : Type 0} → List (ReadinessIssue F) → Option ℕ → ℕ → Option ℕ
first_ready (i ∷ is) first_ready_at_ns current_ns = none
first_ready [] none current_ns = some current_ns
first_ready [] (some t) current_ns = some t

module _ {F : Type 0} ⦃finites : Finite F⦄ where
  -- what a turn returns or raises, from the expired issues, the issues and the new `first_ready_at_ns`
  unfoldable pub decided :
      ℕ → ℕ → List (ReadinessIssue F) → List (ReadinessIssue F) → Option ℕ → Poll → Option (Wait F)
  decided deadline_ns required_ns (i ∷ is) last_issues since poll = some (timed_out (i ∷ is))
  decided deadline_ns required_ns [] last_issues none (snapshot, current_ns) =
      if leb deadline_ns current_ns then some (timed_out last_issues) else none
  decided deadline_ns required_ns [] last_issues (some t) (snapshot, current_ns) =
      if leb required_ns (current_ns - t)
      then some (
          ready (record {
            snapshot = snapshot;
            first_ready_at_ns = t;
            stable_for_sec = seconds (current_ns - t);
          }))
      else if leb deadline_ns current_ns
      then some (timed_out last_issues)
      else none

  -- a turn of the loop: `none` if it is not the last one
  unfoldable pub turn : ExpectedGraph F → ℕ → ℕ → ℕ → Option ℕ → Poll → Option (Wait F)
  unfolding decided evaluate_graph expired_readiness_issues
  turn expected started_at_ns deadline_ns required_ns since (snapshot, current_ns) =
      let last_issues = evaluate_graph expected snapshot in
      decided deadline_ns required_ns
        (expired_readiness_issues expected snapshot (seconds (current_ns - started_at_ns)))
        last_issues (first_ready last_issues since current_ns) (snapshot, current_ns)

module _ {F : Type 0} ⦃finites : Finite F⦄ {S : Type 0} (on_snapshot : GraphSnapshot → S → S)
    (expected : ExpectedGraph F) where
  -- the loop of `wait_for_readiness`
  unfoldable pub wait_loop : ℕ → ℕ → ℕ → Option ℕ → List Poll → S → Wait F × S
  unfolding turn evaluate_graph
  wait_loop started_at_ns deadline_ns required_ns first_ready_at_ns [] state = (polling, state)
  wait_loop started_at_ns deadline_ns required_ns first_ready_at_ns ((snapshot, current_ns) ∷ polls)
        state =
      elim (turn expected started_at_ns deadline_ns required_ns first_ready_at_ns
        (snapshot, current_ns)) [
          | some w ↦ (w, on_snapshot snapshot state)
          | none ↦
              wait_loop started_at_ns deadline_ns required_ns
                (first_ready (evaluate_graph expected snapshot) first_ready_at_ns current_ns) polls
                (on_snapshot snapshot state)
        ]

module _ {F : Type 0} ⦃finites : Finite F⦄ {S : Type 0} (nanoseconds : F → ℕ)
    (on_snapshot : GraphSnapshot → S → S) (expected : ExpectedGraph F) where
  -- `wait_for_readiness`
  unfoldable pub wait_for_readiness : F → F → ℕ → List Poll → S → Wait F × S
  unfolding wait_loop
  wait_for_readiness timeout_sec stable_for_sec started_at_ns polls state =
      wait_loop on_snapshot expected started_at_ns (started_at_ns + nanoseconds timeout_sec)
        (required_ns_of nanoseconds expected stable_for_sec) none polls state

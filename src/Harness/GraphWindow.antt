-- ===== src/Harness/GraphWindow.antt =====
-- packages/harness/src/robotics_acceptance_harness/graph_window.py: the issues of the expected
-- graph that snapshots of a measurement window show.
--
-- The mapping of the retained issues is a list of entries with distinct keys, in the order of
-- insertion. `same` is `==` on issues, and `numbered` is `expected-ros-graph-{suffix}`.
pub mod Reported
mod Tests
use robotics_runtime.Base.{
  ℕ, zero, suc, ◌-◌, String, Bool, true, false, ◌&&◌, ◌||◌, List, [], ◌∷◌, ◌++◌, str_eq, ltb, leb,
  ◌==◌, if◌then◌else◌, Result, ok, ◌>>=◌, ◌>>◌, raise_if, length, any,
}
use robotics_runtime.Harness.ForbiddenGraph.{GraphSnapshot}
use robotics_runtime.Harness.Readiness.{
  ExpectedGraph, ReadinessIssue, IssueStatus, failed, error, status_of, evaluate_graph,
}

-- `HarnessInputError` for a window without a positive duration
pub data GraphWindowError : Type 0 where
  window_duration : GraphWindowError

-- `ExpectedGraphMonitor`
pub record ExpectedGraphMonitor (F : Type 0) : Type 0 where
  pub expected_graph : ExpectedGraph F
  pub start_ns : ℕ
  pub end_ns : ℕ
  pub samples : ℕ
  pub issues : List (ReadinessIssue F × ℕ)

-- What an assertion's message lists: a retained issue with its offset in the window, or that the
-- window had no sample.
pub data Detail (F : Type 0) : Type 0 where
  first_observed : ReadinessIssue F → ℕ → Detail F
  no_samples : Detail F

pub record GraphAssertion (F : Type 0) : Type 0 where
  pub assertion_id : String
  pub status : IssueStatus
  pub details : List (Detail F)

abbrev pub is_error : IssueStatus → Bool
is_error error = true
is_error failed = false

-- `bool(xs)` of a list
abbrev pub truthy : {A : Type 0} → List A → Bool
truthy [] = false
truthy (x ∷ xs) = true

module _ {F : Type 0} where
  -- `ExpectedGraphMonitor.__init__`
  unfoldable pub monitor_for :
      ExpectedGraph F → ℕ → ℕ → Result GraphWindowError (ExpectedGraphMonitor F)
  monitor_for expected start_ns end_ns = do
    raise_if (leb end_ns start_ns) window_duration
    ok (record {
      expected_graph = expected;
      start_ns = start_ns;
      end_ns = end_ns;
      samples = 0;
      issues = [];
    })

  -- `any(self._expected_graph.values())`
  abbrev pub expects_something : ExpectedGraph F → Bool
  expects_something e =
      truthy e.topics || (truthy e.services || (truthy e.actions || truthy e.lifecycle_nodes))

  abbrev pub is_inside : ExpectedGraphMonitor F → GraphSnapshot → Bool
  is_inside m sn = leb m.start_ns sn.observed_at_ns && ltb sn.observed_at_ns m.end_ns

  -- what the message says of the retained issues
  abbrev pub details_of : ℕ → List (ReadinessIssue F × ℕ) → List (Detail F)
  details_of start_ns [] = []
  details_of start_ns ((i, t) ∷ rest) = first_observed i (t - start_ns) ∷ details_of start_ns rest

  abbrev pub detail_status : Detail F → IssueStatus
  detail_status (first_observed i _) = status_of i
  detail_status no_samples = error

  -- the issues that `assertions` reports
  abbrev pub reported : ExpectedGraphMonitor F → List (Detail F)
  reported m =
      details_of m.start_ns m.issues
      ++ (if (m.samples == 0) && expects_something m.expected_graph then no_samples ∷ [] else [])

module _ {F : Type 0} (same : ReadinessIssue F → ReadinessIssue F → Bool) where
  -- `setdefault` for each issue of a snapshot
  unfoldable pub retain :
      List (ReadinessIssue F × ℕ) → ℕ → List (ReadinessIssue F) → List (ReadinessIssue F × ℕ)
  retain held at [] = held
  retain held at (i ∷ is) =
      retain (if any (λ entry. same i entry.0) held then held else held ++ ((i, at) ∷ [])) at is

  -- `ExpectedGraphMonitor.observe`
  unfoldable pub observe : ExpectedGraphMonitor F → GraphSnapshot → ExpectedGraphMonitor F
  unfolding retain evaluate_graph
  observe m sn =
      if is_inside m sn
      then record {
        expected_graph = m.expected_graph;
        start_ns = m.start_ns;
        end_ns = m.end_ns;
        samples = suc m.samples;
        issues = retain m.issues sn.observed_at_ns (evaluate_graph m.expected_graph sn);
      }
      else m

  -- the snapshots of a measurement, one after another
  unfoldable pub observe_all : ExpectedGraphMonitor F → List GraphSnapshot → ExpectedGraphMonitor F
  unfolding observe
  observe_all m [] = m
  observe_all m (sn ∷ sns) = observe_all (observe m sn) sns

module _ (numbered : ℕ → String) where
  -- the loop of `_assertion_id`; the fuel is the number of ids, which cannot hold one candidate more
  unfoldable pub free_id : ℕ → List String → ℕ → String → String
  free_id zero used suffix candidate = candidate
  free_id (suc fuel) used suffix candidate = elim (any (str_eq candidate) used) [
    | true ↦ free_id fuel used (suc suffix) (numbered (suc suffix))
    | false ↦ candidate
  ]

  -- `_assertion_id`, of the ids that exist
  unfoldable pub assertion_id_among : List String → String
  unfolding free_id
  assertion_id_among used = free_id (length used) used 0 "expected-ros-graph"

  -- `ExpectedGraphMonitor.assertions`
  unfoldable pub assertions :
      {F : Type 0} → ExpectedGraphMonitor F → List String → List (GraphAssertion F)
  unfolding assertion_id_among
  assertions m used = elim (reported m) [
    | [] ↦ []
    | d ∷ ds ↦
        record {
          assertion_id = assertion_id_among used;
          status =
              if any (λ detail. is_error (detail_status detail)) (d ∷ ds) then error else failed;
          details = d ∷ ds;
        }
        ∷ []
  ]

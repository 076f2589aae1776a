-- ===== src/Harness/GraphWindow/Tests.antt =====
-- A measurement from 10 to 20 nanoseconds of a graph with one service.
use robotics_runtime.Base.{
  if◌then◌else◌, ℕ, String, ◌≡◌, ◌↔◌, refl, Bool, false, none, [], ◌∷◌, ◌==◌, ok, err, All, Any,
}
use robotics_runtime.Harness.ForbiddenGraph.{GraphSnapshot}
use robotics_runtime.Harness.Readiness.{
  ExpectedGraph, ReadinessIssue, failed, error, service_part, absent,
}
use robotics_runtime.Harness.GraphWindow.{
  ExpectedGraphMonitor, GraphAssertion, first_observed, no_samples, window_duration, monitor_for,
  expects_something, observe_all, assertions,
}
use robotics_runtime.Harness.GraphWindow.Reported.{IsClean, IsSample, assertions-nil_iff}

abbrev expected : ExpectedGraph ℕ
expected = record {
  topics = [];
  services = record { name = "/reset"; type_name = "Empty" } ∷ [];
  actions = [];
  lifecycle_nodes = [];
}

abbrev snapshot : ℕ → ℕ → GraphSnapshot
snapshot at servers = record {
  observed_at_ns = at;
  topics = [];
  services =
      ("/reset", record { types = "Empty" ∷ []; server_nodes = servers; client_nodes = 0 }) ∷ [];
  actions = [];
  lifecycle_nodes = [];
  node_names = none;
}

-- the issues of this graph differ by their index
abbrev same : ReadinessIssue ℕ → ReadinessIssue ℕ → Bool
same a b = a.index == b.index

abbrev numbered : ℕ → String
numbered n = if n == 1 then "expected-ros-graph-1" else "expected-ros-graph-2"

abbrev monitor : ExpectedGraphMonitor ℕ
monitor = record { expected_graph = expected; start_ns = 10; end_ns = 20; samples = 0; issues = [] }

created : monitor_for expected 10 20 ≡ ok monitor
unfolding monitor_for
created = refl

empty_window : monitor_for expected 20 20 ≡ err window_duration
unfolding monitor_for
empty_window = refl

abbrev lost : GraphAssertion ℕ
lost = record {
  assertion_id = "expected-ros-graph-1";
  status = failed;
  details =
      first_observed (record { part = service_part; index = 0; problem = absent "/reset" }) 2 ∷ [];
}

lost_server :
    assertions numbered
      (observe_all same monitor (snapshot 9 0 ∷ snapshot 11 1 ∷ snapshot 12 0 ∷ snapshot 13 0 ∷ []))
      ("expected-ros-graph" ∷ [])
    ≡ lost ∷ []
unfolding assertions observe_all
lost_server = refl

abbrev unsampled : GraphAssertion ℕ
unsampled = record {
  assertion_id = "expected-ros-graph";
  status = error;
  details = no_samples ∷ [];
}

no_sample : assertions numbered (observe_all same monitor (snapshot 20 1 ∷ [])) [] ≡ unsampled ∷ []
unfolding assertions observe_all
no_sample = refl

assertions-nil_iff_example :
    (assertions numbered (observe_all same monitor (snapshot 11 1 ∷ snapshot 25 0 ∷ [])) [] ≡ [])
    ↔ (All (IsClean expected 10 20) (snapshot 11 1 ∷ snapshot 25 0 ∷ [])
        × ((Any (IsSample 10 20) (snapshot 11 1 ∷ snapshot 25 0 ∷ []) → ⊥)
            → expects_something expected ≡ false))
assertions-nil_iff_example =
    assertions-nil_iff same numbered expected 10 20 monitor (snapshot 11 1 ∷ snapshot 25 0 ∷ []) []
      created

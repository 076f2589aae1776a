-- ===== src/Harness/Readiness/Tests.antt =====
-- A graph with one topic, one service and one managed node.
use robotics_runtime.Base.{ℕ, String, ◌≡◌, refl, ◌↔◌, true, Option, none, some, [], ◌∷◌}
use robotics_runtime.Harness.ForbiddenGraph.{GraphSnapshot}
use robotics_runtime.Harness.Readiness.{
  ExpectedGraph, topic_part, node_part, few_publishers, no_message, wrong_state, evaluate_graph,
}
use robotics_runtime.Harness.Readiness.Expected.{IsAsExpected, evaluate_graph-nil_iff}

abbrev expected : ExpectedGraph ℕ
expected = record {
  topics =
      record {
        name = "/scan";
        type_name = "LaserScan";
        min_publishers = 1;
        min_subscribers = 0;
        first_message_timeout_sec = 5;
      }
      ∷ [];
  services = record { name = "/reset"; type_name = "Empty" } ∷ [];
  actions = [];
  lifecycle_nodes =
      record { name = "driver"; required_state = "active"; timeout_sec = 9; stable_for_sec = 1 }
      ∷ [];
}

abbrev snapshot : ℕ → Option ℕ → String → GraphSnapshot
snapshot publishers first_message_at_ns state = record {
  observed_at_ns = 3;
  topics =
      (
        "/scan",
        record {
          types = "LaserScan" ∷ [];
          publishers = publishers;
          subscribers = 0;
          first_message_at_ns = first_message_at_ns;
          qos_compatible = true;
        },
      )
      ∷ [];
  services = ("/reset", record { types = "Empty" ∷ []; server_nodes = 1; client_nodes = 0 }) ∷ [];
  actions = [];
  lifecycle_nodes = ("driver", record { state = state; observed_at_ns = 2 }) ∷ [];
  node_names = some ("driver" ∷ []);
}

complete : evaluate_graph expected (snapshot 1 (some 2) "active") ≡ []
unfolding evaluate_graph
complete = refl

lacking :
    evaluate_graph expected (snapshot 0 none "inactive")
    ≡ record { part = topic_part; index = 0; problem = few_publishers 1 0 }
      ∷ record { part = topic_part; index = 0; problem = no_message }
      ∷ record { part = node_part; index = 0; problem = wrong_state "driver" "active" "inactive" }
      ∷ []
unfolding evaluate_graph
lacking = refl

evaluate_graph-nil_iff_example :
    (evaluate_graph expected (snapshot 1 (some 2) "active") ≡ [])
    ↔ IsAsExpected expected (snapshot 1 (some 2) "active")
evaluate_graph-nil_iff_example = evaluate_graph-nil_iff expected (snapshot 1 (some 2) "active")

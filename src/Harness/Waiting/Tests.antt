-- ===== src/Harness/Waiting/Tests.antt =====
-- Waits of two seconds for a graph with one topic.
use robotics_runtime.Base.{
  ℕ, suc, ◌*◌, ◌≡◌, ◌≢◌, refl, inl, inr, arith, true, none, some, List, [], ◌∷◌, Any,
}
use robotics_runtime.Base.Float.{naturals}
use robotics_runtime.Harness.ForbiddenGraph.{GraphSnapshot}
use robotics_runtime.Harness.Readiness.{ExpectedGraph, ReadinessIssue, topic_part, few_publishers}
use robotics_runtime.Harness.Waiting.{
  ReadinessResult, ready, timed_out, polling, Poll, required_ns_of, wait_for_readiness,
}
use robotics_runtime.Harness.Waiting.Stable.{IsStable, wait_for_readiness-IsStable}
use robotics_runtime.Harness.Waiting.Deadline.{
  IsRaised, wait_for_readiness-ends, wait_for_readiness-timed_out,
}

abbrev expected : ExpectedGraph ℕ
expected = record {
  topics =
      record {
        name = "/scan";
        type_name = "LaserScan";
        min_publishers = 1;
        min_subscribers = 0;
        first_message_timeout_sec = 5;
      }
      ∷ [];
  services = [];
  actions = [];
  lifecycle_nodes = [];
}

abbrev snapshot : ℕ → GraphSnapshot
snapshot publishers = record {
  observed_at_ns = 3;
  topics =
      (
        "/scan",
        record {
          types = "LaserScan" ∷ [];
          publishers = publishers;
          subscribers = 0;
          first_message_at_ns = some 1;
          qos_compatible = true;
        },
      )
      ∷ [];
  services = [];
  actions = [];
  lifecycle_nodes = [];
  node_names = none;
}

abbrev nanoseconds : ℕ → ℕ
nanoseconds s = s * 1000000000

abbrev count_snapshots : GraphSnapshot → ℕ → ℕ
count_snapshots _ n = suc n

-- ready after one second, and long enough three seconds later
abbrev polls : List Poll
polls =
    (snapshot 0, 0)
    ∷ (snapshot 1, 1000000000)
    ∷ (snapshot 1, 2000000000)
    ∷ (snapshot 1, 3000000000)
    ∷ (snapshot 0, 4000000000)
    ∷ []

abbrev result : ReadinessResult ℕ
result = record { snapshot = snapshot 1; first_ready_at_ns = 1000000000; stable_for_sec = 2 }

returns : wait_for_readiness nanoseconds count_snapshots expected 8 2 0 polls 0 ≡ (ready result, 4)
unfolding wait_for_readiness
returns = refl

abbrev lacking : List (ReadinessIssue ℕ)
lacking = record { part = topic_part; index = 0; problem = few_publishers 1 0 } ∷ []

abbrev late : List Poll
late = (snapshot 1, 1000000000) ∷ (snapshot 0, 2000000000) ∷ []

raises :
    (wait_for_readiness nanoseconds count_snapshots expected 2 2 0 late 0).0 ≡ timed_out lacking
unfolding wait_for_readiness
raises = refl

returned : (wait_for_readiness nanoseconds count_snapshots expected 8 2 0 polls 0).0 ≡ ready result
unfolding wait_for_readiness
returned = refl

wait_for_readiness-IsStable_example :
    IsStable expected (required_ns_of nanoseconds expected 2) polls result
wait_for_readiness-IsStable_example =
    wait_for_readiness-IsStable nanoseconds count_snapshots expected 8 2 0 polls 0 result returned

wait_for_readiness-ends_example :
    (wait_for_readiness nanoseconds count_snapshots expected 2 2 0 late 0).0 ≢ polling
wait_for_readiness-ends_example =
    wait_for_readiness-ends nanoseconds count_snapshots expected 2 2 0 late 0
      (inr (inl (omega arith)))

wait_for_readiness-timed_out_example : Any (IsRaised expected 0 2000000000 lacking) late
wait_for_readiness-timed_out_example =
    wait_for_readiness-timed_out nanoseconds count_snapshots expected 2 2 0 late 0 lacking raises

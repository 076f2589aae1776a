-- ===== src/Harness/ForbiddenGraph.antt =====
-- packages/harness/src/robotics_acceptance_harness/forbidden_graph.py
--
-- A mapping of the snapshot is a list of entries with distinct keys, and the set of violations a
-- list without repetitions.
pub mod Observed
mod Tests
use robotics_runtime.Base.{
  ℕ, String, Bool, true, false, ◌&&◌, ◌||◌, Option, none, some, List, [], ◌∷◌, ◌++◌, str_eq, ltb,
  if◌then◌else◌, any,
}
use robotics_runtime.Harness.Series.{sorted, str_lt}
use robotics_runtime.Harness.Merging.{lookup}

-- `TopicObservation` and `EndpointObservation` of readiness.py
pub record TopicObservation : Type 0 where
  pub types : List String
  pub publishers : ℕ
  pub subscribers : ℕ
  pub first_message_at_ns : Option ℕ
  pub qos_compatible : Bool

pub record EndpointObservation : Type 0 where
  pub types : List String
  pub server_nodes : ℕ
  pub client_nodes : ℕ

pub record LifecycleObservation : Type 0 where
  pub state : String
  pub observed_at_ns : ℕ

-- `GraphSnapshot` of readiness.py
pub record GraphSnapshot : Type 0 where
  pub observed_at_ns : ℕ
  pub topics : List (String × TopicObservation)
  pub services : List (String × EndpointObservation)
  pub actions : List (String × EndpointObservation)
  pub lifecycle_nodes : List (String × LifecycleObservation)
  pub node_names : Option (List String)

-- The mapping `forbidden_graph`, with its three members.
pub record ForbiddenNames : Type 0 where
  pub topics : List String
  pub services : List String
  pub actions : List String

pub data Kind : Type 0 where
  topic service action : Kind

-- the string that stands for a kind
abbrev pub kind_name : Kind → String
kind_name topic = "topic"
kind_name service = "service"
kind_name action = "action"

-- `ForbiddenGraphViolation`: its kind and its name
abbrev pub ForbiddenGraphViolation : Type 0
ForbiddenGraphViolation = Kind × String

abbrev pub kind_eq : Kind → Kind → Bool
kind_eq topic topic = true
kind_eq service service = true
kind_eq action action = true
kind_eq _ _ = false

abbrev pub violation_eq : ForbiddenGraphViolation → ForbiddenGraphViolation → Bool
violation_eq (k, a) (j, b) = kind_eq k j && str_eq a b

-- the order of the dataclass
abbrev pub violation_before : ForbiddenGraphViolation → ForbiddenGraphViolation → Bool
violation_before (k, a) (j, b) =
    str_lt (kind_name k) (kind_name j) || (str_eq (kind_name k) (kind_name j) && str_lt a b)

pub record ForbiddenGraphObservation : Type 0 where
  pub checked_topics : List String
  pub checked_services : List String
  pub checked_actions : List String
  pub violations : List ForbiddenGraphViolation

-- `ForbiddenGraphObservation.passed`
abbrev pub passed : ForbiddenGraphObservation → Bool
passed o = elim o.violations [ [] ↦ true | v ∷ vs ↦ false ]

-- `observed is not None and observed.publishers > 0`
abbrev pub is_published : GraphSnapshot → String → Bool
is_published snapshot name = elim (lookup name snapshot.topics) [
  | none ↦ false
  | some o ↦ ltb 0 o.publishers
]

abbrev pub is_served : List (String × EndpointObservation) → String → Bool
is_served endpoints name = elim (lookup name endpoints) [
  | none ↦ false
  | some o ↦ ltb 0 o.server_nodes
]

-- one of the three loops of `find_forbidden_graph_violations`
unfoldable pub violations_of : Kind → (String → Bool) → List String → List ForbiddenGraphViolation
violations_of kind is_live [] = []
violations_of kind is_live (name ∷ names) =
    let rest = violations_of kind is_live names in
    if is_live name then (kind, name) ∷ rest else rest

-- `find_forbidden_graph_violations`
unfoldable pub find_forbidden_graph_violations :
    ForbiddenNames → GraphSnapshot → List ForbiddenGraphViolation
unfolding violations_of sorted
find_forbidden_graph_violations forbidden snapshot = sorted violation_before (
    violations_of topic (is_published snapshot) forbidden.topics
    ++ (violations_of service (is_served snapshot.services) forbidden.services
        ++ violations_of action (is_served snapshot.actions) forbidden.actions))

-- `ForbiddenGraphMonitor`
pub record ForbiddenGraphMonitor : Type 0 where
  pub forbidden_graph : ForbiddenNames
  pub violations : List ForbiddenGraphViolation

abbrev pub monitor_of : ForbiddenNames → ForbiddenGraphMonitor
monitor_of forbidden = record { forbidden_graph = forbidden; violations = [] }

-- `set.update`
unfoldable pub update :
    List ForbiddenGraphViolation → List ForbiddenGraphViolation → List ForbiddenGraphViolation
update held [] = held
update held (v ∷ vs) = update (if any (violation_eq v) held then held else v ∷ held) vs

-- `ForbiddenGraphMonitor.observe`
unfoldable pub observe : ForbiddenGraphMonitor → GraphSnapshot → ForbiddenGraphMonitor
unfolding update find_forbidden_graph_violations
observe m snapshot = record {
  forbidden_graph = m.forbidden_graph;
  violations = update m.violations (find_forbidden_graph_violations m.forbidden_graph snapshot);
}

-- the snapshots of a window, one after another
unfoldable pub observe_all : ForbiddenGraphMonitor → List GraphSnapshot → ForbiddenGraphMonitor
unfolding observe
observe_all m [] = m
observe_all m (s ∷ ss) = observe_all (observe m s) ss

-- `ForbiddenGraphMonitor.result`
unfoldable pub result : ForbiddenGraphMonitor → ForbiddenGraphObservation
unfolding sorted
result m = record {
  checked_topics = sorted str_lt m.forbidden_graph.topics;
  checked_services = sorted str_lt m.forbidden_graph.services;
  checked_actions = sorted str_lt m.forbidden_graph.actions;
  violations = sorted violation_before m.violations;
}

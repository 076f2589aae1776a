-- ===== src/Harness/Readiness.antt =====
-- packages/harness/src/robotics_acceptance_harness/readiness.py: what the expected graph lacks in
-- one snapshot.
--
-- An issue holds the values that its path and its message show.
pub mod Expected
mod Tests
use robotics_runtime.Base.{
  ℕ, suc, String, Bool, true, false, not, Option, none, some, List, [], ◌∷◌, ◌++◌, str_eq, ltb,
  if◌then◌else◌, any,
}
use robotics_runtime.Harness.Merging.{lookup}
use robotics_runtime.Harness.ForbiddenGraph.{
  GraphSnapshot, TopicObservation, EndpointObservation, LifecycleObservation,
}

pub record ExpectedTopic (F : Type 0) : Type 0 where
  pub name : String
  pub type_name : String
  pub min_publishers : ℕ
  pub min_subscribers : ℕ
  pub first_message_timeout_sec : F

pub record ExpectedEndpoint : Type 0 where
  pub name : String
  pub type_name : String

pub record ExpectedNode (F : Type 0) : Type 0 where
  pub name : String
  pub required_state : String
  pub timeout_sec : F
  pub stable_for_sec : F

-- the mapping `expected_graph`
pub record ExpectedGraph (F : Type 0) : Type 0 where
  pub topics : List (ExpectedTopic F)
  pub services : List ExpectedEndpoint
  pub actions : List ExpectedEndpoint
  pub lifecycle_nodes : List (ExpectedNode F)

-- the member of the expected graph that an issue's path names
pub data Part : Type 0 where
  topic_part service_part action_part node_part : Part

pub data Problem (F : Type 0) : Type 0 where
  absent : String → Problem F
  wrong_type : String → List String → Problem F
  few_publishers few_subscribers : ℕ → ℕ → Problem F
  incompatible_qos no_message : Problem F
  state_unavailable : String → Problem F
  wrong_state : String → String → String → Problem F
  no_message_before : F → Problem F
  state_not_reached : String → Option String → Problem F

-- `ReadinessIssue`
pub record ReadinessIssue (F : Type 0) : Type 0 where
  pub part : Part
  pub index : ℕ
  pub problem : Problem F

pub data IssueStatus : Type 0 where
  failed error : IssueStatus

-- the field `status`
abbrev pub status_of : {F : Type 0} → ReadinessIssue F → IssueStatus
status_of i = elim i.problem [ no_message ↦ error | state_unavailable _ ↦ error | _ ↦ failed ]

-- `if bad: issues.append(issue)`, before the issues that follow
abbrev pub issue_if :
    {F : Type 0} → Bool → Part → ℕ → Problem F → List (ReadinessIssue F) → List (ReadinessIssue F)
issue_if bad part index problem rest =
    if bad then record { part = part; index = index; problem = problem } ∷ rest else rest

abbrev pub is_none : {A : Type 0} → Option A → Bool
is_none none = true
is_none (some a) = false

-- `snapshot.node_names is not None and name not in snapshot.node_names`
abbrev pub is_missing : Option (List String) → String → Bool
is_missing none name = false
is_missing (some names) name = not (any (str_eq name) names)

module _ {F : Type 0} where
  -- one turn of the loop of `_check_topics`
  unfoldable pub check_topic :
      ℕ → ExpectedTopic F → Option TopicObservation → List (ReadinessIssue F)
  check_topic index expected none = issue_if true topic_part index (absent expected.name) []
  check_topic index expected (some o) =
      issue_if (not (any (str_eq expected.type_name) o.types)) topic_part index
        (wrong_type expected.type_name o.types)
        (issue_if (ltb o.publishers expected.min_publishers) topic_part index
          (few_publishers expected.min_publishers o.publishers)
          (issue_if (ltb o.subscribers expected.min_subscribers) topic_part index
            (few_subscribers expected.min_subscribers o.subscribers)
            (issue_if (not o.qos_compatible) topic_part index incompatible_qos
              (issue_if (is_none o.first_message_at_ns) topic_part index no_message []))))

  -- `_check_topics`, from an index on
  unfoldable pub check_topics : ℕ → List (ExpectedTopic F) → GraphSnapshot → List (ReadinessIssue F)
  unfolding check_topic
  check_topics index [] snapshot = []
  check_topics index (e ∷ es) snapshot =
      check_topic index e (lookup e.name snapshot.topics) ++ check_topics (suc index) es snapshot

  -- one turn of the loop of `_check_endpoints`
  unfoldable pub check_endpoint :
      Part → ℕ → ExpectedEndpoint → Option EndpointObservation → List (ReadinessIssue F)
  check_endpoint kind index expected none = issue_if true kind index (absent expected.name) []
  check_endpoint kind index expected (some o) =
      if ltb o.server_nodes 1
      then issue_if true kind index (absent expected.name) []
      else issue_if (not (any (str_eq expected.type_name) o.types)) kind index
          (wrong_type expected.type_name o.types) []

  -- `_check_endpoints`, from an index on
  unfoldable pub check_endpoints :
      Part
      → ℕ
      → List ExpectedEndpoint
      → List (String × EndpointObservation)
      → List (ReadinessIssue F)
  unfolding check_endpoint
  check_endpoints kind index [] observed = []
  check_endpoints kind index (e ∷ es) observed =
      check_endpoint kind index e (lookup e.name observed)
      ++ check_endpoints kind (suc index) es observed

  -- the last two branches of `_check_lifecycle`
  unfoldable pub check_state :
      ℕ → ExpectedNode F → Option LifecycleObservation → List (ReadinessIssue F)
  check_state index expected none =
      issue_if true node_part index (state_unavailable expected.name) []
  check_state index expected (some o) =
      if str_eq o.state "unknown"
      then issue_if true node_part index (state_unavailable expected.name) []
      else issue_if (not (str_eq o.state expected.required_state)) node_part index
          (wrong_state expected.name expected.required_state o.state) []

  -- `_check_lifecycle`, from an index on
  unfoldable pub check_lifecycle :
      ℕ → List (ExpectedNode F) → GraphSnapshot → List (ReadinessIssue F)
  unfolding check_state
  check_lifecycle index [] snapshot = []
  check_lifecycle index (e ∷ es) snapshot =
      (if is_missing snapshot.node_names e.name
        then issue_if true node_part index (absent e.name) []
        else check_state index e (lookup e.name snapshot.lifecycle_nodes))
      ++ check_lifecycle (suc index) es snapshot

  -- `evaluate_graph`
  unfoldable pub evaluate_graph : ExpectedGraph F → GraphSnapshot → List (ReadinessIssue F)
  unfolding check_topics check_endpoints check_lifecycle
  evaluate_graph expected snapshot =
      check_topics 0 expected.topics snapshot
      ++ (check_endpoints service_part 0 expected.services snapshot.services
          ++ (check_endpoints action_part 0 expected.actions snapshot.actions
              ++ check_lifecycle 0 expected.lifecycle_nodes snapshot))

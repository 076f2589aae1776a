-- ===== src/Harness/Readiness/Expected.antt =====
-- packages/harness/src/robotics_acceptance_harness/readiness.py: when the expected graph lacks
-- nothing in a snapshot.
use robotics_runtime.Base.{
  ℕ, suc, ◌≤◌, String, ◌≡◌, refl, sym, ap, ◌∙◌, subst, ◌≢◌, ◌↔◌, inl, inr, true, false, Option,
  none, some, List, [], ◌∷◌, ◌++◌, some_injective, arith, str_eq, eq_iff, if◌then◌else◌,
  Option-cases, any, All, Any, any_iff,
}
use robotics_runtime.Harness.Merging.{lookup}
use robotics_runtime.Harness.ForbiddenGraph.{
  GraphSnapshot, TopicObservation, EndpointObservation, LifecycleObservation,
}
use robotics_runtime.Harness.Readiness.{
  ExpectedTopic, ExpectedEndpoint, ExpectedNode, ExpectedGraph, Part, service_part, action_part,
  node_part, absent, ReadinessIssue, is_missing, check_topic, check_topics, check_endpoint,
  check_endpoints, check_state, check_lifecycle, evaluate_graph,
}

append-nil_iff : {A : Type 0} (xs ys : List A) → ((xs ++ ys) ≡ []) ↔ ((xs ≡ []) × (ys ≡ []))
append-nil_iff [] ys = (λ h. (refl, h), λ (_, h). h)
append-nil_iff (x ∷ xs) ys = (λ h. absurd (cc), λ (h, _). absurd (cc))

-- a text among others
abbrev pub Stands : String → List String → Type 0
Stands name names = Any (λ n. name ≡ n) names

stands_iff :
    (name : String) (names : List String) → (any (str_eq name) names ≡ true) ↔ Stands name names
stands_iff name names = any_iff (λ n. name ≡ n) (str_eq name) (λ n. eq_iff name n) names

-- An endpoint has a server and its type.
pub record IsServed (e : ExpectedEndpoint) (found : Option EndpointObservation) : Type 0 where
  observed : EndpointObservation
  is_found : found ≡ some observed
  served : 1 ≤ observed.server_nodes
  typed : Stands e.type_name observed.types

is_missing_iff :
    (names : Option (List String)) (name : String)
    → (is_missing names name ≡ false)
      ↔ ((reported : List String) → names ≡ some reported → Stands name reported)
is_missing_iff none name = (λ h reported e. absurd (cc), λ f. refl)
is_missing_iff (some names) name = (
  λ h reported e.
      subst (Stands name) (some_injective e) ((stands_iff name names).0 (ground (arith, h))),
  λ f. rw ((stands_iff name names).1 (f names refl)) refl,
)

module _ {F : Type 0} where
  -- A topic is there with its type, as many publishers and subscribers as expected, a compatible
  -- QoS and a first message.
  pub record IsTopicUp (e : ExpectedTopic F) (found : Option TopicObservation) : Type 0 where
    observed : TopicObservation
    is_found : found ≡ some observed
    typed : Stands e.type_name observed.types
    published : e.min_publishers ≤ observed.publishers
    subscribed : e.min_subscribers ≤ observed.subscribers
    compatible : observed.qos_compatible ≡ true
    message_at : ℕ
    messaged : observed.first_message_at_ns ≡ some message_at

  check_topic-nil :
      (index : ℕ) (e : ExpectedTopic F) (found : Option TopicObservation)
      → check_topic index e found ≡ []
      → IsTopicUp e found
  unfolding check_topic
  check_topic-nil index e none h = absurd (cc)
  check_topic-nil index e (some o) h = elim (Option-cases o.first_message_at_ns) [
    | inl n ↦ absurd (ground (arith, h, n))
    | inr (t, m) ↦ record {
      observed = o;
      is_found = refl;
      typed = (stands_iff e.type_name o.types).0 (ground (arith, h));
      published = ground (arith, h);
      subscribed = ground (arith, h);
      compatible = ground (arith, h);
      message_at = t;
      messaged = m;
    }
  ]

  nil-check_topic :
      (index : ℕ) (e : ExpectedTopic F) (found : Option TopicObservation)
      → IsTopicUp e found
      → check_topic index e found ≡ []
  unfolding check_topic
  nil-check_topic index e found u = rw u.is_found (
      rw
        (check_topic, (stands_iff e.type_name u.observed.types).1 u.typed, u.compatible, u.messaged)
        (ground (arith, u.published, u.subscribed)))

  -- A managed node is present, if presence is reported, and in the required state, which is known.
  pub record IsInState (names : Option (List String)) (e : ExpectedNode F)
      (found : Option LifecycleObservation) : Type 0 where
    present : (reported : List String) → names ≡ some reported → Stands e.name reported
    observed : LifecycleObservation
    is_found : found ≡ some observed
    known : observed.state ≢ "unknown"
    required : observed.state ≡ e.required_state

  check_endpoint_iff :
      (kind : Part) (index : ℕ) (e : ExpectedEndpoint) (found : Option EndpointObservation)
      → (check_endpoint {F = F} kind index e found ≡ []) ↔ IsServed e found
  unfolding check_endpoint
  check_endpoint_iff kind index e none = (λ h. absurd (cc), λ s. absurd (cc (s.is_found)))
  check_endpoint_iff kind index e (some o) = (
    λ h. record {
      observed = o;
      is_found = refl;
      served = ground (arith, h);
      typed = (stands_iff e.type_name o.types).0 (ground (arith, h));
    },
    λ s. ground (arith, s.served, (stands_iff e.type_name s.observed.types).1 s.typed, s.is_found),
  )

  check_state_iff :
      (index : ℕ) (e : ExpectedNode F) (names : Option (List String))
      (found : Option LifecycleObservation)
      → ((if is_missing names e.name
            then record { part = node_part; index = index; problem = absent e.name } ∷ []
            else check_state index e found)
          ≡ [])
        ↔ IsInState names e found
  unfolding check_state
  check_state_iff index e names none =
      (λ h. absurd (ground (arith, h)), λ s. absurd (cc (s.is_found)))
  check_state_iff index e names (some o) = (
    λ h. record {
      present = (is_missing_iff names e.name).0 (ground (arith, h));
      observed = o;
      is_found = refl;
      known = λ u. ground (arith, h, (eq_iff o.state "unknown").1 u);
      required = (eq_iff o.state e.required_state).0 (ground (arith, h));
    },
    λ s.
        let same : o ≡ s.observed = some_injective s.is_found in
        let state : o.state ≡ e.required_state = ap (λ t. t.state) same ∙ s.required in
        let known : o.state ≢ "unknown" = λ u. s.known (sym (ap (λ t. t.state) same) ∙ u) in
        rw ((is_missing_iff names e.name).1 s.present, (eq_iff o.state e.required_state).1 state)
          (ground (arith, eq_iff o.state "unknown", known)),
  )

  check_topics_iff :
      (index : ℕ) (es : List (ExpectedTopic F)) (sn : GraphSnapshot)
      → (check_topics index es sn ≡ []) ↔ All (λ e. IsTopicUp e (lookup e.name sn.topics)) es
  unfolding check_topics
  check_topics_iff index [] sn = (λ h. tt, λ h. refl)
  check_topics_iff index (e ∷ es) sn =
      let first = lookup e.name sn.topics in
      let parts = append-nil_iff (check_topic index e first) (check_topics (suc index) es sn) in
      let rest = check_topics_iff (suc index) es sn in
      (
        λ h. let (a, b) = parts.0 h in (check_topic-nil index e first a, rest.0 b),
        λ (a, b). parts.1 (nil-check_topic index e first a, rest.1 b),
      )

  check_endpoints_iff :
      (kind : Part) (index : ℕ) (es : List ExpectedEndpoint)
      (found : List (String × EndpointObservation))
      → (check_endpoints {F = F} kind index es found ≡ [])
        ↔ All (λ e. IsServed e (lookup e.name found)) es
  unfolding check_endpoints
  check_endpoints_iff kind index [] found = (λ h. tt, λ h. refl)
  check_endpoints_iff kind index (e ∷ es) found =
      let first = lookup e.name found in
      let parts =
        append-nil_iff (check_endpoint {F = F} kind index e first)
          (check_endpoints kind (suc index) es found) in
      let rest = check_endpoints_iff kind (suc index) es found in
      (
        λ h. let (a, b) = parts.0 h in ((check_endpoint_iff kind index e first).0 a, rest.0 b),
        λ (a, b). parts.1 ((check_endpoint_iff kind index e first).1 a, rest.1 b),
      )

  check_lifecycle_iff :
      (index : ℕ) (es : List (ExpectedNode F)) (sn : GraphSnapshot)
      → (check_lifecycle index es sn ≡ [])
        ↔ All (λ e. IsInState sn.node_names e (lookup e.name sn.lifecycle_nodes)) es
  unfolding check_lifecycle
  check_lifecycle_iff index [] sn = (λ h. tt, λ h. refl)
  check_lifecycle_iff index (e ∷ es) sn =
      let first = lookup e.name sn.lifecycle_nodes in
      let parts = append-nil_iff _ (check_lifecycle (suc index) es sn) in
      let rest = check_lifecycle_iff (suc index) es sn in
      (
        λ h.
            let (a, b) = parts.0 h in ((check_state_iff index e sn.node_names first).0 a, rest.0 b),
        λ (a, b). parts.1 ((check_state_iff index e sn.node_names first).1 a, rest.1 b),
      )

  -- Everything that the expected graph names is there.
  pub record IsAsExpected (expected : ExpectedGraph F) (sn : GraphSnapshot) : Type 0 where
    topics : All (λ e. IsTopicUp e (lookup e.name sn.topics)) expected.topics
    services : All (λ e. IsServed e (lookup e.name sn.services)) expected.services
    actions : All (λ e. IsServed e (lookup e.name sn.actions)) expected.actions
    nodes :
        All
          (λ e. IsInState sn.node_names e (lookup e.name sn.lifecycle_nodes))
          expected.lifecycle_nodes

  -- A snapshot has no issue exactly when it is as expected: each topic is there with its type,
  -- enough publishers and subscribers, a compatible QoS and a first message, each service and
  -- action has a server and its type, and each managed node is present, if presence is reported,
  -- and in its required state, which is known.
  pub evaluate_graph-nil_iff :
      (expected : ExpectedGraph F) (sn : GraphSnapshot)
      → (evaluate_graph expected sn ≡ []) ↔ IsAsExpected expected sn
  unfolding evaluate_graph
  evaluate_graph-nil_iff expected sn = (
    λ h.
        let (a, h1) = first.0 h in
        let (b, h2) = second.0 h1 in
        let (c, d) = third.0 h2 in
        record {
          topics = (check_topics_iff 0 expected.topics sn).0 a;
          services = (check_endpoints_iff service_part 0 expected.services sn.services).0 b;
          actions = (check_endpoints_iff action_part 0 expected.actions sn.actions).0 c;
          nodes = (check_lifecycle_iff 0 expected.lifecycle_nodes sn).0 d;
        },
    λ r. first.1 (
      (check_topics_iff 0 expected.topics sn).1 r.topics,
      second.1 (
        (check_endpoints_iff service_part 0 expected.services sn.services).1 r.services,
        third.1 (
          (check_endpoints_iff action_part 0 expected.actions sn.actions).1 r.actions,
          (check_lifecycle_iff 0 expected.lifecycle_nodes sn).1 r.nodes,
        ),
      ),
    ),
  )
    where
      nodes : List (ReadinessIssue F)
      nodes = check_lifecycle 0 expected.lifecycle_nodes sn

      actions : List (ReadinessIssue F)
      actions = check_endpoints action_part 0 expected.actions sn.actions

      services : List (ReadinessIssue F)
      services = check_endpoints service_part 0 expected.services sn.services

      third : ((actions ++ nodes) ≡ []) ↔ ((actions ≡ []) × (nodes ≡ []))
      third = append-nil_iff actions nodes

      second :
          ((services ++ (actions ++ nodes)) ≡ []) ↔ ((services ≡ []) × ((actions ++ nodes) ≡ []))
      second = append-nil_iff services (actions ++ nodes)

      first :
          (evaluate_graph expected sn ≡ [])
          ↔ ((check_topics 0 expected.topics sn ≡ []) × ((services ++ (actions ++ nodes)) ≡ []))
      first = append-nil_iff (check_topics 0 expected.topics sn) (services ++ (actions ++ nodes))

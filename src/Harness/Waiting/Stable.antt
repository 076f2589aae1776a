-- ===== src/Harness/Waiting/Stable.antt =====
-- packages/harness/src/robotics_acceptance_harness/readiness.py: a wait that returns has seen the
-- graph complete in every poll of one uninterrupted window.
use robotics_runtime.Base.{
  ℕ, ◌+◌, ◌-◌, ◌≤◌, ◌≡◌, refl, sym, ap, ◌∙◌, subst, ◌⊎◌, inl, inr, Bool, true, false, Option, none,
  some, List, [], ◌∷◌, ◌++◌, some_injective, arith, leb, if◌then◌else◌, Bool-cases, le_of_leb, All,
}
use robotics_runtime.Base.Float.{Finite}
use robotics_runtime.Harness.ForbiddenGraph.{GraphSnapshot}
use robotics_runtime.Harness.Readiness.{ExpectedGraph, ReadinessIssue, evaluate_graph}
use robotics_runtime.Harness.Waiting.{
  ReadinessResult, Wait, ready, Poll, seconds, first_ready, decided, turn, wait_loop,
  required_ns_of, wait_for_readiness, expired_readiness_issues,
}

List-cases : {A : Type 0} (xs : List A) → (xs ≡ []) ⊎ ((x : A) × (rest : List A) × (xs ≡ x ∷ rest))
List-cases [] = inl refl
List-cases (x ∷ xs) = inr (x, xs, refl)

-- the first and the last of some polls that start with one
abbrev pub last_of : {A : Type 0} → A → List A → A
last_of p [] = p
last_of p (q ∷ qs) = last_of q qs

module _ {F : Type 0} where
  -- The expected graph lacks nothing in a poll's snapshot.
  abbrev pub IsComplete : ExpectedGraph F → Poll → Type 0
  IsComplete expected (snapshot, _) = evaluate_graph expected snapshot ≡ []

module _ {F : Type 0} ⦃finites : Finite F⦄ (required_ns : ℕ) where
  -- What a turn that returns a result has found.
  pub record IsLast (since : ℕ) (p : Poll) (r : ReadinessResult F) : Type 0 where
    since_then : r.first_ready_at_ns ≡ since
    returned : p.0 ≡ r.snapshot
    long_enough : required_ns ≤ p.1 - since
    duration : r.stable_for_sec ≡ seconds (p.1 - since)

module _ {F : Type 0} ⦃finites : Finite F⦄ (expected : ExpectedGraph F) (required_ns : ℕ) where
  -- The polls go on with a window that began at `since` and in which nothing is lacking; its last
  -- poll is late enough and has the snapshot that is returned.
  pub record IsOngoing (since : ℕ) (polls : List Poll) (r : ReadinessResult F) : Type 0 where
    opening : Poll
    window : List Poll
    rest : List Poll
    split : polls ≡ (opening ∷ window) ++ rest
    complete : All (IsComplete expected) (opening ∷ window)
    since_then : r.first_ready_at_ns ≡ since
    returned : (last_of opening window).0 ≡ r.snapshot
    long_enough : required_ns ≤ (last_of opening window).1 - since
    duration : r.stable_for_sec ≡ seconds ((last_of opening window).1 - since)

  -- After some polls stands such a window, and it began with the clock of its first poll.
  pub record IsStable (polls : List Poll) (r : ReadinessResult F) : Type 0 where
    before : List Poll
    opening : Poll
    window : List Poll
    rest : List Poll
    split : polls ≡ before ++ ((opening ∷ window) ++ rest)
    complete : All (IsComplete expected) (opening ∷ window)
    since_then : r.first_ready_at_ns ≡ opening.1
    returned : (last_of opening window).0 ≡ r.snapshot
    long_enough : required_ns ≤ (last_of opening window).1 - opening.1
    duration : r.stable_for_sec ≡ seconds ((last_of opening window).1 - opening.1)

  abbrev IsStableSince : Option ℕ → List Poll → ReadinessResult F → Type 0
  IsStableSince none polls r = IsStable polls r
  IsStableSince (some t) polls r = IsOngoing t polls r ⊎ IsStable polls r

  later :
      (p : Poll) {polls : List Poll} {r : ReadinessResult F}
      → IsStable polls r
      → IsStable (p ∷ polls) r
  later p s = record {
    before = p ∷ s.before;
    opening = s.opening;
    window = s.window;
    rest = s.rest;
    split = ap (λ t. p ∷ t) s.split;
    complete = s.complete;
    since_then = s.since_then;
    returned = s.returned;
    long_enough = s.long_enough;
    duration = s.duration;
  }

  longer_window :
      (p : Poll) {since : ℕ} {polls : List Poll} {r : ReadinessResult F}
      → IsComplete expected p
      → IsOngoing since polls r
      → IsOngoing since (p ∷ polls) r
  longer_window p c o = record {
    opening = p;
    window = o.opening ∷ o.window;
    rest = o.rest;
    split = ap (λ t. p ∷ t) o.split;
    complete = (c, o.complete);
    since_then = o.since_then;
    returned = o.returned;
    long_enough = o.long_enough;
    duration = o.duration;
  }

  -- A window that goes on since the clock of its first poll is one of its own.
  begun :
      (p : Poll) {polls : List Poll} {r : ReadinessResult F}
      → IsComplete expected p
      → IsOngoing p.1 polls r
      → IsStable (p ∷ polls) r
  begun p c o = record {
    before = [];
    opening = p;
    window = o.opening ∷ o.window;
    rest = o.rest;
    split = ap (λ t. p ∷ t) o.split;
    complete = (c, o.complete);
    since_then = o.since_then;
    returned = o.returned;
    long_enough = o.long_enough;
    duration = o.duration;
  }

  last-IsStable :
      (p : Poll) (rest : List Poll) {r : ReadinessResult F}
      → IsComplete expected p
      → IsLast required_ns p.1 p r
      → IsStable (p ∷ rest) r
  last-IsStable p rest c l = record {
    before = [];
    opening = p;
    window = [];
    rest = rest;
    split = refl;
    complete = (c, tt);
    since_then = l.since_then;
    returned = l.returned;
    long_enough = l.long_enough;
    duration = l.duration;
  }

  last-IsOngoing :
      (p : Poll) (rest : List Poll) {since : ℕ} {r : ReadinessResult F}
      → IsComplete expected p
      → IsLast required_ns since p r
      → IsOngoing since (p ∷ rest) r
  last-IsOngoing p rest c l = record {
    opening = p;
    window = [];
    rest = rest;
    split = refl;
    complete = (c, tt);
    since_then = l.since_then;
    returned = l.returned;
    long_enough = l.long_enough;
    duration = l.duration;
  }

-- the value of a conditional whose test holds
taken : {A : Type 0} (b : Bool) {x z : A} (y : A) → b ≡ true → (if b then x else y) ≡ z → x ≡ z
taken true y e h = h
taken false y e h = absurd (cc)

ready_injective :
    {F : Type 0} {r q : ReadinessResult F}
    → ◌≡◌ {A = Option (Wait F)} (some (ready r)) (some (ready q))
    → r ≡ q
ready_injective h = cc

module _ {F : Type 0} ⦃finites : Finite F⦄ (deadline_ns required_ns : ℕ) where
  decided-ready :
      (expired issues : List (ReadinessIssue F)) (since : Option ℕ) (p : Poll)
      (r : ReadinessResult F)
      → decided deadline_ns required_ns expired issues since p ≡ some (ready r)
      → (t : ℕ) × (since ≡ some t) × IsLast required_ns t p r
  unfolding decided
  decided-ready (i ∷ is) issues since p r h = absurd (cc)
  decided-ready [] issues none (sn, now) r h = absurd (ground (arith, h))
  decided-ready [] issues (some t) (sn, now) r h = (
    t,
    refl,
    elim (Bool-cases (leb required_ns (now - t))) [
      | inl e ↦
          subst (IsLast required_ns t (sn, now))
            (ready_injective (taken (leb required_ns (now - t)) _ e h))
            (record {
              since_then = refl;
              returned = refl;
              long_enough = le_of_leb e;
              duration = refl;
            })
      | inr e ↦ absurd (ground (arith, h, e))
    ],
  )

module _ {F : Type 0} ⦃finites : Finite F⦄ (expected : ExpectedGraph F)
    (started_at_ns deadline_ns required_ns : ℕ) where
  -- A turn that returns found nothing lacking.
  first_ready-some :
      (issues : List (ReadinessIssue F)) (since : Option ℕ) (now t : ℕ)
      → first_ready issues since now ≡ some t
      → issues ≡ []
  first_ready-some [] since now t h = refl
  first_ready-some (i ∷ is) since now t h = absurd (cc)

  turn-ready :
      (since : Option ℕ) (p : Poll) (r : ReadinessResult F)
      → turn expected started_at_ns deadline_ns required_ns since p ≡ some (ready r)
      → IsComplete expected p
        × ((t : ℕ) × (first_ready {F = F} [] since p.1 ≡ some t) × IsLast required_ns t p r)
  unfolding turn
  turn-ready since (sn, now) r h =
      let (t, e, l) =
        decided-ready deadline_ns required_ns
          (expired_readiness_issues expected sn (seconds (now - started_at_ns)))
          (evaluate_graph expected sn) (first_ready (evaluate_graph expected sn) since now)
          (sn, now) r h in
      let c = first_ready-some (evaluate_graph expected sn) since now t e in
      (c, (t, subst (λ is. first_ready is since now ≡ some t) c e, l))

  -- The step of the loop: what stands behind a poll, with the poll.
  ended :
      (since : Option ℕ) (p : Poll) (polls : List Poll) (r : ReadinessResult F)
      → turn expected started_at_ns deadline_ns required_ns since p ≡ some (ready r)
      → IsStableSince expected required_ns since (p ∷ polls) r
  ended none (sn, now) polls r h =
      let (c, (t, e, l)) = turn-ready none (sn, now) r h in
      last-IsStable expected required_ns (sn, now) polls c
        (subst (λ s. IsLast required_ns s (sn, now) r) (sym (some_injective e)) l)
  ended (some s) (sn, now) polls r h =
      let (c, (t, e, l)) = turn-ready (some s) (sn, now) r h in
      inl (
        last-IsOngoing expected required_ns (sn, now) polls c
          (subst (λ s. IsLast required_ns s (sn, now) r) (sym (some_injective e)) l))

  went_on :
      (since : Option ℕ) (p : Poll) (polls : List Poll) (r : ReadinessResult F)
      → IsStableSince expected required_ns
          (first_ready (evaluate_graph expected p.0) since p.1)
          polls
          r
      → IsStableSince expected required_ns since (p ∷ polls) r
  went_on since (sn, now) polls r h = by_issues since (evaluate_graph expected sn) refl h
    where
      by_issues :
          (since : Option ℕ) (issues : List (ReadinessIssue F))
          → evaluate_graph expected sn ≡ issues
          → IsStableSince expected required_ns (first_ready issues since now) polls r
          → IsStableSince expected required_ns since ((sn, now) ∷ polls) r
      by_issues none [] c h = elim h [
        | inl o ↦ begun expected required_ns (sn, now) c o
        | inr s ↦ later expected required_ns (sn, now) s
      ]
      by_issues (some t) [] c h = elim h [
        | inl o ↦ inl (longer_window expected required_ns (sn, now) c o)
        | inr s ↦ inr (later expected required_ns (sn, now) s)
      ]
      by_issues none (i ∷ is) c h = later expected required_ns (sn, now) h
      by_issues (some t) (i ∷ is) c h = inr (later expected required_ns (sn, now) h)

module _ {F : Type 0} ⦃finites : Finite F⦄ {S : Type 0} (on_snapshot : GraphSnapshot → S → S)
    (expected : ExpectedGraph F) (started_at_ns deadline_ns required_ns : ℕ) where
  wait_loop-ready :
      (since : Option ℕ) (polls : List Poll) (state : S) (r : ReadinessResult F)
      → (wait_loop on_snapshot expected started_at_ns deadline_ns required_ns since polls state).0
        ≡ ready r
      → IsStableSince expected required_ns since polls r
  unfolding wait_loop
  wait_loop-ready since [] state r h = absurd (cc)
  wait_loop-ready since ((sn, now) ∷ polls) state r h =
      by_turn (turn expected started_at_ns deadline_ns required_ns since (sn, now)) refl h (
        wait_loop-ready (first_ready (evaluate_graph expected sn) since now) polls
          (on_snapshot sn state) r)
    where
      rest : Wait F × S
      rest =
          wait_loop on_snapshot expected started_at_ns deadline_ns required_ns
            (first_ready (evaluate_graph expected sn) since now) polls (on_snapshot sn state)

      by_turn :
          (o : Option (Wait F))
          → turn expected started_at_ns deadline_ns required_ns since (sn, now) ≡ o
          → (elim o as (λ _. Wait F × S) [ some w ↦ (w, on_snapshot sn state) | none ↦ rest ]).0
            ≡ ready r
          → (rest.0 ≡ ready r
              → IsStableSince expected required_ns
                  (first_ready (evaluate_graph expected sn) since now)
                  polls
                  r)
          → IsStableSince expected required_ns since ((sn, now) ∷ polls) r
      by_turn none e h ih =
          went_on expected started_at_ns deadline_ns required_ns since (sn, now) polls r (ih h)
      by_turn (some w) e h ih =
          ended expected started_at_ns deadline_ns required_ns since (sn, now) polls r
            (e ∙ ap some h)

module _ {F : Type 0} ⦃finites : Finite F⦄ {S : Type 0} (nanoseconds : F → ℕ)
    (on_snapshot : GraphSnapshot → S → S) (expected : ExpectedGraph F) where
  -- A wait that returns has polled the graph in one uninterrupted window of polls in each of
  -- which the expected graph lacked nothing: the window began at the returned first ready time,
  -- its last poll has the returned snapshot, and it lasted the returned duration, which is the
  -- required one at least.
  pub wait_for_readiness-IsStable :
      (timeout_sec stable_for_sec : F) (started_at_ns : ℕ) (polls : List Poll) (state : S)
      (r : ReadinessResult F)
      → (wait_for_readiness nanoseconds on_snapshot expected timeout_sec stable_for_sec
          started_at_ns polls state).0
        ≡ ready r
      → IsStable expected (required_ns_of nanoseconds expected stable_for_sec) polls r
  unfolding wait_for_readiness
  wait_for_readiness-IsStable timeout_sec stable_for_sec started_at_ns polls state r h =
      wait_loop-ready on_snapshot expected started_at_ns (started_at_ns + nanoseconds timeout_sec)
        (required_ns_of nanoseconds expected stable_for_sec) none polls state r h

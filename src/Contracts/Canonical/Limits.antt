-- ===== src/Contracts/Canonical/Limits.antt =====
-- The checks of canonical.py accept exactly the values within the limits, and count what they weigh.
use robotics_runtime.Base.{ℕ, ◌≡◌, ap, ◌∙◌, ◌↔◌, Bool, List, [], bind-ok, arith, ok}
use robotics_runtime.Contracts.Canonical.{Document}
use robotics_runtime.Contracts.Canonical.Checks.{Budget, enter, check_content, check_value}
use robotics_runtime.Contracts.Canonical.Weights.{node_count-pos, node_count, byte_count, IsBounded}
use robotics_runtime.Contracts.Canonical.Sound.{IsWithin, check_content-ok, opened}
use robotics_runtime.Contracts.Canonical.Checks.{zero_budget}
use robotics_runtime.Contracts.Canonical.Complete.{
  HasRoom, then_ok, enter_complete, check_content_complete,
}

zero-IsWithin : IsWithin zero_budget
zero-IsWithin = record { nodes = omega arith; bytes = omega arith }

module _ (is_identifier : List ℕ → Bool) (digit_limit : ℕ) {F : Type 0} where
  bounded_room :
      (value : Document F)
      → IsBounded digit_limit value
      → HasRoom zero_budget (node_count value) (byte_count value)
  bounded_room value h = record {
    nodes_left = omega (arith, h.nodes);
    bytes_left = omega (arith, h.bytes);
  }

  -- A value that is checked from an empty budget leaves behind what it weighs.
  pub check_value-counted :
      (value : Document F) (c : Budget)
      → check_value is_identifier digit_limit value [] 1 zero_budget ≡ ok c
      → IsBounded digit_limit value
        × (c ≡ record { nodes = node_count value; bytes = byte_count value })
  unfolding check_value
  check_value-counted value c h =
      let (o, e, k) =
        bind-ok (enter is_identifier digit_limit [] 1 zero_budget)
          (check_content is_identifier digit_limit value [] 1) c h in
      let (i, d) = opened is_identifier digit_limit [] 1 zero_budget o zero-IsWithin e in
      let (a, j, deep) = check_content-ok is_identifier digit_limit value [] 1 o c i.within k in
      let n : c.nodes ≡ node_count value =
        omega (arith, i.nodes_counted, j.nodes_counted, node_count-pos value) in
      let m : c.bytes ≡ byte_count value = omega (arith, i.bytes_counted, j.bytes_counted) in
      (
        record {
          admissible = a;
          nodes = omega (arith, n, j.within.nodes);
          bytes = omega (arith, m, j.within.bytes);
          deep = omega (arith, deep d);
        },
        λ t. record { nodes = n t; bytes = m t },
      )

  pub check_value_complete :
      (value : Document F)
      → IsBounded digit_limit value
      → (c : Budget) × (check_value is_identifier digit_limit value [] 1 zero_budget ≡ ok c)
  unfolding check_value
  check_value_complete value h =
      let room = bounded_room value h in
      then_ok (enter is_identifier digit_limit [] 1 zero_budget) _
        (enter_complete is_identifier digit_limit [] 1 zero_budget _ _ (omega arith)
          (node_count-pos value) room)
        (λ o e.
          let (i, _) = opened is_identifier digit_limit [] 1 zero_budget o zero-IsWithin e in
          check_content_complete is_identifier digit_limit value [] 1 o h.admissible
            (omega (arith, h.deep))
            (record {
              nodes_left = omega (arith, h.nodes, i.nodes_counted, node_count-pos value);
              bytes_left = omega (arith, h.bytes, i.bytes_counted);
            }))

  -- A value passes the checks from an empty budget, and leaves its nodes and bytes counted
  -- behind, exactly when it keeps the limits: every scalar and key has a JSON type and an
  -- encoding, and its nodes, the bytes of its scalars and its height are within the three bounds.
  pub check_value-ok_iff :
      (value : Document F)
      → (check_value is_identifier digit_limit value [] 1 zero_budget
          ≡ ok (record { nodes = node_count value; bytes = byte_count value }))
        ↔ IsBounded digit_limit value
  check_value-ok_iff value = (
    λ h. (check_value-counted value _ h).0,
    λ h. let (c, e) = check_value_complete value h in e ∙ ap ok (check_value-counted value c e).1,
  )

-- ===== src/Contracts/Canonical/Sound.antt =====
-- A value that passes the checks keeps the limits, and the budget has counted what it weighs.
use robotics_runtime.Base.{
  ℕ, suc, ◌+◌, ◌-◌, ◌*◌, ◌≤◌, ◌≡◌, refl, sym, subst, Bool, true, false, List, [], ◌∷◌, ◌++◌,
  bind-ok, raise_if-ok, arith, ltb, Result, ok, err, raise_if, length,
}
use robotics_runtime.Base.{ok_injective}
use robotics_runtime.Base.Int.{ℤ}
use robotics_runtime.Contracts.Canonical.{
  text, other_key, Document, null, other, bool, int, float, str, arr, obj, Elements, nil, cons,
  Entries, end, entry, Step, at_key, at_index, ContractError, max_document_bytes,
  max_document_depth, max_document_nodes,
}
use robotics_runtime.Contracts.Canonical.Text.{encoded_length, bit_length, decimal}
use robotics_runtime.Contracts.Canonical.Checks.{
  Budget, over_digit_limit, check_string, check_integer, check_scalar, enter, charge, check_key,
  check_content, check_entries, check_elements,
}
use robotics_runtime.Contracts.Canonical.Weights.{
  node_count-pos, node_count, nodes_of_entries, nodes_of_elements, byte_count, bytes_of_entries,
  bytes_of_elements, height, height_of_entries, height_of_elements, IsEncodable, IsAdmissible,
  AreAdmissibleEntries, AreAdmissible,
}

-- The budget keeps the limits.
pub record IsWithin (b : Budget) : Type 0 where
  pub nodes : b.nodes ≤ max_document_nodes
  pub bytes : b.bytes ≤ max_document_bytes

-- From the budget `b` to `c`, so many nodes and bytes were counted.
pub record IsCounted (b c : Budget) (nodes bytes : ℕ) : Type 0 where
  pub nodes_counted : c.nodes ≡ b.nodes + nodes
  pub bytes_counted : c.bytes ≡ b.bytes + bytes
  pub within : IsWithin c

pub both-IsCounted :
    (b c d : Budget) (n m k l : ℕ)
    → IsCounted b c n m
    → IsCounted c d k l
    → IsCounted b d (n + k) (m + l)
both-IsCounted b c d n m k l p q = record {
  nodes_counted = omega (arith, p.nodes_counted, q.nodes_counted);
  bytes_counted = omega (arith, p.bytes_counted, q.bytes_counted);
  within = q.within;
}

recount : (b c : Budget) (n k m : ℕ) → n ≡ k → IsCounted b c n m → IsCounted b c k m
recount b c n k m e p = subst (λ j. IsCounted b c j m) e p

plus_minus : (n : ℕ) → n ≡ 1 + n - 1
plus_minus n = omega arith

module _ {F : Type 0} where
  -- A node, and then its content.
  pub visited :
      (value : Document F) (depth : ℕ) (b o c : Budget)
      → IsCounted b o 1 0
      → IsCounted o c (node_count value - 1) (byte_count value)
      → IsCounted b c (node_count value) (byte_count value)
  visited value depth b o c k l = record {
    nodes_counted = omega (arith, node_count-pos value, k.nodes_counted, l.nodes_counted);
    bytes_counted = omega (arith, k.bytes_counted, l.bytes_counted);
    within = l.within;
  }

module _ (is_identifier : List ℕ → Bool) (digit_limit : ℕ) where
  enter-ok :
      (path : List Step) (depth : ℕ) (b c : Budget)
      → enter is_identifier digit_limit path depth b ≡ ok c
      → (depth ≤ max_document_depth)
        × (c.nodes ≡ b.nodes + 1)
        × (c.nodes ≤ max_document_nodes)
        × (c.bytes ≡ b.bytes)
  unfolding enter
  enter-ok path depth b c h = ground arith

  charge-ok :
      (checked : Result ContractError ℕ) (path : List Step) (b c : Budget)
      → charge is_identifier digit_limit checked path b ≡ ok c
      → (size : ℕ) × (checked ≡ ok size)
        × (c.nodes ≡ b.nodes)
        × (c.bytes ≡ b.bytes + size)
        × (c.bytes ≤ max_document_bytes)
  unfolding charge
  charge-ok (ok size) path b c h = (size, refl, ground arith, ground arith, ground arith)
  charge-ok (err e) path b c h = cc

  check_string-ok :
      (value : List ℕ) (path : List Step) (is_key : Bool) (size : ℕ)
      → check_string is_identifier digit_limit value path is_key ≡ ok size
      → (size ≡ encoded_length value) × IsEncodable value
  unfolding check_string
  check_string-ok value path is_key size h = (ground arith, ground arith)

  check_integer-ok :
      (value : ℤ) (path : List Step) (size : ℕ)
      → check_integer is_identifier digit_limit value path ≡ ok size
      → (size ≡ length (decimal value))
        × ((bit_length value ≤ 4 * max_document_bytes)
            × (over_digit_limit digit_limit value ≡ false))
  unfolding check_integer
  check_integer-ok value path size h =
      let (u, a, k) =
        bind-ok (raise_if (ltb (4 * max_document_bytes) (bit_length value)) _) _ size h in
      let (v, b, l) = bind-ok (raise_if (over_digit_limit digit_limit value) _) _ size k in
      let (w, c, m) =
        bind-ok (raise_if (ltb max_document_bytes (length (decimal value))) _) _ size l in
      (
        sym (ok_injective m),
        (
          ground (arith, raise_if-ok (ltb (4 * max_document_bytes) (bit_length value)) _ u a),
          raise_if-ok _ _ v b,
        ),
      )

  pub opened :
      (path : List Step) (depth : ℕ) (b o : Budget)
      → IsWithin b
      → enter is_identifier digit_limit path depth b ≡ ok o
      → IsCounted b o 1 0 × (depth ≤ max_document_depth)
  opened path depth b o w h =
      let (d, n, l, m) = enter-ok path depth b o h in
      (
        record {
          nodes_counted = n;
          bytes_counted = omega (arith, m);
          within = record { nodes = l; bytes = omega (arith, m, w.bytes) };
        },
        d,
      )

  pub keyed :
      (key : List ℕ) (path : List Step) (depth : ℕ) (b c : Budget)
      → IsWithin b
      → check_key is_identifier digit_limit key path depth b ≡ ok c
      → IsEncodable key × IsCounted b c 1 (encoded_length key)
  unfolding check_key
  keyed key path depth b c w h =
      let (o, e, k) = bind-ok (enter is_identifier digit_limit path depth b) _ c h in
      let (oc, od) = opened path depth b o w e in
      let (size, checked, n, m, l) =
        charge-ok (check_string is_identifier digit_limit key path false) path o c k in
      let (sized, encodable) = check_string-ok key path false size checked in
      (
        encodable,
        record {
          nodes_counted = omega (arith, n, oc.nodes_counted);
          bytes_counted = omega (arith, m, sized, oc.bytes_counted);
          within = record { nodes = omega (arith, n, oc.within.nodes); bytes = l };
        },
      )

  module _ {F : Type 0} where
    -- A scalar: the one case of `check_content` that is no loop.
    charged :
        (value : Document F) (path : List Step) (b c : Budget)
        → IsWithin b
        → ((size : ℕ)
            → check_scalar is_identifier digit_limit value path ≡ ok size
            → (size ≡ byte_count value) × IsAdmissible digit_limit value)
        → charge is_identifier digit_limit
            (check_scalar is_identifier digit_limit value path)
            path
            b
          ≡ ok c
        → IsAdmissible digit_limit value × IsCounted b c 0 (byte_count value)
    charged value path b c w scalar h =
        let (size, e, n, m, l) =
          charge-ok (check_scalar is_identifier digit_limit value path) path b c h in
        let (sized, admissible) = scalar size e in
        (
          admissible,
          record {
            nodes_counted = omega (arith, n);
            bytes_counted = omega (arith, m, sized);
            within = record { nodes = omega (arith, n, w.nodes); bytes = l };
          },
        )

    mutual
      unfolding check_content check_scalar node_count byte_count height IsAdmissible

      pub check_content-ok :
          (value : Document F) (path : List Step) (depth : ℕ) (b c : Budget)
          → IsWithin b
          → check_content is_identifier digit_limit value path depth b ≡ ok c
          → IsAdmissible digit_limit value
            × IsCounted b c (node_count value - 1) (byte_count value)
            × (depth ≤ max_document_depth → depth + height value ≤ suc max_document_depth)
      check_content-ok null path depth b c w h =
          let (a, k) = charged null path b c w (λ size e. (sym (ok_injective e), tt)) h in
          (a, k, λ d. omega arith)
      check_content-ok other path depth b c w h = cc
      check_content-ok (bool x) path depth b c w h =
          let (a, k) = charged (bool x) path b c w (λ size e. (sym (ok_injective e), tt)) h in
          (a, k, λ d. omega arith)
      check_content-ok (int z) path depth b c w h =
          let (a, k) = charged (int z) path b c w (λ size e. check_integer-ok z path size e) h in
          (a, k, λ d. omega arith)
      check_content-ok (float x) path depth b c w h =
          let (a, k) = charged (float x) path b c w (λ size e. (ground arith, ground arith)) h in
          (a, k, λ d. omega arith)
      check_content-ok (str s) path depth b c w h =
          let (a, k) =
            charged (str s) path b c w (λ size e. check_string-ok s path false size e) h in
          (a, k, λ d. omega arith)
      check_content-ok (arr elements) path depth b c w h =
          let (a, k, d) = check_elements-ok elements path 0 depth b c w h in
          (
            a,
            recount b c _ _ _ (plus_minus (nodes_of_elements elements)) k,
            λ l. omega (arith, d l),
          )
      check_content-ok (obj entries) path depth b c w h =
          let (a, k, d) = check_entries-ok entries path depth b c w h in
          (a, recount b c _ _ _ (plus_minus (nodes_of_entries entries)) k, λ l. omega (arith, d l))

      pub check_elements-ok :
          (elements : Elements F) (path : List Step) (index depth : ℕ) (b c : Budget)
          → IsWithin b
          → check_elements is_identifier digit_limit elements path index depth b ≡ ok c
          → AreAdmissible digit_limit elements
            × IsCounted b c (nodes_of_elements elements) (bytes_of_elements elements)
            × (depth ≤ max_document_depth
                → depth + height_of_elements elements ≤ max_document_depth)
      check_elements-ok nil path index depth b c w h = (
        tt,
        record {
          nodes_counted = ground arith;
          bytes_counted = ground arith;
          within = subst IsWithin (ok_injective h) w;
        },
        λ l. omega arith,
      )
      check_elements-ok (cons child rest) path index depth b c w h =
          let here = path ++ (at_index index ∷ []) in
          let (o, e, k) = bind-ok (enter is_identifier digit_limit here (depth + 1) b) _ c h in
          let (m, f, l) =
            bind-ok (check_content is_identifier digit_limit child here (depth + 1) o) _ c k in
          let (oc, od) = opened here (depth + 1) b o w e in
          let (ca, ck, cd) = check_content-ok child here (depth + 1) o m oc.within f in
          let (ra, rk, rd) = check_elements-ok rest path (index + 1) depth m c ck.within l in
          (
            (ca, ra),
            both-IsCounted b m c _ _ _ _ (visited child depth b o m oc ck) rk,
            λ d. omega (arith, cd od, rd d),
          )

      pub check_entries-ok :
          (entries : Entries F) (path : List Step) (depth : ℕ) (b c : Budget)
          → IsWithin b
          → check_entries is_identifier digit_limit entries path depth b ≡ ok c
          → AreAdmissibleEntries digit_limit entries
            × IsCounted b c (nodes_of_entries entries) (bytes_of_entries entries)
            × (depth ≤ max_document_depth → depth + height_of_entries entries ≤ max_document_depth)
      check_entries-ok end path depth b c w h = (
        tt,
        record {
          nodes_counted = ground arith;
          bytes_counted = ground arith;
          within = subst IsWithin (ok_injective h) w;
        },
        λ l. omega arith,
      )
      check_entries-ok (entry other_key child rest) path depth b c w h = cc
      check_entries-ok (entry (text key) child rest) path depth b c w h =
          let here = path ++ (at_key key ∷ []) in
          let (u, ks, h1) = bind-ok (check_string is_identifier digit_limit key path true) _ c h in
          let (g, ke, h2) =
            bind-ok (check_key is_identifier digit_limit key here (depth + 1) b) _ c h1 in
          let (o, e, h3) = bind-ok (enter is_identifier digit_limit here (depth + 1) g) _ c h2 in
          let (m, f, l) =
            bind-ok (check_content is_identifier digit_limit child here (depth + 1) o) _ c h3 in
          let (ia, kk) = keyed key here (depth + 1) b g w ke in
          let (oc, od) = opened here (depth + 1) g o kk.within e in
          let (ca, ck, cd) = check_content-ok child here (depth + 1) o m oc.within f in
          let (ra, rk, rd) = check_entries-ok rest path depth m c ck.within l in
          (
            (ia, ca, ra),
            both-IsCounted b m c _ _ _ _
                (both-IsCounted b g m _ _ _ _ kk (visited child depth g o m oc ck)) rk,
            λ d. omega (arith, cd od, rd d),
          )

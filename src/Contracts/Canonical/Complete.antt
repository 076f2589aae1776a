-- ===== src/Contracts/Canonical/Complete.antt =====
-- A value that keeps the limits passes the checks.
use robotics_runtime.Base.{
  ℕ, suc, ◌+◌, ◌-◌, ◌*◌, ◌≤◌, ◌<◌, ◌≡◌, refl, Bool, true, false, List, [], ◌∷◌, ◌++◌, arith, ltb,
  Result, ok, err, ◌>>=◌, length,
}
use robotics_runtime.Base.Int.{ℤ}
use robotics_runtime.Contracts.Canonical.{
  text, other_key, Document, null, other, bool, int, float, str, arr, obj, Elements, nil, cons,
  Entries, end, entry, Step, at_key, at_index, ContractError, max_document_bytes,
  max_document_depth, max_document_nodes,
}
use robotics_runtime.Contracts.Canonical.Text.{encoded_length, bit_length, decimal}
use robotics_runtime.Contracts.Canonical.Checks.{
  Budget, over_digit_limit, check_string, check_integer, check_scalar, enter, charge, check_key,
  check_content, check_entries, check_elements,
}
use robotics_runtime.Contracts.Canonical.Weights.{
  node_count-pos, height-pos, node_count, nodes_of_entries, nodes_of_elements, byte_count,
  bytes_of_entries, bytes_of_elements, height, height_of_entries, height_of_elements, IsEncodable,
  IsAdmissible, AreAdmissibleEntries, AreAdmissible,
}
use robotics_runtime.Contracts.Canonical.Sound.{
  IsWithin, IsCounted, check_content-ok, opened, keyed,
}

-- The budget leaves room for so many nodes and bytes.
pub record HasRoom (b : Budget) (nodes bytes : ℕ) : Type 0 where
  pub nodes_left : b.nodes + nodes ≤ max_document_nodes
  pub bytes_left : b.bytes + bytes ≤ max_document_bytes

pub HasRoom-IsWithin : (b : Budget) (n m : ℕ) → HasRoom b n m → IsWithin b
HasRoom-IsWithin b n m r = record {
  nodes = omega (arith, r.nodes_left);
  bytes = omega (arith, r.bytes_left);
}

roomy : (b : Budget) (n m : ℕ) → HasRoom b (1 + n - 1) m → HasRoom b n m
roomy b n m r = record { nodes_left = omega (arith, r.nodes_left); bytes_left = r.bytes_left }

-- What is left once a part was counted.
left_over :
    (b c : Budget) (n m k l : ℕ) → HasRoom b (n + k) (m + l) → IsCounted b c n m → HasRoom c k l
left_over b c n m k l r i = record {
  nodes_left = omega (arith, r.nodes_left, i.nodes_counted);
  bytes_left = omega (arith, r.bytes_left, i.bytes_counted);
}

first_part : (b : Budget) (n m k l : ℕ) → HasRoom b (n + k) (m + l) → HasRoom b n m
first_part b n m k l r = record {
  nodes_left = omega (arith, r.nodes_left);
  bytes_left = omega (arith, r.bytes_left);
}

length-le-encoded_length : (s : List ℕ) → length s ≤ encoded_length s
unfolding encoded_length
length-le-encoded_length [] = omega arith
length-le-encoded_length (c ∷ cs) = ground (arith, length-le-encoded_length cs)

-- A chain returns if its first part does, and then the rest.
pub then_ok {ℓ κ μ} :
    {E : Type ℓ} {A : Type κ} {B : Type μ} (m : Result E A) (f : A → Result E B)
    → ((a : A) × (m ≡ ok a))
    → ((a : A) → m ≡ ok a → (b : B) × (f a ≡ ok b))
    → (b : B) × ((m >>= f) ≡ ok b)
then_ok (ok a) f first rest = rest a refl
then_ok (err e) f (a, h) rest = absurd (ground (arith, h))

module _ (is_identifier : List ℕ → Bool) (digit_limit : ℕ) where
  pub enter_complete :
      (path : List Step) (depth : ℕ) (b : Budget) (n m : ℕ)
      → depth ≤ max_document_depth
      → 0 < n
      → HasRoom b n m
      → (c : Budget) × (enter is_identifier digit_limit path depth b ≡ ok c)
  unfolding enter
  enter_complete path depth b n m d p r =
      (record { nodes = b.nodes + 1; bytes = b.bytes }, ground (arith, d, p, r.nodes_left))

  charge_complete :
      (checked : Result ContractError ℕ) (path : List Step) (b : Budget) (n m : ℕ)
      → checked ≡ ok m
      → HasRoom b n m
      → (c : Budget) × (charge is_identifier digit_limit checked path b ≡ ok c)
  unfolding charge
  charge_complete checked path b n m e r =
      (record { nodes = b.nodes; bytes = b.bytes + m }, rw e (ground (arith, r.bytes_left)))

  check_string_complete :
      (value : List ℕ) (path : List Step) (is_key : Bool)
      → IsEncodable value
      → encoded_length value ≤ max_document_bytes
      → check_string is_identifier digit_limit value path is_key ≡ ok (encoded_length value)
  unfolding check_string
  check_string_complete value path is_key e l = ground (arith, e, l, length-le-encoded_length value)

  check_key_complete :
      (key : List ℕ) (path : List Step) (depth : ℕ) (b : Budget)
      → depth ≤ max_document_depth
      → IsEncodable key
      → HasRoom b 1 (encoded_length key)
      → (c : Budget) × (check_key is_identifier digit_limit key path depth b ≡ ok c)
  unfolding check_key
  check_key_complete key path depth b d e r =
      then_ok (enter is_identifier digit_limit path depth b) _
        (enter_complete path depth b 1 (encoded_length key) d (omega arith) r)
        (λ o h.
          charge_complete _ path o 0 (encoded_length key)
            (check_string_complete key path false e (omega (arith, r.bytes_left)))
            (left_over b o 1 0 0 (encoded_length key)
              (record { nodes_left = r.nodes_left; bytes_left = omega (arith, r.bytes_left) })
              (opened is_identifier digit_limit path depth b o (HasRoom-IsWithin b _ _ r) h).0))

  check_integer_complete :
      (value : ℤ) (path : List Step)
      → bit_length value ≤ 4 * max_document_bytes
      → over_digit_limit digit_limit value ≡ false
      → length (decimal value) ≤ max_document_bytes
      → check_integer is_identifier digit_limit value path ≡ ok (length (decimal value))
  unfolding check_integer
  check_integer_complete value path bounded under short =
      rw
        (
          not_above (bit_length value) (4 * max_document_bytes) bounded,
          under,
          not_above (length (decimal value)) max_document_bytes short,
        )
        refl
    where
      not_above : (n k : ℕ) → n ≤ k → ltb k n ≡ false
      not_above n k h = ground arith

  module _ {F : Type 0} where
    -- A node, its content and what follows, from the room for them.
    node_then :
        (value : Document F) (path : List Step) (depth : ℕ) (b : Budget) (k l : ℕ)
        (f : Budget → Result ContractError Budget)
        → depth ≤ max_document_depth
        → HasRoom b (node_count value + k) (byte_count value + l)
        → ((o : Budget)
            → HasRoom o (node_count value - 1) (byte_count value)
            → (c : Budget) × (check_content is_identifier digit_limit value path depth o ≡ ok c))
        → ((m : Budget) → HasRoom m k l → (c : Budget) × (f m ≡ ok c))
        → (c : Budget) × ((enter is_identifier digit_limit path depth b >>= λ o.
              (check_content is_identifier digit_limit value path depth o >>= f))
            ≡ ok c)
    node_then value path depth b k l f d r content rest =
        then_ok (enter is_identifier digit_limit path depth b) _
          (enter_complete path depth b _ _ d (omega (arith, node_count-pos value)) r)
          (λ o h.
            let i =
              (opened is_identifier digit_limit path depth b o (HasRoom-IsWithin b _ _ r) h).0 in
            let within : HasRoom o (node_count value - 1) (byte_count value) = record {
              nodes_left = omega (arith, r.nodes_left, i.nodes_counted, node_count-pos value);
              bytes_left = omega (arith, r.bytes_left, i.bytes_counted);
            } in
            then_ok (check_content is_identifier digit_limit value path depth o) f
              (content o within)
              (λ m e.
                let (_, j, _) =
                  check_content-ok is_identifier digit_limit value path depth o m
                    (HasRoom-IsWithin o _ _ within) e in
                rest m (record {
                  nodes_left =
                      omega (
                        arith,
                        r.nodes_left,
                        i.nodes_counted,
                        j.nodes_counted,
                        node_count-pos value,
                      );
                  bytes_left = omega (arith, r.bytes_left, i.bytes_counted, j.bytes_counted);
                })))

    mutual
      unfolding check_content check_scalar node_count byte_count height IsAdmissible

      pub check_content_complete :
          (value : Document F) (path : List Step) (depth : ℕ) (b : Budget)
          → IsAdmissible digit_limit value
          → depth + height value ≤ suc max_document_depth
          → HasRoom b (node_count value - 1) (byte_count value)
          → (c : Budget) × (check_content is_identifier digit_limit value path depth b ≡ ok c)
      check_content_complete null path depth b a d r = charge_complete (ok 1) path b 0 1 refl r
      check_content_complete other path depth b a d r = absurd a
      check_content_complete (bool x) path depth b a d r = charge_complete (ok 1) path b 0 1 refl r
      check_content_complete (int z) path depth b (bounded, under) d r =
          charge_complete _ path b 0 (length (decimal z))
            (check_integer_complete z path bounded under (omega (arith, r.bytes_left))) r
      check_content_complete (float x) path depth b a d r =
          charge_complete _ path b 0 1 (rw a refl) r
      check_content_complete (str s) path depth b a d r =
          charge_complete _ path b 0 (encoded_length s)
            (check_string_complete s path false a (omega (arith, r.bytes_left))) r
      check_content_complete (arr elements) path depth b a d r =
          check_elements_complete elements path 0 depth b a (omega (arith, d)) (roomy b _ _ r)
      check_content_complete (obj entries) path depth b a d r =
          check_entries_complete entries path depth b a (omega (arith, d)) (roomy b _ _ r)

      check_elements_complete :
          (elements : Elements F) (path : List Step) (index depth : ℕ) (b : Budget)
          → AreAdmissible digit_limit elements
          → depth + height_of_elements elements ≤ max_document_depth
          → HasRoom b (nodes_of_elements elements) (bytes_of_elements elements)
          → (c : Budget) × (check_elements is_identifier digit_limit elements path index depth b
              ≡ ok c)
      check_elements_complete nil path index depth b a d r = (b, refl)
      check_elements_complete (cons child rest) path index depth b (ca, ra) d r =
          node_then child (path ++ (at_index index ∷ [])) (depth + 1) b _ _ _
            (omega (arith, d, height-pos child)) r
            (λ o q. check_content_complete child _ (depth + 1) o ca (omega (arith, d)) q)
            (λ m q. check_elements_complete rest path (index + 1) depth m ra (omega (arith, d)) q)

      check_entries_complete :
          (entries : Entries F) (path : List Step) (depth : ℕ) (b : Budget)
          → AreAdmissibleEntries digit_limit entries
          → depth + height_of_entries entries ≤ max_document_depth
          → HasRoom b (nodes_of_entries entries) (bytes_of_entries entries)
          → (c : Budget) × (check_entries is_identifier digit_limit entries path depth b ≡ ok c)
      check_entries_complete end path depth b a d r = (b, refl)
      check_entries_complete (entry other_key child rest) path depth b (a, _, _) d r = absurd a
      check_entries_complete (entry (text key) child rest) path depth b (ka, ca, ra) d r =
          let here = path ++ (at_key key ∷ []) in
          let open_depth : depth + 1 ≤ max_document_depth = omega (arith, d, height-pos child) in
          let key_room : HasRoom b 1 (encoded_length key) = record {
            nodes_left = omega (arith, r.nodes_left);
            bytes_left = omega (arith, r.bytes_left);
          } in
          then_ok (check_string is_identifier digit_limit key path true) _
            (
              encoded_length key,
              check_string_complete key path true ka (omega (arith, r.bytes_left)),
            )
            (λ _ _.
              then_ok (check_key is_identifier digit_limit key here (depth + 1) b) _
                (check_key_complete key here (depth + 1) b open_depth ka key_room)
                (λ g h.
                  node_then child here (depth + 1) g (nodes_of_entries rest) (bytes_of_entries rest)
                    _ open_depth
                    (let (_, i) =
                        keyed is_identifier digit_limit key here (depth + 1) b g
                          (HasRoom-IsWithin b _ _ key_room) h in
                      record {
                        nodes_left = omega (arith, r.nodes_left, i.nodes_counted);
                        bytes_left = omega (arith, r.bytes_left, i.bytes_counted);
                      })
                    (λ o q. check_content_complete child here (depth + 1) o ca (omega (arith, d)) q)
                    (λ m q. check_entries_complete rest path depth m ra (omega (arith, d)) q)))

-- ===== src/Harness/Durations/Runs.antt =====
-- Stretches of time on which a truth value does not change, and the longest of them.
use Prim.Native.Nat
use native.Mathlib.Decide.{dec_le}
use robotics_runtime.Base.{
  ℕ, suc, ◌+◌, ◌-◌, ◌≤◌, ◌<◌, ◌≡◌, subst, ◌⊎◌, inl, inr, Bool, true, false, not, arith,
}

-- The values from `start` up to `end`, without `end`, are `value`.
abbrev pub Constant : (ℕ → Bool) → Bool → ℕ → ℕ → Type 0
Constant f value start end = (t : ℕ) → start ≤ t → t < end → f t ≡ value

-- A stretch of `length_ns` with the value `value` lies between `start` and `end`, and no longer one does.
pub record IsLongest (f : ℕ → Bool) (value : Bool) (start end length_ns : ℕ) : Type 0 where
  pub from_ns : ℕ
  pub not_before : start ≤ from_ns
  pub not_behind : from_ns + length_ns ≤ end
  pub constant : Constant f value from_ns (from_ns + length_ns)
  pub longest : (a b : ℕ) → start ≤ a → b ≤ end → Constant f value a b → b ≤ a + length_ns

-- The stretch of `value` that ends at `end` began at `from_ns`, and not earlier.
pub record IsRun (f : ℕ → Bool) (value : Bool) (start end length_ns : ℕ) : Type 0 where
  pub from_ns : ℕ
  pub not_before : start ≤ from_ns
  pub spans : from_ns + length_ns ≡ end
  pub positive : 0 < length_ns
  pub constant : Constant f value from_ns end
  pub edge : (from_ns ≡ start) ⊎ ((t : ℕ) × (from_ns ≡ suc t) × (start ≤ t) × (f t ≡ not value))

not_same : (b c : Bool) → b ≡ c → b ≡ not c → ⊥
not_same true true p q = cc
not_same true false p q = cc
not_same false true p q = cc
not_same false false p q = cc

module _ (f : ℕ → Bool) (value : Bool) (start p k : ℕ) where
  -- A longest stretch up to `p`, and the run up to `p + k`, which began at `p` or before.
  pub IsLongest-same :
      (n length_ns : ℕ)
      → IsLongest f value start p n
      → (r : IsRun f value start (p + k) length_ns) → r.from_ns ≤ p
      → IsLongest f value start (p + k) (Nat.max n length_ns)
  IsLongest-same n length_ns l r began = elim (dec_le n length_ns) [
    | yes h ↦
        subst (IsLongest f value start (p + k))
          (let e : length_ns ≡ Nat.max n length_ns = omega (arith, h) in e)
          (record {
            from_ns = r.from_ns;
            not_before = r.not_before;
            not_behind = omega (arith, r.spans);
            constant = λ t a b. r.constant t a (omega (arith, b, r.spans));
            longest = λ a b s e c.
                bound length_ns (λ a b s e c. omega (arith, l.longest a b s e c, h)) (omega arith) a
                  b s e c;
          })
    | no h ↦
        subst (IsLongest f value start (p + k))
          (let e : n ≡ Nat.max n length_ns = omega (arith, h) in e)
          (record {
            from_ns = l.from_ns;
            not_before = l.not_before;
            not_behind = omega (arith, l.not_behind);
            constant = l.constant;
            longest = λ a b s e c. bound n l.longest (omega (arith, h)) a b s e c;
          })
  ]
    where
      bound :
          (m : ℕ)
          → ((a b : ℕ) → start ≤ a → b ≤ p → Constant f value a b → b ≤ a + m)
          → length_ns ≤ m
          → (a b : ℕ) → start ≤ a
          → b ≤ p + k
          → Constant f value a b
          → b ≤ a + m
      bound m old le a b s e c = elim (dec_le b p) [
        | yes h ↦ old a b s h c
        | no h ↦ elim (dec_le r.from_ns a) [
          | yes g ↦ omega (arith, g, r.spans, le, e)
          | no g ↦ elim r.edge [
            | inl q ↦ absurd (omega (arith, q, g, s))
            | inr (t, q, _, other) ↦ absurd (
                not_same (f t) value (c t (omega (arith, q, g)) (omega (arith, q, h, began))) other)
          ]
        ]
      ]

  -- Behind a longest stretch the other value holds up to `p + k`.
  pub IsLongest-other :
      (n : ℕ)
      → IsLongest f value start p n
      → Constant f (not value) p (p + k)
      → IsLongest f value start (p + k) n
  IsLongest-other n l other = record {
    from_ns = l.from_ns;
    not_before = l.not_before;
    not_behind = omega (arith, l.not_behind);
    constant = l.constant;
    longest = λ a b s e c. elim (dec_le b p) [
      | yes h ↦ l.longest a b s h c
      | no h ↦ elim (dec_le b a) [
        | yes g ↦ omega (arith, g)
        | no g ↦ absurd (
            not_same (f (b - 1)) value (c (b - 1) (omega (arith, g)) (omega (arith, g)))
              (other (b - 1) (omega (arith, h)) (omega (arith, e, g, h))))
      ]
    ];
  }

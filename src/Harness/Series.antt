-- ===== src/Harness/Series.antt =====
-- packages/harness/src/robotics_acceptance_harness/metrics.py: series keys, grouping by them, and
-- the sorting of intervals.
pub mod Permuted
use robotics_runtime.Base.{
  count_if, All, arith, ℕ, ◌≡◌, refl, ap, ◌∙◌, any, if_ind, String, Bool, true, false, not, ◌&&◌,
  ◌||◌, List, [], ◌∷◌, ◌++◌, str_eq, ltb, ◌==◌, if◌then◌else◌,
}
use robotics_runtime.Base.Float
use robotics_runtime.Base.Float.{Float, Finite}
use robotics_runtime.Base.Int.{ℤ, pos, negsuc, int_eq}
use robotics_runtime.Harness.Samples.{MetricAttribute, text, flag, whole, real, Attributes}
use Prim.Native.Nat.{Ordering}
use Prim.Native.String.{compare}

-- The first string stands before the second one, by code points.
abbrev pub str_lt : String → String → Bool
str_lt a b = elim (compare a b) [ Ordering.lt ↦ true | _ ↦ false ]

-- A stable insertion sort, as Python's `sorted` orders a list by `before`.
module _ {ℓ} {A : Type ℓ} (before : A → A → Bool) where
  unfoldable pub insert_sorted : A → List A → List A
  insert_sorted x [] = x ∷ []
  insert_sorted x (y ∷ ys) =
      let rest = insert_sorted x ys in if before y x then y ∷ rest else x ∷ y ∷ ys

  unfoldable pub sorted : List A → List A
  unfolding insert_sorted
  sorted [] = []
  sorted (x ∷ xs) = insert_sorted x (sorted xs)

-- `grouped[key].append(value)` over a `defaultdict(list)`, whose items stay in insertion order.
module _ {ℓ κ} {K : Type ℓ} {A : Type κ} (same : K → K → Bool) where
  unfoldable pub append_to : K → A → List (K × List A) → List (K × List A)
  append_to k a [] = (k, a ∷ []) ∷ []
  append_to k a ((j, items) ∷ rest) =
      if same j k then (j, items ++ (a ∷ [])) ∷ rest else (j, items) ∷ append_to k a rest

  unfoldable pub grouped_onto : List (K × List A) → List (K × A) → List (K × List A)
  unfolding append_to
  grouped_onto groups [] = groups
  grouped_onto groups ((k, a) ∷ rest) = grouped_onto (append_to k a groups) rest

  abbrev pub grouped : List (K × A) → List (K × List A)
  grouped = grouped_onto []

-- Pairs of timestamps in Python's order of tuples.
abbrev pub interval_before : ℕ × ℕ → ℕ × ℕ → Bool
interval_before (a, b) (c, d) = ltb a c || (a == c && ltb b d)

-- `MetricSeriesKey`: the type's name is the constructor of the attribute.
abbrev pub MetricSeriesKey : Type 0 → Type 0
MetricSeriesKey F = List (String × MetricAttribute F)

module _ {F : Type 0} ⦃finites : Finite F⦄ where
  -- `type(value).__name__ == …` and `==` of the values
  unfoldable pub attribute_eq : MetricAttribute F → MetricAttribute F → Bool
  attribute_eq (text a) (text b) = str_eq a b
  attribute_eq (flag true) (flag b) = b
  attribute_eq (flag false) (flag b) = not b
  attribute_eq (whole a) (whole b) = int_eq a b
  attribute_eq (real a) (real b) = Float.eq a b
  attribute_eq _ _ = false

  unfoldable pub same_series : MetricSeriesKey F → MetricSeriesKey F → Bool
  unfolding attribute_eq
  same_series [] [] = true
  same_series ((k, a) ∷ xs) ((j, b) ∷ ys) = (str_eq k j && attribute_eq a b) && same_series xs ys
  same_series _ _ = false

  -- `_series_key`: the keys of a mapping are distinct, so the order is that of the keys.
  unfoldable pub series_key : Attributes F → MetricSeriesKey F
  unfolding sorted
  series_key attributes = sorted (λ a b. str_lt a.0 b.0) attributes

-- Python's order of integers
abbrev pub int_lt : ℤ → ℤ → Bool
int_lt (pos a) (pos b) = ltb a b
int_lt (pos a) (negsuc b) = false
int_lt (negsuc a) (pos b) = true
int_lt (negsuc a) (negsuc b) = ltb b a

-- the place of a type's name among "bool", "float", "int" and "str"
abbrev pub type_rank : {F : Type 0} → MetricAttribute F → ℕ
type_rank (flag _) = 0
type_rank (real _) = 1
type_rank (whole _) = 2
type_rank (text _) = 3

module _ {F : Type 0} ⦃finites : Finite F⦄ where
  -- `<` on the last two parts of an entry: the type's name, and then the value
  abbrev pub attribute_before : MetricAttribute F → MetricAttribute F → Bool
  attribute_before (text a) (text b) = str_lt a b
  attribute_before (flag a) (flag b) = not a && b
  attribute_before (whole a) (whole b) = int_lt a b
  attribute_before (real a) (real b) = Float.lt a b
  attribute_before a b = ltb (type_rank a) (type_rank b)

  -- Python's order of tuples: the first entries that differ decide.
  unfoldable pub series_before : MetricSeriesKey F → MetricSeriesKey F → Bool
  unfolding attribute_eq
  series_before [] [] = false
  series_before [] (y ∷ ys) = true
  series_before (x ∷ xs) [] = false
  series_before ((k, a) ∷ xs) ((j, b) ∷ ys) =
      let rest = series_before xs ys in
      if str_eq k j && attribute_eq a b
      then rest
      else if str_eq k j
      then attribute_before a b
      else str_lt k j

-- Sorting keeps what a list holds.
module _ {ℓ} {A : Type ℓ} (before : A → A → Bool) (p : A → Bool) where
  any-insert_sorted : (x : A) (xs : List A) → any p (insert_sorted before x xs) ≡ p x || any p xs
  unfolding insert_sorted
  any-insert_sorted x [] = refl
  any-insert_sorted x (y ∷ ys) =
      if_ind (λ zs. any p zs ≡ p x || any p (y ∷ ys)) (before y x)
        (λ _. ground (arith, any-insert_sorted x ys)) (λ _. refl)

  pub any-sorted : (xs : List A) → any p (sorted before xs) ≡ any p xs
  unfolding sorted
  any-sorted [] = refl
  any-sorted (x ∷ xs) = any-insert_sorted x (sorted before xs) ∙ ap (λ b. p x || b) (any-sorted xs)

-- What holds of each element holds of each element of a sorted or a grouped list.
module _ {ℓ κ} {A : Type ℓ} (P : A → Type κ) where
  pub All-insert_sorted :
      (before : A → A → Bool) (x : A) (xs : List A)
      → P x
      → All P xs
      → All P (insert_sorted before x xs)
  unfolding insert_sorted
  All-insert_sorted before x [] p h = (p, tt)
  All-insert_sorted before x (y ∷ ys) p (q, h) =
      if_ind (All P) (before y x) (λ _. (q, All-insert_sorted before x ys p h)) (λ _. (p, (q, h)))

  pub All-sorted : (before : A → A → Bool) (xs : List A) → All P xs → All P (sorted before xs)
  unfolding sorted
  All-sorted before [] h = tt
  All-sorted before (x ∷ xs) (p, h) =
      All-insert_sorted before x (sorted before xs) p (All-sorted before xs h)

  module _ {μ} {K : Type μ} (same : K → K → Bool) where
    All-append_to :
        (k : K) (a : A) (groups : List (K × List A))
        → P a
        → All (λ group. All P group.1) groups
        → All (λ group. All P group.1) (append_to same k a groups)
    unfolding append_to
    All-append_to k a [] p h = ((p, tt), tt)
    All-append_to k a ((j, items) ∷ rest) p (q, h) =
        if_ind (All (λ group. All P group.1)) (same j k) (λ _. (All-snoc items q, h))
          (λ _. (q, All-append_to k a rest p h))
      where
        All-snoc : (items : List A) → All P items → All P (items ++ (a ∷ []))
        All-snoc [] h = (p, tt)
        All-snoc (x ∷ xs) (q, h) = (q, All-snoc xs h)

    pub All-grouped_onto :
        (groups : List (K × List A)) (entries : List (K × A))
        → All (λ group. All P group.1) groups
        → All (λ e. P e.1) entries
        → All (λ group. All P group.1) (grouped_onto same groups entries)
    unfolding grouped_onto
    All-grouped_onto groups [] h k = h
    All-grouped_onto groups ((k, a) ∷ rest) h (p, ps) =
        All-grouped_onto (append_to same k a groups) rest (All-append_to k a groups p h) ps

-- Sorting keeps the number of elements that pass a test.
module _ {ℓ} {A : Type ℓ} (before : A → A → Bool) (p : A → Bool) where
  count_if-insert_sorted :
      (x : A) (xs : List A) → count_if p (insert_sorted before x xs) ≡ count_if p (x ∷ xs)
  unfolding insert_sorted count_if
  count_if-insert_sorted x [] = refl
  count_if-insert_sorted x (y ∷ ys) =
      if_ind (λ zs. count_if p zs ≡ count_if p (x ∷ y ∷ ys)) (before y x)
        (λ _. ground (arith, count_if-insert_sorted x ys)) (λ _. refl)

  pub count_if-sorted : (xs : List A) → count_if p (sorted before xs) ≡ count_if p xs
  unfolding sorted count_if
  count_if-sorted [] = refl
  count_if-sorted (x ∷ xs) =
      ground (arith, count_if-insert_sorted x (sorted before xs), count_if-sorted xs)

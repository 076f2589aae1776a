-- ===== src/Base/Counting.antt =====
-- How many elements of a list pass a test, and what a filter leaves of them.
use robotics_runtime.Base.Tests.{if◌then◌else◌}
use robotics_runtime.Base.Lists.{length, keep, All, Any}
use Prim.Native.Nat.{ℕ, suc, ◌+◌, ◌≤◌, ◌<◌}
use mathlib.Core.Path.{◌≡◌, refl, subst}
use mathlib.Core.Bool.{Bool, true, false, not}
use mathlib.Core.Logic.{inl, inr}
use mathlib.Core.List.{List, [], ◌∷◌}
use native.Mathlib.Omega.{arith}

module _ {ℓ} {A : Type ℓ} where
  unfoldable pub count_if : (A → Bool) → List A → ℕ
  count_if p [] = 0
  count_if p (x ∷ xs) = let rest = count_if p xs in if p x then suc rest else rest

  pub count_if-le-length : (p : A → Bool) (xs : List A) → count_if p xs ≤ length xs
  unfolding count_if
  count_if-le-length p [] = omega arith
  count_if-le-length p (x ∷ xs) = ground (arith, count_if-le-length p xs)

  -- A test that holds of fewer elements counts fewer.
  pub count_if_mono :
      (p q : A → Bool) (xs : List A)
      → All (λ x. p x ≡ true → q x ≡ true) xs
      → count_if p xs ≤ count_if q xs
  unfolding count_if
  count_if_mono p q [] h = omega arith
  count_if_mono p q (x ∷ xs) (h, hs) = ground (arith, h, count_if_mono p q xs hs)

  -- Elements of `q` all pass `p`: counting `p` is counting `q`, and `p` among the others.
  pub count_if_split :
      (p q : A → Bool) (xs : List A)
      → All (λ x. q x ≡ true → p x ≡ true) xs
      → count_if p xs ≡ count_if q xs + count_if p (keep (λ x. not (q x)) xs)
  unfolding count_if
  count_if_split p q [] h = omega arith
  count_if_split p q (x ∷ xs) (h, hs) = ground (arith, h, count_if_split p q xs hs)

  pub count_if_pos :
      (p : A → Bool) (x : A) (xs : List A) → p x ≡ true → Any (λ y. y ≡ x) xs → 0 < count_if p xs
  unfolding count_if
  count_if_pos p x [] h m = absurd (m tt)
  count_if_pos p x (y ∷ ys) h (inl e) = ground arith
  count_if_pos p x (y ∷ ys) h (inr m) = ground (arith, count_if_pos p x ys h m)

  pub count_if_zero : (p : A → Bool) (xs : List A) → All (λ x. p x ≡ false) xs → count_if p xs ≡ 0
  unfolding count_if
  count_if_zero p [] h = refl
  count_if_zero p (x ∷ xs) (h, hs) = ground (arith, count_if_zero p xs hs)

  -- Where every element passes, none is left of the others.
  pub keep-nil :
      (p : A → Bool) (xs : List A) → All (λ x. p x ≡ true) xs → keep (λ x. not (p x)) xs ≡ []
  keep-nil p [] h = refl
  keep-nil p (x ∷ xs) (h, hs) = ground (arith, keep-nil p xs hs)

  pub keep_ind {κ} :
      (Q : List A → Type κ) (p : A → Bool) (x : A) (xs : List A)
      → (p x ≡ true → Q (x ∷ keep p xs))
      → (p x ≡ false → Q (keep p xs))
      → Q (keep p (x ∷ xs))
  keep_ind Q p x xs f g = go (p x) f g
    where
      go :
          (b : Bool)
          → (b ≡ true → Q (x ∷ keep p xs))
          → (b ≡ false → Q (keep p xs))
          → Q (elim b as (λ _. List A) [ true ↦ x ∷ keep p xs | false ↦ keep p xs ])
      go true f g = f refl
      go false f g = g refl

  pub All-keep {κ} : (P : A → Type κ) (p : A → Bool) (xs : List A) → All P xs → All P (keep p xs)
  All-keep P p [] h = tt
  All-keep P p (x ∷ xs) (h, hs) =
      let rest = All-keep P p xs hs in keep_ind (All P) p x xs (λ _. (h, rest)) (λ _. rest)

  pub Any-keep :
      (p : A → Bool) (x : A) (xs : List A)
      → p x ≡ true
      → Any (λ y. y ≡ x) xs
      → Any (λ y. y ≡ x) (keep p xs)
  Any-keep p x [] h m = absurd (m tt)
  Any-keep p x (y ∷ ys) h (inl e) =
      keep_ind (Any (λ z. z ≡ x)) p y ys (λ _. inl e) (λ f. absurd (ground arith))
  Any-keep p x (y ∷ ys) h (inr m) =
      let rest = Any-keep p x ys h m in
      keep_ind (Any (λ z. z ≡ x)) p y ys (λ _. inr rest) (λ _. rest)

  -- `All` at an element.
  pub All-at {κ} : (P : A → Type κ) (x : A) (xs : List A) → All P xs → Any (λ y. y ≡ x) xs → P x
  All-at P x [] h m = absurd (m tt)
  All-at P x (y ∷ ys) (h, hs) (inl e) = subst P e h
  All-at P x (y ∷ ys) (h, hs) (inr m) = All-at P x ys hs m

  pub All-of {κ} : (P : A → Type κ) (xs : List A) → ((x : A) → P x) → All P xs
  All-of P [] h = tt
  All-of P (x ∷ xs) h = (h x, All-of P xs h)

  pub All-imp {κ μ} :
      (P : A → Type κ) (Q : A → Type μ) (xs : List A) → ((x : A) → P x → Q x) → All P xs → All Q xs
  All-imp P Q [] f h = tt
  All-imp P Q (x ∷ xs) f (h, hs) = (f x h, All-imp P Q xs f hs)

  pub count_if-not :
      (p : A → Bool) (xs : List A) → count_if p xs + count_if (λ x. not (p x)) xs ≡ length xs
  unfolding count_if
  count_if-not p [] = omega arith
  count_if-not p (x ∷ xs) = ground (arith, count_if-not p xs)

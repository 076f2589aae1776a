-- ===== src/Harness/Series/Permuted.antt =====
-- Python's `sorted` returns a permutation, and what that keeps.
use robotics_runtime.Base.{refl, subst, Bool, List, [], ◌∷◌, inl, inr, if_ind, All, Any}
use mathlib.Core.List.{Permᴰ}
use mathlib.Core.List.Permᴰ
use mathlib.Core.List.Permᴰ.{nil, cons, swap, trans}
use robotics_runtime.Harness.Series.{sorted, insert_sorted}

module _ {ℓ} {A : Type ℓ} where
  insert_sorted-permᴰ :
      (before : A → A → Bool) (x : A) (xs : List A) → Permᴰ (insert_sorted before x xs) (x ∷ xs)
  unfolding insert_sorted
  insert_sorted-permᴰ before x [] = Permᴰ.refl (x ∷ [])
  insert_sorted-permᴰ before x (y ∷ ys) =
      if_ind (λ zs. Permᴰ zs (x ∷ y ∷ ys)) (before y x)
        (λ _. trans (cons refl (insert_sorted-permᴰ before x ys)) (swap refl refl))
        (λ _. Permᴰ.refl (x ∷ y ∷ ys))

  pub sorted-permᴰ : (before : A → A → Bool) (xs : List A) → Permᴰ (sorted before xs) xs
  unfolding sorted
  sorted-permᴰ before [] = nil
  sorted-permᴰ before (x ∷ xs) =
      trans (insert_sorted-permᴰ before x (sorted before xs)) (cons refl (sorted-permᴰ before xs))

  pub All-permᴰ {κ} : (P : A → Type κ) {xs ys : List A} → Permᴰ xs ys → All P xs → All P ys
  All-permᴰ P nil h = tt
  All-permᴰ P (cons e p) (x, h) = (subst P e x, All-permᴰ P p h)
  All-permᴰ P (swap e f) (x, (y, h)) = (subst P f y, (subst P e x, h))
  All-permᴰ P (trans p q) h = All-permᴰ P q (All-permᴰ P p h)

  pub Any-permᴰ {κ} : (P : A → Type κ) {xs ys : List A} → Permᴰ xs ys → Any P xs → Any P ys
  Any-permᴰ P nil h = h
  Any-permᴰ P (cons e p) (inl x) = inl (subst P e x)
  Any-permᴰ P (cons e p) (inr h) = inr (Any-permᴰ P p h)
  Any-permᴰ P (swap e f) (inl x) = inr (inl (subst P e x))
  Any-permᴰ P (swap e f) (inr (inl y)) = inl (subst P f y)
  Any-permᴰ P (swap e f) (inr (inr h)) = inr (inr h)
  Any-permᴰ P (trans p q) h = Any-permᴰ P q (Any-permᴰ P p h)

-- ===== src/Base/Sort.antt =====
-- `sort_by`: a stable sort, by a test that says when the first may stay before the second.
use mathlib.Core.Path.{ap, ◌∙◌, ◌≡◌, refl}
use mathlib.Core.Logic.{inl, inr}
use mathlib.Core.Bool.{Bool, true, false, ◌||◌}
use mathlib.Core.List.{List, [], ◌∷◌, Perm}
use mathlib.Core.List.Perm
use exoskeleton.Base.Tests.{if◌then◌else◌, Bool-cases}
use exoskeleton.Base.Lists.{All, All-imp, AllPairs, length, any}
use Prim.Native.Nat.{suc}
use native.Mathlib.Omega.{arith}

module _ {ℓ} {A : Type ℓ} (le : A → A → Bool) where
  insert_by : A → List A → List A
  insert_by x [] = x ∷ []
  insert_by x (y ∷ ys) = if le x y then x ∷ y ∷ ys else y ∷ insert_by x ys

  unfoldable pub sort_by : List A → List A
  unfolding insert_by
  sort_by [] = []
  sort_by (x ∷ xs) = insert_by x (sort_by xs)

  abbrev pub IsSorted : List A → Type 0
  IsSorted = AllPairs (λ x y. le x y ≡ true)

module _ {ℓ} {A : Type ℓ} (le : A → A → Bool) where
  insert_by-perm : (x : A) (ys : List A) → Perm (insert_by le x ys) (x ∷ ys)
  unfolding insert_by
  insert_by-perm x [] = Perm.refl _
  insert_by-perm x (y ∷ ys) = elim (Bool-cases (le x y)) [
    | inl e ↦ rw e (Perm.refl _)
    | inr e ↦ rw e (Perm.trans (Perm.cons y (insert_by-perm x ys)) (Perm.swap _ _ _))
  ]

  pub sort_by-perm : (xs : List A) → Perm (sort_by le xs) xs
  unfolding sort_by
  sort_by-perm [] = Perm.refl _
  sort_by-perm (x ∷ xs) =
      Perm.trans (insert_by-perm x (sort_by le xs)) (Perm.cons x (sort_by-perm xs))

  insert_by-All {κ} :
      (P : A → Type κ) (x : A) (ys : List A) → P x → All P ys → All P (insert_by le x ys)
  unfolding insert_by
  insert_by-All P x [] h k = (h, tt)
  insert_by-All P x (y ∷ ys) h k = elim (Bool-cases (le x y)) [
    | inl e ↦ rw e (h, k)
    | inr e ↦ rw e (k.0, insert_by-All P x ys h k.1)
  ]

  pub sort_by-All {κ} : (P : A → Type κ) (xs : List A) → All P xs → All P (sort_by le xs)
  unfolding sort_by
  sort_by-All P [] h = tt
  sort_by-All P (x ∷ xs) h = insert_by-All P x (sort_by le xs) h.0 (sort_by-All P xs h.1)

  insert_by-AllPairs {κ} :
      (R : A → A → Type κ) (sym_R : (x y : A) → R x y → R y x) (x : A) (ys : List A)
      → All (R x) ys
      → AllPairs R ys
      → AllPairs R (insert_by le x ys)
  unfolding insert_by
  insert_by-AllPairs R sym_R x [] h k = (tt, tt)
  insert_by-AllPairs R sym_R x (y ∷ ys) h k = elim (Bool-cases (le x y)) [
    | inl e ↦ rw e (h, k)
    | inr e ↦
        rw e (insert_by-All (R y) x ys (sym_R x y h.0) k.0, insert_by-AllPairs R sym_R x ys h.1 k.1)
  ]

  -- A symmetric relation between all pairs does not depend on the order.
  pub sort_by-AllPairs {κ} :
      (R : A → A → Type κ) (sym_R : (x y : A) → R x y → R y x) (xs : List A)
      → AllPairs R xs
      → AllPairs R (sort_by le xs)
  unfolding sort_by
  sort_by-AllPairs R sym_R [] h = tt
  sort_by-AllPairs R sym_R (x ∷ xs) h =
      insert_by-AllPairs R sym_R x (sort_by le xs) (sort_by-All (R x) xs h.0)
        (sort_by-AllPairs R sym_R xs h.1)

  module _ (total : (x y : A) → le x y ≡ false → le y x ≡ true)
      (trans : (x y z : A) → le x y ≡ true → le y z ≡ true → le x z ≡ true) where
    insert_by-IsSorted : (x : A) (ys : List A) → IsSorted le ys → IsSorted le (insert_by le x ys)
    unfolding insert_by
    insert_by-IsSorted x [] h = (tt, tt)
    insert_by-IsSorted x (y ∷ ys) h = elim (Bool-cases (le x y)) [
      | inl e ↦ rw e ((e, All-imp (λ z. trans x y z e) ys h.0), h)
      | inr e ↦
          rw e
            (insert_by-All (λ z. le y z ≡ true) x ys (total x y e) h.0, insert_by-IsSorted x ys h.1)
    ]

    pub sort_by-IsSorted : (xs : List A) → IsSorted le (sort_by le xs)
    unfolding sort_by
    sort_by-IsSorted [] = tt
    sort_by-IsSorted (x ∷ xs) = insert_by-IsSorted x (sort_by le xs) (sort_by-IsSorted xs)

    -- A sorted list is left as it is.
    pub sort_by-of_IsSorted : (xs : List A) → IsSorted le xs → sort_by le xs ≡ xs
    unfolding sort_by insert_by
    sort_by-of_IsSorted [] h = refl
    sort_by-of_IsSorted (x ∷ []) h = refl
    sort_by-of_IsSorted (x ∷ y ∷ ys) h = rw (sort_by-of_IsSorted (y ∷ ys) h.1) (rw h.0.0 refl)

module _ {ℓ} {A : Type ℓ} (le : A → A → Bool) where
  insert_by-any :
      (t : A → Bool) (x : A) (ys : List A) → any t (insert_by le x ys) ≡ (t x || any t ys)
  unfolding insert_by
  insert_by-any t x [] = refl
  insert_by-any t x (y ∷ ys) = ground (arith, insert_by-any t x ys)

  pub sort_by-any : (t : A → Bool) (xs : List A) → any t (sort_by le xs) ≡ any t xs
  unfolding sort_by
  sort_by-any t [] = refl
  sort_by-any t (x ∷ xs) = insert_by-any t x (sort_by le xs) ∙ ap (λ b. t x || b) (sort_by-any t xs)

  length-insert_by : (x : A) (ys : List A) → length (insert_by le x ys) ≡ suc (length ys)
  unfolding insert_by
  length-insert_by x [] = refl
  length-insert_by x (y ∷ ys) = ground (arith, length-insert_by x ys)

  pub length-sort_by : (xs : List A) → length (sort_by le xs) ≡ length xs
  unfolding sort_by
  length-sort_by [] = refl
  length-sort_by (x ∷ xs) = length-insert_by x (sort_by le xs) ∙ ap suc (length-sort_by xs)

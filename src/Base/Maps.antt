-- ===== src/Base/Maps.antt =====
-- A hash map as an association list. The source never relies on the order of its entries.
use mathlib.Core.Path.{◌≡◌, refl, ◌∙◌}
use mathlib.Core.List.{List, [], ◌∷◌}
use mathlib.Core.Option.{Option, none, some}
use native.Mathlib.Omega.{arith}
use exoskeleton.Base.Tests.{if◌then◌else◌, Bool-cases}
use mathlib.Core.Logic.{inl, inr}
use exoskeleton.Base.Equality.{Eq, ◌==◌}

abbrev pub Dict {ℓ κ} : Type ℓ → Type κ → Type (ℓ ⊔ κ)
Dict K V = List (K × V)

module _ {ℓ κ} {K : Type ℓ} {V : Type κ} ⦃e : Eq K⦄ where
  unfoldable pub lookup : K → Dict K V → Option V
  lookup k [] = none
  lookup k ((j, v) ∷ m) = if j == k then some v else lookup k m

  unfoldable pub insert : K → V → Dict K V → Dict K V
  insert k v [] = (k, v) ∷ []
  insert k v ((j, w) ∷ m) = if j == k then (j, v) ∷ m else (j, w) ∷ insert k v m

  unfoldable pub remove : K → Dict K V → Dict K V
  remove k [] = []
  remove k ((j, w) ∷ m) = if j == k then remove k m else (j, w) ∷ remove k m

  -- A write through `get_mut`, which does nothing on a missing key.
  unfoldable pub adjust : K → (V → V) → Dict K V → Dict K V
  adjust k f [] = []
  adjust k f ((j, w) ∷ m) = if j == k then (j, f w) ∷ m else (j, w) ∷ adjust k f m

  -- A write through `entry(k).or_insert(d)`.
  pub upsert : K → V → (V → V) → Dict K V → Dict K V
  upsert k d f [] = (k, f d) ∷ []
  upsert k d f ((j, w) ∷ m) = if j == k then (j, f w) ∷ m else (j, w) ∷ upsert k d f m

module _ {ℓ κ} {K : Type ℓ} {V : Type κ} ⦃e : Eq K⦄ (k j : K) where
  pub lookup-insert :
      (v : V) (m : Dict K V) → lookup j (insert k v m) ≡ (if k == j then some v else lookup j m)
  unfolding lookup insert
  lookup-insert v [] = refl
  lookup-insert v ((i, w) ∷ m) =
      ground (arith, e.beq_iff k j, e.beq_iff i k, e.beq_iff i j, lookup-insert v m)

  pub lookup-remove : (m : Dict K V) → lookup j (remove k m) ≡ (if k == j then none else lookup j m)
  unfolding lookup remove
  lookup-remove [] = ground arith
  lookup-remove ((i, w) ∷ m) =
      ground (arith, e.beq_iff k j, e.beq_iff i k, e.beq_iff i j, lookup-remove m)

  pub lookup-adjust :
      (f : V → V) (m : Dict K V)
      → lookup j (adjust k f m)
        ≡ (if k == j then elim (lookup j m) [ none ↦ none | some v ↦ some (f v) ] else lookup j m)
  unfolding lookup adjust
  lookup-adjust f [] = ground arith
  lookup-adjust f ((i, w) ∷ m) =
      ground (arith, e.beq_iff k j, e.beq_iff i k, e.beq_iff i j, lookup-adjust f m)

  pub lookup-upsert :
      (d : V) (f : V → V) (m : Dict K V)
      → lookup j (upsert k d f m)
        ≡ (if k == j then some (f (elim (lookup j m) [ none ↦ d | some v ↦ v ])) else lookup j m)
  unfolding lookup upsert
  lookup-upsert d f [] = ground arith
  lookup-upsert d f ((i, w) ∷ m) =
      ground (arith, e.beq_iff k j, e.beq_iff i k, e.beq_iff i j, lookup-upsert d f m)

module _ {ℓ κ} {K : Type ℓ} {V : Type κ} ⦃e : Eq K⦄ where
  -- A hash map has one entry for a key.
  abbrev pub UniqueKeys : Dict K V → Type κ
  UniqueKeys [] = Unit
  UniqueKeys ((k, v) ∷ m) = (lookup k m ≡ none) × UniqueKeys m

  pub upsert-UniqueKeys :
      (k : K) (d : V) (f : V → V) (m : Dict K V) → UniqueKeys m → UniqueKeys (upsert k d f m)
  unfolding upsert lookup
  upsert-UniqueKeys k d f [] u = (refl, tt)
  upsert-UniqueKeys k d f ((j, w) ∷ m) u = elim (Bool-cases (j == k)) [
    | inl same ↦ rw same u
    | inr differ ↦ rw differ (
      lookup-upsert k j d f m ∙ ground (arith, e.beq_iff j k, e.beq_iff k j, u.0),
      upsert-UniqueKeys k d f m u.1,
    )
  ]

  pub insert-UniqueKeys : (k : K) (v : V) (m : Dict K V) → UniqueKeys m → UniqueKeys (insert k v m)
  unfolding insert lookup
  insert-UniqueKeys k v [] u = (refl, tt)
  insert-UniqueKeys k v ((j, w) ∷ m) u = elim (Bool-cases (j == k)) [
    | inl same ↦ rw same u
    | inr differ ↦ rw differ (
      lookup-insert k j v m ∙ ground (arith, e.beq_iff j k, e.beq_iff k j, u.0),
      insert-UniqueKeys k v m u.1,
    )
  ]

  pub adjust-UniqueKeys :
      (k : K) (f : V → V) (m : Dict K V) → UniqueKeys m → UniqueKeys (adjust k f m)
  unfolding adjust lookup
  adjust-UniqueKeys k f [] u = tt
  adjust-UniqueKeys k f ((j, w) ∷ m) u = elim (Bool-cases (j == k)) [
    | inl same ↦ rw same u
    | inr differ ↦ rw differ (
      lookup-adjust k j f m ∙ ground (arith, e.beq_iff j k, e.beq_iff k j, u.0),
      adjust-UniqueKeys k f m u.1,
    )
  ]

  pub remove-UniqueKeys : (k : K) (m : Dict K V) → UniqueKeys m → UniqueKeys (remove k m)
  unfolding remove lookup
  remove-UniqueKeys k [] u = tt
  remove-UniqueKeys k ((j, w) ∷ m) u = elim (Bool-cases (j == k)) [
    | inl same ↦ rw same (remove-UniqueKeys k m u.1)
    | inr differ ↦ rw differ (
      lookup-remove k j m ∙ ground (arith, e.beq_iff j k, e.beq_iff k j, u.0),
      remove-UniqueKeys k m u.1,
    )
  ]

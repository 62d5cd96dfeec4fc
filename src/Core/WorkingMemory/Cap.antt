-- ===== src/Core/WorkingMemory/Cap.antt =====
-- What the entry cap keeps.
use exoskeleton.Base.{
  leb, Bool-cases, length, take, drop, All, length-take, All-imp, All-of_forall, take-append-drop,
  AllPairs-take-drop, sort_by, IsSorted, sort_by-perm, sort_by-IsSorted, length-sort_by, ℕ, min,
  ◌≡◌, inl, inr, Bool, true, false, not, List, [], ◌++◌, Perm, arith,
}
use exoskeleton.Base.Float.{F64}
use mathlib.Core.List.Perm
use mathlib.Core.List.{append-nil}
use exoskeleton.Core.WorkingMemory.{
  WorkingMemory, WorkingMemoryEntry, enforce_cap, not_less_relevant,
}

-- The numbers compare as finite floating-point numbers do: no NaN is among them.
pub record IsComparable {F : Type 0} (f : F64 F) : Type 0 where
  pub asymmetric : (x y : F) → f.lt x y ≡ true → f.lt y x ≡ false
  pub negatively_transitive : (x y z : F) → f.lt x y ≡ false → f.lt y z ≡ false → f.lt x z ≡ false

not-eq_true : (b : Bool) → not b ≡ true → b ≡ false
not-eq_true b h = ground arith

module _ {F : Type 0} ⦃f : F64 F⦄ where
  -- `kept` is a choice of entries, and none that is left out is more relevant than one in it.
  pub KeepsMostRelevant : List (WorkingMemoryEntry F) → List (WorkingMemoryEntry F) → Type 0
  KeepsMostRelevant kept entries =
      (dropped : List (WorkingMemoryEntry F)) × Perm (kept ++ dropped) entries
      × All (λ k. All (λ d. f.lt k.relevance d.relevance ≡ false) dropped) kept

  keeps_all : (es : List (WorkingMemoryEntry F)) → KeepsMostRelevant es es
  unfolding KeepsMostRelevant
  keeps_all es = ([], rw append-nil (Perm.refl es), All-of_forall (λ a. tt) es)

  keeps_first :
      (n : ℕ) (es : List (WorkingMemoryEntry F))
      → IsComparable f
      → KeepsMostRelevant (take n (sort_by not_less_relevant es)) es
  unfolding KeepsMostRelevant
  keeps_first n es ord =
      let sorted = sort_by not_less_relevant es in
      let is_sorted : IsSorted not_less_relevant sorted =
        sort_by-IsSorted not_less_relevant
          (λ x y h. ground (arith, ord.asymmetric x.relevance y.relevance))
          (λ x y z h k.
            ground (arith, ord.negatively_transitive x.relevance y.relevance z.relevance))
          es in
      (
        drop n sorted,
        rw (take-append-drop n sorted) (sort_by-perm not_less_relevant es),
        All-imp (λ k. All-imp (λ d. not-eq_true _) (drop n sorted)) (take n sorted)
            (AllPairs-take-drop (λ x y. not_less_relevant x y ≡ true) n sorted is_sorted),
      )

  -- With comparable relevances, exactly as many entries are kept as the cap allows, or all if they
  -- are fewer, and none that is dropped is more relevant than one that is kept.
  pub enforce_cap-KeepsMostRelevant :
      (n : ℕ) (w : WorkingMemory F)
      → IsComparable f
      → (length (enforce_cap n w).entries ≡ min n (length w.entries))
        × KeepsMostRelevant (enforce_cap n w).entries w.entries
  unfolding enforce_cap
  enforce_cap-KeepsMostRelevant n w ord = elim (Bool-cases (leb (length w.entries) n)) [
    | inl within ↦ rw within (ground arith, keeps_all w.entries)
    | inr over ↦
        let sorted = sort_by not_less_relevant w.entries in
        rw over (
          omega (arith, length-take n sorted, length-sort_by not_less_relevant w.entries),
          keeps_first n w.entries ord,
        )
  ]

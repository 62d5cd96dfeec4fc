-- ===== src/Budget/Thrash/Repetition.antt =====
-- Repetition is the greatest number of failures of one action type.
use exoskeleton.Base.{
  ltb, Bool-cases, unwrap_or, length, filter, Dict, lookup, upsert, lookup-upsert, UniqueKeys,
  upsert-UniqueKeys, ◌==◌, ==→eq, ==_refl, ℕ, suc, ◌+◌, ◌≤◌, String, ◌≡◌, refl, ◌⊎◌, inl, inr, Bool,
  ◌&&◌, List, [], ◌∷◌, arith, nat_eq, string_eq,
}
use exoskeleton.Core.Tick.{TickRecord, ActionRecord, is_failure}
use exoskeleton.Budget.Thrash.{check_action_repetition, count_failures, count_ticks, max_count}

abbrev is_failure_of : String → ActionRecord → Bool
is_failure_of k a = is_failure a.outcome && a.action_type == k

-- How often actions of type `k` failed.
pub failures : {F : Type 0} → String → List (TickRecord F) → ℕ
failures k [] = 0
failures k (t ∷ ts) = length (filter (is_failure_of k) t.actions_taken) + failures k ts

abbrev count_of : String → Dict String ℕ → ℕ
count_of k m = unwrap_or (lookup k m) 0

count_failures_lem :
    (k : String) (l : List ActionRecord) (m : Dict String ℕ)
    → count_of k (count_failures l m) ≡ count_of k m + length (filter (is_failure_of k) l)
unfolding count_failures
count_failures_lem k [] m = omega arith
count_failures_lem k (a ∷ l) m = ground (
  arith,
  count_failures_lem k l m,
  count_failures_lem k l (upsert a.action_type 0 (λ n. suc n) m),
  lookup-upsert a.action_type k 0 (λ (n : ℕ). suc n) m,
)

count_failures-UniqueKeys :
    (l : List ActionRecord) (m : Dict String ℕ) → UniqueKeys m → UniqueKeys (count_failures l m)
unfolding count_failures
count_failures-UniqueKeys [] m u = u
count_failures-UniqueKeys (a ∷ l) m u = elim (Bool-cases (is_failure a.outcome)) [
  | inl e ↦ rw e (count_failures-UniqueKeys l _ (upsert-UniqueKeys a.action_type 0 _ m u))
  | inr e ↦ rw e (count_failures-UniqueKeys l m u)
]

module _ {F : Type 0} where
  count_ticks_lem :
      (k : String) (ts : List (TickRecord F)) (m : Dict String ℕ)
      → count_of k (count_ticks ts m) ≡ count_of k m + failures k ts
  unfolding count_ticks failures
  count_ticks_lem k [] m = omega arith
  count_ticks_lem k (t ∷ ts) m = omega (
    arith,
    count_ticks_lem k ts (count_failures t.actions_taken m),
    count_failures_lem k t.actions_taken m,
  )

  count_ticks-UniqueKeys :
      (ts : List (TickRecord F)) (m : Dict String ℕ) → UniqueKeys m → UniqueKeys (count_ticks ts m)
  unfolding count_ticks
  count_ticks-UniqueKeys [] m u = u
  count_ticks-UniqueKeys (t ∷ ts) m u =
      count_ticks-UniqueKeys ts _ (count_failures-UniqueKeys t.actions_taken m u)

count_of-le-max_count : (k : String) (m : Dict String ℕ) → count_of k m ≤ max_count m
unfolding max_count lookup
count_of-le-max_count k [] = omega arith
count_of-le-max_count k ((j, n) ∷ m) = ground (arith, count_of-le-max_count k m)

max_count_attained :
    (m : Dict String ℕ)
    → UniqueKeys m
    → (max_count m ≡ 0) ⊎ ((k : String) × (count_of k m ≡ max_count m))
unfolding max_count lookup
max_count_attained [] u = inl refl
max_count_attained ((j, n) ∷ m) u = elim (max_count_attained m u.1) [
  | inl zero_rest ↦ inr (j, ground (arith, ==_refl j))
  | inr (k, e) ↦ elim (Bool-cases (ltb (max_count m) n)) [
    | inl above ↦ inr (j, ground (arith, ==_refl j))
    | inr below ↦ elim (Bool-cases (j == k)) [
      | inl same ↦ inr (j, ground (arith, ==_refl j, ==→eq j k same, u.0))
      | inr differ ↦ inr (k, ground arith)
    ]
  ]
]

module _ {F : Type 0} where
  -- The repetition of the ticks is the greatest number of failures that they hold of one action
  -- type: no type has more, and unless it is 0 some type has exactly as many. Successes between the
  -- failures make no difference.
  pub check_action_repetition_greatest :
      (ts : List (TickRecord F))
      → ((k : String) → failures k ts ≤ check_action_repetition ts)
        × ((check_action_repetition ts ≡ 0)
            ⊎ ((k : String) × (failures k ts ≡ check_action_repetition ts)))
  unfolding check_action_repetition lookup
  check_action_repetition_greatest ts = (
    λ k. omega (arith, count_ticks_lem k ts [], count_of-le-max_count k (count_ticks ts [])),
    elim (max_count_attained (count_ticks ts []) (count_ticks-UniqueKeys ts [] tt)) [
      | inl z ↦ inl z
      | inr (k, e) ↦ inr (k, omega (arith, count_ticks_lem k ts []))
    ],
  )

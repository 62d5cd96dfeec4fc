-- ===== src/Threads/Store/Outputs.antt =====
-- The history of outputs in crates/exoskeleton-threads/src/store.rs.
use exoskeleton.Base.{
  if◌then◌else◌, Bool-cases, length, drop, length-append, lookup, lookup-upsert, ◌==◌, ℕ, zero, suc,
  ◌-◌, ◌≤◌, ◌≡◌, refl, ap, ◌∙◌, inl, inr, Option, none, some, List, [], ◌∷◌, ◌++◌, arith, nat_eq,
  string_eq,
}
use exoskeleton.Threads.Types.{ThreadExecutionResult}
use exoskeleton.Threads.Store.{
  ThreadStore, reverse, recent_execution_results, save_execution_result, latest,
}

module _ {ℓ} {A : Type ℓ} where
  reverse-snoc : (xs : List A) (x : A) → reverse (xs ++ x ∷ []) ≡ x ∷ reverse xs
  reverse-snoc [] x = refl
  reverse-snoc (y ∷ xs) x = ap (λ l. l ++ y ∷ []) (reverse-snoc xs x)

  drop-snoc :
      (n : ℕ) (xs : List A) (x : A) → n ≤ length xs → drop n (xs ++ x ∷ []) ≡ drop n xs ++ x ∷ []
  drop-snoc zero xs x h = refl
  drop-snoc (suc n) [] x h = absurd (omega arith)
  drop-snoc (suc n) (y ∷ xs) x h = drop-snoc n xs x (omega arith)

  latest-snoc :
      (limit : ℕ) (xs : List A) (x : A)
      → reverse (drop (length (xs ++ x ∷ []) - suc limit) (xs ++ x ∷ []))
        ≡ x ∷ reverse (drop (length xs - limit) xs)
  latest-snoc limit xs x =
      let n : length (xs ++ x ∷ []) - suc limit ≡ length xs - limit =
        omega (arith, length-append xs (x ∷ [])) in
      rw n (
        rw (drop-snoc (length xs - limit) xs x (omega arith))
          (reverse-snoc (drop (length xs - limit) xs) x))

  latest-push :
      (limit : ℕ) (found : Option (List A)) (x : A)
      → latest (suc limit) (some (elim found [ none ↦ [] | some v ↦ v ] ++ x ∷ []))
        ≡ x ∷ latest limit found
  latest-push limit none x =
      let none_left : 0 - limit ≡ 0 = omega arith in latest-snoc limit [] x ∙ rw none_left refl
  latest-push limit (some xs) x = latest-snoc limit xs x

module _ {X L : Type 0} where
  -- After a result is saved, the most recent ones of its thread are that result and the most recent
  -- ones before, one fewer; those of the other threads stay.
  pub recent-save_execution_result :
      (id limit : ℕ) (r : ThreadExecutionResult X) (s : ThreadStore X L)
      → recent_execution_results id (suc limit) (save_execution_result r s) ≡ (
          if r.thread_id == id
          then r ∷ recent_execution_results id limit s
          else recent_execution_results id (suc limit) s)
  unfolding save_execution_result recent_execution_results
  recent-save_execution_result id limit r s =
      ap (latest (suc limit)) (lookup-upsert r.thread_id id [] (λ rs. rs ++ r ∷ []) s.outputs)
      ∙ elim (Bool-cases (r.thread_id == id)) [
        | inl e ↦ rw e (latest-push limit (lookup id s.outputs) r)
        | inr e ↦ rw e refl
      ]

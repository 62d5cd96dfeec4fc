-- ===== src/Memory/Compiler/Budget.antt =====
-- The budget of crates/exoskeleton-memory/src/compiler.rs.
use exoskeleton.Base.{
  ltb, leb, ltb→lt, leb→le, le→leb, Bool-cases, sort_by, ℕ, zero, suc, ◌+◌, ◌-◌, ◌≤◌, ◌<◌, min, ◌≡◌,
  refl, inl, inr, true, List, [], ◌∷◌, map, arith,
}
use exoskeleton.Base.Errors.{context_compilation, Result, ok, err}
use exoskeleton.Base.Float.{F64}
use exoskeleton.Memory.Tokens.{Text, TokenCounter}
use exoskeleton.Memory.Compiler.{
  SectionState, RenderedSection, CompiledContext, allocate, compile, redistribute, fit, sum_of,
  modify_at, read_at, indices_where, critical_total, first_allocation, first_surplus, needs_more,
  surplus_order,
}

allocated_sum : List SectionState → ℕ
allocated_sum sections = sum_of (λ x. x.allocated) sections

sum-first_allocation :
    (sections : List SectionState)
    → allocated_sum (map first_allocation sections) + sum_of first_surplus sections
      ≡ sum_of (λ x. x.target) sections
unfolding allocated_sum
sum-first_allocation [] = refl
sum-first_allocation (x ∷ xs) = ground (arith, sum-first_allocation xs)

sum-modify_at :
    (i k : ℕ) (sections : List SectionState)
    → allocated_sum (modify_at i (λ x. record x { allocated = x.allocated + k }) sections)
      ≤ allocated_sum sections + k
unfolding allocated_sum
sum-modify_at i k [] = omega arith
sum-modify_at zero k (x ∷ xs) = omega arith
sum-modify_at (suc i) k (x ∷ xs) = omega (arith, sum-modify_at i k xs)

sum-redistribute :
    (is : List ℕ) (surplus : ℕ) (sections : List SectionState)
    → allocated_sum (redistribute is surplus sections) ≤ allocated_sum sections + surplus
unfolding redistribute
sum-redistribute [] surplus sections = omega arith
sum-redistribute (i ∷ is) surplus sections =
    let additional = min (read_at 0 (λ x. x.actual_tokens - x.target) i sections) surplus in
    let more = modify_at i (λ x. record x { allocated = x.allocated + additional }) sections in
    omega
      (arith, sum-modify_at i additional sections, sum-redistribute is (surplus - additional) more)

-- When the targets of the sections fit the budget together, so does what is allocated to them: the
-- surplus of the small sections that is handed to the large ones is never handed out twice, and
-- nothing is left to cut.
pub allocate-within :
    (effective : ℕ) (sections : List SectionState)
    → sum_of (λ x. x.target) sections ≤ effective
    → sum_of (λ x. x.allocated) (allocate effective sections) ≤ effective
unfolding allocate allocated_sum
allocate-within effective sections h =
    let first = map first_allocation sections in
    let needing = sort_by (surplus_order first) (indices_where needs_more 0 sections) in
    let shared = redistribute needing (sum_of first_surplus sections) first in
    let within : leb (allocated_sum shared) effective ≡ true = le→leb _ _ (
      omega (
        arith,
        sum-first_allocation sections,
        sum-redistribute needing (sum_of first_surplus sections) first,
      )) in
    rw within (leb→le _ _ within)

module _ {F : Type 0} (f : F64 F) (counter : TokenCounter) where
  count-fit : (total : ℕ) (prompt : Text) → counter.count (fit counter total prompt) ≤ total
  count-fit total prompt = elim (Bool-cases (ltb total (counter.count prompt))) [
    | inl e ↦ rw e (counter.fits prompt total)
    | inr e ↦ rw e (ground (arith, e))
  ]

  -- What is returned for a budget and the tokens of the critical sections.
  abbrev pub IsOutcome : ℕ → ℕ → Result CompiledContext → Type 0
  IsOutcome total needed (ok c) =
      (needed ≤ total)
      × (counter.count c.prompt ≤ total)
      × (c.total_tokens ≡ counter.count c.prompt)
      × (c.budget ≡ total)
  IsOutcome total needed (err (context_compilation e)) = total < needed
  IsOutcome total needed (err _) = ⊥

  -- The compilation succeeds exactly when the critical sections fit the budget together. A compiled
  -- prompt never has more tokens than the budget, and the count and the budget that it is returned
  -- with are its own.
  pub compile-within_budget :
      (total : ℕ) (rendered : List (RenderedSection F))
      → IsOutcome total (critical_total f counter rendered) (compile counter f total rendered)
  unfolding compile
  compile-within_budget total rendered =
      elim (Bool-cases (ltb total (critical_total f counter rendered))) [
        | inl e ↦ rw (e, IsOutcome) (ltb→lt _ _ e)
        | inr e ↦ rw (e, IsOutcome) (ground (arith, e), count-fit total _, refl, refl)
      ]

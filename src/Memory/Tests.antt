-- ===== src/Memory/Tests.antt =====
-- The theorems on the context compiler at concrete inputs.
use exoskeleton.Base.{
  sort_by, ◌==◌, ℕ, ◌≤◌, ◌≡◌, refl, Bool, false, List, [], ◌∷◌, map, arith, nat_eq, string_eq,
}
use exoskeleton.Samples.{hundredths}
use exoskeleton.Memory.Tokens.{
  Text, TokenCounter, IsPrefix, approximate_token_counter, truncate_approximately,
  truncate_approximately_lem, approximate_token_count, before_last,
}
use exoskeleton.Memory.Compiler.{
  RenderedSection, SectionPriority, SectionState, allocate, compile, critical_total, sum_of,
  redistribute,
}
use exoskeleton.Memory.Compiler.Budget.{IsOutcome, allocate-within, compile-within_budget}

-- The blank is the character 32.
abbrev is_blank : ℕ → Bool
is_blank c = c == 32

abbrev some_text : Text
some_text = 97 ∷ 98 ∷ 32 ∷ 99 ∷ 100 ∷ 101 ∷ []

truncate_approximately_lem_example :
    IsPrefix (truncate_approximately is_blank some_text 1) some_text
truncate_approximately_lem_example = (truncate_approximately_lem is_blank some_text 1).0

cut_at_the_blank : truncate_approximately is_blank some_text 1 ≡ 97 ∷ 98 ∷ []
unfolding truncate_approximately approximate_token_count before_last
cut_at_the_blank = refl

abbrev counter : TokenCounter
counter = approximate_token_counter is_blank

abbrev one_section : List (RenderedSection ℕ)
one_section =
    record {
      name = "system";
      text = some_text;
      priority = SectionPriority.critical;
      target_pct = 10;
    }
    ∷ []

compile-within_budget_example :
    IsOutcome hundredths counter 4
      (critical_total hundredths counter one_section)
      (compile counter hundredths 4 one_section)
compile-within_budget_example = compile-within_budget hundredths counter 4 one_section

abbrev state_of : ℕ → ℕ → SectionState
state_of tokens target = record {
  name = "s";
  text = some_text;
  actual_tokens = tokens;
  target = target;
  allocated = 0;
  priority = SectionPriority.medium;
  truncated = false;
}

allocate-within_example :
    sum_of (λ x. x.allocated) (allocate 10 (state_of 2 5 ∷ state_of 9 5 ∷ [])) ≤ 10
allocate-within_example = allocate-within 10 (state_of 2 5 ∷ state_of 9 5 ∷ []) (omega arith)

-- A critical section whose target is small is cut, though the budget would hold it.
critical_is_cut :
    map
      (λ x. x.allocated)
      (allocate 10
        (record (state_of 8 2) { priority = SectionPriority.critical } ∷ state_of 8 8 ∷ []))
    ≡ 2 ∷ 8 ∷ []
unfolding allocate redistribute sort_by
critical_is_cut = refl

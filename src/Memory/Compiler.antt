-- ===== src/Memory/Compiler.antt =====
-- crates/exoskeleton-memory/src/compiler.rs: `ContextCompiler::compile`. The rendered sections, in
-- their fixed order, are its input; a target share is a floating-point number. Sums of token counts
-- are taken in ℕ: the source adds them unchecked in 64-bit words.
pub mod Budget
use exoskeleton.Base.{
  ltb, leb, if◌then◌else◌, length, filter, is_empty, sort_by, ◌==◌, ℕ, zero, suc, ◌+◌, ◌-◌, min,
  String, Bool, true, false, not, ◌&&◌, ◌||◌, List, [], ◌∷◌, ◌++◌, map, nat_eq, string_eq,
}
use exoskeleton.Base.Errors.{context_compilation, Result, ok, err}
use exoskeleton.Base.Float.{F64}
use exoskeleton.Memory.Tokens.{Text, TokenCounter}

pub data SectionPriority : Type 0 where
  low medium high critical : SectionPriority

abbrev pub section_rank : SectionPriority → ℕ
section_rank SectionPriority.low = 0
section_rank SectionPriority.medium = 1
section_rank SectionPriority.high = 2
section_rank SectionPriority.critical = 3

abbrev pub is_critical : SectionPriority → Bool
is_critical SectionPriority.critical = true
is_critical _ = false

-- A rendered section, and its allocation configuration.
pub record RenderedSection (F : Type 0) : Type 0 where
  pub name : String
  pub text : Text
  pub priority : SectionPriority
  pub target_pct : F

pub record SectionState : Type 0 where
  pub name : String
  pub text : Text
  pub actual_tokens : ℕ
  pub target : ℕ
  pub allocated : ℕ
  pub priority : SectionPriority
  pub truncated : Bool

pub record SectionResult : Type 0 where
  pub name : String
  pub allocated : ℕ
  pub used : ℕ
  pub truncated : Bool

pub record CompiledContext : Type 0 where
  pub prompt : Text
  pub total_tokens : ℕ
  pub budget : ℕ
  pub sections : List SectionResult
  pub truncated_sections : List String

abbrev pub sum_of : {A : Type 0} → (A → ℕ) → List A → ℕ
sum_of g [] = 0
sum_of g (x ∷ xs) = g x + sum_of g xs

-- A write at an index, and a read with a default out of range.
abbrev pub modify_at : {A : Type 0} → ℕ → (A → A) → List A → List A
modify_at i g [] = []
modify_at zero g (x ∷ xs) = g x ∷ xs
modify_at (suc i) g (x ∷ xs) = x ∷ modify_at i g xs

abbrev pub read_at : {A B : Type 0} → B → (A → B) → ℕ → List A → B
read_at d g i [] = d
read_at d g zero (x ∷ xs) = g x
read_at d g (suc i) (x ∷ xs) = read_at d g i xs

-- The indices, from `i` on, of the sections that pass a test.
abbrev pub indices_where : (SectionState → Bool) → ℕ → List SectionState → List ℕ
indices_where p i [] = []
indices_where p i (x ∷ xs) = let rest = indices_where p (suc i) xs in if p x then i ∷ rest else rest

abbrev pub rank_at : List SectionState → ℕ → ℕ
rank_at sections i = read_at 0 (λ x. section_rank x.priority) i sections

module _ {F : Type 0} (f : F64 F) (counter : TokenCounter) where
  -- Phase 2.
  abbrev pub tokens_of : RenderedSection F → ℕ
  tokens_of r = if is_empty r.text then 0 else counter.count r.text

  unfoldable pub critical_total : List (RenderedSection F) → ℕ
  critical_total rendered =
      sum_of tokens_of (filter (λ r. not (is_empty r.text) && is_critical r.priority) rendered)

  -- Phase 3: what the separators leave of the budget, and the targets.
  unfoldable effective_budget : ℕ → List (RenderedSection F) → ℕ
  effective_budget total rendered =
      total - (length (filter (λ r. not (is_empty r.text)) rendered) - 1)

  abbrev pub section_state : ℕ → RenderedSection F → SectionState
  section_state effective r = record {
    name = r.name;
    text = r.text;
    actual_tokens = tokens_of r;
    target = f.to_u64 (f.mul (f.of_u64 effective) r.target_pct);
    allocated = 0;
    priority = r.priority;
    truncated = false;
  }

-- The first allocation of a section, and what it leaves of its target.
abbrev pub first_allocation : SectionState → SectionState
first_allocation x =
    if x.actual_tokens == 0
    then record x { allocated = 0 }
    else if leb x.actual_tokens x.target
    then record x { allocated = x.actual_tokens }
    else record x { allocated = x.target }

abbrev pub first_surplus : SectionState → ℕ
first_surplus x =
    if x.actual_tokens == 0
    then x.target
    else if leb x.actual_tokens x.target
    then x.target - x.actual_tokens
    else 0

abbrev pub needs_more : SectionState → Bool
needs_more x = not (x.actual_tokens == 0) && not (leb x.actual_tokens x.target)

-- Phase 4: the order of those that need more, by priority and then by index, and the surplus handed
-- out in that order.
abbrev pub surplus_order : List SectionState → ℕ → ℕ → Bool
surplus_order sections a b =
    if rank_at sections a == rank_at sections b
    then leb a b
    else ltb (rank_at sections b) (rank_at sections a)

unfoldable pub redistribute : List ℕ → ℕ → List SectionState → List SectionState
redistribute [] surplus sections = sections
redistribute (i ∷ is) surplus sections =
    let additional = min (read_at 0 (λ x. x.actual_tokens - x.target) i sections) surplus in
    redistribute is (surplus - additional)
      (modify_at i (λ x. record x { allocated = x.allocated + additional }) sections)

-- Phase 5: the order of the cuts, by ascending priority and then by descending index, and the cuts.
abbrev pub cut_order : List SectionState → ℕ → ℕ → Bool
cut_order sections a b =
    if rank_at sections a == rank_at sections b
    then leb b a
    else ltb (rank_at sections a) (rank_at sections b)

abbrev pub cut_section : ℕ → SectionState → SectionState
cut_section excess x =
    let left = x.allocated - min excess x.allocated in
    record x {
      allocated = left;
      truncated = if ltb left x.actual_tokens then true else x.truncated;
    }

cut_each : ℕ → List ℕ → ℕ → List SectionState → List SectionState
cut_each effective [] total sections = sections
cut_each effective (i ∷ is) total sections =
    let excess = total - effective in
    let reduce = min excess (read_at 0 (λ x. x.allocated) i sections) in
    let after_cut =
      cut_each effective is (total - reduce) (modify_at i (cut_section excess) sections) in
    let uncut = cut_each effective is total sections in
    if leb total effective
    then sections
    else if read_at false (λ x. is_critical x.priority) i sections
    then uncut
    else after_cut

unfoldable pub allocate : ℕ → List SectionState → List SectionState
unfolding cut_each
allocate effective targeted =
    let first = map first_allocation targeted in
    let needing = sort_by (surplus_order first) (indices_where needs_more 0 targeted) in
    let shared = redistribute needing (sum_of first_surplus targeted) first in
    let total = sum_of (λ x. x.allocated) shared in
    let to_cut =
      sort_by (cut_order shared) (indices_where (λ x. not (x.allocated == 0)) 0 shared) in
    if leb total effective then shared else cut_each effective to_cut total shared

-- Phase 6: the text of one section after the cut, and the prompt and the results so far with it.
module _ (counter : TokenCounter) where
  abbrev pub is_cut : SectionState → Bool
  is_cut x = x.truncated || ltb x.allocated x.actual_tokens

  abbrev pub final_text : SectionState → Text
  final_text x = if is_cut x then counter.truncate_to_budget x.text x.allocated else x.text

  abbrev pub is_left_out : SectionState → Bool
  is_left_out x = (x.allocated == 0) || is_empty x.text

  abbrev pub section_result : SectionState → SectionResult
  section_result x =
      if is_left_out x
      then record { name = x.name; allocated = x.allocated; used = 0; truncated = false }
      else record {
        name = x.name;
        allocated = x.allocated;
        used = counter.count (final_text x);
        truncated = is_cut x;
      }

  -- A newline is the character 10.
  abbrev pub add_text : Text → Text → Text
  add_text prompt text =
      if is_empty text then prompt else if is_empty prompt then text else prompt ++ 10 ∷ text

  unfoldable assemble : Text → List SectionState → Text
  assemble prompt [] = prompt
  assemble prompt (x ∷ xs) =
      assemble (if is_left_out x then prompt else add_text prompt (final_text x)) xs

  abbrev pub fit : ℕ → Text → Text
  fit total prompt =
      if ltb total (counter.count prompt) then counter.truncate_to_budget prompt total else prompt

  pub compile : {F : Type 0} → F64 F → ℕ → List (RenderedSection F) → Result CompiledContext
  compile f total rendered =
      let effective = effective_budget f counter total rendered in
      let sections = allocate effective (map (section_state f counter effective) rendered) in
      let prompt = fit total (assemble [] sections) in
      if ltb total (critical_total f counter rendered)
      then err (context_compilation "Critical sections require more tokens than the budget")
      else ok (record {
        prompt = prompt;
        total_tokens = counter.count prompt;
        budget = total;
        sections = map section_result sections;
        truncated_sections =
            map (λ x. x.name) (filter (λ x. not (is_left_out x) && is_cut x) sections);
      })

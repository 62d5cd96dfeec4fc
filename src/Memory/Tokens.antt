-- ===== src/Memory/Tokens.antt =====
-- crates/exoskeleton-memory/src/tokens.rs: how the tokens of a text are counted, and how a text is
-- cut to a number of them. `is_whitespace` is the standard library's test on characters.
use exoskeleton.Base.{
  leb, if◌then◌else◌, leb→le, le→leb, Bool-cases, unwrap_or, length, take, drop, length-append,
  length-take, take-append-drop, u64_mod, ◌==◌, ℕ, ◌+◌, ◌*◌, ◌/◌, ◌%◌, ◌≤◌, ◌≡◌, refl, sym, ap, ◌∙◌,
  inl, inr, Bool, true, false, Option, none, some, List, [], ◌∷◌, ◌++◌, arith, nat_eq, string_eq,
}
use mathlib.Core.List.{append-nil, append_assoc}

abbrev pub Text : Type 0
Text = List ℕ

-- The trait, with what its documentation guarantees.
pub record TokenCounter : Type 0 where
  pub count : Text → ℕ
  pub truncate_to_budget : Text → ℕ → Text
  pub fits : (text : Text) (budget : ℕ) → count (truncate_to_budget text budget) ≤ budget

-- `chars.div_ceil(4)`.
unfoldable pub approximate_token_count : Text → ℕ
approximate_token_count text = (length text + 3) / 4

module _ (is_whitespace : ℕ → Bool) where
  abbrev pub extend : ℕ → Option Text → Option Text
  extend c (some kept) = some (c ∷ kept)
  extend c none = if is_whitespace c then some [] else none

  -- The text before the last whitespace, if there is any: `rfind` and the slice up to it.
  unfoldable pub before_last : Text → Option Text
  before_last [] = none
  before_last (c ∷ cs) = extend c (before_last cs)

  unfoldable pub truncate_approximately : Text → ℕ → Text
  truncate_approximately text budget =
      if budget == 0
      then []
      else if leb (approximate_token_count text) budget
      then text
      else let truncated = take ((budget * 4) % u64_mod) text in
        unwrap_or (before_last truncated) truncated

-- `part` is the text up to some place.
abbrev pub IsPrefix : Text → Text → Type 0
IsPrefix part text = (rest : Text) × (part ++ rest ≡ text)

IsCut : Option Text → Text → Type 0
IsCut none text = Unit
IsCut (some kept) text = IsPrefix kept text

unwrap_or-IsPrefix :
    (found : Option Text) (text : Text) → IsCut found text → IsPrefix (unwrap_or found text) text
unfolding IsCut
unwrap_or-IsPrefix none text h = ([], append-nil text)
unwrap_or-IsPrefix (some kept) text h = h

length-IsPrefix : (part text : Text) → IsPrefix part text → length part ≤ length text
length-IsPrefix part text (rest, e) =
    let total : length part + length rest ≡ length text =
      sym (length-append part rest) ∙ ap length e in
    omega (arith, total)

take-IsPrefix : (n : ℕ) (text : Text) → IsPrefix (take n text) text
take-IsPrefix n text = (drop n text, take-append-drop n text)

IsPrefix-trans : (a b c : Text) → IsPrefix a b → IsPrefix b c → IsPrefix a c
IsPrefix-trans a b c (r, e) (q, d) = (r ++ q, sym (append_assoc a r q) ∙ ap (λ t. t ++ q) e ∙ d)

module _ (is_whitespace : ℕ → Bool) where
  extend-IsCut :
      (c : ℕ) (found : Option Text) (cs : Text)
      → IsCut found cs
      → IsCut (extend is_whitespace c found) (c ∷ cs)
  unfolding IsCut
  extend-IsCut c (some kept) cs (rest, e) = (rest, ap (◌∷◌ c) e)
  extend-IsCut c none cs h = elim (Bool-cases (is_whitespace c)) [
    | inl e ↦ rw e (c ∷ cs, refl)
    | inr e ↦ rw e tt
  ]

  before_last-IsCut : (text : Text) → IsCut (before_last is_whitespace text) text
  unfolding before_last IsCut
  before_last-IsCut [] = tt
  before_last-IsCut (c ∷ cs) =
      extend-IsCut c (before_last is_whitespace cs) cs (before_last-IsCut cs)

  cut_text-IsPrefix :
      (text : Text) → IsPrefix (unwrap_or (before_last is_whitespace text) text) text
  cut_text-IsPrefix text = unwrap_or-IsPrefix _ text (before_last-IsCut text)

  truncate_approximately-fits :
      (text : Text) (budget : ℕ)
      → let cut = truncate_approximately is_whitespace text budget in
        IsPrefix cut text × (approximate_token_count cut ≤ budget)
  unfolding truncate_approximately approximate_token_count
  truncate_approximately-fits text budget = elim (Bool-cases (budget == 0)) [
    | inl e ↦ rw e ((text, refl), omega arith)
    | inr e ↦ rw e (elim (Bool-cases (leb (approximate_token_count text) budget)) [
      | inl f ↦ rw f (([], append-nil text), leb→le _ _ f)
      | inr f ↦
          let n = (budget * 4) % u64_mod in
          let part = unwrap_or (before_last is_whitespace (take n text)) (take n text) in
          let inner : IsPrefix part (take n text) = cut_text-IsPrefix (take n text) in
          rw f (
            IsPrefix-trans part (take n text) text inner (take-IsPrefix n text),
            omega (arith, length-IsPrefix part (take n text) inner, length-take n text),
          )
    ])
  ]

  truncate_approximately-of_le :
      (text : Text) (budget : ℕ)
      → (budget == 0) ≡ false
      → approximate_token_count text ≤ budget
      → truncate_approximately is_whitespace text budget ≡ text
  unfolding truncate_approximately
  truncate_approximately-of_le text budget e h =
      let whole : leb (approximate_token_count text) budget ≡ true = le→leb _ _ h in
      rw e (rw whole refl)

  truncate_approximately_idem :
      (text : Text) (budget : ℕ)
      → truncate_approximately is_whitespace
          (truncate_approximately is_whitespace text budget)
          budget
        ≡ truncate_approximately is_whitespace text budget
  unfolding truncate_approximately
  truncate_approximately_idem text budget = elim (Bool-cases (budget == 0)) [
    | inl e ↦ rw e refl
    | inr e ↦ truncate_approximately-of_le _ budget e (truncate_approximately-fits text budget).1
  ]

  -- A text that is cut to a budget is a prefix of what it was, and its token count is within the
  -- budget, even where four times the budget does not fit a word; cutting it to the same budget
  -- again changes nothing.
  pub truncate_approximately_lem :
      (text : Text) (budget : ℕ)
      → let cut = truncate_approximately is_whitespace text budget in
        IsPrefix cut text
        × (approximate_token_count cut ≤ budget)
        × (truncate_approximately is_whitespace cut budget ≡ cut)
  truncate_approximately_lem text budget =
      let fits = truncate_approximately-fits text budget in
      (fits.0, fits.1, truncate_approximately_idem text budget)

-- The compiler's counter, as an implementation of the trait.
unfoldable pub approximate_token_counter : (ℕ → Bool) → TokenCounter
approximate_token_counter is_whitespace = record {
  count = approximate_token_count;
  truncate_to_budget = truncate_approximately is_whitespace;
  fits = λ text budget. (truncate_approximately_lem is_whitespace text budget).1;
}

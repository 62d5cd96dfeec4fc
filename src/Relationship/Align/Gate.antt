-- ===== src/Relationship/Align/Gate.antt =====
-- When crates/exoskeleton-relationship/src/align.rs blocks an action.
use exoskeleton.Base.{
  Bool-cases, is_some, any, ◌==◌, ==→eq, ==_refl, String, ◌≡◌, refl, sym, ◌∙◌, inl, inr, Bool, true,
  false, ◌&&◌, ◌||◌, List, [], ◌∷◌, ◌++◌, arith, nat_eq, string_eq,
}
use exoskeleton.Base.Float.{F64}
use exoskeleton.Relationship.Types.{PrincipalSummary}
use exoskeleton.Relationship.Align.{
  AlignConfig, AlignAction, is_destructive, add_destructive_tool, min_trust_from, min_trust,
  threshold, block_reason, contains,
}

-- What IEEE 754 says of `min` and of the greatest finite number, for numbers that are not NaN: a
-- minimum is below a bound when one of the two is, and nothing is below a threshold of the
-- configuration that the greatest number is below.
pub record MinLaws {F : Type 0} (f : F64 F) (c : AlignConfig F) : Type 0 where
  pub least_lt : (a b t : F) → f.lt (f.least a b) t ≡ (f.lt a t || f.lt b t)
  pub max_lt_action : f.lt f.max_value c.min_trust_for_action ≡ false
  pub max_lt_destructive : f.lt f.max_value c.min_trust_for_destructive ≡ false

-- Some principal's trust is below the threshold.
abbrev pub someone_below : {F : Type 0} → F64 F → F → List (PrincipalSummary F) → Bool
someone_below f t ps = any (λ p. f.lt p.trust_level t) ps

module _ {F : Type 0} (f : F64 F) (c : AlignConfig F) (laws : MinLaws f c) where
  min_trust_from-lt :
      (t least : F) (ps : List (PrincipalSummary F))
      → f.lt (min_trust_from f least ps) t ≡ (f.lt least t || someone_below f t ps)
  min_trust_from-lt t least [] = ground arith
  min_trust_from-lt t least (p ∷ ps) =
      min_trust_from-lt t (f.least least p.trust_level) ps
      ∙ ground (arith, laws.least_lt least p.trust_level t)

  pub max_lt-threshold : (a : AlignAction) → f.lt f.max_value (threshold f c a) ≡ false
  max_lt-threshold a = elim (Bool-cases (is_destructive c a.tool_name)) [
    | inl e ↦ rw e laws.max_lt_destructive
    | inr e ↦ rw e laws.max_lt_action
  ]

  min_trust-lt :
      (a : AlignAction) (ps : List (PrincipalSummary F))
      → f.lt (min_trust f ps) (threshold f c a) ≡ someone_below f (threshold f c a) ps
  min_trust-lt a ps =
      min_trust_from-lt (threshold f c a) f.max_value ps ∙ rw (max_lt-threshold a) refl

  -- With numbers that compare as `MinLaws` says, an action is blocked when the trust in some
  -- principal is below the threshold for its tool, or when it is destructive, broken commitments
  -- block, and some trust is below the one for all tools; in every other case it is approved. A tool
  -- for messages between vessels is no exception: its own threshold is never read.
  pub block_reason-is_some :
      (ps : List (PrincipalSummary F)) (a : AlignAction)
      → is_some (block_reason f c ps a) ≡ (
          someone_below f (threshold f c a) ps
          || ((c.block_on_broken_commitments && someone_below f c.min_trust_for_action ps)
              && is_destructive c a.tool_name))
  unfolding block_reason
  block_reason-is_some ps a = ground (arith, min_trust-lt a ps)

  any-imp-below :
      (s t : F) (le : (x : F) → f.lt x s ≡ true → f.lt x t ≡ true) (ps : List (PrincipalSummary F))
      → someone_below f s ps ≡ true
      → someone_below f t ps ≡ true
  any-imp-below s t le [] h = h
  any-imp-below s t le (p ∷ ps) h = elim (Bool-cases (f.lt p.trust_level s)) [
    | inl e ↦ rw (le p.trust_level e) refl
    | inr e ↦ ground (arith, any-imp-below s t le ps, h)
  ]

  -- With such numbers, and as long as the threshold for destructive tools is no lower than the one
  -- for all tools, the commitment check never decides: an action is blocked exactly when the trust
  -- in some principal is below its threshold, whatever `block_on_broken_commitments` says. That is
  -- the threshold for destructive tools or the one for all tools, also for a tool for messages
  -- between vessels.
  pub commitment_check_never_decides :
      (raise : (x : F)
        → f.lt x c.min_trust_for_action ≡ true
        → f.lt x c.min_trust_for_destructive ≡ true)
      → (ps : List (PrincipalSummary F)) (a : AlignAction)
      → is_some (block_reason f c ps a) ≡ someone_below f (threshold f c a) ps
  commitment_check_never_decides raise ps a =
      block_reason-is_some ps a ∙ elim (Bool-cases (is_destructive c a.tool_name)) [
        | inl e ↦ rw e (
            ground
              (arith, any-imp-below c.min_trust_for_action c.min_trust_for_destructive raise ps))
        | inr e ↦ rw e (ground arith)
      ]

contains-snoc :
    (name other : String) (tools : List String)
    → contains other (tools ++ name ∷ []) ≡ (contains other tools || (name == other))
contains-snoc name other [] = ground arith
contains-snoc name other (t ∷ tools) = ground (arith, contains-snoc name other tools)

contains-absorb :
    (name other : String) (tools : List String)
    → contains name tools ≡ true
    → contains other tools ≡ (contains other tools || (name == other))
contains-absorb name other tools h = elim (Bool-cases (name == other)) [
  | inl e ↦ rw (sym (==→eq name other e)) (rw h refl)
  | inr e ↦ rw e (ground arith)
]

-- Adding a tool at run time makes exactly that tool destructive besides those that are, and adding
-- it again changes nothing.
pub is_destructive-add_destructive_tool :
    {F : Type 0}
    → (name other : String) (c : AlignConfig F)
    → (is_destructive (add_destructive_tool name c) other
        ≡ (is_destructive c other || (name == other)))
      × (add_destructive_tool name (add_destructive_tool name c) ≡ add_destructive_tool name c)
unfolding is_destructive add_destructive_tool
is_destructive-add_destructive_tool name other c =
    elim (Bool-cases (contains name c.dynamic_destructive_tools)) [
      | inl e ↦
          rw e (ground (arith, contains-absorb name other c.dynamic_destructive_tools e), rw e refl)
      | inr e ↦ rw e (
        ground (arith, contains-snoc name other c.dynamic_destructive_tools),
        ground (arith, contains-snoc name name c.dynamic_destructive_tools, ==_refl name),
      )
    ]

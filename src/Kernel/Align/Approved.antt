-- ===== src/Kernel/Align/Approved.antt =====
-- Which actions crates/exoskeleton-host/src/kernel/align.rs lets pass.
use exoskeleton.Base.{
  is_some, length, filter, length-append, ℕ, suc, ◌≡◌, refl, sym, ap, ◌∙◌, Bool, not, Option, none,
  some, List, [], ◌∷◌, ◌++◌, map, arith,
}
use exoskeleton.Base.Float.{F64}
use mathlib.Core.List.{append_assoc}
use exoskeleton.Relationship.Types.{PrincipalSummary, RelationshipRecord}
use exoskeleton.Relationship.Align.{
  AlignConfig, Alignment, BlockReason, block_reason, add_verdict, ReviewLabel, check_alignment,
  review_from,
}
use exoskeleton.Threads.Store.{filter_map}
use exoskeleton.Kernel.Types.{PlannedAction}
use exoskeleton.Kernel.Align.{align_action, pick, nth?, pick_blocked, with_action, align_actions}

pub nth?-append-length {ℓ} :
    {A : Type ℓ} (pre : List A) (x : A) (xs : List A) → nth? (pre ++ x ∷ xs) (length pre) ≡ some x
nth?-append-length [] x xs = refl
nth?-append-length (p ∷ pre) x xs = nth?-append-length pre x xs

pub length-snoc {ℓ} : {A : Type ℓ} (xs : List A) (x : A) → suc (length xs) ≡ length (xs ++ x ∷ [])
length-snoc xs x = omega (arith, length-append xs (x ∷ []))

module _ {ℓ κ} {A : Type ℓ} {B : Type κ} (g : A → Option B) where
  pub filter_map-some :
      (x : A) (y : B) (xs : List A) → g x ≡ some y → filter_map g (x ∷ xs) ≡ y ∷ filter_map g xs
  filter_map-some x y xs h = rw (h, filter_map) refl

  filter_map-none : (x : A) (xs : List A) → g x ≡ none → filter_map g (x ∷ xs) ≡ filter_map g xs
  filter_map-none x xs h = rw (h, filter_map) refl

abbrev pub paired : {A R : Type 0} → A → Option R → Option (A × R)
paired a none = none
paired a (some why) = some (a, why)

module _ {F J : Type 0} (f : F64 F) (c : AlignConfig F) (ps : List (PrincipalSummary F)) where
  -- The reason to block an action, if there is one.
  abbrev pub reason_for : PlannedAction J → Option (BlockReason F)
  reason_for a = block_reason f c ps (align_action a)

  abbrev pub passes : PlannedAction J → Bool
  passes a = not (is_some (reason_for a))

  abbrev pub with_reason : PlannedAction J → Option (PlannedAction J × BlockReason F)
  with_reason a = paired a (reason_for a)

  -- A verdict picks the actions that pass, and blocks the others with their reasons.
  abbrev pub Splits : List (PlannedAction J) → List (PlannedAction J) → Alignment F → Type 0
  Splits all actions v =
      (pick all v.approved ≡ filter passes actions)
      × (pick_blocked all v.blocked ≡ filter_map with_reason actions)

  add_verdict-Splits :
      (pre rest : List (PlannedAction J)) (a : PlannedAction J) (r : RelationshipRecord)
      (reason : Option (BlockReason F)) (later : Alignment F)
      → reason_for a ≡ reason
      → Splits (pre ++ a ∷ rest) rest later
      → Splits (pre ++ a ∷ rest) (a ∷ rest) (add_verdict (length pre) r reason later)
  unfolding add_verdict
  add_verdict-Splits pre rest a r none later e h = (
    filter_map-some (nth? (pre ++ a ∷ rest)) (length pre) a later.approved
          (nth?-append-length pre a rest)
        ∙ ap (◌∷◌ a) h.0
        ∙ rw e refl,
    h.1 ∙ sym (filter_map-none with_reason a rest (ap (paired a) e)),
  )
  add_verdict-Splits pre rest a r (some why) later e h = (
    h.0 ∙ rw e refl,
    filter_map-some (λ b. with_action b.1 (nth? (pre ++ a ∷ rest) b.0)) (length pre, why) (a, why)
          later.blocked (ap (with_action why) (nth?-append-length pre a rest))
        ∙ ap (◌∷◌ (a, why)) h.1
        ∙ sym (filter_map-some with_reason a (a, why) rest (ap (paired a) e)),
  )

module _ {F J : Type 0} (f : F64 F) (content_id : ReviewLabel → ℕ) (fresh now : ℕ → ℕ) (tick : ℕ)
    (c : AlignConfig F) (p : PrincipalSummary F) (ps : List (PrincipalSummary F)) where
  review_from-Splits :
      (pre rest : List (PlannedAction J))
      → Splits f c
          (p ∷ ps)
          (pre ++ rest)
          rest
          (review_from f content_id fresh now tick c p ps (length pre) (map align_action rest))
  unfolding review_from
  review_from-Splits pre [] = (refl, refl)
  review_from-Splits pre (a ∷ rest) =
      let next = review_from-Splits (pre ++ a ∷ []) rest in
      let reason = block_reason f c (p ∷ ps) (align_action a) in
      add_verdict-Splits f c (p ∷ ps) pre rest a _ reason _ refl
        (rw⁻¹ (append_assoc pre (a ∷ []) rest) (rw (length-snoc pre a) next))

  -- When there is a principal, the actions that pass are exactly those that the gate does not block,
  -- and the blocked ones are the others, each with its reason; both keep the order of the decision.
  pub align_actions-Splits :
      (compiled_at : ℕ) (actions : List (PlannedAction J))
      → let result =
          align_actions f content_id fresh now c tick actions
            (some (record { principals = p ∷ ps; compiled_at = compiled_at })) in
        (result.approved_actions ≡ filter (passes f c (p ∷ ps)) actions)
        × (result.blocked_actions ≡ filter_map (with_reason f c (p ∷ ps)) actions)
  unfolding align_actions check_alignment
  align_actions-Splits compiled_at actions = review_from-Splits [] actions

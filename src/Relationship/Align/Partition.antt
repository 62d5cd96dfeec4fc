-- ===== src/Relationship/Align/Partition.antt =====
-- The result of `check_alignment` of crates/exoskeleton-relationship/src/align.rs as a whole.
use exoskeleton.Base.{
  All, All-imp, ℕ, zero, suc, ◌-◌, ◌≤◌, ◌≡◌, refl, Option, none, some, List, [], ◌∷◌, ◌++◌, map,
  Perm, arith,
}
use exoskeleton.Base.Float.{F64}
use exoskeleton.Relationship.Types.{PrincipalSummary, RelationshipRecord, RelationshipSnapshot}
use exoskeleton.Relationship.Align.{
  AlignConfig, AlignAction, BlockReason, block_reason, ReviewLabel, add_verdict, check_alignment,
}
use exoskeleton.Relationship.Align.{Alignment, review_from, indices_from}
use mathlib.Core.List.Perm
use mathlib.Core.List.{perm_middle}

-- The action at an index.
abbrev pub action_at : ℕ → List AlignAction → Option AlignAction
action_at i [] = none
action_at zero (a ∷ rest) = some a
action_at (suc i) (a ∷ rest) = action_at i rest

abbrev pub blocked_indices : {F : Type 0} → List (ℕ × BlockReason F) → List ℕ
blocked_indices blocked = map (λ b. b.0) blocked

abbrev pub indices : {F : Type 0} → Alignment F → List ℕ
indices r = r.approved ++ blocked_indices r.blocked

add_verdict-Perm :
    {F : Type 0}
    → (i : ℕ) (update : RelationshipRecord) (reason : Option (BlockReason F)) (later : Alignment F)
      (is : List ℕ)
    → Perm (indices later) is
    → Perm (indices (add_verdict i update reason later)) (i ∷ is)
unfolding add_verdict
add_verdict-Perm i update none later is h = Perm.cons i h
add_verdict-Perm i update (some why) later is h = Perm.trans (perm_middle _ _) (Perm.cons i h)

module _ {F : Type 0} (f : F64 F) (c : AlignConfig F) (ps : List (PrincipalSummary F)) where
  -- The verdict at index `k` of a list whose indices start at `i` is the one on that action alone.
  abbrev pub VerdictFrom : ℕ → List AlignAction → Option (BlockReason F) → ℕ → Type 0
  VerdictFrom i actions reason k =
      (i ≤ k)
      × ((a : AlignAction) × (action_at (k - i) actions ≡ some a)
          × (block_reason f c ps a ≡ reason))

  -- Every index of the result stands for an action with the verdict under which it is listed.
  abbrev pub VerdictsFrom : ℕ → List AlignAction → Alignment F → Type 0
  VerdictsFrom i actions r =
      All (VerdictFrom i actions none) r.approved
      × All (λ b. VerdictFrom i actions (some b.1) b.0) r.blocked

  -- The verdict on an action of the tail is the one on the same action of the whole list.
  later_VerdictFrom :
      (i : ℕ) (a : AlignAction) (rest : List AlignAction) (reason : Option (BlockReason F)) (k : ℕ)
      → VerdictFrom (suc i) rest reason k
      → VerdictFrom i (a ∷ rest) reason k
  later_VerdictFrom i a rest reason k (le, (b, at, e)) =
      let shift : k - i ≡ suc (k - suc i) = omega arith in (omega arith, (b, rw shift at, e))

  own_VerdictFrom :
      (i : ℕ) (a : AlignAction) (rest : List AlignAction) (reason : Option (BlockReason F))
      → block_reason f c ps a ≡ reason
      → VerdictFrom i (a ∷ rest) reason i
  own_VerdictFrom i a rest reason e =
      let zero_shift : i - i ≡ 0 = omega arith in (omega arith, (a, rw zero_shift refl, e))

  later_verdicts :
      (i : ℕ) (a : AlignAction) (rest : List AlignAction) (r : Alignment F)
      → VerdictsFrom (suc i) rest r
      → VerdictsFrom i (a ∷ rest) r
  later_verdicts i a rest r h = (
    All-imp (later_VerdictFrom i a rest none) r.approved h.0,
    All-imp (λ b. later_VerdictFrom i a rest (some b.1) b.0) r.blocked h.1,
  )

  add_verdict-VerdictsFrom :
      (i : ℕ) (update : RelationshipRecord) (a : AlignAction) (rest : List AlignAction)
      (reason : Option (BlockReason F)) (later : Alignment F)
      → block_reason f c ps a ≡ reason
      → VerdictsFrom (suc i) rest later
      → VerdictsFrom i (a ∷ rest) (add_verdict i update reason later)
  unfolding add_verdict
  add_verdict-VerdictsFrom i update a rest none later e h =
      let tail = later_verdicts i a rest later h in
      ((own_VerdictFrom i a rest none e, tail.0), tail.1)
  add_verdict-VerdictsFrom i update a rest (some why) later e h =
      let tail = later_verdicts i a rest later h in
      (tail.0, (own_VerdictFrom i a rest (some why) e, tail.1))

module _ {F : Type 0} (f : F64 F) (content_id : ReviewLabel → ℕ) (fresh now : ℕ → ℕ) (tick : ℕ)
    (c : AlignConfig F) (p : PrincipalSummary F) (ps : List (PrincipalSummary F)) where
  abbrev review : ℕ → List AlignAction → Alignment F
  review i actions = review_from f content_id fresh now tick c p ps i actions

  review-Perm :
      (i : ℕ) (actions : List AlignAction)
      → Perm (indices (review i actions)) (indices_from i actions)
  unfolding review_from indices_from
  review-Perm i [] = Perm.refl _
  review-Perm i (a ∷ rest) =
      add_verdict-Perm i _ (block_reason f c (p ∷ ps) a) _ _ (review-Perm (suc i) rest)

  review-VerdictsFrom :
      (i : ℕ) (actions : List AlignAction) → VerdictsFrom f c (p ∷ ps) i actions (review i actions)
  unfolding review_from
  review-VerdictsFrom i [] = (tt, tt)
  review-VerdictsFrom i (a ∷ rest) =
      add_verdict-VerdictsFrom f c (p ∷ ps) i _ a rest (block_reason f c (p ∷ ps) a) _ refl
        (review-VerdictsFrom (suc i) rest)

  -- When there is a principal, the approved indices and the blocked ones together are every index
  -- of an action, once each; an index is approved only when the gate has nothing against its
  -- action, and it is blocked only with the gate's reason for it.
  pub check_alignment_partitions :
      (at : ℕ) (actions : List AlignAction)
      → let snapshot : RelationshipSnapshot F = record { principals = p ∷ ps; compiled_at = at } in
        let r = check_alignment f content_id fresh now actions snapshot c tick in
        Perm (indices r) (indices_from 0 actions) × VerdictsFrom f c (p ∷ ps) 0 actions r
  unfolding check_alignment
  check_alignment_partitions at actions = (review-Perm 0 actions, review-VerdictsFrom 0 actions)

-- ===== src/Kernel/Compaction/Groups.antt =====
-- How crates/exoskeleton-host/src/kernel/compaction.rs groups summaries.
use exoskeleton.Base.{
  Bool-cases, All, All-imp, ◌≤◌, ◌≡◌, refl, sym, ap, ◌∙◌, inl, inr, true, false, List, [], ◌∷◌,
  ◌++◌, arith,
}
use exoskeleton.Memory.Episodic.{EpisodicSummary}
use exoskeleton.Kernel.Compaction.{follows, group_from, group_consecutive, min_start, max_end}
use mathlib.Core.List.{append_assoc}

abbrev pub concat : List (List EpisodicSummary) → List EpisodicSummary
concat [] = []
concat (g ∷ gs) = g ++ concat gs

-- Each summary follows the one before it.
abbrev pub Linked : List EpisodicSummary → Type 0
Linked [] = Unit
Linked (s ∷ []) = Unit
Linked (s ∷ t ∷ ts) = (follows s t ≡ true) × Linked (t ∷ ts)

-- The last of a group that begins with `s`.
abbrev pub last_of : EpisodicSummary → List EpisodicSummary → EpisodicSummary
last_of s [] = s
last_of s (t ∷ ts) = last_of t ts

-- The group is not empty and the next one, if any, does not follow it.
abbrev pub Apart : List EpisodicSummary → List (List EpisodicSummary) → Type 0
Apart [] gs = ⊥
Apart (s ∷ ss) [] = Unit
Apart (s ∷ ss) ([] ∷ gs) = ⊥
Apart (s ∷ ss) ((t ∷ ts) ∷ gs) = follows (last_of s ss) t ≡ false

-- Groups whose summaries are linked, and that are apart from each other.
abbrev pub IsGrouped : List (List EpisodicSummary) → Type 0
IsGrouped [] = Unit
IsGrouped (g ∷ gs) = Linked g × Apart g gs × IsGrouped gs

group_from-concat :
    (group : List EpisodicSummary) (last : EpisodicSummary) (ss : List EpisodicSummary)
    → concat (group_from group last ss) ≡ group ++ ss
unfolding group_from
group_from-concat group last [] = refl
group_from-concat group last (s ∷ ss) = elim (Bool-cases (follows last s)) [
  | inl e ↦ rw e (group_from-concat (group ++ s ∷ []) s ss ∙ append_assoc group (s ∷ []) ss)
  | inr e ↦ rw e (ap (λ xs. group ++ xs) (group_from-concat (s ∷ []) s ss))
]

-- The groups begin with what the group so far begins with.
group_from-head :
    (x : EpisodicSummary) (group : List EpisodicSummary) (last : EpisodicSummary)
    (ss : List EpisodicSummary)
    → (g : List EpisodicSummary) × (gs : List (List EpisodicSummary)) × (group_from
          (x ∷ group)
          last
          ss
        ≡ (x ∷ g) ∷ gs)
unfolding group_from
group_from-head x group last [] = (group, [], refl)
group_from-head x group last (s ∷ ss) = elim (Bool-cases (follows last s)) [
  | inl e ↦ rw e (group_from-head x (group ++ s ∷ []) s ss)
  | inr e ↦ rw e (group, group_from (s ∷ []) s ss, refl)
]

last_of-snoc :
    (x s : EpisodicSummary) (group : List EpisodicSummary) → last_of x (group ++ s ∷ []) ≡ s
last_of-snoc x s [] = refl
last_of-snoc x s (y ∷ group) = last_of-snoc y s group

Linked-snoc :
    (x s : EpisodicSummary) (group : List EpisodicSummary)
    → Linked (x ∷ group)
    → follows (last_of x group) s ≡ true
    → Linked (x ∷ group ++ s ∷ [])
Linked-snoc x s [] h k = (k, tt)
Linked-snoc x s (y ∷ group) h k = (h.0, Linked-snoc y s group h.1 k)

group_from-IsGrouped :
    (x : EpisodicSummary) (group : List EpisodicSummary) (last : EpisodicSummary)
    (ss : List EpisodicSummary)
    → last ≡ last_of x group
    → Linked (x ∷ group)
    → IsGrouped (group_from (x ∷ group) last ss)
unfolding group_from
group_from-IsGrouped x group last [] end h = (h, tt, tt)
group_from-IsGrouped x group last (s ∷ ss) end h = elim (Bool-cases (follows last s)) [
  | inl e ↦ rw e (
      group_from-IsGrouped x (group ++ s ∷ []) s ss (sym (last_of-snoc x s group))
        (Linked-snoc x s group h (ap (λ l. follows l s) (sym end) ∙ e)))
  | inr e ↦ rw e (
      let next = group_from-head s [] s ss in
      (
        h,
        rw (next.2) (ap (λ l. follows l s) (sym end) ∙ e),
        group_from-IsGrouped s [] s ss refl tt,
      ))
]

-- Grouping keeps every summary and their order; in a group each summary starts at most two ticks
-- after the end of the one before, and a group ends where that fails; no group is empty.
pub group_consecutive_lem :
    (ss : List EpisodicSummary)
    → (concat (group_consecutive ss) ≡ ss) × IsGrouped (group_consecutive ss)
unfolding group_consecutive
group_consecutive_lem [] = (refl, tt)
group_consecutive_lem (s ∷ ss) =
    (group_from-concat (s ∷ []) s ss, group_from-IsGrouped s [] s ss refl tt)

pub min_start-le :
    (s : EpisodicSummary) (ss : List EpisodicSummary)
    → All (λ t. min_start s ss ≤ t.start_tick) (s ∷ ss)
min_start-le s [] = (omega arith, tt)
min_start-le s (t ∷ ts) =
    (omega arith, All-imp (λ u h. omega (arith, h)) (t ∷ ts) (min_start-le t ts))

pub max_end-ge :
    (s : EpisodicSummary) (ss : List EpisodicSummary)
    → All (λ t. t.end_tick ≤ max_end s ss) (s ∷ ss)
max_end-ge s [] = (omega arith, tt)
max_end-ge s (t ∷ ts) = (omega arith, All-imp (λ u h. omega (arith, h)) (t ∷ ts) (max_end-ge t ts))

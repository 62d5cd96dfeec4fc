-- ===== src/Relationship/Align.antt =====
-- crates/exoskeleton-relationship/src/align.rs: the gate between Decide and Act. The record of an
-- action is stamped with an id and the clock, which the caller of the model supplies; its content
-- is the artifact of a label, by the parameter `content_id`.
pub mod Gate
pub mod Partition
use exoskeleton.Base.{
  if◌then◌else◌, is_some, any, ◌==◌, ℕ, suc, String, Bool, ◌&&◌, ◌||◌, Option, none, some, List, [],
  ◌∷◌, ◌++◌, nat_eq, string_eq,
}
use exoskeleton.Base.Float.{F64}
use exoskeleton.Relationship.Types.{
  RelationshipRecord, RelationalSignalType, RelationshipSnapshot, PrincipalSummary, alignment_check,
  alignment_mismatch,
}

pub record AlignConfig (F : Type 0) : Type 0 where
  pub min_trust_for_action : F
  pub min_trust_for_destructive : F
  pub destructive_tools : List String
  pub dynamic_destructive_tools : List String
  pub block_on_broken_commitments : Bool
  pub min_trust_for_vessel_messaging : F
  pub vessel_messaging_tools : List String

pub record AlignAction : Type 0 where
  pub tool_name : String
  pub rationale : String

-- Why an action is blocked: the first word of the message that the source formats.
pub data BlockReason (F : Type 0) : Type 0 where
  trust_gate : (min_trust threshold : F) (destructive : Bool) (tool_name : String) → BlockReason F
  commitment_check : (tool_name : String) → BlockReason F

-- The label that the source formats and hashes for a reviewed action.
pub data ReviewLabel : Type 0 where
  blocked_label approved_label : String → ReviewLabel

abbrev pub contains : String → List String → Bool
contains name tools = any (λ t. t == name) tools

module _ {F : Type 0} where
  pub add_destructive_tool : String → AlignConfig F → AlignConfig F
  add_destructive_tool name c =
      if contains name c.dynamic_destructive_tools
      then c
      else record c { dynamic_destructive_tools = c.dynamic_destructive_tools ++ name ∷ [] }

  unfoldable pub is_destructive : AlignConfig F → String → Bool
  is_destructive c name =
      contains name c.destructive_tools || contains name c.dynamic_destructive_tools

module _ {F : Type 0} (f : F64 F) where
  -- `fold(f64::MAX, f64::min)`.
  abbrev pub min_trust_from : F → List (PrincipalSummary F) → F
  min_trust_from least [] = least
  min_trust_from least (p ∷ ps) = min_trust_from (f.least least p.trust_level) ps

  abbrev pub min_trust : List (PrincipalSummary F) → F
  min_trust ps = min_trust_from f.max_value ps

  abbrev pub threshold : AlignConfig F → AlignAction → F
  threshold c a =
      if is_destructive c a.tool_name then c.min_trust_for_destructive else c.min_trust_for_action

  abbrev pub has_broken_commitments : AlignConfig F → List (PrincipalSummary F) → Bool
  has_broken_commitments c ps =
      c.block_on_broken_commitments && any (λ p. f.lt p.trust_level c.min_trust_for_action) ps

  unfoldable pub block_reason :
      AlignConfig F → List (PrincipalSummary F) → AlignAction → Option (BlockReason F)
  block_reason c ps a =
      let destructive = is_destructive c a.tool_name in
      if f.lt (min_trust ps) (threshold c a)
      then some (trust_gate (min_trust ps) (threshold c a) destructive a.tool_name)
      else if has_broken_commitments c ps && destructive
      then some (commitment_check a.tool_name)
      else none

pub record Alignment (F : Type 0) : Type 0 where
  pub approved : List ℕ
  pub blocked : List (ℕ × BlockReason F)
  pub relationship_updates : List RelationshipRecord

-- The pushes for one action, before those for the later actions: its record, and its index.
unfoldable pub add_verdict :
    {F : Type 0} → ℕ → RelationshipRecord → Option (BlockReason F) → Alignment F → Alignment F
add_verdict i update none later = record {
  approved = i ∷ later.approved;
  blocked = later.blocked;
  relationship_updates = update ∷ later.relationship_updates;
}
add_verdict i update (some why) later = record {
  approved = later.approved;
  blocked = (i, why) ∷ later.blocked;
  relationship_updates = update ∷ later.relationship_updates;
}

-- The indices of the actions, from `i` on.
unfoldable pub indices_from : ℕ → List AlignAction → List ℕ
indices_from i [] = []
indices_from i (a ∷ rest) = i ∷ indices_from (suc i) rest

module _ {F : Type 0} (f : F64 F) (content_id : ReviewLabel → ℕ) where
  -- The record of the action at index `i`; `fresh i` is the id that is drawn for it and `now i` its
  -- time.
  abbrev pub review_record :
      (fresh now : ℕ → ℕ) (tick i : ℕ)
      → PrincipalSummary F
      → AlignAction
      → Option (BlockReason F)
      → RelationshipRecord
  review_record fresh now tick i p a reason = record {
    id = fresh i;
    principal_id = p.principal_id;
    signal_type =
        if is_some reason
        then RelationalSignalType.alignment_mismatch
        else RelationalSignalType.alignment_check;
    content_ref =
        content_id
          (if is_some reason then blocked_label a.tool_name else approved_label a.tool_name);
    tick_id = tick;
    timestamp = now i;
    metadata = [];
  }

  -- The loop over the actions from index `i` on, for principals of which `p` is the first.
  unfoldable pub review_from :
      (fresh now : ℕ → ℕ) (tick : ℕ)
      → AlignConfig F
      → PrincipalSummary F
      → List (PrincipalSummary F)
      → ℕ
      → List AlignAction
      → Alignment F
  review_from fresh now tick c p ps i [] = record {
    approved = [];
    blocked = [];
    relationship_updates = [];
  }
  review_from fresh now tick c p ps i (a ∷ rest) =
      let later = review_from fresh now tick c p ps (suc i) rest in
      let reason = block_reason f c (p ∷ ps) a in
      add_verdict i (review_record fresh now tick i p a reason) reason later

  unfoldable pub check_alignment :
      (fresh now : ℕ → ℕ)
      → List AlignAction
      → RelationshipSnapshot F
      → AlignConfig F
      → (tick : ℕ) → Alignment F
  unfolding indices_from
  check_alignment fresh now actions snapshot c tick = elim snapshot.principals [
    | [] ↦ record { approved = indices_from 0 actions; blocked = []; relationship_updates = [] }
    | p ∷ ps ↦ review_from fresh now tick c p ps 0 actions
  ]

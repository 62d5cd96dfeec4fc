-- ===== src/Kernel/Align.antt =====
-- crates/exoskeleton-host/src/kernel/align.rs: the Align step, from signals to watches. The events
-- for blocked actions are left out, since nothing of the step depends on them.
mod Tests
pub mod Approved
pub mod Limit
use exoskeleton.Base.{
  leb, if◌then◌else◌, Dict, ℕ, zero, suc, String, Bool, false, Option, none, some, List, [], ◌∷◌,
  ◌++◌, map,
}
use exoskeleton.Base.Float.{F64}
use exoskeleton.Relationship.Types.{
  RelationshipSnapshot, MessageEnvelope, RelationalSignal, TrustDecayConfig,
}
use exoskeleton.Relationship.Ledger.{RelationshipLedger}
use exoskeleton.Relationship.Signals.{process_relational_signals}
use exoskeleton.Relationship.Snapshot.{compile_relationship_snapshot, decay}
use exoskeleton.Relationship.Align.{AlignConfig, AlignAction, ReviewLabel, check_alignment}
use exoskeleton.Core.Watch as Watch
use exoskeleton.Core.Watch.{WatchDefinition, WatchProposal, WatchStatus, active_count, save, active}
use exoskeleton.Kernel.Types.{PlannedAction, AlignmentResult}
use exoskeleton.Threads.Store.{filter_map}

-- `AlignConfig::default()`.
abbrev pub default_align_config : {F : Type 0} → F64 F → AlignConfig F
default_align_config f = record {
  min_trust_for_action = f.decimal 3 1;
  min_trust_for_destructive = f.decimal 6 1;
  destructive_tools =
      "fs.write" ∷ "http.request" ∷ "shell.exec" ∷ "sandbox.exec" ∷ "webhook.send" ∷ "web.search"
      ∷ "discord" ∷ "code.edit" ∷ "code.write" ∷ "code.apply_patch" ∷ [];
  dynamic_destructive_tools = [];
  block_on_broken_commitments = false;
  min_trust_for_vessel_messaging = f.decimal 6 1;
  vessel_messaging_tools = [];
}

abbrev pub nth? {ℓ} : {A : Type ℓ} → List A → ℕ → Option A
nth? [] i = none
nth? (x ∷ xs) zero = some x
nth? (x ∷ xs) (suc i) = nth? xs i

-- The actions at the indices of a verdict.
abbrev pub pick {ℓ} : {A : Type ℓ} → List A → List ℕ → List A
pick xs is = filter_map (nth? xs) is

abbrev pub with_action : {A R : Type 0} → R → Option A → Option (A × R)
with_action reason none = none
with_action reason (some a) = some (a, reason)

abbrev pub pick_blocked : {A R : Type 0} → List A → List (ℕ × R) → List (A × R)
pick_blocked xs blocked = filter_map (λ b. with_action b.1 (nth? xs b.0)) blocked

abbrev pub align_action : {J : Type 0} → PlannedAction J → AlignAction
align_action a = record { tool_name = a.tool_name; rationale = a.rationale }

module _ {F J : Type 0} (f : F64 F) (content_id : ReviewLabel → ℕ) (fresh now : ℕ → ℕ) where
  -- The actions against a snapshot; without one, all of them pass.
  unfoldable pub align_actions :
      AlignConfig F
      → (tick : ℕ) → List (PlannedAction J)
      → Option (RelationshipSnapshot F)
      → AlignmentResult F J
  align_actions c tick actions none = record {
    approved_actions = actions;
    blocked_actions = [];
    relationship_updates = [];
    relationship_snapshot = none;
  }
  align_actions c tick actions (some snapshot) =
      let verdict =
        check_alignment f content_id fresh now (map align_action actions) snapshot c tick in
      record {
        approved_actions = pick actions verdict.approved;
        blocked_actions = pick_blocked actions verdict.blocked;
        relationship_updates = verdict.relationship_updates;
        relationship_snapshot = some snapshot;
      }

  module _ (parse : String → Option F) (id_text : ℕ → String)
      (read_signal : ℕ → Option RelationalSignal) (fresh_signal : ℕ → ℕ) where
    -- The ledger after the signals, and the alignment against what it then says. The ledger in
    -- memory is always read, so there is a snapshot.
    unfoldable pub align :
        Option (TrustDecayConfig F)
        → (clock tick : ℕ) → List MessageEnvelope
        → List (PlannedAction J)
        → RelationshipLedger
        → AlignmentResult F J × RelationshipLedger
    align decay clock tick messages actions l =
        let l' = (process_relational_signals read_signal fresh_signal tick messages l).0 in
        let snapshot = compile_relationship_snapshot f parse id_text decay clock clock l' in
        (align_actions (default_align_config f) tick actions (some snapshot), l')

module _ {F J : Type 0} where
  abbrev pub proposed_watch : ℕ → ℕ → ℕ → WatchProposal F J → WatchDefinition F J
  proposed_watch id tick now p = record {
    id = id;
    name = p.name;
    description = p.description;
    watch_type = p.watch_type;
    schedule = p.schedule;
    status = WatchStatus.active;
    created_at_tick = tick;
    last_checked_tick = none;
    trigger_count = 0;
    created_at = now;
  }

  -- The loop over the proposals from index `i` on; `fresh_watch i` is the id that is drawn for the
  -- proposal at index `i`.
  pub save_proposals :
      (fresh_watch : ℕ → ℕ) (max_watches tick now i : ℕ)
      → List (WatchProposal F J)
      → Dict ℕ (WatchDefinition F J)
      → Dict ℕ (WatchDefinition F J)
  save_proposals fresh_watch max_watches tick now i [] s = s
  save_proposals fresh_watch max_watches tick now i (p ∷ ps) s =
      let s' =
        if leb max_watches (active_count s)
        then s
        else Watch.save (proposed_watch (fresh_watch i) tick now p) s in
      save_proposals fresh_watch max_watches tick now (suc i) ps s'

-- What Act is given: the approved actions and, unless they are held back, the polls of the watches.
unfoldable pub merge_poll_actions :
    {F J : Type 0} → Bool → List (PlannedAction J) → AlignmentResult F J → AlignmentResult F J
merge_poll_actions suppress poll_actions r =
    if suppress then r else record r { approved_actions = r.approved_actions ++ poll_actions }

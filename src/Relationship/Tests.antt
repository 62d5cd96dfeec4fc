-- ===== src/Relationship/Tests.antt =====
-- The theorems on the ledger, the signals and the gate at concrete inputs.
use exoskeleton.Relationship.Ledger.AppendOnly.{
  append_all, DistinctIds, Extends, append_all_keeps_records,
}
use exoskeleton.Base.{
  is_some, ℕ, ◌+◌, ◌≡◌, refl, true, ◌&&◌, ◌||◌, none, some, List, [], ◌∷◌, arith,
}
use exoskeleton.Samples.{hundredths}
use mathlib.Core.List.{Perm}
use exoskeleton.Relationship.Types.{
  RelationshipRecord, RelationalSignalType, PrincipalSummary, MessageEnvelope, EnvelopeKind,
  RelationalSignal,
}
use exoskeleton.Relationship.Ledger.{RelationshipLedger}
use exoskeleton.Relationship.Signals.{
  AddsRecords, process_relational_signals, process_relational_signals-AddsRecords,
}
use exoskeleton.Relationship.Align.{
  AlignConfig, AlignAction, ReviewLabel, block_reason, check_alignment, is_destructive, threshold,
  indices_from, add_verdict, review_from,
}
use exoskeleton.Relationship.Align.Gate.{
  MinLaws, someone_below, block_reason-is_some, commitment_check_never_decides,
}
use exoskeleton.Relationship.Align.Partition.{indices, check_alignment_partitions}

abbrev record_at : ℕ → ℕ → RelationshipRecord
record_at id time = record {
  id = id;
  principal_id = 1;
  signal_type = RelationalSignalType.commitment_made;
  content_ref = 0;
  tick_id = 2;
  timestamp = time;
  metadata = [];
}

abbrev two_records : RelationshipLedger
two_records = record_at 1 10 ∷ record_at 2 20 ∷ []

abbrev trust_signal : RelationalSignal
trust_signal = record {
  signal_type = RelationalSignalType.trust_update;
  principal_id = 1;
  content = "c";
  metadata = ("trust_level", "0.8") ∷ [];
}

abbrev signal_message : MessageEnvelope
signal_message = record {
  id = 5;
  source = 6;
  target = none;
  kind = EnvelopeKind.relational_signal;
  payload_ref = 7;
  timestamp = 40;
  in_reply_to = none;
}

hundreds-injective : (i j : ℕ) → 100 + i ≡ 100 + j → i ≡ j
hundreds-injective i j h = omega arith

process_relational_signals-AddsRecords_example :
    AddsRecords
      (λ ref. some trust_signal)
      (λ i. 100 + i)
      9
      0
      (signal_message ∷ [])
      two_records
      (process_relational_signals
        (λ ref. some trust_signal)
        (λ i. 100 + i)
        9
        (signal_message ∷ [])
        two_records)
process_relational_signals-AddsRecords_example =
    process_relational_signals-AddsRecords (λ ref. some trust_signal) (λ i. 100 + i) 9
      hundreds-injective (signal_message ∷ []) two_records
      ((λ j. (λ k. omega arith)), ((λ j. (λ k. omega arith)), tt))

append_all_keeps_records_example :
    let later = append_all (record_at 2 30 ∷ record_at 3 40 ∷ []) two_records in
    DistinctIds later × Extends two_records later
append_all_keeps_records_example =
    append_all_keeps_records (record_at 2 30 ∷ record_at 3 40 ∷ []) two_records
      ((refl, tt), (tt, tt))

abbrev gate_config : AlignConfig ℕ
gate_config = record {
  min_trust_for_action = 30;
  min_trust_for_destructive = 60;
  destructive_tools = "fs.write" ∷ [];
  dynamic_destructive_tools = [];
  block_on_broken_commitments = true;
  min_trust_for_vessel_messaging = 60;
  vessel_messaging_tools = [];
}

abbrev principal_of : ℕ → ℕ → PrincipalSummary ℕ
principal_of id trust = record {
  principal_id = id;
  display_name = "p";
  role = "r";
  trust_level = trust;
  active_commitments = 0;
  last_interaction = none;
  notes = none;
}

abbrev two_principals : List (PrincipalSummary ℕ)
two_principals = principal_of 1 80 ∷ principal_of 2 40 ∷ []

abbrev write_action : AlignAction
write_action = record { tool_name = "fs.write"; rationale = "r" }

abbrev read_action : AlignAction
read_action = record { tool_name = "fs.read"; rationale = "r" }

gate_laws : MinLaws hundredths gate_config
gate_laws = record {
  least_lt = λ a b t. ground arith;
  max_lt_action = refl;
  max_lt_destructive = refl;
}

block_reason-is_some_example :
    is_some (block_reason hundredths gate_config two_principals write_action) ≡ (
      someone_below hundredths (threshold hundredths gate_config write_action) two_principals
      || ((true && someone_below hundredths 30 two_principals)
          && is_destructive gate_config "fs.write"))
block_reason-is_some_example =
    block_reason-is_some hundredths gate_config gate_laws two_principals write_action

commitment_check_never_decides_example :
    is_some (block_reason hundredths gate_config two_principals read_action)
    ≡ someone_below hundredths (threshold hundredths gate_config read_action) two_principals
commitment_check_never_decides_example =
    commitment_check_never_decides hundredths gate_config gate_laws (λ x h. ground arith)
      two_principals read_action

abbrev label_id : ReviewLabel → ℕ
label_id label = 0

abbrev one_blocked : List AlignAction
one_blocked = write_action ∷ read_action ∷ []

write_is_blocked :
    (check_alignment hundredths label_id
      (λ i. i)
      (λ i. i)
      one_blocked
      (record { principals = two_principals; compiled_at = 0 })
      gate_config
      3).approved
    ≡ 1 ∷ []
unfolding check_alignment review_from add_verdict block_reason is_destructive
write_is_blocked = refl

check_alignment_partitions_example :
    Perm
      (indices (
        check_alignment hundredths label_id
          (λ i. i)
          (λ i. i)
          one_blocked
          (record { principals = two_principals; compiled_at = 0 })
          gate_config
          3))
      (indices_from 0 one_blocked)
check_alignment_partitions_example =
    (check_alignment_partitions hundredths label_id (λ i. i) (λ i. i) 3 gate_config
      (principal_of 1 80) (principal_of 2 40 ∷ []) 0 one_blocked).0

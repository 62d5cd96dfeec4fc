-- ===== src/Relationship/Signals.antt =====
-- crates/exoskeleton-relationship/src/signals.rs: messages that carry a relational signal become
-- records of the ledger. The artifact store and the JSON parser are one parameter, `read_signal`:
-- what it gives for the artifact of a message, and nothing when the artifact is missing, cannot be
-- read or does not parse. `fresh i` is the id that is drawn for the message at index `i`.
use exoskeleton.Base.{
  if◌then◌else◌, any, All, All-imp, All-append, ◌==◌, ℕ, suc, ◌≤◌, ◌≡◌, refl, sym, ap, ◌∙◌, ◌≢◌,
  Bool, true, false, Option, none, some, List, [], ◌∷◌, ◌++◌, map, arith, nat_eq, string_eq,
}
use exoskeleton.Base.Errors.{Result, ok, err}
use mathlib.Core.List.{append-nil, append_assoc}
use exoskeleton.Relationship.Types.{
  MessageEnvelope, EnvelopeKind, RelationalSignal, RelationshipRecord,
}
use exoskeleton.Relationship.Ledger.{RelationshipLedger, append}

abbrev pub is_signal : EnvelopeKind → Bool
is_signal EnvelopeKind.relational_signal = true
is_signal _ = false

abbrev pub signal_record : ℕ → ℕ → MessageEnvelope → RelationalSignal → RelationshipRecord
signal_record id tick envelope signal = record {
  id = id;
  principal_id = signal.principal_id;
  signal_type = signal.signal_type;
  content_ref = envelope.payload_ref;
  tick_id = tick;
  timestamp = envelope.timestamp;
  metadata = signal.metadata;
}

a_signal : (k : EnvelopeKind) → is_signal k ≡ true → k ≡ EnvelopeKind.relational_signal
a_signal EnvelopeKind.relational_signal h = refl
a_signal EnvelopeKind.human_message h = absurd cc
a_signal EnvelopeKind.agent_message h = absurd cc
a_signal EnvelopeKind.system_event h = absurd cc

not_signal : (k : EnvelopeKind) → is_signal k ≡ false → k ≢ EnvelopeKind.relational_signal
not_signal k h same =
    absurd (let yes : is_signal k ≡ true = ap is_signal same in ground (arith, yes, h))

module _ (read_signal : ℕ → Option RelationalSignal) (fresh : ℕ → ℕ) (tick : ℕ) where
  abbrev pub record_of_signal :
      ℕ → MessageEnvelope → Option RelationalSignal → Option RelationshipRecord
  record_of_signal i envelope none = none
  record_of_signal i envelope (some signal) = some (signal_record (fresh i) tick envelope signal)

  -- The record of a message, if it carries a signal that can be read.
  record_of : ℕ → MessageEnvelope → Option RelationshipRecord
  record_of i envelope =
      if is_signal envelope.kind
      then record_of_signal i envelope (read_signal envelope.payload_ref)
      else none

  -- The ledger after an append, and the ids with the new one in front when it was accepted.
  abbrev pub push_id :
      Result (RelationshipLedger × ℕ)
      → RelationshipLedger
      → (RelationshipLedger → RelationshipLedger × List ℕ)
      → RelationshipLedger × List ℕ
  push_id (ok (l', id)) l next = ((next l').0, id ∷ (next l').1)
  push_id (err e) l next = next l

  -- What is done with the record of a message, before the messages that follow.
  abbrev pub push_record :
      Option RelationshipRecord
      → RelationshipLedger
      → (RelationshipLedger → RelationshipLedger × List ℕ)
      → RelationshipLedger × List ℕ
  push_record none l next = next l
  push_record (some r) l next = push_id (append r l) l next

  process_from : ℕ → List MessageEnvelope → RelationshipLedger → RelationshipLedger × List ℕ
  process_from i [] l = (l, [])
  process_from i (m ∷ ms) l = push_record (record_of i m) l (process_from (suc i) ms)

  pub process_relational_signals :
      List MessageEnvelope → RelationshipLedger → RelationshipLedger × List ℕ
  process_relational_signals messages l = process_from 0 messages l

  pub process_relational_signals-nil :
      (l : RelationshipLedger) → (process_relational_signals [] l).0 ≡ l
  unfolding process_relational_signals process_from
  process_relational_signals-nil l = refl

  -- `Records i messages records`: of the messages, the first of which has the index `i`, those that
  -- carry a signal that can be read stand for `records`, one each, in order.
  pub data Records : ℕ → List MessageEnvelope → List RelationshipRecord → Type 0 where
    no_messages : {i : ℕ} → Records i [] []
    other_kind :
        {i : ℕ} {m : MessageEnvelope} {ms : List MessageEnvelope} {rs : List RelationshipRecord}
        → m.kind ≢ EnvelopeKind.relational_signal
        → Records (suc i) ms rs
        → Records i (m ∷ ms) rs
    unreadable :
        {i : ℕ} {m : MessageEnvelope} {ms : List MessageEnvelope} {rs : List RelationshipRecord}
        → m.kind ≡ EnvelopeKind.relational_signal
        → read_signal m.payload_ref ≡ none
        → Records (suc i) ms rs
        → Records i (m ∷ ms) rs
    readable :
        {i : ℕ} {m : MessageEnvelope} {ms : List MessageEnvelope} {rs : List RelationshipRecord}
        (signal : RelationalSignal)
        → m.kind ≡ EnvelopeKind.relational_signal
        → read_signal m.payload_ref ≡ some signal
        → Records (suc i) ms rs
        → Records i (m ∷ ms) (
            record {
              id = fresh i;
              principal_id = signal.principal_id;
              signal_type = signal.signal_type;
              content_ref = m.payload_ref;
              tick_id = tick;
              timestamp = m.timestamp;
              metadata = signal.metadata;
            }
            ∷ rs)

  -- The records of the messages are at the end of the ledger, and their ids are given.
  abbrev pub AddsRecords :
      ℕ → List MessageEnvelope → RelationshipLedger → RelationshipLedger × List ℕ → Type 0
  AddsRecords i ms l result =
      (added : List RelationshipRecord) × Records i ms added
      × (result.0 ≡ l ++ added)
      × (result.1 ≡ map (λ r. r.id) added)

  -- No id that is still to be drawn is in the ledger.
  abbrev Unused : ℕ → RelationshipLedger → Type 0
  Unused i l = All (λ r. (j : ℕ) → i ≤ j → r.id ≢ fresh j) l

  none_has-fresh :
      (i : ℕ) (l : RelationshipLedger) → Unused i l → any (λ r. r.id == fresh i) l ≡ false
  none_has-fresh i [] h = refl
  none_has-fresh i (r ∷ l) h =
      let differ : r.id ≢ fresh i = h.0 i (omega arith) in
      ground (arith, differ, none_has-fresh i l h.1)

  append-fresh :
      (i : ℕ) (r : RelationshipRecord) (l : RelationshipLedger)
      → r.id ≡ fresh i
      → Unused i l
      → append r l ≡ ok (l ++ r ∷ [], r.id)
  unfolding append
  append-fresh i r l e h =
      let absent : any (λ s. s.id == r.id) l ≡ false = rw e (none_has-fresh i l h) in rw absent refl

  module _ (injective : (i j : ℕ) → fresh i ≡ fresh j → i ≡ j) where
    snoc-Unused :
        (i : ℕ) (r : RelationshipRecord) (l : RelationshipLedger)
        → r.id ≡ fresh i
        → Unused i l
        → Unused (suc i) (l ++ r ∷ [])
    snoc-Unused i r l e h =
        All-append (λ s. (j : ℕ) → suc i ≤ j → s.id ≢ fresh j) l (r ∷ [])
          (All-imp (λ s differ j k. differ j (omega arith)) l h)
          ((λ j k same. absurd (let eq : i ≡ j = injective i j (sym e ∙ same) in omega arith)), tt)

    process_from-AddsRecords :
        (i : ℕ) (ms : List MessageEnvelope) (l : RelationshipLedger)
        → Unused i l
        → AddsRecords i ms l (process_from i ms l)
    unfolding process_from record_of
    process_from-AddsRecords i [] l h = ([], Records.no_messages, sym (append-nil l), refl)
    process_from-AddsRecords i (m ∷ ms) l h =
        by_kind (process_from-AddsRecords (suc i) ms) (is_signal m.kind) refl
      where
        Later : Type 0
        Later =
            (l' : RelationshipLedger)
            → Unused (suc i) l'
            → AddsRecords (suc i) ms l' (process_from (suc i) ms l')

        skipped : Unused (suc i) l
        skipped = All-imp (λ s differ j k. differ j (omega arith)) l h

        by_signal :
            Later
            → (found : Option RelationalSignal) → m.kind ≡ EnvelopeKind.relational_signal
            → read_signal m.payload_ref ≡ found
            → AddsRecords i
                (m ∷ ms)
                l
                (push_record (record_of_signal i m found) l (process_from (suc i) ms))
        by_signal later none kind e =
            let rest = later l skipped in (rest.0, Records.unreadable kind e rest.1, rest.2, rest.3)
        by_signal later (some signal) kind e =
            let r = signal_record (fresh i) tick m signal in
            let rest = later (l ++ r ∷ []) (snoc-Unused i r l refl h) in
            rw (append-fresh i r l refl h) (
              r ∷ rest.0,
              Records.readable signal kind e rest.1,
              rest.2 ∙ append_assoc l (r ∷ []) rest.0,
              ap (◌∷◌ r.id) rest.3,
            )

        by_kind :
            Later
            → (b : Bool) → is_signal m.kind ≡ b
            → AddsRecords i (m ∷ ms) l (
                push_record
                  (if b then record_of_signal i m (read_signal m.payload_ref) else none)
                  l
                  (process_from (suc i) ms))
        by_kind later false e =
            let rest = later l skipped in
            (rest.0, Records.other_kind (not_signal m.kind e) rest.1, rest.2, rest.3)
        by_kind later true e = by_signal later (read_signal m.payload_ref) (a_signal m.kind e) refl

    -- When the ids that are drawn are different from each other and from those of the ledger, a
    -- batch of messages adds at the end of the ledger one record for each message that is a
    -- relational signal and can be read, in the order of the messages and with the content of the
    -- signal, and nothing for any other message; the ids given are those of the added records.
    pub process_relational_signals-AddsRecords :
        (messages : List MessageEnvelope) (l : RelationshipLedger)
        → All (λ r. (j : ℕ) → r.id ≢ fresh j) l
        → AddsRecords 0 messages l (process_relational_signals messages l)
    unfolding process_relational_signals
    process_relational_signals-AddsRecords messages l h =
        process_from-AddsRecords 0 messages l (All-imp (λ r differ j k. differ j) l h)

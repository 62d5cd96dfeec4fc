-- ===== src/Relationship/Snapshot.antt =====
-- crates/exoskeleton-relationship/src/snapshot.rs: the summary of the ledger that every tick is
-- aligned with. Times are in nanoseconds; parsing a number and printing an id are parameters.
pub mod Trust
mod Tests
pub mod Nan
pub mod Principals
pub mod Commitments
use exoskeleton.Base.{
  ltb, leb, if◌then◌else◌, unwrap_or, take, filter, lookup, ◌==◌, join, ℕ, ◌+◌, ◌-◌, ◌*◌, ◌/◌, ◌%◌,
  ◌^◌, String, Bool, true, false, Option, none, some, List, [], ◌∷◌, map, nat_eq, string_eq,
}
use exoskeleton.Base.Float.{F64, clamp}
use exoskeleton.Relationship.Types.{
  RelationshipRecord, RelationalSignalType, RelationshipSnapshot, PrincipalSummary,
  TrustDecayConfig, trust_update, commitment_made, commitment_fulfilled, commitment_broken,
  feedback_received, alignment_check, alignment_mismatch, tone_observation,
}
use exoskeleton.Relationship.Ledger.{RelationshipLedger, for_principal, distinct_principals}
use Prim.Native.String as S
use mathlib.Core.List.{reverse}

abbrev usize_max : ℕ
usize_max = 2 ^ 64 - 1

abbrev nanos_per_day : ℕ
nanos_per_day = 86400 * 1000000000

-- The local variables of the walk over the records; the count starts at 0 and is kept there by
-- `max(0)`.
pub record Standing (F : Type 0) : Type 0 where
  pub trust_level : F
  pub active_commitments : ℕ

abbrev pub is_negative : Option String → Bool
is_negative none = false
is_negative (some s) = s == "negative"

-- The first value of a key in a list of records.
unfoldable pub first_value : String → List RelationshipRecord → Option String
first_value key [] = none
first_value key (r ∷ rs) = elim (lookup key r.metadata) [
  | none ↦ first_value key rs
  | some v ↦ some v
]

abbrev pub is_note : RelationalSignalType → Bool
is_note feedback_received = true
is_note tone_observation = true
is_note trust_update = false
is_note commitment_made = false
is_note commitment_fulfilled = false
is_note commitment_broken = false
is_note alignment_check = false
is_note alignment_mismatch = false

-- The derived debug format.
abbrev pub debug_text : RelationalSignalType → String
debug_text trust_update = "TrustUpdate"
debug_text commitment_made = "CommitmentMade"
debug_text commitment_fulfilled = "CommitmentFulfilled"
debug_text commitment_broken = "CommitmentBroken"
debug_text feedback_received = "FeedbackReceived"
debug_text alignment_check = "AlignmentCheck"
debug_text alignment_mismatch = "AlignmentMismatch"
debug_text tone_observation = "ToneObservation"

abbrev pub joined_notes : List String → Option String
joined_notes [] = none
joined_notes (part ∷ parts) = some (join ", " (part ∷ parts))

-- The notes of records that come newest first.
abbrev pub notes_of : List RelationshipRecord → Option String
notes_of records =
    joined_notes
      (map (λ r. debug_text r.signal_type) (take 3 (filter (λ r. is_note r.signal_type) records)))

-- A number of whole days as an `i64`: so many, or so many below 0.
pub data Days : Type 0 where
  ahead behind : ℕ → Days

-- Whole days of `now - last`, cut towards zero.
abbrev pub elapsed_days : ℕ → ℕ → Days
elapsed_days now last =
    if leb last now
    then ahead ((now - last) / nanos_per_day)
    else if (last - now) / nanos_per_day == 0
    then ahead 0
    else behind ((last - now) / nanos_per_day)

-- `elapsed_days >= min_inactivity_days as i64`: from 2^63 on the minimum wraps to a negative number.
abbrev pub long_enough : Days → ℕ → Bool
long_enough (ahead n) least = if ltb least (2 ^ 63) then leb least n else true
long_enough (behind n) least = if ltb least (2 ^ 63) then false else leb n (2 ^ 64 - least)

module _ {F : Type 0} (f : F64 F) where
  abbrev pub zero_trust : F
  zero_trust = f.decimal 0 0

  abbrev pub full_trust : F
  full_trust = f.decimal 1 0

  abbrev pub neutral_trust : F
  neutral_trust = f.decimal 5 1

  abbrev pub sentiment_delta : RelationshipRecord → F
  sentiment_delta r =
      if is_negative (lookup "sentiment" r.metadata) then f.neg (f.decimal 2 2) else f.decimal 2 2

  abbrev pub start : Standing F
  start = record { trust_level = neutral_trust; active_commitments = 0 }

  -- `elapsed_days as f64`.
  abbrev pub days_value : Days → F
  days_value (ahead n) = f.of_u64 n
  days_value (behind n) = f.neg (f.of_u64 n)

  abbrev pub decay_factor : TrustDecayConfig F → Days → F
  decay_factor c days = f.sub (f.decimal 1 0) (f.exp (f.mul (f.neg c.decay_rate) (days_value days)))

  abbrev pub decayed : TrustDecayConfig F → Days → F → F
  decayed c days trust = f.add trust (f.mul (decay_factor c days) (f.sub c.baseline trust))

  abbrev pub decay_after : TrustDecayConfig F → Days → F → F
  decay_after c days trust =
      if long_enough days c.min_inactivity_days
      then clamp f zero_trust full_trust (decayed c days trust)
      else trust

  abbrev pub decay : Option (TrustDecayConfig F) → ℕ → ℕ → F → F
  decay none now last trust = trust
  decay (some c) now last trust = decay_after c (elapsed_days now last) trust

module _ {F : Type 0} (f : F64 F) (parse : String → Option F) where
  abbrev pub parsed_trust : Option String → Option F
  parsed_trust none = none
  parsed_trust (some v) = parse v

  -- The trust level that a trust update carries, before it is clamped.
  abbrev pub stated_trust : RelationshipRecord → F
  stated_trust r = unwrap_or (parsed_trust (lookup "trust_level" r.metadata)) (neutral_trust f)

  -- One round of the walk, by the record and its type.
  pub apply_signal : RelationshipRecord → RelationalSignalType → Standing F → Standing F
  apply_signal r trust_update s = record s {
    trust_level = clamp f (zero_trust f) (full_trust f) (stated_trust r);
  }
  apply_signal r commitment_made s = record s { active_commitments = s.active_commitments + 1 }
  apply_signal r commitment_fulfilled s = record {
    trust_level = f.least (f.add s.trust_level (f.decimal 5 2)) (full_trust f);
    active_commitments = s.active_commitments - 1;
  }
  apply_signal r commitment_broken s = record {
    trust_level = f.greatest (f.sub s.trust_level (f.decimal 15 2)) (zero_trust f);
    active_commitments = s.active_commitments - 1;
  }
  apply_signal r feedback_received s = record s {
    trust_level = clamp f (zero_trust f) (full_trust f) (f.add s.trust_level (sentiment_delta f r));
  }
  apply_signal r alignment_mismatch s = record s {
    trust_level = f.greatest (f.sub s.trust_level (f.decimal 5 2)) (zero_trust f);
  }
  apply_signal r alignment_check s = s
  apply_signal r tone_observation s = s

  -- The walk over records that come oldest first.
  pub walk : List RelationshipRecord → Standing F → Standing F
  walk [] s = s
  walk (r ∷ rs) s = walk rs (apply_signal r r.signal_type s)

  module _ (id_text : ℕ → String) where
    -- The summary of a principal whose newest record is `r`, followed by the older ones.
    abbrev pub summarize :
        Option (TrustDecayConfig F)
        → ℕ
        → ℕ
        → RelationshipRecord
        → List RelationshipRecord
        → PrincipalSummary F
    summarize c now p r older =
        let records = r ∷ older in
        let standing = walk (reverse records) (start f) in
        record {
          principal_id = p;
          display_name = unwrap_or (first_value "display_name" (reverse records)) (id_text p);
          role = unwrap_or (first_value "role" (reverse records)) "unknown";
          trust_level = decay f c now r.timestamp standing.trust_level;
          active_commitments = standing.active_commitments % 2 ^ 32;
          last_interaction = some r.timestamp;
          notes = notes_of records;
        }

    -- A principal without records is passed over.
    abbrev pub summarize_into :
        Option (TrustDecayConfig F)
        → ℕ
        → ℕ
        → List RelationshipRecord
        → List (PrincipalSummary F)
        → List (PrincipalSummary F)
    summarize_into c now p [] later = later
    summarize_into c now p (r ∷ older) later = summarize c now p r older ∷ later

    pub summarize_all :
        Option (TrustDecayConfig F) → ℕ → RelationshipLedger → List ℕ → List (PrincipalSummary F)
    summarize_all c now l [] = []
    summarize_all c now l (p ∷ ps) =
        let later = summarize_all c now l ps in
        summarize_into c now p (for_principal p usize_max l) later

    -- `compiled_at` is the clock at the end.
    pub compile_relationship_snapshot :
        Option (TrustDecayConfig F)
        → (now compiled_at : ℕ) → RelationshipLedger
        → RelationshipSnapshot F
    compile_relationship_snapshot c now compiled_at l = record {
      principals = summarize_all c now l (distinct_principals l);
      compiled_at = compiled_at;
    }

-- ===== src/Relationship/Types.antt =====
-- crates/exoskeleton-core/src/relationship.rs and envelope.rs. Ids and times are numbers; a trust
-- level is a floating-point number, so its type is a parameter.
use exoskeleton.Base.{Dict, ℕ, String, Option, List}

pub data RelationalSignalType : Type 0 where
  trust_update commitment_made commitment_fulfilled commitment_broken : RelationalSignalType
  feedback_received alignment_check alignment_mismatch tone_observation : RelationalSignalType

pub record RelationshipRecord : Type 0 where
  pub id : ℕ
  pub principal_id : ℕ
  pub signal_type : RelationalSignalType
  pub content_ref : ℕ
  pub tick_id : ℕ
  pub timestamp : ℕ
  pub metadata : Dict String String

pub record PrincipalSummary (F : Type 0) : Type 0 where
  pub principal_id : ℕ
  pub display_name : String
  pub role : String
  pub trust_level : F
  pub active_commitments : ℕ
  pub last_interaction : Option ℕ
  pub notes : Option String

pub record RelationshipSnapshot (F : Type 0) : Type 0 where
  pub principals : List (PrincipalSummary F)
  pub compiled_at : ℕ

pub record TrustDecayConfig (F : Type 0) : Type 0 where
  pub decay_rate : F
  pub baseline : F
  pub min_inactivity_days : ℕ

pub data EnvelopeKind : Type 0 where
  human_message agent_message system_event relational_signal : EnvelopeKind

pub record MessageEnvelope : Type 0 where
  pub id : ℕ
  pub source : ℕ
  pub target : Option ℕ
  pub kind : EnvelopeKind
  pub payload_ref : ℕ
  pub timestamp : ℕ
  pub in_reply_to : Option ℕ

pub record RelationalSignal : Type 0 where
  pub signal_type : RelationalSignalType
  pub principal_id : ℕ
  pub content : String
  pub metadata : Dict String String

-- ===== src/Memory/Episodic.antt =====
-- crates/exoskeleton-core/src/memory.rs and crates/exoskeleton-memory/src/store.rs: summaries of
-- spans of ticks, and the operations of their store that compaction uses. The content hash is the
-- parameter `content_id`.
use exoskeleton.Base.{ℕ, ◌/◌, String, List}
use exoskeleton.Base.Errors.{Result}

pub record EpisodicSummary : Type 0 where
  pub id : ℕ
  pub start_tick : ℕ
  pub end_tick : ℕ
  pub summary : String
  pub key_events : List String
  pub token_count : ℕ
  pub created_at : ℕ

-- `summary.len() / 4`, of the length in bytes, which `byte_length` gives.
unfoldable pub new_summary :
    (content_id : ℕ → ℕ → String → List String → ℕ) (byte_length : String → ℕ) (now : ℕ)
    → (start_tick end_tick : ℕ) → String
    → List String
    → EpisodicSummary
new_summary content_id byte_length now start_tick end_tick summary key_events = record {
  id = content_id start_tick end_tick summary key_events;
  start_tick = start_tick;
  end_tick = end_tick;
  summary = summary;
  key_events = key_events;
  token_count = byte_length summary / 4;
  created_at = now;
}

-- The trait `MemoryStore` on the episodic tier; the store is passed explicitly.
pub record MemoryStore (M : Type 0) : Type 0 where
  pub write_episodic : EpisodicSummary → M → Result M
  pub recent_episodic : ℕ → M → Result (List EpisodicSummary)
  pub delete_episodic : ℕ → M → Result M

-- ===== src/Core/WorkingMemory.antt =====
-- crates/exoskeleton-core/src/working_memory.rs: the scratchpad of keyed entries. A relevance is a
-- floating-point number, so its type is a parameter.
pub mod Keys
pub mod Expiry
pub mod Cap
pub mod Tidy
use exoskeleton.Base.{
  ltb, leb, if◌then◌else◌, length, take, filter, sort_by, ◌==◌, ℕ, ◌-◌, String, Bool, true, not,
  Option, none, some, List, [], ◌∷◌, nat_eq, string_eq,
}
use exoskeleton.Base.Float.{F64}

pub record WorkingMemoryEntry (F : Type 0) : Type 0 where
  pub key : String
  pub value : String
  pub written_at_tick : ℕ
  pub ttl_ticks : Option ℕ
  pub relevance : F

pub record WorkingMemory (F : Type 0) : Type 0 where
  pub entries : List (WorkingMemoryEntry F)

pub data WorkingMemoryOp : Type 0 where
  set : String → String → Option ℕ → WorkingMemoryOp
  remove : String → WorkingMemoryOp
  clear : WorkingMemoryOp

unfoldable pub empty_memory : {F : Type 0} → WorkingMemory F
empty_memory = record { entries = [] }

module _ {F : Type 0} ⦃f : F64 F⦄ where
  -- The literal 1.0.
  abbrev pub full_relevance : F
  full_relevance = f.decimal 1 0

  unfoldable from_legacy_string : String → WorkingMemory F
  from_legacy_string text = if text == "" then empty_memory else record {
    entries =
        record {
          key = "legacy_context";
          value = text;
          written_at_tick = 0;
          ttl_ticks = none;
          relevance = full_relevance;
        }
        ∷ [];
  }

  -- The write through `iter_mut().find`, or the push of a new entry.
  upsert_entry :
      String → String → Option ℕ → ℕ → List (WorkingMemoryEntry F) → List (WorkingMemoryEntry F)
  upsert_entry k v ttl now [] =
      record {
        key = k;
        value = v;
        written_at_tick = now;
        ttl_ticks = ttl;
        relevance = full_relevance;
      }
      ∷ []
  upsert_entry k v ttl now (e ∷ es) =
      if e.key == k
      then record e {
        value = v;
        written_at_tick = now;
        ttl_ticks = ttl;
        relevance = full_relevance;
      }
        ∷ es
      else e ∷ upsert_entry k v ttl now es

  pub apply_op : WorkingMemoryOp → ℕ → WorkingMemory F → WorkingMemory F
  unfolding upsert_entry
  apply_op (set k v ttl) now w = record { entries = upsert_entry k v ttl now w.entries }
  apply_op (remove k) now w = record { entries = filter (λ e. not (e.key == k)) w.entries }
  apply_op clear now w = record { entries = [] }

  pub apply_ops : List WorkingMemoryOp → ℕ → WorkingMemory F → WorkingMemory F
  apply_ops [] now w = w
  apply_ops (op ∷ ops) now w = apply_ops ops now (apply_op op now w)

module _ {F : Type 0} where
  -- `current_tick.saturating_sub(written_at_tick) < ttl`; an entry with no TTL never expires.
  abbrev pub is_live : ℕ → WorkingMemoryEntry F → Bool
  is_live now e = elim e.ttl_ticks [ none ↦ true | some ttl ↦ ltb (now - e.written_at_tick) ttl ]

  pub evict_expired : ℕ → WorkingMemory F → WorkingMemory F
  evict_expired now w = record { entries = filter (is_live now) w.entries }

module _ {F : Type 0} ⦃f : F64 F⦄ where
  -- `b.partial_cmp(a).unwrap_or(Equal)` is not `Greater`: `a` may stay before `b` unless it is less
  -- relevant. Numbers that do not compare count as equal.
  abbrev pub not_less_relevant : WorkingMemoryEntry F → WorkingMemoryEntry F → Bool
  not_less_relevant a b = not (f.lt a.relevance b.relevance)

  pub enforce_cap : ℕ → WorkingMemory F → WorkingMemory F
  enforce_cap max_entries w =
      if leb (length w.entries) max_entries
      then w
      else record { entries = take max_entries (sort_by not_less_relevant w.entries) }

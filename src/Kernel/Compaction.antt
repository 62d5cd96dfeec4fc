-- ===== src/Kernel/Compaction.antt =====
-- crates/exoskeleton-host/src/kernel/compaction.rs: old summaries that follow each other closely are
-- merged into one. The first line of a text, cut to 97 bytes and marked when it is longer than 100,
-- is the parameter `abridge`; `span_text` prints the span of a merged summary.
mod Tests
pub mod Groups
pub mod Counts
use exoskeleton.Base.{
  ltb, leb, if◌then◌else◌, length, take, drop, any, is_empty, sort_by, u64_mod, ◌==◌, join, ℕ, ◌+◌,
  ◌%◌, min, max, String, Bool, true, false, not, Option, none, some, List, [], ◌∷◌, ◌++◌, map,
  nat_eq, string_eq,
}
use exoskeleton.Base.Errors.{Result, ok, ◌>>=◌}
use exoskeleton.Base.Float.{F64}
use exoskeleton.Memory.Episodic.{EpisodicSummary, MemoryStore, new_summary}
use Prim.Native.String as S

pub record CompactionConfig : Type 0 where
  pub preserve_recent : ℕ

abbrev pub default_config : CompactionConfig
default_config = record { preserve_recent = 3 }

pub data CompactionResult : Type 0 where
  no_action : CompactionResult
  compacted : (entries_merged summaries_written : ℕ) → CompactionResult

module _ {F : Type 0} (f : F64 F) where
  -- More than 0.8 of the capacity is used, if there is one.
  abbrev pub over_capacity : ℕ → Option ℕ → Bool
  over_capacity count none = false
  over_capacity count (some capacity) =
      if ltb 0 capacity
      then f.lt (f.decimal 8 1) (f.div (f.of_u64 count) (f.of_u64 capacity))
      else false

  unfoldable should_compact : List String → ℕ → Option ℕ → Bool
  should_compact truncated_sections episodic_count capacity =
      if not (is_empty truncated_sections) then true else over_capacity episodic_count capacity

abbrev pub starts_no_later : EpisodicSummary → EpisodicSummary → Bool
starts_no_later a b = leb a.start_tick b.start_tick

-- At most one tick lies between the two.
abbrev pub follows : EpisodicSummary → EpisodicSummary → Bool
follows last s = leb s.start_tick ((last.end_tick + 2) % u64_mod)

-- The loop: `group` is the group so far, of which `last` is the last.
pub group_from :
    List EpisodicSummary → EpisodicSummary → List EpisodicSummary → List (List EpisodicSummary)
group_from group last [] = group ∷ []
group_from group last (s ∷ ss) =
    let same = group_from (group ++ s ∷ []) s ss in
    let fresh = group_from (s ∷ []) s ss in if follows last s then same else group ∷ fresh

pub group_consecutive : List EpisodicSummary → List (List EpisodicSummary)
group_consecutive [] = []
group_consecutive (s ∷ ss) = group_from (s ∷ []) s ss

abbrev pub min_start : EpisodicSummary → List EpisodicSummary → ℕ
min_start s [] = s.start_tick
min_start s (t ∷ ts) = min s.start_tick (min_start t ts)

abbrev pub max_end : EpisodicSummary → List EpisodicSummary → ℕ
max_end s [] = s.end_tick
max_end s (t ∷ ts) = max s.end_tick (max_end t ts)

-- The events that were not seen before, in order.
unfoldable unseen : List String → List String → List String
unseen seen [] = []
unseen seen (e ∷ es) =
    let skipped = unseen seen es in
    let kept = unseen (e ∷ seen) es in if any (λ x. x == e) seen then skipped else e ∷ kept

abbrev pub all_events : List EpisodicSummary → List String
all_events [] = []
all_events (s ∷ ss) = s.key_events ++ all_events ss

-- The counts of the loop over the groups.
pub record Counted (M : Type 0) : Type 0 where
  pub entries_merged : ℕ
  pub summaries_written : ℕ
  pub after : M

abbrev pub counted : {M : Type 0} → ℕ → Counted M → Counted M
counted merged c = record c {
  entries_merged = merged + c.entries_merged;
  summaries_written = 1 + c.summaries_written;
}

abbrev pub report : {M : Type 0} → Counted M → CompactionResult
report c =
    if c.entries_merged == 0 then no_action else compacted c.entries_merged c.summaries_written

module _ (content_id : ℕ → ℕ → String → List String → ℕ) (byte_length : String → ℕ)
    (abridge : String → String) (span_text : ℕ → ℕ → String) (now : ℕ) where
  -- The merge of a group, which is not empty.
  pub merge_summaries : EpisodicSummary → List EpisodicSummary → EpisodicSummary
  merge_summaries s ss =
      new_summary content_id byte_length now (min_start s ss) (max_end s ss)
        (S.◌++◌ (span_text (min_start s ss) (max_end s ss))
          (join "; " (map (λ e. abridge e.summary) (s ∷ ss))))
        (take 10 (unseen [] (all_events (s ∷ ss))))

  module _ {M : Type 0} (store : MemoryStore M) where
    -- The deletions of a group's summaries, each followed by `?`.
    unfoldable pub delete_all : List EpisodicSummary → M → Result M
    delete_all [] m = ok m
    delete_all (s ∷ ss) m = store.delete_episodic s.id m >>= λ m'. delete_all ss m'

    pub compact_groups : List (List EpisodicSummary) → M → Result (Counted M)
    compact_groups [] m = ok (record { entries_merged = 0; summaries_written = 0; after = m })
    compact_groups ([] ∷ groups) m = compact_groups groups m
    compact_groups ((s ∷ []) ∷ groups) m = compact_groups groups m
    compact_groups ((s ∷ t ∷ ts) ∷ groups) m =
        store.write_episodic (merge_summaries s (t ∷ ts)) m >>= λ written.
        delete_all (s ∷ t ∷ ts) written >>= λ deleted.
        compact_groups groups deleted >>= λ later. ok (counted (length (s ∷ t ∷ ts)) later)

    pub run_compaction : CompactionConfig → M → Result (CompactionResult × M)
    run_compaction c m = store.recent_episodic 1000 m >>= λ all.
        if leb (length all) c.preserve_recent
        then ok (no_action, m)
        else compact_groups
            (group_consecutive (sort_by starts_no_later (drop c.preserve_recent all))) m
          >>= λ counts. ok (report counts, counts.after)

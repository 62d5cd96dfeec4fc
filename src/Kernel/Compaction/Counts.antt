-- ===== src/Kernel/Compaction/Counts.antt =====
-- What crates/exoskeleton-host/src/kernel/compaction.rs merges, and what it reports.
use exoskeleton.Base.{
  leb, Bool-cases, length, drop, All, length-append, length-drop, sort_by, length-sort_by, ◌==◌, ℕ,
  ◌-◌, ◌*◌, ◌≤◌, ◌<◌, String, ◌≡◌, ap, ◌∙◌, inl, inr, List, [], ◌∷◌, arith, nat_eq, string_eq,
}
use exoskeleton.Base.Errors.{ok, WhenOk, WhenOk-bind, WhenOk-imp, WhenOk-then}
use exoskeleton.Memory.Episodic.{EpisodicSummary, MemoryStore, new_summary}
use exoskeleton.Kernel.Compaction.{
  CompactionResult, Counted, report, delete_all, compact_groups, merge_summaries, no_action,
  compacted, min_start, max_end, CompactionConfig, run_compaction, group_consecutive,
  starts_no_later,
}
use exoskeleton.Kernel.Compaction.Groups.{concat, group_consecutive_lem, min_start-le, max_end-ge}

-- At least two entries for each summary that is written, and no more than there are.
abbrev pub IsCounted : {M : Type 0} → ℕ → Counted M → Type 0
IsCounted available c =
    (2 * c.summaries_written ≤ c.entries_merged) × (c.entries_merged ≤ available)

abbrev pub Within : ℕ → CompactionResult → Type 0
Within available no_action = Unit
Within available (compacted merged written) =
    (0 < merged) × (2 * written ≤ merged) × (merged ≤ available)

report-Within :
    {M : Type 0} (available : ℕ) (c : Counted M)
    → IsCounted available c
    → Within available (report c)
report-Within available c h = elim (Bool-cases (c.entries_merged == 0)) [
  | inl e ↦ rw e tt
  | inr e ↦ rw e (ground (arith, e), h.0, h.1)
]

module _ (content_id : ℕ → ℕ → String → List String → ℕ) (byte_length : String → ℕ)
    (abridge : String → String) (span_text : ℕ → ℕ → String) (now : ℕ) where
  -- The merged summary spans the ticks of every summary of the group.
  pub merge_summaries-spans :
      (s : EpisodicSummary) (ss : List EpisodicSummary)
      → let merged = merge_summaries content_id byte_length abridge span_text now s ss in
        All (λ t. (merged.start_tick ≤ t.start_tick) × (t.end_tick ≤ merged.end_tick)) (s ∷ ss)
  unfolding merge_summaries new_summary
  merge_summaries-spans s ss = both (s ∷ ss) (min_start-le s ss) (max_end-ge s ss)
    where
      both :
          (ts : List EpisodicSummary)
          → All (λ t. min_start s ss ≤ t.start_tick) ts
          → All (λ t. t.end_tick ≤ max_end s ss) ts
          → All (λ t. (min_start s ss ≤ t.start_tick) × (t.end_tick ≤ max_end s ss)) ts
      both [] h k = tt
      both (t ∷ ts) h k = ((h.0, k.0), both ts h.1 k.1)

  module _ {M : Type 0} (store : MemoryStore M) where
    compact_groups-IsCounted :
        (groups : List (List EpisodicSummary)) (m : M)
        → WhenOk
            (IsCounted (length (concat groups)))
            (compact_groups content_id byte_length abridge span_text now store groups m)
    unfolding compact_groups
    compact_groups-IsCounted [] m = (omega arith, omega arith)
    compact_groups-IsCounted ([] ∷ groups) m = compact_groups-IsCounted groups m
    compact_groups-IsCounted ((s ∷ []) ∷ groups) m =
        WhenOk-imp (compact_groups content_id byte_length abridge span_text now store groups m)
          (λ c h. (h.0, omega (arith, h.1))) (compact_groups-IsCounted groups m)
    compact_groups-IsCounted ((s ∷ t ∷ ts) ∷ groups) m =
        WhenOk-bind (IsCounted _) (store.write_episodic _ m) _ (λ written.
          WhenOk-bind (IsCounted _)
            (delete_all content_id byte_length abridge span_text now store (s ∷ t ∷ ts) written) _
            (λ deleted.
              WhenOk-then (IsCounted _)
                (compact_groups content_id byte_length abridge span_text now store groups deleted) _
                (compact_groups-IsCounted groups deleted)
                (λ c h. (omega (arith, h), omega (arith, h, length-append ts (concat groups))))))

    -- A run that succeeds reports a compaction only of two entries at least for every summary that
    -- it writes, and of no more entries than lie beyond those that are preserved.
    pub run_compaction-Within :
        (c : CompactionConfig) (m : M) (all : List EpisodicSummary)
        → store.recent_episodic 1000 m ≡ ok all
        → WhenOk
            (λ r. Within (length all - c.preserve_recent) r.0)
            (run_compaction content_id byte_length abridge span_text now store c m)
    unfolding run_compaction
    run_compaction-Within c m all found =
        let old = drop c.preserve_recent all in
        let sorted = sort_by starts_no_later old in
        let groups = group_consecutive sorted in
        let size : length (concat groups) ≡ length all - c.preserve_recent =
          ap length (group_consecutive_lem sorted).0
          ∙ length-sort_by starts_no_later old
          ∙ length-drop c.preserve_recent all in
        elim (Bool-cases (leb (length all) c.preserve_recent)) [
          | inl e ↦ rw found (rw e tt)
          | inr e ↦ rw found (
              rw e (
                WhenOk-then (λ r. Within (length all - c.preserve_recent) r.0)
                  (compact_groups content_id byte_length abridge span_text now store groups m) _
                  (compact_groups-IsCounted groups m)
                  (λ counts h. rw⁻¹ size (report-Within (length (concat groups)) counts h))))
        ]

-- ===== src/Kernel/Amend/Tidy.antt =====
-- What crates/exoskeleton-host/src/kernel/amend.rs makes of the working memory.
use exoskeleton.Base.{
  if◌then◌else◌, Bool-cases, filter, any, All, All-imp, filter-All, ◌==◌, ==→eq, ℕ, String, ◌≡◌,
  refl, ◌⊎◌, inl, inr, Bool, true, false, not, Option, none, some, List, arith, nat_eq, string_eq,
}
use exoskeleton.Base.Float.{F64}
use exoskeleton.Core.WorkingMemory as Memory
use exoskeleton.Core.WorkingMemory.{
  WorkingMemory, WorkingMemoryOp, is_live, apply_ops, evict_expired, WorkingMemoryEntry,
}
use exoskeleton.Core.WorkingMemory.Keys.{DistinctKeys, apply_ops-DistinctKeys, tick-DistinctKeys}
use exoskeleton.Core.WorkingMemory.Tidy.{
  IsTidy, enforce_cap-All, length-enforce_cap, evict_expired-live, filter-IsTidy,
}
use exoskeleton.Core.Snapshot.{StateSnapshot, ExecThreadSummary, VesselStatus}
use exoskeleton.Kernel.Types.{SnapshotDelta, ReflectionResult, ActionExecution}
use exoskeleton.Kernel.Idle.{bounded_coding_idle_visible, is_done}
use exoskeleton.Kernel.Amend.{
  KernelView, amended_memory, apply_delta_ops, working_memory_cap, build_snapshot,
  prune_working_memory_for_bounded_coding_idle, is_kept_when_idle,
}

module _ {F : Type 0} ⦃f : F64 F⦄ where
  delta_ops-DistinctKeys :
      (ops : Option (List WorkingMemoryOp)) (tick : ℕ) (w : WorkingMemory F)
      → DistinctKeys w
      → DistinctKeys (apply_delta_ops ops tick w)
  delta_ops-DistinctKeys none tick w h = h
  delta_ops-DistinctKeys (some ops) tick w h = apply_ops-DistinctKeys ops tick w h

  amended_memory-IsTidy :
      (tick : ℕ) (delta : SnapshotDelta) (ops : List WorkingMemoryOp) (w : WorkingMemory F)
      → DistinctKeys w
      → IsTidy working_memory_cap tick (amended_memory tick delta ops w)
  unfolding amended_memory
  amended_memory-IsTidy tick delta ops w h =
      let decided = apply_delta_ops delta.working_memory_ops tick w in
      let reflected = Memory.apply_ops ops tick decided in
      record {
        distinct =
            tick-DistinctKeys ops tick working_memory_cap decided
              (delta_ops-DistinctKeys delta.working_memory_ops tick w h);
        capped = length-enforce_cap working_memory_cap (Memory.evict_expired tick reflected);
        live =
            enforce_cap-All (λ e. is_live tick e ≡ true) working_memory_cap
              (Memory.evict_expired tick reflected) (evict_expired-live tick reflected);
      }

module _ {F : Type 0} (trim : String → String) where
  -- The condition of the pruning is the one under which the master loop holds back actions.
  prune-visible :
      (return_to_idle has_new_messages : Bool) (summaries : List ExecThreadSummary)
      (w : WorkingMemory F)
      → prune_working_memory_for_bounded_coding_idle trim return_to_idle
          (not has_new_messages)
          summaries
          w
        ≡ (if bounded_coding_idle_visible trim return_to_idle has_new_messages summaries
            then record { entries = filter is_kept_when_idle w.entries }
            else w)
  unfolding prune_working_memory_for_bounded_coding_idle bounded_coding_idle_visible
  prune-visible true true summaries w = refl
  prune-visible true false summaries w = elim (Bool-cases (any (is_done trim) summaries)) [
    | inl e ↦ rw e refl
    | inr e ↦ rw e refl
  ]
  prune-visible false has_new_messages summaries w = refl

-- One of the two entries that the end of a coding session keeps.
abbrev pub IsSessionEntry : {F : Type 0} → WorkingMemoryEntry F → Type 0
IsSessionEntry e = (e.key ≡ "session_status") ⊎ (e.key ≡ "user_question_pending")

kept-IsSessionEntry :
    {F : Type 0} (e : WorkingMemoryEntry F) → is_kept_when_idle e ≡ true → IsSessionEntry e
kept-IsSessionEntry e h = elim (Bool-cases (e.key == "session_status")) [
  | inl same ↦ inl (==→eq e.key "session_status" same)
  | inr differ ↦ inr (==→eq e.key "user_question_pending" (ground (arith, differ, h)))
]

module _ {F J : Type 0} ⦃f : F64 F⦄ (trim : String → String) where
  -- The snapshot that a tick leaves is of that tick and idle, and its working memory has distinct
  -- keys, at most 50 entries and none that has expired, provided that the keys were distinct before;
  -- when a coding session is done, its entries are among the two that the session's end keeps.
  pub build_snapshot-IsTidy :
      (tick now : ℕ) (k : KernelView) (has_new_messages : Bool) (delta : SnapshotDelta)
      (reflection : ReflectionResult F) (executions : List (ActionExecution J))
      (before : StateSnapshot F)
      → DistinctKeys before.working_memory
      → let after =
          build_snapshot trim tick now k has_new_messages delta reflection executions before in
        (after.tick_number ≡ tick)
        × (after.status ≡ VesselStatus.idle)
        × IsTidy 50 tick after.working_memory
        × (bounded_coding_idle_visible trim k.return_to_idle has_new_messages
                k.exec_thread_summaries
              ≡ true
            → All IsSessionEntry after.working_memory.entries)
  unfolding build_snapshot
  build_snapshot-IsTidy tick now k has_new_messages delta reflection executions before h =
      let memory = amended_memory tick delta reflection.working_memory_ops before.working_memory in
      let tidy =
        amended_memory-IsTidy tick delta reflection.working_memory_ops before.working_memory h in
      let visible =
        bounded_coding_idle_visible trim k.return_to_idle has_new_messages
          k.exec_thread_summaries in
      rw (prune-visible trim k.return_to_idle has_new_messages k.exec_thread_summaries memory) (
        refl,
        refl,
        elim (Bool-cases visible) [
          | inl e ↦ rw e (filter-IsTidy is_kept_when_idle working_memory_cap tick memory tidy)
          | inr e ↦ rw e tidy
        ],
        λ e. rw e (
            All-imp kept-IsSessionEntry (filter is_kept_when_idle memory.entries)
              (filter-All is_kept_when_idle memory.entries)),
      )

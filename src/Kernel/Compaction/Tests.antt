-- ===== src/Kernel/Compaction/Tests.antt =====
-- The theorems on compaction at concrete inputs.
use exoskeleton.Base.{take, ℕ, ◌+◌, String, ◌≡◌, refl, List, [], ◌∷◌}
use exoskeleton.Base.Errors.{ok, WhenOk}
use exoskeleton.Memory.Episodic.{EpisodicSummary, MemoryStore}
use exoskeleton.Kernel.Compaction.{default_config, group_consecutive, run_compaction}
use exoskeleton.Kernel.Compaction.Groups.{concat, IsGrouped, group_consecutive_lem}
use exoskeleton.Kernel.Compaction.Counts.{Within, run_compaction-Within}

abbrev summary_at : ℕ → ℕ → EpisodicSummary
summary_at first last = record {
  id = first;
  start_tick = first;
  end_tick = last;
  summary = "s";
  key_events = "e" ∷ [];
  token_count = 1;
  created_at = last;
}

-- Newest first: the last three are preserved, and of the older ones two are close together.
abbrev entries : List EpisodicSummary
entries =
    summary_at 50 59
    ∷ summary_at 40 49
    ∷ summary_at 30 39
    ∷ summary_at 20 22
    ∷ summary_at 6 9
    ∷ summary_at 1 4
    ∷ []

group_consecutive_lem_example :
    (concat (group_consecutive (summary_at 1 4 ∷ summary_at 6 9 ∷ summary_at 20 22 ∷ []))
      ≡ summary_at 1 4 ∷ summary_at 6 9 ∷ summary_at 20 22 ∷ [])
    × IsGrouped (group_consecutive (summary_at 1 4 ∷ summary_at 6 9 ∷ summary_at 20 22 ∷ []))
group_consecutive_lem_example =
    group_consecutive_lem (summary_at 1 4 ∷ summary_at 6 9 ∷ summary_at 20 22 ∷ [])

abbrev id_of : ℕ → ℕ → String → List String → ℕ
id_of first last text events = 100 + first

abbrev four_bytes : String → ℕ
four_bytes text = 4

abbrev whole : String → String
whole text = text

abbrev span : ℕ → ℕ → String
span first last = "ticks: "

abbrev list_store : MemoryStore (List EpisodicSummary)
list_store = record {
  write_episodic = λ s m. ok (s ∷ m);
  recent_episodic = λ limit m. ok (take limit m);
  delete_episodic = λ id m. ok m;
}

run_compaction-Within_example :
    WhenOk
      (λ r. Within 3 r.0)
      (run_compaction id_of four_bytes whole span 60 list_store default_config entries)
run_compaction-Within_example =
    run_compaction-Within id_of four_bytes whole span 60 list_store default_config entries entries
      refl

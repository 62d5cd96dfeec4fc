-- ===== src/Core/WorkingMemory/Tidy.antt =====
-- What a tick leaves in working memory (crates/exoskeleton-core/src/working_memory.rs).
use exoskeleton.Base.{
  leb, Bool-cases, length, filter, All, length-take, length-filter-le, All-take, filter-All,
  All-filter, AllPairs-filter, sort_by, sort_by-All, ℕ, ◌≤◌, ◌≡◌, inl, inr, Bool, true, arith,
}
use exoskeleton.Base.Float.{F64}
use exoskeleton.Core.WorkingMemory.{
  WorkingMemory, WorkingMemoryEntry, is_live, evict_expired, enforce_cap, not_less_relevant,
}
use exoskeleton.Core.WorkingMemory.Keys.{DistinctKeys, Differ}

-- Keys are distinct, there are at most `cap` entries, and none has expired at the tick.
pub record IsTidy {F : Type 0} (cap tick : ℕ) (w : WorkingMemory F) : Type 0 where
  pub distinct : DistinctKeys w
  pub capped : length w.entries ≤ cap
  pub live : All (λ e. is_live tick e ≡ true) w.entries

pub evict_expired-live :
    {F : Type 0}
    → (tick : ℕ) (w : WorkingMemory F)
    → All (λ e. is_live tick e ≡ true) (evict_expired tick w).entries
unfolding evict_expired
evict_expired-live tick w = filter-All (is_live tick) w.entries

module _ {F : Type 0} ⦃f : F64 F⦄ where
  pub enforce_cap-All :
      (P : WorkingMemoryEntry F → Type 0) (n : ℕ) (w : WorkingMemory F)
      → All P w.entries
      → All P (enforce_cap n w).entries
  unfolding enforce_cap
  enforce_cap-All P n w h = elim (Bool-cases (leb (length w.entries) n)) [
    | inl within ↦ rw within h
    | inr over ↦ rw over (All-take P n _ (sort_by-All not_less_relevant P w.entries h))
  ]

  pub length-enforce_cap : (n : ℕ) (w : WorkingMemory F) → length (enforce_cap n w).entries ≤ n
  unfolding enforce_cap
  length-enforce_cap n w = ground (arith, length-take n (sort_by not_less_relevant w.entries))

-- Dropping entries keeps a memory tidy.
pub filter-IsTidy :
    {F : Type 0}
    → (p : WorkingMemoryEntry F → Bool) (cap tick : ℕ) (w : WorkingMemory F) → IsTidy cap tick w
    → IsTidy cap tick (record { entries = filter p w.entries })
filter-IsTidy p cap tick w h = record {
  distinct = AllPairs-filter Differ p w.entries h.distinct;
  capped = omega (arith, length-filter-le p w.entries, h.capped);
  live = All-filter (λ e. is_live tick e ≡ true) p w.entries h.live;
}

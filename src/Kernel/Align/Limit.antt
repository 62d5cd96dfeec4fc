-- ===== src/Kernel/Align/Limit.antt =====
-- The limit on watches in crates/exoskeleton-host/src/kernel/align.rs.
use exoskeleton.Base.{
  leb, if◌then◌else◌, Dict, insert, u32_mod, ℕ, suc, ◌≤◌, ◌<◌, max, List, [], ◌∷◌, arith, nat_eq,
  string_eq,
}
use exoskeleton.Core.Watch as Watch
use exoskeleton.Core.Watch.{WatchDefinition, WatchProposal, active_count, count_active, save}
use exoskeleton.Kernel.Align.{proposed_watch, save_proposals}

module _ {F J : Type 0} where
  insert-count_active :
      (id : ℕ) (w : WatchDefinition F J) (s : Dict ℕ (WatchDefinition F J))
      → count_active (insert id w s) ≤ suc (count_active s)
  unfolding insert
  insert-count_active id w [] = ground arith
  insert-count_active id w ((k, v) ∷ s) = ground (arith, insert-count_active id w s)

  save-count_active :
      (max_watches : ℕ) (w : WatchDefinition F J) (s : Dict ℕ (WatchDefinition F J))
      → count_active s < u32_mod
      → count_active (if leb max_watches (active_count s) then s else Watch.save w s)
        ≤ max (count_active s) max_watches
  unfolding active_count Watch.save
  save-count_active max_watches w s small = ground (arith, insert-count_active w.id w s)

  -- However many watches a tick proposes, there are afterwards no more active ones than the limit, or
  -- than there were before; both are counts that a 32-bit word holds.
  pub save_proposals-count_active :
      (fresh_watch : ℕ → ℕ) (max_watches tick now i : ℕ) (ps : List (WatchProposal F J))
      (s : Dict ℕ (WatchDefinition F J))
      → count_active s < u32_mod
      → max_watches < u32_mod
      → count_active (save_proposals fresh_watch max_watches tick now i ps s)
        ≤ max (count_active s) max_watches
  unfolding save_proposals
  save_proposals-count_active fresh_watch max_watches tick now i [] s small limit = omega arith
  save_proposals-count_active fresh_watch max_watches tick now i (p ∷ ps) s small limit =
      let w = proposed_watch (fresh_watch i) tick now p in
      let s' = if leb max_watches (active_count s) then s else Watch.save w s in
      let one = save-count_active max_watches w s small in
      omega (
        arith,
        one,
        save_proposals-count_active fresh_watch max_watches tick now (suc i) ps s'
            (omega (arith, one, small, limit)) limit,
      )

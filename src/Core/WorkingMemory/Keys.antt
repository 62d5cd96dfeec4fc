-- ===== src/Core/WorkingMemory/Keys.antt =====
-- The memory as a map from keys: one entry for a key, and what each operation does to a look-up.
use exoskeleton.Base.{
  leb, if◌then◌else◌, Bool-cases, length, filter, All, AllPairs, AllPairs-filter, AllPairs-take,
  sort_by-AllPairs, ◌==◌, ==_comm, ℕ, String, ◌≡◌, refl, ◌∙◌, inl, inr, false, not, Option, none,
  some, List, [], ◌∷◌, arith, nat_eq, string_eq,
}
use exoskeleton.Base.Float.{F64}
use text.Mathlib.TextEquality.{eq_iff}
use exoskeleton.Core.WorkingMemory.{
  WorkingMemory, WorkingMemoryEntry, WorkingMemoryOp, apply_op, apply_ops, evict_expired,
  enforce_cap, upsert_entry, full_relevance, is_live, not_less_relevant, set, remove, clear,
}

module _ {F : Type 0} where
  unfoldable pub get : String → List (WorkingMemoryEntry F) → Option (WorkingMemoryEntry F)
  get k [] = none
  get k (e ∷ es) = if e.key == k then some e else get k es

  abbrev pub Differ : WorkingMemoryEntry F → WorkingMemoryEntry F → Type 0
  Differ a b = (a.key == b.key) ≡ false

  abbrev pub DistinctKeys : WorkingMemory F → Type 0
  DistinctKeys w = AllPairs Differ w.entries

  Differ-sym : (a b : WorkingMemoryEntry F) → Differ a b → Differ b a
  Differ-sym a b h = ==_comm b.key a.key ∙ h

module _ {F : Type 0} ⦃f : F64 F⦄ where
  abbrev pub fresh_entry : String → String → Option ℕ → ℕ → WorkingMemoryEntry F
  fresh_entry k v ttl now = record {
    key = k;
    value = v;
    written_at_tick = now;
    ttl_ticks = ttl;
    relevance = full_relevance;
  }

  -- What a look-up of `j` finds after an operation, from what it found before.
  abbrev pub found_after :
      WorkingMemoryOp → ℕ → String → Option (WorkingMemoryEntry F) → Option (WorkingMemoryEntry F)
  found_after (set k v ttl) now j before = if k == j then some (fresh_entry k v ttl now) else before
  found_after (remove k) now j before = if k == j then none else before
  found_after clear now j before = none

  get-upsert_entry :
      (k v : String) (ttl : Option ℕ) (now : ℕ) (j : String) (es : List (WorkingMemoryEntry F))
      → get j (upsert_entry k v ttl now es)
        ≡ (if k == j then some (fresh_entry k v ttl now) else get j es)
  unfolding get upsert_entry
  get-upsert_entry k v ttl now j [] = ground arith
  get-upsert_entry k v ttl now j (e ∷ es) =
      ground (arith, eq_iff k j, eq_iff e.key k, eq_iff e.key j, get-upsert_entry k v ttl now j es)

  get-filter_key :
      (k j : String) (es : List (WorkingMemoryEntry F))
      → get j (filter (λ e. not (e.key == k)) es) ≡ (if k == j then none else get j es)
  unfolding get
  get-filter_key k j [] = ground arith
  get-filter_key k j (e ∷ es) =
      ground (arith, eq_iff k j, eq_iff e.key k, eq_iff e.key j, get-filter_key k j es)

  -- Setting a key makes it found, with the new value, the tick of the write, its TTL and full
  -- relevance; removing it or clearing makes it not found; every other key is found as before,
  -- unless all were cleared.
  pub get-apply_op :
      (op : WorkingMemoryOp) (now : ℕ) (j : String) (w : WorkingMemory F)
      → get j (apply_op op now w).entries ≡ found_after op now j (get j w.entries)
  unfolding apply_op get
  get-apply_op (set k v ttl) now j w = get-upsert_entry k v ttl now j w.entries
  get-apply_op (remove k) now j w = get-filter_key k j w.entries
  get-apply_op clear now j w = refl

  upsert_entry-Differ :
      (k v : String) (ttl : Option ℕ) (now : ℕ) (e : WorkingMemoryEntry F)
      (es : List (WorkingMemoryEntry F))
      → (e.key == k) ≡ false
      → All (Differ e) es
      → All (Differ e) (upsert_entry k v ttl now es)
  unfolding upsert_entry
  upsert_entry-Differ k v ttl now e [] h a = (h, tt)
  upsert_entry-Differ k v ttl now e (x ∷ es) h a = elim (Bool-cases (x.key == k)) [
    | inl same ↦ rw same a
    | inr differ ↦ rw differ (a.0, upsert_entry-Differ k v ttl now e es h a.1)
  ]

  upsert_entry-AllPairs :
      (k v : String) (ttl : Option ℕ) (now : ℕ) (es : List (WorkingMemoryEntry F))
      → AllPairs Differ es
      → AllPairs Differ (upsert_entry k v ttl now es)
  unfolding upsert_entry
  upsert_entry-AllPairs k v ttl now [] h = (tt, tt)
  upsert_entry-AllPairs k v ttl now (e ∷ es) h = elim (Bool-cases (e.key == k)) [
    | inl same ↦ rw same h
    | inr differ ↦
        rw differ (
          upsert_entry-Differ k v ttl now e es differ h.0,
          upsert_entry-AllPairs k v ttl now es h.1,
        )
  ]

  pub apply_op-DistinctKeys :
      (op : WorkingMemoryOp) (now : ℕ) (w : WorkingMemory F)
      → DistinctKeys w
      → DistinctKeys (apply_op op now w)
  unfolding apply_op
  apply_op-DistinctKeys (set k v ttl) now w h = upsert_entry-AllPairs k v ttl now w.entries h
  apply_op-DistinctKeys (remove k) now w h = AllPairs-filter Differ _ w.entries h
  apply_op-DistinctKeys clear now w h = tt

  pub apply_ops-DistinctKeys :
      (ops : List WorkingMemoryOp) (now : ℕ) (w : WorkingMemory F)
      → DistinctKeys w
      → DistinctKeys (apply_ops ops now w)
  unfolding apply_ops
  apply_ops-DistinctKeys [] now w h = h
  apply_ops-DistinctKeys (op ∷ ops) now w h =
      apply_ops-DistinctKeys ops now (apply_op op now w) (apply_op-DistinctKeys op now w h)

  evict_expired-DistinctKeys :
      (now : ℕ) (w : WorkingMemory F) → DistinctKeys w → DistinctKeys (evict_expired now w)
  unfolding evict_expired
  evict_expired-DistinctKeys now w h = AllPairs-filter Differ (is_live now) w.entries h

  enforce_cap-DistinctKeys :
      (n : ℕ) (w : WorkingMemory F) → DistinctKeys w → DistinctKeys (enforce_cap n w)
  unfolding enforce_cap
  enforce_cap-DistinctKeys n w h = elim (Bool-cases (leb (length w.entries) n)) [
    | inl within ↦ rw within h
    | inr over ↦ rw over (
        AllPairs-take Differ n _ (sort_by-AllPairs not_less_relevant Differ Differ-sym w.entries h))
  ]

  -- No two entries share a key: any operations, the eviction of expired entries and the cap, in the
  -- order in which a tick applies them, keep it so.
  pub tick-DistinctKeys :
      (ops : List WorkingMemoryOp) (now n : ℕ) (w : WorkingMemory F)
      → DistinctKeys w
      → DistinctKeys (enforce_cap n (evict_expired now (apply_ops ops now w)))
  tick-DistinctKeys ops now n w h =
      enforce_cap-DistinctKeys n _
        (evict_expired-DistinctKeys now _ (apply_ops-DistinctKeys ops now w h))

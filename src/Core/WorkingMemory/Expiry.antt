-- ===== src/Core/WorkingMemory/Expiry.antt =====
-- How long an entry lives.
use exoskeleton.Base.{
  ltb, if◌then◌else◌, Bool-cases, filter, All, AllPairs, ◌==◌, ==→eq, ==_refl, ==_comm, ℕ, ◌+◌, ◌≤◌,
  String, ◌≡◌, refl, sym, ap, ◌∙◌, inl, inr, Bool, true, Option, none, some, List, [], ◌∷◌, arith,
  nat_eq, string_eq,
}
use exoskeleton.Base.Float.{F64}
use exoskeleton.Core.WorkingMemory.{
  WorkingMemory, WorkingMemoryEntry, apply_op, evict_expired, is_live, set,
}
use exoskeleton.Core.WorkingMemory.Keys.{
  get, DistinctKeys, get-apply_op, apply_op-DistinctKeys, fresh_entry, Differ,
}

module _ {F : Type 0} where
  get-Differ :
      (e : WorkingMemoryEntry F) (es : List (WorkingMemoryEntry F))
      → All (Differ e) es
      → get e.key es ≡ none
  unfolding get
  get-Differ e [] h = refl
  get-Differ e (x ∷ es) h = ground (arith, ==_comm x.key e.key, h.0, get-Differ e es h.1)

  get-filter :
      (p : WorkingMemoryEntry F → Bool) (k : String) (es : List (WorkingMemoryEntry F))
      → AllPairs Differ es
      → get k (filter p es)
        ≡ elim (get k es) [ none ↦ none | some e ↦ if p e then some e else none ]
  unfolding get
  get-filter p k [] h = refl
  get-filter p k (e ∷ es) h = elim (Bool-cases (e.key == k)) [
    | inr differ ↦ ground (arith, differ, get-filter p k es h.1)
    | inl same ↦
        let absent : get k es ≡ none =
          ap (λ j. get j es) (sym (==→eq e.key k same)) ∙ get-Differ e es h.0 in
        ground (arith, same, absent, get-filter p k es h.1)
  ]

  -- Evicting at one tick and again at a later one is evicting at the later one.
  pub evict_expired_twice :
      (now later : ℕ) (w : WorkingMemory F)
      → now ≤ later
      → evict_expired later (evict_expired now w) ≡ evict_expired later w
  unfolding evict_expired
  evict_expired_twice now later w h = ap (λ es. record { entries = es }) (both w.entries)
    where
      both :
          (es : List (WorkingMemoryEntry F))
          → filter (is_live later) (filter (is_live now) es) ≡ filter (is_live later) es
      both [] = refl
      both (e ∷ es) = ground (arith, both es, h)

abbrev pub lives : Option ℕ → ℕ → Bool
lives none elapsed = true
lives (some ttl) elapsed = ltb elapsed ttl

module _ {F : Type 0} ⦃f : F64 F⦄ where
  -- In a memory whose keys are different, an entry that is set is found by the eviction of any
  -- later tick exactly as long as fewer ticks have passed than its TTL, and always if it has none.
  pub set_expires :
      (k v : String) (ttl : Option ℕ) (now elapsed : ℕ) (w : WorkingMemory F)
      → DistinctKeys w
      → get k (evict_expired (now + elapsed) (apply_op (set k v ttl) now w)).entries
        ≡ (if lives ttl elapsed then some (fresh_entry k v ttl now) else none)
  unfolding evict_expired
  set_expires k v ttl now elapsed w h =
      get-filter (is_live (now + elapsed)) k _ (apply_op-DistinctKeys (set k v ttl) now w h)
      ∙ rw (get-apply_op (set k v ttl) now k w, ==_refl k) (ground arith)

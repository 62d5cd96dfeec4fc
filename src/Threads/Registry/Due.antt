-- ===== src/Threads/Registry/Due.antt =====
-- `due_threads` of crates/exoskeleton-threads/src/registry.rs.
use exoskeleton.Base.{
  Bool-cases, Option-cases, All, All-imp, IsSorted, sort_by-perm, sort_by-All, sort_by-IsSorted,
  Dict, lookup, UniqueKeys, ◌==◌, ==→eq, ==_refl, ℕ, ◌≡◌, refl, ap, ◌∙◌, inr, true, Option, some,
  List, [], ◌∷◌, map, arith, nat_eq, string_eq, inl,
}
use mathlib.Core.List.{Mem, mem-cons_self, mem-cons_of_mem}
use mathlib.Core.List.Perm
use exoskeleton.Threads.Types.{ThreadSpec, ThreadStatus}
use exoskeleton.Threads.Schedule.{is_thread_due}
use exoskeleton.Threads.Store.{
  ThreadStore, RegisteredThreadStatus, store_get, get_last_run, filter_map, store_list,
}
use exoskeleton.Threads.Store.WellFormed.{IsWellFormed}
use exoskeleton.Threads.Registry.{due_threads, higher_priority_first, due_entry}

pub lookup_own :
    {V : Type 0} → (m : Dict ℕ V) → UniqueKeys m → All (λ kv. lookup kv.0 m ≡ some kv.1) m
unfolding lookup
lookup_own [] u = tt
lookup_own ((k, v) ∷ m) u =
    (rw (==_refl k) refl, All-imp (λ kv. other kv.0 kv.1) m (lookup_own m u.1))
  where
    other : (j : ℕ) (w : _) → lookup j m ≡ some w → lookup j ((k, v) ∷ m) ≡ some w
    other j w h = elim (Bool-cases (k == j)) [
      | inl e ↦ absurd (ground (arith, ==→eq k j e, u.0, h))
      | inr e ↦ rw e h
    ]

filter_map_values-All :
    {V B : Type 0}
    → (f : V → Option B) (P : ℕ × V → Type 0) (Q : B → Type 0)
      (imp : (k : ℕ) (v : V) (b : B) → P (k, v) → f v ≡ some b → Q b) (m : Dict ℕ V)
    → All P m
    → All Q (filter_map f (map (λ kv. kv.1) m))
filter_map_values-All f P Q imp [] h = tt
filter_map_values-All f P Q imp ((k, v) ∷ m) h = elim (Option-cases (f v)) [
  | inl e ↦ rw e (filter_map_values-All f P Q imp m h.1)
  | inr (b, e) ↦ rw e (imp k v b h.0 e, filter_map_values-All f P Q imp m h.1)
]

All-both :
    {A : Type 0} → (P Q : A → Type 0) (xs : List A) → All P xs → All Q xs → All (λ a. P a × Q a) xs
All-both P Q [] h k = tt
All-both P Q (x ∷ xs) h k = ((h.0, k.0), All-both P Q xs h.1 k.1)

lookup-Mem :
    (V B : Type 0) (f : V → Option B) (k : ℕ) (v : V) (b : B) (m : Dict ℕ V)
    → lookup k m ≡ some v
    → f v ≡ some b
    → Mem b (filter_map f (map (λ kv. kv.1) m))
unfolding lookup
lookup-Mem V B f k v b [] h e = absurd cc
lookup-Mem V B f k v b ((j, w) ∷ m) h e = elim (Bool-cases (j == k)) [
  | inl same ↦ let own : w ≡ v = ground (arith, same, h) in rw (ap f own ∙ e) mem-cons_self
  | inr differ ↦ pass w m (lookup-Mem V B f k v b m (ground (arith, differ, h)) e)
]
  where
    pass :
        (w : V) (m : Dict ℕ V)
        → Mem b (filter_map f (map (λ kv. kv.1) m))
        → Mem b (filter_map f (map (λ kv. kv.1) ((j, w) ∷ m)))
    pass w m later = elim (Option-cases (f w)) [
      | inl none_e ↦ rw none_e later
      | inr (c, some_e) ↦ rw some_e (mem-cons_of_mem c later)
    ]

module _ {X L : Type 0} (tick : ℕ) (s : ThreadStore X L) where
  -- The store has the thread, as a cognitive one that is due.
  abbrev pub IsDue : ThreadSpec → Type 0
  IsDue spec =
      (status : ThreadStatus) × (store_get spec.thread_id s
        ≡ some (spec, RegisteredThreadStatus.cognitive status))
      × (is_thread_due spec.schedule status tick (get_last_run spec.thread_id s) ≡ true)

  Kept : ℕ × (ThreadSpec × RegisteredThreadStatus) → Type 0
  Kept kv = (lookup kv.0 s.specs ≡ some kv.1) × (kv.1.0.thread_id ≡ kv.0)

  due_entry-IsDue :
      (k : ℕ) (entry : ThreadSpec × RegisteredThreadStatus) (b : ThreadSpec)
      → Kept (k, entry)
      → due_entry tick s entry ≡ some b
      → IsDue b
  unfolding Kept
  due_entry-IsDue k (spec, RegisteredThreadStatus.cognitive status) b h e =
      elim (Bool-cases (is_thread_due spec.schedule status tick (get_last_run spec.thread_id s))) [
        | inl due ↦
            let same : spec ≡ b = ground (arith, due, e) in
            rw (← same) (status, ap (λ i. lookup i s.specs) h.1 ∙ h.0, due)
        | inr not_due ↦ absurd (ground (arith, not_due, e))
      ]
  due_entry-IsDue k (spec, RegisteredThreadStatus.executable status) b h e = absurd cc

  due_entry-of_IsDue :
      (spec : ThreadSpec) (d : IsDue spec)
      → due_entry tick s (spec, RegisteredThreadStatus.cognitive d.0) ≡ some spec
  due_entry-of_IsDue spec (status, h, due) = rw due refl

-- The threads returned for a tick of a well-formed store are in descending order of priority, each
-- of them is in the store as a cognitive thread that is due, and every such thread is among them.
pub due_threads_lem :
    {X L : Type 0}
    → (tick : ℕ) (s : ThreadStore X L) → IsWellFormed s
    → IsSorted higher_priority_first (due_threads tick s)
      × All (IsDue tick s) (due_threads tick s)
      × ((spec : ThreadSpec) → IsDue tick s spec → Mem spec (due_threads tick s))
unfolding due_threads Kept
due_threads_lem tick s h =
    let due = filter_map (due_entry tick s) (store_list s) in
    let kept : All (Kept tick s) s.specs =
      All-both (λ kv. lookup kv.0 s.specs ≡ some kv.1) (λ kv. kv.1.0.thread_id ≡ kv.0) s.specs
        (lookup_own s.specs h.0) h.1 in
    (
      sort_by-IsSorted higher_priority_first (λ x y. ground arith) (λ x y z. ground arith) due,
      sort_by-All higher_priority_first (IsDue tick s) due (
          filter_map_values-All (due_entry tick s) (Kept tick s) (IsDue tick s)
            (due_entry-IsDue tick s) s.specs kept),
      λ spec d. (Perm.mem_iff (sort_by-perm higher_priority_first due)).1 (
          lookup-Mem _ _ (due_entry tick s) spec.thread_id
            (spec, RegisteredThreadStatus.cognitive d.0) spec s.specs d.1
            (due_entry-of_IsDue tick s spec d)),
    )

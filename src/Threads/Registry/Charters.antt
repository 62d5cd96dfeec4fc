-- ===== src/Threads/Registry/Charters.antt =====
-- `reload_charters` of crates/exoskeleton-threads/src/registry.rs.
use exoskeleton.Base.{
  Bool-cases, is_some, All, All-imp, Dict, lookup, adjust, lookup-adjust, u32_mod, ◌==◌, ℕ, ◌+◌,
  ◌%◌, String, ◌≡◌, refl, ap, ◌∙◌, inl, inr, true, Option, none, some, List, [], ◌∷◌, map, arith,
  nat_eq, string_eq,
}
use exoskeleton.Base.Errors.{Result, ok, ◌>>=◌}
use exoskeleton.Threads.Registry.Due.{lookup_own}
use exoskeleton.Threads.Types.{ThreadSpec}
use exoskeleton.Threads.Store.{
  ThreadStore, RegisteredThreadStatus, store_list, write_found, store_update_charter,
}
use exoskeleton.Threads.Store.WellFormed.{IsWellFormed, IsOwnKey}
use exoskeleton.Threads.Registry.{reload_one, reload_from, reload_charters}

module _ {X L : Type 0} where
  abbrev pub Has : ThreadStore X L → ℕ → Type 0
  Has s id = is_some (lookup id s.specs) ≡ true

  -- The result is a store, with the runs, the outputs and the local states of the old one and the
  -- same threads.
  abbrev pub Reloads : ThreadStore X L → Result (ThreadStore X L × ℕ) → Type 0
  Reloads s result =
      (s' : ThreadStore X L) × (updated : ℕ) × (result ≡ ok (s', updated))
      × (s'.last_runs ≡ s.last_runs)
      × (s'.outputs ≡ s.outputs)
      × (s'.local_state ≡ s.local_state)
      × ((id : ℕ) → is_some (lookup id s'.specs) ≡ is_some (lookup id s.specs))

  write_found-Reloads :
      (id : ℕ) (f : ThreadSpec × RegisteredThreadStatus → ThreadSpec × RegisteredThreadStatus)
      (found : Option (ThreadSpec × RegisteredThreadStatus)) (s : ThreadStore X L)
      → is_some found ≡ true
      → Reloads s (write_found f id found s >>= λ s'. ok (s', 1))
  unfolding write_found
  write_found-Reloads id f none s h = absurd cc
  write_found-Reloads id f (some e) s h = (
    record s { specs = adjust id f s.specs },
    1,
    refl,
    refl,
    refl,
    refl,
    λ j. ground (arith, lookup-adjust id j f s.specs),
  )

module _ {X L : Type 0} (s : ThreadStore X L) where
  values-Has :
      (m : Dict ℕ (ThreadSpec × RegisteredThreadStatus))
      → All (λ kv. lookup kv.0 s.specs ≡ some kv.1) m
      → All IsOwnKey m
      → All (λ t. Has s t.0.thread_id) (map (λ kv. kv.1) m)
  values-Has [] held own = tt
  values-Has ((id, e) ∷ m) held own =
      (ap (λ i. is_some (lookup i s.specs)) own.0 ∙ ap is_some held.0, values-Has m held.1 own.1)

  own_threads : IsWellFormed s → All (λ t. Has s t.0.thread_id) (store_list s)
  own_threads h = values-Has s.specs (lookup_own s.specs h.0) h.1

module _ {X L : Type 0} (charter_key : String → String) (prompts : Dict String String) where
  reload_one-Reloads :
      (found : Option String) (spec : ThreadSpec) (s : ThreadStore X L)
      → Has s spec.thread_id
      → Reloads s (reload_one charter_key prompts found spec s)
  unfolding reload_one store_update_charter
  reload_one-Reloads none spec s h = (s, 0, refl, refl, refl, refl, λ j. refl)
  reload_one-Reloads (some charter) spec s h = elim (Bool-cases (charter == spec.charter)) [
    | inl e ↦ rw e (s, 0, refl, refl, refl, refl, λ j. refl)
    | inr e ↦ rw e (write_found-Reloads spec.thread_id _ (lookup spec.thread_id s.specs) s h)
  ]

  reload_from-Reloads :
      (threads : List (ThreadSpec × RegisteredThreadStatus)) (updated : ℕ) (s : ThreadStore X L)
      → All (λ t. Has s t.0.thread_id) threads
      → Reloads s (reload_from charter_key prompts threads updated s)
  unfolding reload_from
  reload_from-Reloads [] updated s h = (s, updated, refl, refl, refl, refl, λ j. refl)
  reload_from-Reloads ((spec, status) ∷ threads) updated s h =
      let one = reload_one-Reloads (lookup (charter_key spec.name) prompts) spec s h.0 in
      let same = one.6 in
      let rest =
        reload_from-Reloads threads ((updated + one.1) % u32_mod) one.0
          (All-imp (λ t k. same t.0.thread_id ∙ k) threads h.1) in
      (
        rest.0,
        rest.1,
        rw one.2 rest.2,
        rest.3 ∙ one.3,
        rest.4 ∙ one.4,
        rest.5 ∙ one.5,
        λ j. rest.6 j ∙ same j,
      )

  -- Reloading the charters of a store that keeps each thread under its own id, and once, never
  -- fails, though each update looks its thread up again; it keeps the same threads, and leaves the
  -- runs, the outputs and the local states alone.
  pub reload_charters-Reloads :
      (s : ThreadStore X L) → IsWellFormed s → Reloads s (reload_charters charter_key prompts s)
  unfolding reload_charters
  reload_charters-Reloads s h = reload_from-Reloads (store_list s) 0 s (own_threads s h)

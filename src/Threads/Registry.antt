-- ===== src/Threads/Registry.antt =====
-- crates/exoskeleton-threads/src/registry.rs. An operation that fails returns no store: the store
-- stays as it was. `charter_key` lowers a name and replaces its blanks, with library calls on
-- strings, so it is a parameter.
pub mod Lifecycle
pub mod Terminal
pub mod Refinement
pub mod Due
pub mod Charters
pub mod Summaries
use exoskeleton.Base.{
  leb, if◌then◌else◌, find?, sort_by, Dict, lookup, u32_mod, Eq, ◌==◌, ℕ, ◌+◌, ◌%◌, String, Bool,
  not, Option, none, some, List, [], ◌∷◌, nat_eq, string_eq,
}
use exoskeleton.Base.Errors.{config, storage, engine, Result, ok, err, ◌>>=◌}
use exoskeleton.Threads.Types.{
  ThreadSpec, ThreadStatus, ExecThreadStatus, ThreadFlavor, ThreadRole, rank, active,
}
use exoskeleton.Threads.Schedule.{is_thread_due}
use exoskeleton.Threads.Store.{
  ThreadStore, RegisteredThreadStatus, cognitive, executable, registered_is_terminal, filter_map,
  save, store_get, store_list, store_remove, store_update_status, save_last_run, get_last_run,
  store_update_charter,
}

abbrev pub cognitive_entry :
    ThreadSpec × RegisteredThreadStatus → Option (ThreadSpec × ThreadStatus)
cognitive_entry (spec, cognitive status) = some (spec, status)
cognitive_entry (spec, executable status) = none

abbrev pub executable_entry :
    ThreadSpec × RegisteredThreadStatus → Option (ThreadSpec × ExecThreadStatus)
executable_entry (spec, cognitive status) = none
executable_entry (spec, executable status) = some (spec, status)

abbrev pub active_entry : ThreadSpec × RegisteredThreadStatus → Option ThreadSpec
active_entry (spec, cognitive ThreadStatus.active) = some spec
active_entry _ = none

abbrev pub active_executable_entry : ThreadSpec × RegisteredThreadStatus → Option ThreadSpec
active_executable_entry (spec, executable ExecThreadStatus.active) = some spec
active_executable_entry _ = none

abbrev pub higher_priority_first : ThreadSpec → ThreadSpec → Bool
higher_priority_first a b = leb (rank b.priority) (rank a.priority)

module _ {X L : Type 0} where
  pub register_with_status :
      ThreadSpec → RegisteredThreadStatus → ThreadStore X L → ThreadStore X L × ℕ
  register_with_status spec status s = (save spec status s, spec.thread_id)

  pub register : ThreadSpec → ThreadStore X L → ThreadStore X L × ℕ
  register spec s =
      let status : RegisteredThreadStatus = elim spec.flavor [
        | ThreadFlavor.cognitive ↦ RegisteredThreadStatus.cognitive ThreadStatus.active
        | ThreadFlavor.executable ↦ RegisteredThreadStatus.executable ExecThreadStatus.active
      ] in
      register_with_status spec status s

  pub deregister : ℕ → ThreadStore X L → ThreadStore X L
  deregister id s = store_remove id s

  unfoldable pub get : ℕ → ThreadStore X L → Option (ThreadSpec × ThreadStatus)
  get id s = elim (store_get id s) [ none ↦ none | some entry ↦ cognitive_entry entry ]

  unfoldable list : ThreadStore X L → List (ThreadSpec × ThreadStatus)
  list s = filter_map cognitive_entry (store_list s)

  unfoldable pub list_executable : ThreadStore X L → List (ThreadSpec × ExecThreadStatus)
  list_executable s = filter_map executable_entry (store_list s)

  unfoldable list_active : ThreadStore X L → List ThreadSpec
  list_active s = filter_map active_entry (store_list s)

  unfoldable list_active_executable : ThreadStore X L → List ThreadSpec
  list_active_executable s = filter_map active_executable_entry (store_list s)

  -- `update_status` on the status that was found.
  pub change_status :
      ℕ → ThreadStatus → RegisteredThreadStatus → ThreadStore X L → Result (ThreadStore X L)
  change_status id status current s =
      if registered_is_terminal current
      then err (engine "cannot transition from terminal state")
      else elim current [
        | cognitive old ↦ store_update_status id (cognitive status) s
        | executable old ↦ err (config "cannot apply cognitive thread status to executable thread")
      ]

  -- A change of status, by what the id was found to hold.
  abbrev pub when_found :
      (RegisteredThreadStatus → ThreadStore X L → Result (ThreadStore X L))
      → Option (ThreadSpec × RegisteredThreadStatus)
      → ThreadStore X L
      → Result (ThreadStore X L)
  when_found change (some (spec, current)) s = change current s
  when_found change none s = err (storage "thread not found")

  pub update_status : ℕ → ThreadStatus → ThreadStore X L → Result (ThreadStore X L)
  update_status id status s = when_found (change_status id status) (store_get id s) s

  pub change_executable_status :
      ℕ → ExecThreadStatus → RegisteredThreadStatus → ThreadStore X L → Result (ThreadStore X L)
  change_executable_status id status current s =
      if registered_is_terminal current
      then err (engine "cannot transition from terminal state")
      else elim current [
        | cognitive old ↦ err (config "cannot apply executable thread status to cognitive thread")
        | executable old ↦ store_update_status id (executable status) s
      ]

  pub update_executable_status : ℕ → ExecThreadStatus → ThreadStore X L → Result (ThreadStore X L)
  update_executable_status id status s =
      when_found (change_executable_status id status) (store_get id s) s

  pub record_run : ℕ → ℕ → ThreadStore X L → ThreadStore X L
  record_run id tick s = save_last_run id tick s

  abbrev pub due_entry :
      ℕ → ThreadStore X L → ThreadSpec × RegisteredThreadStatus → Option ThreadSpec
  due_entry tick s (spec, cognitive status) =
      if is_thread_due spec.schedule status tick (get_last_run spec.thread_id s)
      then some spec
      else none
  due_entry tick s (spec, executable status) = none

  pub due_threads : ℕ → ThreadStore X L → List ThreadSpec
  due_threads tick s = sort_by higher_priority_first (filter_map (due_entry tick s) (store_list s))

  module _ (charter_key : String → String) (prompts : Dict String String) where
    -- One thread of the loop of `reload_charters`, by its charter among the prompts, and the number
    -- of updates that it adds.
    pub reload_one : Option String → ThreadSpec → ThreadStore X L → Result (ThreadStore X L × ℕ)
    reload_one none spec s = ok (s, 0)
    reload_one (some charter) spec s =
        if charter == spec.charter
        then ok (s, 0)
        else store_update_charter spec.thread_id charter s >>= λ s'. ok (s', 1)

    -- The loop over the threads that were listed; a 32-bit word holds the count of updates.
    pub reload_from :
        List (ThreadSpec × RegisteredThreadStatus)
        → ℕ
        → ThreadStore X L
        → Result (ThreadStore X L × ℕ)
    unfolding reload_one
    reload_from [] updated s = ok (s, updated)
    reload_from ((spec, status) ∷ threads) updated s =
        reload_one (lookup (charter_key spec.name) prompts) spec s >>= λ r.
        reload_from threads ((updated + r.1) % u32_mod) r.0

    pub reload_charters : ThreadStore X L → Result (ThreadStore X L × ℕ)
    unfolding reload_from
    reload_charters s = reload_from (store_list s) 0 s

  -- Roles have a derived equality, here by an instance.
  unfoldable find_registered_by_role :
      ⦃e : Eq ThreadRole⦄
      → ThreadRole
      → ThreadStore X L
      → Option (ThreadSpec × RegisteredThreadStatus)
  find_registered_by_role role s = find? (λ entry. entry.0.role == role) (store_list s)

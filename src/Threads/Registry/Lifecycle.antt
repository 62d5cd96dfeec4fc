-- ===== src/Threads/Registry/Lifecycle.antt =====
-- Sequences of operations of the registry (crates/exoskeleton-threads/src/registry.rs).
use exoskeleton.Base.{
  Bool-cases, lookup, ◌==◌, ℕ, String, inl, inr, Bool, false, Option, none, some, List, [], ◌∷◌,
  nat_eq, string_eq,
}
use exoskeleton.Base.Errors.{Result}
use exoskeleton.Threads.Types.{
  ThreadSpec, ThreadStatus, ExecThreadStatus, ThreadExecutionResult, is_terminal, exec_is_terminal,
}
use exoskeleton.Threads.Store.{
  ThreadStore, RegisteredThreadStatus, save_last_run, save_execution_result, save_local_state,
  store_update_charter,
}
use exoskeleton.Threads.Store.WellFormed.{
  IsWellFormed, after, save-IsWellFormed, store_remove-IsWellFormed,
  store_update_status-IsWellFormed, store_update_charter-IsWellFormed,
}
use exoskeleton.Threads.Registry.{
  register, deregister, update_status, update_executable_status, record_run, change_status,
  change_executable_status, register_with_status, when_found,
}

pub data RegistryOp (X L : Type 0) : Type 0 where
  register_op : ThreadSpec → RegistryOp X L
  deregister_op : ℕ → RegistryOp X L
  update_status_op : ℕ → ThreadStatus → RegistryOp X L
  update_executable_status_op : ℕ → ExecThreadStatus → RegistryOp X L
  record_run_op : ℕ → ℕ → RegistryOp X L
  save_result_op : ThreadExecutionResult X → RegistryOp X L
  save_local_state_op : ℕ → L → RegistryOp X L
  update_charter_op : ℕ → String → RegistryOp X L

module _ {X L : Type 0} where
  abbrev pub run_op : RegistryOp X L → ThreadStore X L → ThreadStore X L
  run_op (register_op spec) s = (register spec s).0
  run_op (deregister_op id) s = deregister id s
  run_op (update_status_op id status) s = after s (update_status id status s)
  run_op (update_executable_status_op id status) s = after s (update_executable_status id status s)
  run_op (record_run_op id tick) s = record_run id tick s
  run_op (save_result_op r) s = save_execution_result r s
  run_op (save_local_state_op id state) s = save_local_state id state s
  run_op (update_charter_op id charter) s = after s (store_update_charter id charter s)

  abbrev pub run_ops : List (RegistryOp X L) → ThreadStore X L → ThreadStore X L
  run_ops [] s = s
  run_ops (o ∷ os) s = run_ops os (run_op o s)

  -- The operation registers or deregisters the thread.
  abbrev pub replaces : ℕ → RegistryOp X L → Bool
  replaces id (register_op spec) = spec.thread_id == id
  replaces id (deregister_op j) = j == id
  replaces id _ = false

  change_status-IsWellFormed :
      (id : ℕ) (status : ThreadStatus) (current : RegisteredThreadStatus) (s : ThreadStore X L)
      → IsWellFormed s
      → IsWellFormed (after s (change_status id status current s))
  unfolding change_status
  change_status-IsWellFormed id status (RegisteredThreadStatus.cognitive c) s h =
      elim (Bool-cases (is_terminal c)) [
        | inl e ↦ rw e h
        | inr e ↦
            rw e (store_update_status-IsWellFormed id (RegisteredThreadStatus.cognitive status) s h)
      ]
  change_status-IsWellFormed id status (RegisteredThreadStatus.executable c) s h =
      elim (Bool-cases (exec_is_terminal c)) [ inl e ↦ rw e h | inr e ↦ rw e h ]

  change_executable_status-IsWellFormed :
      (id : ℕ) (status : ExecThreadStatus) (current : RegisteredThreadStatus) (s : ThreadStore X L)
      → IsWellFormed s
      → IsWellFormed (after s (change_executable_status id status current s))
  unfolding change_executable_status
  change_executable_status-IsWellFormed id status (RegisteredThreadStatus.cognitive c) s h =
      elim (Bool-cases (is_terminal c)) [ inl e ↦ rw e h | inr e ↦ rw e h ]
  change_executable_status-IsWellFormed id status (RegisteredThreadStatus.executable c) s h =
      elim (Bool-cases (exec_is_terminal c)) [
        | inl e ↦ rw e h
        | inr e ↦
            rw e
              (store_update_status-IsWellFormed id (RegisteredThreadStatus.executable status) s h)
      ]

  when_found-IsWellFormed :
      (change : RegisteredThreadStatus → ThreadStore X L → Result (ThreadStore X L))
      (keeps : (current : RegisteredThreadStatus) (s : ThreadStore X L)
        → IsWellFormed s
        → IsWellFormed (after s (change current s)))
      (found : Option (ThreadSpec × RegisteredThreadStatus)) (s : ThreadStore X L)
      → IsWellFormed s
      → IsWellFormed (after s (when_found change found s))
  when_found-IsWellFormed change keeps none s h = h
  when_found-IsWellFormed change keeps (some (spec, current)) s h = keeps current s h

  run_op-IsWellFormed :
      (o : RegistryOp X L) (s : ThreadStore X L) → IsWellFormed s → IsWellFormed (run_op o s)
  unfolding register register_with_status deregister update_status update_executable_status
      record_run save_last_run save_execution_result save_local_state
  run_op-IsWellFormed (register_op spec) s h = save-IsWellFormed spec _ s h
  run_op-IsWellFormed (deregister_op id) s h = store_remove-IsWellFormed id s h
  run_op-IsWellFormed (update_status_op id status) s h =
      when_found-IsWellFormed (change_status id status) (change_status-IsWellFormed id status)
        (lookup id s.specs) s h
  run_op-IsWellFormed (update_executable_status_op id status) s h =
      when_found-IsWellFormed (change_executable_status id status)
        (change_executable_status-IsWellFormed id status) (lookup id s.specs) s h
  run_op-IsWellFormed (record_run_op id tick) s h = h
  run_op-IsWellFormed (save_result_op r) s h = h
  run_op-IsWellFormed (save_local_state_op id state) s h = h
  run_op-IsWellFormed (update_charter_op id charter) s h =
      store_update_charter-IsWellFormed id charter s h

  -- Whatever operations are run, in whatever order, a store in which every thread is kept under its
  -- own id, and once, stays so.
  pub run_ops-IsWellFormed :
      (os : List (RegistryOp X L)) (s : ThreadStore X L)
      → IsWellFormed s
      → IsWellFormed (run_ops os s)
  run_ops-IsWellFormed [] s h = h
  run_ops-IsWellFormed (o ∷ os) s h =
      run_ops-IsWellFormed os (run_op o s) (run_op-IsWellFormed o s h)

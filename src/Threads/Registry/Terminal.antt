-- ===== src/Threads/Registry/Terminal.antt =====
-- Completed and failed threads in the registry (crates/exoskeleton-threads/src/registry.rs).
use exoskeleton.Base.{
  Bool-cases, All, lookup, adjust, lookup-insert, lookup-remove, lookup-adjust, ◌==◌, ==→eq, ℕ,
  String, ◌≡◌, refl, sym, ap, ◌∙◌, inl, inr, true, false, Option, none, some, List, [], ◌∷◌, nat_eq,
  string_eq,
}
use exoskeleton.Base.Errors.{Result}
use mathlib.Core.Path.{subst}
use exoskeleton.Threads.Types.{
  ThreadSpec, ThreadStatus, ExecThreadStatus, is_terminal, exec_is_terminal,
}
use exoskeleton.Threads.Store.{
  ThreadStore, RegisteredThreadStatus, store_get, registered_is_terminal, save, store_remove,
  write_found, store_update_status, save_last_run, save_execution_result, save_local_state,
  store_update_charter,
}
use exoskeleton.Threads.Store.WellFormed.{after}
use exoskeleton.Threads.Registry.{
  change_status, change_executable_status, when_found, register_with_status, register, deregister,
  update_status, update_executable_status, record_run,
}
use exoskeleton.Threads.Registry.Lifecycle.{
  RegistryOp, run_op, run_ops, replaces, register_op, deregister_op, update_status_op,
  update_executable_status_op, record_run_op, save_result_op, save_local_state_op,
  update_charter_op,
}

-- The thread is kept with the status, whatever its specification.
abbrev pub HasStatus : {X L : Type 0} → ℕ → RegisteredThreadStatus → ThreadStore X L → Type 0
HasStatus id status s = (spec : ThreadSpec) × (store_get id s ≡ some (spec, status))

module _ {X L : Type 0} (id : ℕ) (status : RegisteredThreadStatus) where
  adjust-HasStatus :
      (j : ℕ) (f : ThreadSpec × RegisteredThreadStatus → ThreadSpec × RegisteredThreadStatus)
      (s : ThreadStore X L)
      → (j == id) ≡ false
      → HasStatus id status s
      → HasStatus id status (record s { specs = adjust j f s.specs })
  adjust-HasStatus j f s differ (spec, h) = (spec, lookup-adjust j id f s.specs ∙ rw differ h)

  write_found-HasStatus :
      (j : ℕ) (f : ThreadSpec × RegisteredThreadStatus → ThreadSpec × RegisteredThreadStatus)
      (found : Option (ThreadSpec × RegisteredThreadStatus)) (s : ThreadStore X L)
      → (j == id) ≡ false
      → HasStatus id status s
      → HasStatus id status (after s (write_found f j found s))
  unfolding write_found
  write_found-HasStatus j f none s differ h = h
  write_found-HasStatus j f (some e) s differ h = adjust-HasStatus j f s differ h

  change_status-HasStatus :
      (j : ℕ) (new : ThreadStatus) (current : RegisteredThreadStatus) (s : ThreadStore X L)
      → (j == id) ≡ false
      → HasStatus id status s
      → HasStatus id status (after s (change_status j new current s))
  unfolding change_status store_update_status
  change_status-HasStatus j new (RegisteredThreadStatus.cognitive c) s differ h =
      elim (Bool-cases (is_terminal c)) [
        | inl e ↦ rw e h
        | inr e ↦ rw e (write_found-HasStatus j _ (lookup j s.specs) s differ h)
      ]
  change_status-HasStatus j new (RegisteredThreadStatus.executable c) s differ h =
      elim (Bool-cases (exec_is_terminal c)) [ inl e ↦ rw e h | inr e ↦ rw e h ]

  change_executable_status-HasStatus :
      (j : ℕ) (new : ExecThreadStatus) (current : RegisteredThreadStatus) (s : ThreadStore X L)
      → (j == id) ≡ false
      → HasStatus id status s
      → HasStatus id status (after s (change_executable_status j new current s))
  unfolding change_executable_status store_update_status
  change_executable_status-HasStatus j new (RegisteredThreadStatus.cognitive c) s differ h =
      elim (Bool-cases (is_terminal c)) [ inl e ↦ rw e h | inr e ↦ rw e h ]
  change_executable_status-HasStatus j new (RegisteredThreadStatus.executable c) s differ h =
      elim (Bool-cases (exec_is_terminal c)) [
        | inl e ↦ rw e h
        | inr e ↦ rw e (write_found-HasStatus j _ (lookup j s.specs) s differ h)
      ]

  -- A change of status that the terminal status refuses and that leaves other threads alone.
  when_found-HasStatus :
      (j : ℕ) (change : RegisteredThreadStatus → ThreadStore X L → Result (ThreadStore X L))
      (refuses : (s : ThreadStore X L) → after s (change status s) ≡ s)
      (other : (current : RegisteredThreadStatus) (s : ThreadStore X L)
        → (j == id) ≡ false
        → HasStatus id status s
        → HasStatus id status (after s (change current s)))
      (s : ThreadStore X L)
      → HasStatus id status s
      → HasStatus id status (after s (when_found change (lookup j s.specs) s))
  when_found-HasStatus j change refuses other s h = elim (Bool-cases (j == id)) [
    | inl same ↦
        let found : lookup j s.specs ≡ some (h.0, status) =
          ap (λ k. lookup k s.specs) (==→eq j id same) ∙ h.1 in
        subst (λ o. HasStatus id status (after s (when_found change o s))) (sym found)
          (subst (HasStatus id status) (sym (refuses s)) h)
    | inr differ ↦ by_found (lookup j s.specs) differ
  ]
    where
      by_found :
          (found : Option (ThreadSpec × RegisteredThreadStatus))
          → (j == id) ≡ false
          → HasStatus id status (after s (when_found change found s))
      by_found none differ = h
      by_found (some (spec, current)) differ = other current s differ h

  change_status-refuses :
      registered_is_terminal status ≡ true
      → (j : ℕ) (new : ThreadStatus) (s : ThreadStore X L)
      → after s (change_status j new status s) ≡ s
  unfolding change_status
  change_status-refuses t j new s = rw t refl

  change_executable_status-refuses :
      registered_is_terminal status ≡ true
      → (j : ℕ) (new : ExecThreadStatus) (s : ThreadStore X L)
      → after s (change_executable_status j new status s) ≡ s
  unfolding change_executable_status
  change_executable_status-refuses t j new s = rw t refl

  charter-HasStatus :
      (j : ℕ) (charter : String) (found : Option (ThreadSpec × RegisteredThreadStatus))
      (s : ThreadStore X L)
      → HasStatus id status s
      → HasStatus id status
          (after s (write_found (λ e. (record e.0 { charter = charter }, e.1)) j found s))
  unfolding write_found
  charter-HasStatus j charter none s h = h
  charter-HasStatus j charter (some w) s (spec, h) = elim (Bool-cases (j == id)) [
    | inl same ↦
        (record spec { charter = charter }, lookup-adjust j id _ s.specs ∙ rw same (rw h refl))
    | inr differ ↦ (spec, lookup-adjust j id _ s.specs ∙ rw differ h)
  ]

  run_op-HasStatus :
      registered_is_terminal status ≡ true
      → (o : RegistryOp X L) (s : ThreadStore X L) → replaces id o ≡ false
      → HasStatus id status s
      → HasStatus id status (run_op o s)
  unfolding register register_with_status save deregister store_remove update_status
      update_executable_status record_run save_last_run save_execution_result save_local_state
      store_update_charter
  run_op-HasStatus t (register_op spec) s n (old, h) =
      (old, lookup-insert spec.thread_id id _ s.specs ∙ rw n h)
  run_op-HasStatus t (deregister_op j) s n (old, h) = (old, lookup-remove j id s.specs ∙ rw n h)
  run_op-HasStatus t (update_status_op j new) s n h =
      when_found-HasStatus j (change_status j new) (change_status-refuses t j new)
        (change_status-HasStatus j new) s h
  run_op-HasStatus t (update_executable_status_op j new) s n h =
      when_found-HasStatus j (change_executable_status j new)
        (change_executable_status-refuses t j new) (change_executable_status-HasStatus j new) s h
  run_op-HasStatus t (record_run_op j tick) s n h = h
  run_op-HasStatus t (save_result_op r) s n h = h
  run_op-HasStatus t (save_local_state_op j state) s n h = h
  run_op-HasStatus t (update_charter_op j charter) s n h =
      charter-HasStatus j charter (lookup j s.specs) s h

  -- A thread that is completed or failed keeps that status through any operations, until it is
  -- registered again or deregistered.
  pub run_ops-terminal :
      registered_is_terminal status ≡ true
      → (os : List (RegistryOp X L)) (s : ThreadStore X L) → All (λ o. replaces id o ≡ false) os
      → HasStatus id status s
      → HasStatus id status (run_ops os s)
  run_ops-terminal t [] s n h = h
  run_ops-terminal t (o ∷ os) s n h =
      run_ops-terminal t os (run_op o s) n.1 (run_op-HasStatus t o s n.0 h)

-- ===== src/Threads/Registry/Refinement.antt =====
-- The registry of crates/exoskeleton-threads/src/registry.rs against a specification that knows
-- nothing of its store: a function from ids to threads.
use exoskeleton.Base.{
  if◌then◌else◌, Bool-cases, lookup, lookup-insert, lookup-remove, lookup-adjust, ◌==◌, ==→eq, ℕ,
  ◌≡◌, refl, sym, ap, ◌∙◌, inl, inr, Option, none, some, List, [], ◌∷◌, nat_eq, string_eq,
}
use exoskeleton.Base.Errors.{Result}
use exoskeleton.Threads.Types.{
  ThreadSpec, ThreadStatus, ExecThreadStatus, ThreadFlavor, is_terminal, exec_is_terminal,
}
use exoskeleton.Threads.Store.{
  ThreadStore, RegisteredThreadStatus, store_get, save, store_remove, write_found,
  store_update_status, save_last_run, save_execution_result, save_local_state, store_update_charter,
}
use exoskeleton.Threads.Store.WellFormed.{after}
use exoskeleton.Threads.Registry.{
  change_status, change_executable_status, when_found, register_with_status, register, deregister,
  update_status, update_executable_status, record_run,
}
use exoskeleton.Threads.Registry.Lifecycle.{
  RegistryOp, run_op, run_ops, register_op, deregister_op, update_status_op,
  update_executable_status_op, record_run_op, save_result_op, save_local_state_op,
  update_charter_op,
}

abbrev pub Thread : Type 0
Thread = ThreadSpec × RegisteredThreadStatus

abbrev pub Threads : Type 0
Threads = ℕ → Option Thread

abbrev pub active_status : ThreadFlavor → RegisteredThreadStatus
active_status ThreadFlavor.cognitive = RegisteredThreadStatus.cognitive ThreadStatus.active
active_status ThreadFlavor.executable = RegisteredThreadStatus.executable ExecThreadStatus.active

-- A status moves on unless it is terminal, and never to one of the other flavor.
abbrev pub moved : ThreadStatus → RegisteredThreadStatus → RegisteredThreadStatus
moved new (RegisteredThreadStatus.cognitive c) =
    RegisteredThreadStatus.cognitive (if is_terminal c then c else new)
moved new (RegisteredThreadStatus.executable c) = RegisteredThreadStatus.executable c

abbrev pub exec_moved : ExecThreadStatus → RegisteredThreadStatus → RegisteredThreadStatus
exec_moved new (RegisteredThreadStatus.cognitive c) = RegisteredThreadStatus.cognitive c
exec_moved new (RegisteredThreadStatus.executable c) =
    RegisteredThreadStatus.executable (if exec_is_terminal c then c else new)

abbrev pub changed : (Thread → Thread) → Option Thread → Option Thread
changed g none = none
changed g (some t) = some (g t)

-- What an operation means for the threads: only the one that it names is touched.
abbrev pub meaning : {X L : Type 0} → RegistryOp X L → Threads → Threads
meaning (register_op spec) m id =
    if spec.thread_id == id then some (spec, active_status spec.flavor) else m id
meaning (deregister_op j) m id = if j == id then none else m id
meaning (update_status_op j new) m id =
    if j == id then changed (λ t. (t.0, moved new t.1)) (m id) else m id
meaning (update_executable_status_op j new) m id =
    if j == id then changed (λ t. (t.0, exec_moved new t.1)) (m id) else m id
meaning (record_run_op j tick) m id = m id
meaning (save_result_op r) m id = m id
meaning (save_local_state_op j state) m id = m id
meaning (update_charter_op j charter) m id =
    if j == id then changed (λ t. (record t.0 { charter = charter }, t.1)) (m id) else m id

abbrev pub meaning_all : {X L : Type 0} → List (RegistryOp X L) → Threads → Threads
meaning_all [] m = m
meaning_all (o ∷ os) m = meaning_all os (meaning o m)

-- The threads that a store keeps.
abbrev pub threads_of : {X L : Type 0} → ThreadStore X L → Threads
threads_of s id = store_get id s

module _ {X L : Type 0} (j id : ℕ) where
  -- The threads of `s`, with `t` under `j`.
  abbrev set_at : Option Thread → ThreadStore X L → Option Thread
  set_at t s = if j == id then t else threads_of s id

  found_at :
      (s : ThreadStore X L) (t : Option Thread)
      → lookup j s.specs ≡ t
      → threads_of s id ≡ set_at t s
  found_at s t e = elim (Bool-cases (j == id)) [
    | inl same ↦ rw same (ap (λ k. lookup k s.specs) (sym (==→eq j id same)) ∙ e)
    | inr differ ↦ rw differ refl
  ]

  changed_at :
      (g : Thread → Thread) (s : ThreadStore X L) (t : Option Thread)
      → lookup j s.specs ≡ t
      → (if j == id then changed g (threads_of s id) else threads_of s id) ≡ set_at (changed g t) s
  changed_at g s t e = elim (Bool-cases (j == id)) [
    | inl same ↦
        rw same (ap (λ k. changed g (lookup k s.specs)) (sym (==→eq j id same)) ∙ ap (changed g) e)
    | inr differ ↦ rw differ refl
  ]

  write_found-threads_of :
      (g : Thread → Thread) (found : Option Thread) (s : ThreadStore X L)
      → lookup j s.specs ≡ found
      → threads_of (after s (write_found g j found s)) id ≡ set_at (changed g found) s
  unfolding write_found
  write_found-threads_of g none s e = found_at s none e
  write_found-threads_of g (some t) s e = lookup-adjust j id g s.specs ∙ changed_at g s (some t) e

  store_update_status-threads_of :
      (status : RegisteredThreadStatus) (t : Thread) (s : ThreadStore X L)
      → lookup j s.specs ≡ some t
      → threads_of (after s (store_update_status j status s)) id ≡ set_at (some (t.0, status)) s
  unfolding store_update_status
  store_update_status-threads_of status t s e = rw e (write_found-threads_of _ (some t) s e)

  change_status-threads_of :
      (new : ThreadStatus) (spec : ThreadSpec) (current : RegisteredThreadStatus)
      (s : ThreadStore X L)
      → lookup j s.specs ≡ some (spec, current)
      → threads_of (after s (change_status j new current s)) id
        ≡ set_at (some (spec, moved new current)) s
  unfolding change_status
  change_status-threads_of new spec (RegisteredThreadStatus.cognitive c) s e =
      elim (Bool-cases (is_terminal c)) [
        | inl t ↦ rw t (found_at s _ e)
        | inr t ↦ rw t (store_update_status-threads_of _ _ s e)
      ]
  change_status-threads_of new spec (RegisteredThreadStatus.executable c) s e =
      elim (Bool-cases (exec_is_terminal c)) [
        | inl t ↦ rw t (found_at s _ e)
        | inr t ↦ rw t (found_at s _ e)
      ]

  change_executable_status-threads_of :
      (new : ExecThreadStatus) (spec : ThreadSpec) (current : RegisteredThreadStatus)
      (s : ThreadStore X L)
      → lookup j s.specs ≡ some (spec, current)
      → threads_of (after s (change_executable_status j new current s)) id
        ≡ set_at (some (spec, exec_moved new current)) s
  unfolding change_executable_status
  change_executable_status-threads_of new spec (RegisteredThreadStatus.cognitive c) s e =
      elim (Bool-cases (is_terminal c)) [
        | inl t ↦ rw t (found_at s _ e)
        | inr t ↦ rw t (found_at s _ e)
      ]
  change_executable_status-threads_of new spec (RegisteredThreadStatus.executable c) s e =
      elim (Bool-cases (exec_is_terminal c)) [
        | inl t ↦ rw t (found_at s _ e)
        | inr t ↦ rw t (store_update_status-threads_of _ _ s e)
      ]

  when_found-threads_of :
      (change : RegisteredThreadStatus → ThreadStore X L → Result (ThreadStore X L))
      (move : RegisteredThreadStatus → RegisteredThreadStatus) (s : ThreadStore X L)
      (sets : (spec : ThreadSpec) (current : RegisteredThreadStatus)
        → lookup j s.specs ≡ some (spec, current)
        → threads_of (after s (change current s)) id ≡ set_at (some (spec, move current)) s)
      (found : Option Thread)
      → lookup j s.specs ≡ found
      → threads_of (after s (when_found change found s)) id
        ≡ (if j == id then changed (λ t. (t.0, move t.1)) (threads_of s id) else threads_of s id)
  when_found-threads_of change move s sets none e = found_at s none e ∙ sym (changed_at _ s none e)
  when_found-threads_of change move s sets (some t) e =
      sets t.0 t.1 e ∙ sym (changed_at _ s (some t) e)

module _ {X L : Type 0} where
  run_op-threads_of :
      (o : RegistryOp X L) (s : ThreadStore X L) (id : ℕ)
      → threads_of (run_op o s) id ≡ meaning o (threads_of s) id
  unfolding register register_with_status save deregister store_remove update_status
      update_executable_status record_run save_last_run save_execution_result save_local_state
      store_update_charter
  run_op-threads_of (register_op spec) s id = lookup-insert spec.thread_id id _ s.specs
  run_op-threads_of (deregister_op j) s id = lookup-remove j id s.specs
  run_op-threads_of (update_status_op j new) s id =
      when_found-threads_of j id (change_status j new) (moved new) s
        (λ spec current. change_status-threads_of j id new spec current s) _ refl
  run_op-threads_of (update_executable_status_op j new) s id =
      when_found-threads_of j id (change_executable_status j new) (exec_moved new) s
        (λ spec current. change_executable_status-threads_of j id new spec current s) _ refl
  run_op-threads_of (record_run_op j tick) s id = refl
  run_op-threads_of (save_result_op r) s id = refl
  run_op-threads_of (save_local_state_op j state) s id = refl
  run_op-threads_of (update_charter_op j charter) s id =
      write_found-threads_of j id _ (lookup j s.specs) s refl
      ∙ sym (changed_at j id _ s (lookup j s.specs) refl)

  -- Whatever operations are run, the threads that the store keeps are those that the operations mean:
  -- a registration sets the thread under its id, active, whatever was there; a status moves on
  -- unless it is terminal or of the other flavor; the other threads stay as they are.
  pub run_ops-threads_of :
      (os : List (RegistryOp X L)) (s : ThreadStore X L)
      → threads_of (run_ops os s) ≡ meaning_all os (threads_of s)
  run_ops-threads_of [] s = refl
  run_ops-threads_of (o ∷ os) s =
      run_ops-threads_of os (run_op o s) ∙ ap (meaning_all os) (λ i id. run_op-threads_of o s id i)

-- ===== src/Threads/Tests.antt =====
-- The theorems on threads at concrete inputs.
use exoskeleton.Base.{lookup, ℕ, ◌≡◌, refl, none, List, [], ◌∷◌, nat_eq, string_eq}
use mathlib.Core.List.{Mem}
use exoskeleton.Threads.Types.{
  ThreadSpec, ThreadStatus, ThreadFlavor, ThreadRole, ThreadPriority, ThreadSchedule,
}
use exoskeleton.Threads.Schedule.{is_thread_due}
use exoskeleton.Threads.Store.{ThreadStore, RegisteredThreadStatus}
use exoskeleton.Threads.Store.WellFormed.{IsWellFormed}
use exoskeleton.Threads.Registry.{due_threads}
use exoskeleton.Threads.Registry.Lifecycle.{RegistryOp, run_ops, run_ops-IsWellFormed}
use exoskeleton.Threads.Registry.Terminal.{HasStatus, run_ops-terminal}
use exoskeleton.Threads.Registry.Refinement.{threads_of, meaning_all, run_ops-threads_of}
use exoskeleton.Threads.Registry.Due.{due_threads_lem}

abbrev spec_of : ℕ → ThreadPriority → ThreadSpec
spec_of id priority = record {
  thread_id = id;
  role = ThreadRole.other;
  flavor = ThreadFlavor.cognitive;
  name = "n";
  charter = "c";
  priority = priority;
  token_budget = 100;
  schedule = ThreadSchedule.every_n_ticks 3;
  workspace_root = none;
}

abbrev normal_spec : ThreadSpec
normal_spec = spec_of 1 ThreadPriority.normal

abbrev two_threads : ThreadStore ℕ ℕ
two_threads = record {
  specs =
      (1, (normal_spec, RegisteredThreadStatus.cognitive ThreadStatus.active))
      ∷ (
        2,
        (spec_of 2 ThreadPriority.critical, RegisteredThreadStatus.cognitive ThreadStatus.failed),
      )
      ∷ [];
  last_runs = (1, 4) ∷ [];
  outputs = [];
  local_state = [];
}

two_threads-IsWellFormed : IsWellFormed two_threads
unfolding lookup
two_threads-IsWellFormed = ((refl, (refl, tt)), (refl, (refl, tt)))

abbrev some_ops : List (RegistryOp ℕ ℕ)
some_ops =
    RegistryOp.update_status_op 2 ThreadStatus.active
    ∷ RegistryOp.register_op (spec_of 3 ThreadPriority.low)
    ∷ RegistryOp.record_run_op 2 9
    ∷ []

run_ops-IsWellFormed_example : IsWellFormed (run_ops some_ops two_threads)
run_ops-IsWellFormed_example = run_ops-IsWellFormed some_ops two_threads two_threads-IsWellFormed

run_ops-terminal_example :
    HasStatus 2
      (RegisteredThreadStatus.cognitive ThreadStatus.failed)
      (run_ops some_ops two_threads)
unfolding lookup
run_ops-terminal_example =
    run_ops-terminal 2 (RegisteredThreadStatus.cognitive ThreadStatus.failed) refl some_ops
      two_threads (refl, (refl, (refl, tt))) (spec_of 2 ThreadPriority.critical, refl)

run_ops-threads_of_example :
    threads_of (run_ops some_ops two_threads) ≡ meaning_all some_ops (threads_of two_threads)
run_ops-threads_of_example = run_ops-threads_of some_ops two_threads

due_threads_lem_example : Mem normal_spec (due_threads 7 two_threads)
unfolding lookup is_thread_due
due_threads_lem_example =
    (due_threads_lem 7 two_threads two_threads-IsWellFormed).2 normal_spec
      (ThreadStatus.active, refl, refl)

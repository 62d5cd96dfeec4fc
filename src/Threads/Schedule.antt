-- ===== src/Threads/Schedule.antt =====
-- crates/exoskeleton-threads/src/scheduling.rs.
use exoskeleton.Base.{leb, if◌then◌else◌, ℕ, ◌-◌, Bool, true, false, not, Option, none, some}
use exoskeleton.Threads.Types.{ThreadSchedule, ThreadStatus, every_tick, every_n_ticks, on_demand}

abbrev is_active : ThreadStatus → Bool
is_active ThreadStatus.active = true
is_active _ = false

unfoldable pub is_thread_due : ThreadSchedule → ThreadStatus → ℕ → Option ℕ → Bool
is_thread_due schedule status current_tick last_run =
    if not (is_active status) then false else elim schedule [
      | every_tick ↦ true
      | every_n_ticks n ↦ elim last_run [ none ↦ true | some last ↦ leb n (current_tick - last) ]
      | on_demand ↦ false
    ]

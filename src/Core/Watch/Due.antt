-- ===== src/Core/Watch/Due.antt =====
-- When a watch comes due again after it was checked or triggered.
use exoskeleton.Base.{
  leb, Dict, lookup, lookup-adjust, ◌==◌, ℕ, ◌-◌, ◌≡◌, ◌≢◌, Bool, false, ◌&&◌, none, some, arith,
  nat_eq, string_eq,
}
use exoskeleton.Base.Errors.{ok}
use exoskeleton.Core.Watch.{
  WatchDefinition, every_n_ticks, once, is_active, WatchSchedule, is_due, triggered, checked,
  record_trigger, record_check,
}

-- What a schedule says some ticks after the last check; `if_once` is for a single check.
abbrev pub again : WatchSchedule → Bool → ℕ → Bool
again once if_once elapsed = if_once
again (every_n_ticks n) if_once elapsed = leb n elapsed

module _ {F J : Type 0} where
  found : ℕ → Dict ℕ (WatchDefinition F J) → (WatchDefinition F J → Bool) → Bool
  found id s p = elim (lookup id s) [ none ↦ false | some w ↦ p w ]

  -- A watch is due at a tick when the store holds it and its status and schedule say so.
  pub due_at : ℕ → ℕ → Dict ℕ (WatchDefinition F J) → Bool
  unfolding found
  due_at id tick s = found id s (is_due tick)

  -- A watch of the store that is checked once only is never due again after it triggered, at
  -- whatever tick, and after a check that found nothing it is due as long as it is active and never
  -- triggered; one that is checked every n ticks is due again, while it is active, exactly from n
  -- ticks later on, whether it triggered or not; and other watches are due as before.
  pub due_after :
      (id now tick other : ℕ) (s : Dict ℕ (WatchDefinition F J)) (w : WatchDefinition F J)
      {s₁ s₂ : Dict ℕ (WatchDefinition F J)}
      → lookup id s ≡ some w
      → record_trigger id now s ≡ ok s₁
      → record_check id now s ≡ ok s₂
      → id ≢ other
      → (due_at id tick s₁ ≡ (is_active w.status && again w.schedule false (tick - now)))
        × (due_at id tick s₂
            ≡ (is_active w.status && again w.schedule (w.trigger_count == 0) (tick - now)))
        × (due_at other tick s₁ ≡ due_at other tick s)
        × (due_at other tick s₂ ≡ due_at other tick s)
  unfolding due_at record_trigger record_check is_due
  due_after id now tick other s w held t c differ =
      let l₁ = lookup-adjust id id (triggered now) s in
      let l₂ = lookup-adjust id id (checked now) s in
      let o₁ = lookup-adjust id other (triggered now) s in
      let o₂ = lookup-adjust id other (checked now) s in
      (ground (arith, l₁), ground (arith, l₂), ground (arith, o₁), ground (arith, o₂))

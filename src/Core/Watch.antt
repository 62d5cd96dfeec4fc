-- ===== src/Core/Watch.antt =====
-- crates/exoskeleton-core/src/watch.rs: watches, their conditions and the in-memory store. Ids and
-- times are numbers. The values of a metric are floating-point numbers `F`, and the parameters of a
-- connector are JSON values `J` of the serde_json crate: both types are parameters.
pub mod Due
use exoskeleton.Base.{
  leb, if◌then◌else◌, is_some, unwrap_or, filter, Dict, lookup, insert, remove, adjust, u32_mod,
  ◌==◌, ℕ, ◌+◌, ◌-◌, ◌%◌, String, Bool, true, false, not, ◌&&◌, Option, none, some, List, [], ◌∷◌,
  nat_eq, string_eq,
}
use exoskeleton.Base.Errors.{storage, Result, ok, err}
use exoskeleton.Base.Float.{F64}

pub data MetricKind : Type 0 where
  trust_level : ℕ → MetricKind
  budget_remaining : String → MetricKind
  consecutive_failures : MetricKind
  tick_duration : MetricKind
  event_count : String → ℕ → MetricKind

pub data WatchCondition (F : Type 0) : Type 0 where
  above : F → WatchCondition F
  below : F → WatchCondition F
  changed : WatchCondition F

pub data WatchType (F J : Type 0) : Type 0 where
  threshold : MetricKind → WatchCondition F → WatchType F J
  poll : String → J → Option String → Option (WatchCondition F) → WatchType F J

pub data WatchSchedule : Type 0 where
  every_n_ticks : ℕ → WatchSchedule
  once : WatchSchedule

pub data WatchStatus : Type 0 where
  active paused completed : WatchStatus

pub record WatchDefinition (F J : Type 0) : Type 0 where
  pub id : ℕ
  pub name : String
  pub description : String
  pub watch_type : WatchType F J
  pub schedule : WatchSchedule
  pub status : WatchStatus
  pub created_at_tick : ℕ
  pub last_checked_tick : Option ℕ
  pub trigger_count : ℕ
  pub created_at : ℕ

pub record WatchProposal (F J : Type 0) : Type 0 where
  pub name : String
  pub description : String
  pub watch_type : WatchType F J
  pub schedule : WatchSchedule

module _ {F : Type 0} ⦃f : F64 F⦄ where
  unfoldable pub is_triggered : WatchCondition F → F → Option F → Bool
  is_triggered (above v) current previous = f.lt v current
  is_triggered (below v) current previous = f.lt current v
  is_triggered changed current none = false
  is_triggered changed current (some prev) = f.lt f.epsilon (f.abs (f.sub current prev))

abbrev pub is_active : WatchStatus → Bool
is_active active = true
is_active _ = false

abbrev after_trigger : WatchSchedule → WatchStatus → WatchStatus
after_trigger once s = completed
after_trigger (every_n_ticks n) s = s

module _ {F J : Type 0} where
  abbrev due_by_schedule : WatchSchedule → ℕ → WatchDefinition F J → Bool
  due_by_schedule once now w = w.trigger_count == 0
  due_by_schedule (every_n_ticks n) now w =
      leb n (now - unwrap_or w.last_checked_tick w.created_at_tick)

  pub is_due : ℕ → WatchDefinition F J → Bool
  is_due now w = is_active w.status && due_by_schedule w.schedule now w

  values : Dict ℕ (WatchDefinition F J) → List (WatchDefinition F J)
  values [] = []
  values ((k, w) ∷ m) = w ∷ values m

  unfoldable pub due_watches : ℕ → Dict ℕ (WatchDefinition F J) → List (WatchDefinition F J)
  unfolding values is_due
  due_watches now s = filter (is_due now) (values s)

  unfoldable pub save :
      WatchDefinition F J → Dict ℕ (WatchDefinition F J) → Dict ℕ (WatchDefinition F J)
  save w s = insert w.id w s

  -- `get_mut`, or the error on a missing watch.
  change :
      ℕ
      → (WatchDefinition F J → WatchDefinition F J)
      → Dict ℕ (WatchDefinition F J)
      → Result (Dict ℕ (WatchDefinition F J))
  change id g s =
      if is_some (lookup id s) then ok (adjust id g s) else err (storage "watch not found")

  unfoldable update_status :
      ℕ → WatchStatus → Dict ℕ (WatchDefinition F J) → Result (Dict ℕ (WatchDefinition F J))
  unfolding change
  update_status id s = change id (λ w. record w { status = s })

  -- `trigger_count += 1` on u32.
  abbrev pub triggered : ℕ → WatchDefinition F J → WatchDefinition F J
  triggered now w = record w {
    trigger_count = (w.trigger_count + 1) % u32_mod;
    last_checked_tick = some now;
    status = after_trigger w.schedule w.status;
  }

  abbrev pub checked : ℕ → WatchDefinition F J → WatchDefinition F J
  checked now w = record w { last_checked_tick = some now }

  pub record_trigger : ℕ → ℕ → Dict ℕ (WatchDefinition F J) → Result (Dict ℕ (WatchDefinition F J))
  unfolding change
  record_trigger id now = change id (triggered now)

  pub record_check : ℕ → ℕ → Dict ℕ (WatchDefinition F J) → Result (Dict ℕ (WatchDefinition F J))
  unfolding change
  record_check id now = change id (checked now)

  unfoldable delete : ℕ → Dict ℕ (WatchDefinition F J) → Dict ℕ (WatchDefinition F J)
  delete id s = remove id s

  abbrev pub count_active : Dict ℕ (WatchDefinition F J) → ℕ
  count_active [] = 0
  count_active ((k, w) ∷ m) = (if is_active w.status then 1 else 0) + count_active m

  -- `.count() as u32`.
  unfoldable pub active_count : Dict ℕ (WatchDefinition F J) → ℕ
  active_count s = count_active s % u32_mod

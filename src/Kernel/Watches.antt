-- ===== src/Kernel/Watches.antt =====
-- crates/exoskeleton-host/src/kernel/watches.rs: the check of the due watches in a tick. A metric
-- is read by `query_metric`, a parameter. The artifact, the ledger entry and the live event of a
-- trigger are written elsewhere; the model keeps what they are made of. A write that the store
-- refuses is ignored, as `let _ =` does.
use mathlib.Core.List.{Mem, mem-cons_self, mem-append_left, mem-append_right}
use exoskeleton.Base.{
  if◌then◌else◌, Bool-cases, All, All-imp, All-append, Dict, ℕ, String, ◌≡◌, refl, inl, inr, true,
  none, List, [], ◌∷◌, ◌++◌,
}
use exoskeleton.Base.Errors.{Result, ok, err}
use exoskeleton.Base.Float.{F64}
use exoskeleton.Core.Watch.{
  WatchDefinition, WatchType, WatchCondition, MetricKind, is_triggered, due_watches, record_trigger,
  record_check, above, below, changed, threshold, poll,
}

pub record WatchEvent (F J : Type 0) : Type 0 where
  pub watch : WatchDefinition F J
  pub metric : MetricKind
  pub condition : WatchCondition F
  pub value : F

pub record PollAction (J : Type 0) : Type 0 where
  pub watch_id : ℕ
  pub tool_name : String
  pub params : J

pub record WatchCheckResult (F J : Type 0) : Type 0 where
  pub triggered_events : List (WatchEvent F J)
  pub poll_actions : List (PollAction J)
  pub watch_store : Dict ℕ (WatchDefinition F J)

module _ {F : Type 0} ⦃f : F64 F⦄ where
  -- The reading went over or under a bound of the watch. No reading has changed.
  abbrev pub Crossed : WatchCondition F → F → Type 0
  Crossed (above v) value = f.lt v value ≡ true
  Crossed (below v) value = f.lt value v ≡ true
  Crossed changed value = ⊥

  is_triggered-Crossed :
      (condition : WatchCondition F) (value : F)
      → is_triggered condition value none ≡ true
      → Crossed condition value
  unfolding is_triggered
  is_triggered-Crossed (above v) value h = h
  is_triggered-Crossed (below v) value h = h
  is_triggered-Crossed changed value h = absurd cc

  Crossed-is_triggered :
      (condition : WatchCondition F) (value : F)
      → Crossed condition value
      → is_triggered condition value none ≡ true
  unfolding is_triggered
  Crossed-is_triggered (above v) value h = h
  Crossed-is_triggered (below v) value h = h
  Crossed-is_triggered changed value h = absurd h

module _ {F J : Type 0} ⦃f : F64 F⦄ where
  abbrev pub or_unchanged :
      Dict ℕ (WatchDefinition F J)
      → Result (Dict ℕ (WatchDefinition F J))
      → Dict ℕ (WatchDefinition F J)
  or_unchanged s (ok s') = s'
  or_unchanged s (err e) = s

  -- A watch whose check found nothing.
  abbrev pub only_checked :
      ℕ → WatchDefinition F J → Dict ℕ (WatchDefinition F J) → WatchCheckResult F J
  only_checked tick w s = record {
    triggered_events = [];
    poll_actions = [];
    watch_store = or_unchanged s (record_check w.id tick s);
  }

  -- A threshold watch, by the reading of its metric; `previous` is always `None`.
  check_threshold :
      ℕ
      → WatchDefinition F J
      → MetricKind
      → WatchCondition F
      → Result F
      → Dict ℕ (WatchDefinition F J)
      → WatchCheckResult F J
  check_threshold tick w metric condition (err e) s = only_checked tick w s
  check_threshold tick w metric condition (ok value) s =
      if is_triggered condition value none
      then record {
        triggered_events =
            record { watch = w; metric = metric; condition = condition; value = value } ∷ [];
        poll_actions = [];
        watch_store = or_unchanged s (record_trigger w.id tick s);
      }
      else only_checked tick w s

  -- The `match` on the type of a due watch.
  check_type :
      (query_metric : MetricKind → Result F) (tick : ℕ)
      → WatchDefinition F J
      → WatchType F J
      → Dict ℕ (WatchDefinition F J)
      → WatchCheckResult F J
  check_type query_metric tick w (threshold metric condition) s =
      check_threshold tick w metric condition (query_metric metric) s
  check_type query_metric tick w (poll connector params path condition) s = record {
    triggered_events = [];
    poll_actions = record { watch_id = w.id; tool_name = connector; params = params } ∷ [];
    watch_store = or_unchanged s (record_check w.id tick s);
  }

  check_each :
      (query_metric : MetricKind → Result F) (tick : ℕ)
      → List (WatchDefinition F J)
      → Dict ℕ (WatchDefinition F J)
      → WatchCheckResult F J
  check_each query_metric tick [] s = record {
    triggered_events = [];
    poll_actions = [];
    watch_store = s;
  }
  check_each query_metric tick (w ∷ ws) s =
      let one = check_type query_metric tick w w.watch_type s in
      let rest = check_each query_metric tick ws one.watch_store in
      record {
        triggered_events = one.triggered_events ++ rest.triggered_events;
        poll_actions = one.poll_actions ++ rest.poll_actions;
        watch_store = rest.watch_store;
      }

  pub check_watches :
      (query_metric : MetricKind → Result F) (tick : ℕ)
      → Dict ℕ (WatchDefinition F J)
      → WatchCheckResult F J
  check_watches query_metric tick s = check_each query_metric tick (due_watches tick s) s

  -- The event is of a threshold watch whose metric reads a value beyond its bound.
  abbrev pub IsCrossing : (MetricKind → Result F) → WatchEvent F J → Type 0
  IsCrossing query_metric ev =
      (ev.watch.watch_type ≡ threshold ev.metric ev.condition)
      × (query_metric ev.metric ≡ ok ev.value)
      × Crossed ev.condition ev.value

  -- When the watch is a threshold watch whose metric reads a value beyond its bound, its event is
  -- among the given ones.
  abbrev pub IsReported :
      (MetricKind → Result F) → List (WatchEvent F J) → WatchDefinition F J → Type 0
  IsReported query_metric events w =
      (metric : MetricKind) (condition : WatchCondition F) (value : F)
      → w.watch_type ≡ threshold metric condition
      → query_metric metric ≡ ok value
      → Crossed condition value
      → Mem (record { watch = w; metric = metric; condition = condition; value = value }) events

  check_threshold-IsCrossing :
      (query_metric : MetricKind → Result F) (tick : ℕ) (w : WatchDefinition F J)
      (metric : MetricKind) (condition : WatchCondition F) (reading : Result F)
      (s : Dict ℕ (WatchDefinition F J))
      → w.watch_type ≡ threshold metric condition
      → query_metric metric ≡ reading
      → All
          (IsCrossing query_metric)
          (check_threshold tick w metric condition reading s).triggered_events
  unfolding check_threshold
  check_threshold-IsCrossing query_metric tick w metric condition (err e) s t h = tt
  check_threshold-IsCrossing query_metric tick w metric condition (ok value) s t h =
      elim (Bool-cases (is_triggered condition value none)) [
        | inl e ↦ rw e ((t, h, is_triggered-Crossed condition value e), tt)
        | inr e ↦ rw e tt
      ]

  check_type-IsCrossing :
      (query_metric : MetricKind → Result F) (tick : ℕ) (w : WatchDefinition F J)
      (type : WatchType F J) (s : Dict ℕ (WatchDefinition F J))
      → w.watch_type ≡ type
      → All (IsCrossing query_metric) (check_type query_metric tick w type s).triggered_events
  unfolding check_type
  check_type-IsCrossing query_metric tick w (threshold metric condition) s t =
      check_threshold-IsCrossing query_metric tick w metric condition (query_metric metric) s t refl
  check_type-IsCrossing query_metric tick w (poll connector params path condition) s t = tt

  check_each-IsCrossing :
      (query_metric : MetricKind → Result F) (tick : ℕ) (ws : List (WatchDefinition F J))
      (s : Dict ℕ (WatchDefinition F J))
      → All (IsCrossing query_metric) (check_each query_metric tick ws s).triggered_events
  unfolding check_each
  check_each-IsCrossing query_metric tick [] s = tt
  check_each-IsCrossing query_metric tick (w ∷ ws) s =
      let one = check_type query_metric tick w w.watch_type s in
      All-append (IsCrossing query_metric) one.triggered_events
        (check_each query_metric tick ws one.watch_store).triggered_events
        (check_type-IsCrossing query_metric tick w w.watch_type s refl)
        (check_each-IsCrossing query_metric tick ws one.watch_store)

  check_type-IsReported :
      (query_metric : MetricKind → Result F) (tick : ℕ) (w : WatchDefinition F J)
      (s : Dict ℕ (WatchDefinition F J))
      → IsReported query_metric (check_type query_metric tick w w.watch_type s).triggered_events w
  unfolding check_type check_threshold
  check_type-IsReported query_metric tick w s metric condition value t h crossed =
      rw t (rw h (rw (Crossed-is_triggered condition value crossed) mem-cons_self))

  check_each-IsReported :
      (query_metric : MetricKind → Result F) (tick : ℕ) (ws : List (WatchDefinition F J))
      (s : Dict ℕ (WatchDefinition F J))
      → All (IsReported query_metric (check_each query_metric tick ws s).triggered_events) ws
  unfolding check_each
  check_each-IsReported query_metric tick [] s = tt
  check_each-IsReported query_metric tick (w ∷ ws) s =
      let one = check_type query_metric tick w w.watch_type s in
      let rest = check_each query_metric tick ws one.watch_store in
      (
        λ metric condition value t h crossed.
            mem-append_left rest.triggered_events
              (check_type-IsReported query_metric tick w s metric condition value t h crossed),
        All-imp
            (λ v reported metric condition value t h crossed.
              mem-append_right one.triggered_events (reported metric condition value t h crossed))
            ws (check_each-IsReported query_metric tick ws one.watch_store),
      )

  -- A check reports exactly the crossings: every event that it reports is of a threshold watch, with
  -- a reading of the watch's metric that is above or below the watch's bound, and every due
  -- threshold watch whose metric reads such a value has its event among the reported ones. A watch
  -- for a changed metric never reports one.
  pub check_watches-crossings :
      (query_metric : MetricKind → Result F) (tick : ℕ) (s : Dict ℕ (WatchDefinition F J))
      → let events = (check_watches query_metric tick s).triggered_events in
        All (IsCrossing query_metric) events
        × All (IsReported query_metric events) (due_watches tick s)
  unfolding check_watches
  check_watches-crossings query_metric tick s = (
    check_each-IsCrossing query_metric tick (due_watches tick s) s,
    check_each-IsReported query_metric tick (due_watches tick s) s,
  )

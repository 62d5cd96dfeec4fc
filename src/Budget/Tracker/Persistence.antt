-- ===== src/Budget/Tracker/Persistence.antt =====
-- crates/exoskeleton-host/src/budget/tracker.rs: saving the window, loading it after a restart, and
-- the reset by the window timer.
use exoskeleton.Base.{
  ltb, if◌then◌else◌, lt→ltb, Bool-cases, All, Dict, lookup, insert, lookup-insert, ◌==◌, eq→==,
  ==→eq, ℕ, ◌+◌, ◌*◌, ◌^◌, ◌≤◌, ◌<◌, String, ◌≡◌, refl, sym, ◌∙◌, inl, inr, true, false, Option,
  none, some, [], ◌∷◌, arith, nat_eq, string_eq,
}
use exoskeleton.Base.Errors.{Result, ok, err, ◌>>=◌}
use exoskeleton.Budget.Tracker.{
  Tracker, CognitiveBudgetState, PersistedBudgetState, BudgetStore, ThreadIdText, new_state,
  nanos_per_sec, Chrono, window_end,
}

-- The id text of every entry; the map's entries come in no particular order.
thread_texts : ThreadIdText → Dict ℕ ℕ → Dict String ℕ
thread_texts ids [] = []
thread_texts ids ((tid, tokens) ∷ m) = insert (ids.to_string tid) tokens (thread_texts ids m)

-- Entries whose key is no thread id are dropped.
restore_threads : ThreadIdText → Dict String ℕ → Dict ℕ ℕ
restore_threads ids [] = []
restore_threads ids ((tid_str, tokens) ∷ m) =
    let rest = restore_threads ids m in
    elim (ids.parse tid_str) [ none ↦ rest | some tid ↦ insert tid tokens rest ]

pub persisted : ThreadIdText → CognitiveBudgetState → PersistedBudgetState
unfolding thread_texts
persisted ids s = record {
  window_start = s.window_start;
  local_tokens_consumed = s.local_tokens_consumed;
  frontier_tokens_consumed = s.frontier_tokens_consumed;
  frontier_cost_consumed = s.frontier_cost_consumed;
  frontier_calls = s.frontier_calls;
  per_thread_consumed = thread_texts ids s.per_thread_consumed;
  consecutive_failures = s.consecutive_failures;
  tool_invocations = 0;
}

-- The window is still open: every field but the tick counter is restored.
pub restored : ThreadIdText → PersistedBudgetState → CognitiveBudgetState → CognitiveBudgetState
restored ids p s = record {
  window_start = p.window_start;
  local_tokens_consumed = p.local_tokens_consumed;
  frontier_tokens_consumed = p.frontier_tokens_consumed;
  frontier_cost_consumed = p.frontier_cost_consumed;
  frontier_calls = p.frontier_calls;
  per_thread_consumed = restore_threads ids p.per_thread_consumed;
  consecutive_failures = p.consecutive_failures;
  tick_tokens_this_tick = s.tick_tokens_this_tick;
}

module _ {F S : Type 0} (db : BudgetStore S) (ids : ThreadIdText) where
  unfoldable persist : Tracker F S → Result (Tracker F S)
  persist t = do store ← db.save (persisted ids t.state) t.store; ok (record t { store = store })

  abbrev pub load_until : ℕ → PersistedBudgetState → (window_end : ℕ) → Tracker F S → Tracker F S
  load_until now p window_end t =
      if ltb now window_end then record t { state = restored ids p t.state } else record t {
        state = record (new_state now) { consecutive_failures = p.consecutive_failures };
      }

  -- Nothing where the computation of the end of the window panics.
  abbrev pub load_before :
      ℕ → PersistedBudgetState → Option ℕ → Tracker F S → Option (Result (Tracker F S))
  load_before now p none t = none
  load_before now p (some window_end) t = some (ok (load_until now p window_end t))

  abbrev pub after_load :
      Chrono
      → ℕ
      → Result (Option PersistedBudgetState)
      → Tracker F S
      → Option (Result (Tracker F S))
  after_load c now (err e) t = some (err e)
  after_load c now (ok none) t = some (ok t)
  after_load c now (ok (some p)) t =
      load_before now p (window_end c p.window_start t.config.time_window_secs) t

  pub load_or_reset : Chrono → ℕ → Tracker F S → Option (Result (Tracker F S))
  load_or_reset c now t = after_load c now (db.load t.store) t

  -- What the last save of a reset leaves: the counters are reset even when it fails.
  abbrev pub settle : Tracker F S → Result S → Tracker F S × Result (Unit {0})
  settle t (ok store) = (record t { store = store }, ok tt)
  settle t (err e) = (t, err e)

  pub reset_window : ℕ → Tracker F S → Tracker F S × Result (Unit {0})
  reset_window now t =
      let reset : Tracker F S = record t {
        state = record (new_state now) { consecutive_failures = t.state.consecutive_failures };
      } in
      settle reset (db.save (persisted ids reset.state) reset.store)

-- Keys of the saved map are texts of thread ids.
abbrev Canonical : ThreadIdText → Dict String ℕ → Type 0
Canonical ids m = All (λ e. (t : ℕ) × (e.0 ≡ ids.to_string t)) m

module _ (ids : ThreadIdText) where
  to_string-injective : (t u : ℕ) → ids.to_string t ≡ ids.to_string u → t ≡ u
  to_string-injective t u h = cc (ids.parse-to_string t, ids.parse-to_string u)

  insert-Canonical :
      (t n : ℕ) (m : Dict String ℕ) → Canonical ids m → Canonical ids (insert (ids.to_string t) n m)
  unfolding insert
  insert-Canonical t n [] h = ((t, refl), tt)
  insert-Canonical t n ((j, w) ∷ m) h = elim (Bool-cases (j == ids.to_string t)) [
    | inl e ↦ rw e h
    | inr e ↦ rw e (h.0, insert-Canonical t n m h.1)
  ]

  thread_texts-Canonical : (m : Dict ℕ ℕ) → Canonical ids (thread_texts ids m)
  unfolding thread_texts
  thread_texts-Canonical [] = tt
  thread_texts-Canonical ((t, n) ∷ m) = insert-Canonical t n _ (thread_texts-Canonical m)

  ==-to_string : (t u : ℕ) → (ids.to_string t == ids.to_string u) ≡ (t == u)
  ==-to_string t u = ground (
    arith,
    ==→eq (ids.to_string t) (ids.to_string u),
    to_string-injective t u,
    eq→== (ids.to_string t) (ids.to_string u),
    eq→== t u,
    ==→eq t u,
  )

  lookup-thread_texts :
      (t : ℕ) (m : Dict ℕ ℕ) → lookup (ids.to_string t) (thread_texts ids m) ≡ lookup t m
  unfolding thread_texts lookup
  lookup-thread_texts t [] = refl
  lookup-thread_texts t ((u, n) ∷ m) = rw (
    lookup-insert (ids.to_string u) (ids.to_string t) n (thread_texts ids m),
    ==-to_string u t,
    lookup-thread_texts t m,
  )

  restore_threads-cons :
      (u n : ℕ) (m : Dict String ℕ)
      → restore_threads ids ((ids.to_string u, n) ∷ m) ≡ insert u n (restore_threads ids m)
  unfolding restore_threads
  restore_threads-cons u n m = rw (ids.parse-to_string u, restore_threads)

  lookup-restore_threads :
      (t : ℕ) (m : Dict String ℕ)
      → Canonical ids m
      → lookup t (restore_threads ids m) ≡ lookup (ids.to_string t) m
  unfolding restore_threads lookup
  lookup-restore_threads t [] h = refl
  lookup-restore_threads t ((s, n) ∷ m) h =
      let (u, e) = h.0 in
      rw e (
        rw (restore_threads-cons u n m, lookup-insert u t n (restore_threads ids m))
          (ground (arith, ==-to_string u t, lookup-restore_threads t m h.1)))

-- Two states that agree on the window, its counters, the failures and every thread's total.
pub record SameWindow (s s' : CognitiveBudgetState) : Type 0 where
  pub start : s'.window_start ≡ s.window_start
  pub local_tokens : s'.local_tokens_consumed ≡ s.local_tokens_consumed
  pub frontier_tokens : s'.frontier_tokens_consumed ≡ s.frontier_tokens_consumed
  pub cost : s'.frontier_cost_consumed ≡ s.frontier_cost_consumed
  pub calls : s'.frontier_calls ≡ s.frontier_calls
  pub failures : s'.consecutive_failures ≡ s.consecutive_failures
  pub threads : (t : ℕ) → lookup t s'.per_thread_consumed ≡ lookup t s.per_thread_consumed

module _ {F S : Type 0} (db : BudgetStore S) (ids : ThreadIdText) where
  -- What was saved before a restart is there after it: when a store gives back what it was given,
  -- the length of the window in seconds is below 2^63, its end is a time that chrono can represent,
  -- and the restart is before that end, a tracker that persists and a fresh one that loads from the
  -- same store agree on the window, its counters, the failures and every thread's total.
  pub load_or_reset-persist :
      (c : Chrono) (t fresh : Tracker F S) (now end_time : ℕ) {store : S}
      → db.save (persisted ids t.state) t.store ≡ ok store
      → db.load store ≡ ok (some (persisted ids t.state))
      → fresh.store ≡ store
      → fresh.config.time_window_secs < 2 ^ 63
      → c.add_seconds t.state.window_start fresh.config.time_window_secs ≡ some end_time
      → now < t.state.window_start + fresh.config.time_window_secs * nanos_per_sec
      → (t' : Tracker F S) × (load_or_reset db ids c now fresh ≡ some (ok t'))
        × SameWindow t.state t'.state
  unfolding load_or_reset persisted restored window_end
  load_or_reset-persist c t fresh now end_time saved loaded same small known open_yet = (
    record fresh { state = restored ids (persisted ids t.state) fresh.state },
    let found : db.load fresh.store ≡ ok (some (persisted ids t.state)) = rw same loaded in
        let at : end_time ≡ t.state.window_start + fresh.config.time_window_secs * nanos_per_sec =
          c.add_seconds-some known in
        let before : ltb now end_time ≡ true = rw at (lt→ltb _ _ open_yet) in
        rw found (rw (lt→ltb _ _ small) (rw known (rw before refl))),
    record {
      start = refl;
      local_tokens = refl;
      frontier_tokens = refl;
      cost = refl;
      calls = refl;
      failures = refl;
      threads = λ tid.
          lookup-restore_threads ids tid _ (thread_texts-Canonical ids t.state.per_thread_consumed)
          ∙ lookup-thread_texts ids tid t.state.per_thread_consumed;
    },
  )

  settle-state : (t : Tracker F S) (saved : Result S) → (settle db ids t saved).0.state ≡ t.state
  settle-state t (ok store) = refl
  settle-state t (err e) = refl

  -- A restart after the window has ended is a reset by the timer: when the store gives back what a
  -- tracker saved, and the end of the window as the code computes it, wrapped or not, is not after
  -- the restart, a fresh tracker that loads has the state that the timer's reset of the saving
  -- tracker leaves, whether that reset can be saved or not.
  pub load_or_reset-reset_window :
      (c : Chrono) (t fresh : Tracker F S) (now end_time : ℕ)
      → db.load fresh.store ≡ ok (some (persisted ids t.state))
      → window_end c t.state.window_start fresh.config.time_window_secs ≡ some end_time
      → end_time ≤ now
      → (t' : Tracker F S) × (load_or_reset db ids c now fresh ≡ some (ok t'))
        × (t'.state ≡ (reset_window db ids now t).0.state)
  unfolding load_or_reset reset_window persisted
  load_or_reset-reset_window c t fresh now end_time loaded known over =
      let ended : ltb now end_time ≡ false = ground (arith, over) in
      (
        record fresh {
          state = record (new_state now) { consecutive_failures = t.state.consecutive_failures };
        },
        rw loaded (rw known (rw ended refl)),
        sym (settle-state _ _),
      )

-- ===== src/Threads/Store.antt =====
-- crates/exoskeleton-threads/src/store.rs: the in-memory thread store. Its locks are never
-- poisoned, since nothing panics under them. The order in which a hash map lists its values is not
-- fixed; the model lists them in the order of its association list.
pub mod WellFormed
pub mod Outputs
use exoskeleton.Base.{
  length, drop, Dict, lookup, insert, remove, adjust, upsert, ℕ, ◌-◌, String, Bool, not, Option,
  none, some, List, [], ◌∷◌, ◌++◌, map, nat_eq, string_eq,
}
use exoskeleton.Base.Errors.{storage, Result, ok, err}
use exoskeleton.Threads.Types.{
  ThreadSpec, ThreadStatus, ExecThreadStatus, ThreadOutput, ThreadExecutionPayload,
  ThreadExecutionResult, is_terminal, exec_is_terminal,
}

pub data RegisteredThreadStatus : Type 0 where
  cognitive : ThreadStatus → RegisteredThreadStatus
  executable : ExecThreadStatus → RegisteredThreadStatus

abbrev pub registered_is_terminal : RegisteredThreadStatus → Bool
registered_is_terminal (cognitive s) = is_terminal s
registered_is_terminal (executable s) = exec_is_terminal s

-- `X` is the output of an executable thread and `L` its local state.
pub record ThreadStore (X L : Type 0) : Type 0 where
  pub specs : Dict ℕ (ThreadSpec × RegisteredThreadStatus)
  pub last_runs : Dict ℕ ℕ
  pub outputs : Dict ℕ (List (ThreadExecutionResult X))
  pub local_state : Dict ℕ L

abbrev pub filter_map {ℓ κ} : {A : Type ℓ} {B : Type κ} → (A → Option B) → List A → List B
filter_map f [] = []
filter_map f (x ∷ xs) = elim (f x) [ none ↦ filter_map f xs | some y ↦ y ∷ filter_map f xs ]

abbrev pub reverse {ℓ} : {A : Type ℓ} → List A → List A
reverse [] = []
reverse (x ∷ xs) = reverse xs ++ x ∷ []

-- The last `limit` elements, the last one first.
abbrev pub latest {ℓ} : {A : Type ℓ} → ℕ → Option (List A) → List A
latest limit (some outputs) = reverse (drop (length outputs - limit) outputs)
latest limit none = []

abbrev pub cognitive_output : {X : Type 0} → ThreadExecutionResult X → Option ThreadOutput
cognitive_output r = elim r.payload [
  | ThreadExecutionPayload.cognitive o ↦ some o
  | ThreadExecutionPayload.executable x ↦ none
]

abbrev pub executable_output : {X : Type 0} → ThreadExecutionResult X → Option X
executable_output r = elim r.payload [
  | ThreadExecutionPayload.cognitive o ↦ none
  | ThreadExecutionPayload.executable x ↦ some x
]

module _ {X L : Type 0} where
  unfoldable empty_store : ThreadStore X L
  empty_store = record { specs = []; last_runs = []; outputs = []; local_state = [] }

  unfoldable pub save : ThreadSpec → RegisteredThreadStatus → ThreadStore X L → ThreadStore X L
  save spec status s = record s { specs = insert spec.thread_id (spec, status) s.specs }

  abbrev pub store_get : ℕ → ThreadStore X L → Option (ThreadSpec × RegisteredThreadStatus)
  store_get id s = lookup id s.specs

  abbrev pub store_list : ThreadStore X L → List (ThreadSpec × RegisteredThreadStatus)
  store_list s = map (λ kv. kv.1) s.specs

  unfoldable pub store_remove : ℕ → ThreadStore X L → ThreadStore X L
  store_remove id s = record s { specs = remove id s.specs }

  -- A write through `get_mut`, by what the key was found to hold.
  unfoldable pub write_found :
      (ThreadSpec × RegisteredThreadStatus → ThreadSpec × RegisteredThreadStatus)
      → ℕ
      → Option (ThreadSpec × RegisteredThreadStatus)
      → ThreadStore X L
      → Result (ThreadStore X L)
  write_found f id (some entry) s = ok (record s { specs = adjust id f s.specs })
  write_found f id none s = err (storage "thread not found")

  unfoldable pub store_update_status :
      ℕ → RegisteredThreadStatus → ThreadStore X L → Result (ThreadStore X L)
  store_update_status id status s = write_found (λ e. (e.0, status)) id (lookup id s.specs) s

  unfoldable pub save_last_run : ℕ → ℕ → ThreadStore X L → ThreadStore X L
  save_last_run id tick s = record s { last_runs = insert id tick s.last_runs }

  abbrev pub get_last_run : ℕ → ThreadStore X L → Option ℕ
  get_last_run id s = lookup id s.last_runs

  unfoldable pub recent_execution_results : ℕ → ℕ → ThreadStore X L → List (ThreadExecutionResult X)
  recent_execution_results id limit s = latest limit (lookup id s.outputs)

  unfoldable pub save_execution_result : ThreadExecutionResult X → ThreadStore X L → ThreadStore X L
  save_execution_result r s = record s {
    outputs = upsert r.thread_id [] (λ rs. rs ++ r ∷ []) s.outputs;
  }

  -- The default methods of the trait.
  unfoldable pub recent_outputs : ℕ → ℕ → ThreadStore X L → List ThreadOutput
  recent_outputs id limit s = filter_map cognitive_output (recent_execution_results id limit s)

  unfoldable pub recent_exec_outputs : ℕ → ℕ → ThreadStore X L → List X
  recent_exec_outputs id limit s =
      filter_map executable_output (recent_execution_results id limit s)

  -- `ThreadExecutionResult::from`, and the result saved.
  unfoldable save_output : ThreadOutput → ThreadStore X L → ThreadStore X L
  save_output o s =
      save_execution_result
        (record {
          thread_id = o.thread_id;
          tick_id = o.tick_id;
          artifact_id = o.artifact_id;
          payload = ThreadExecutionPayload.cognitive o;
        })
        s

  abbrev pub get_local_state : ℕ → ThreadStore X L → Option L
  get_local_state id s = lookup id s.local_state

  unfoldable pub save_local_state : ℕ → L → ThreadStore X L → ThreadStore X L
  save_local_state id state s = record s { local_state = insert id state s.local_state }

  unfoldable pub store_update_charter : ℕ → String → ThreadStore X L → Result (ThreadStore X L)
  store_update_charter id charter s =
      write_found (λ e. (record e.0 { charter = charter }, e.1)) id (lookup id s.specs) s

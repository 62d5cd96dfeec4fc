-- ===== src/Threads/Store/WellFormed.antt =====
-- A store of crates/exoskeleton-threads/src/store.rs keeps each thread under its own id, once.
use exoskeleton.Base.{
  Bool-cases, All, lookup, insert, remove, adjust, UniqueKeys, insert-UniqueKeys, adjust-UniqueKeys,
  remove-UniqueKeys, ◌==◌, ==→eq, ℕ, String, ◌≡◌, refl, sym, ◌∙◌, inl, inr, Option, none, some,
  List, [], ◌∷◌, nat_eq, string_eq,
}
use exoskeleton.Base.Errors.{Result, ok, err}
use exoskeleton.Threads.Types.{ThreadSpec}
use exoskeleton.Threads.Store.{
  ThreadStore, RegisteredThreadStatus, save, store_remove, store_update_status,
  store_update_charter, write_found,
}

abbrev pub Entry : Type 0
Entry = ℕ × (ThreadSpec × RegisteredThreadStatus)

abbrev pub IsOwnKey : Entry → Type 0
IsOwnKey (id, (spec, status)) = spec.thread_id ≡ id

abbrev pub IsWellFormed : {X L : Type 0} → ThreadStore X L → Type 0
IsWellFormed s = UniqueKeys s.specs × All IsOwnKey s.specs

insert-IsOwnKey :
    (spec : ThreadSpec) (status : RegisteredThreadStatus) (m : List Entry)
    → All IsOwnKey m
    → All IsOwnKey (insert spec.thread_id (spec, status) m)
unfolding insert
insert-IsOwnKey spec status [] h = (refl, tt)
insert-IsOwnKey spec status ((j, w) ∷ m) h = elim (Bool-cases (j == spec.thread_id)) [
  | inl same ↦ rw same (sym (==→eq j spec.thread_id same), h.1)
  | inr differ ↦ rw differ (h.0, insert-IsOwnKey spec status m h.1)
]

remove-IsOwnKey : (id : ℕ) (m : List Entry) → All IsOwnKey m → All IsOwnKey (remove id m)
unfolding remove
remove-IsOwnKey id [] h = tt
remove-IsOwnKey id ((j, w) ∷ m) h = elim (Bool-cases (j == id)) [
  | inl same ↦ rw same (remove-IsOwnKey id m h.1)
  | inr differ ↦ rw differ (h.0, remove-IsOwnKey id m h.1)
]

adjust-IsOwnKey :
    (id : ℕ) (f : ThreadSpec × RegisteredThreadStatus → ThreadSpec × RegisteredThreadStatus)
    (keeps : (e : ThreadSpec × RegisteredThreadStatus) → (f e).0.thread_id ≡ e.0.thread_id)
    (m : List Entry)
    → All IsOwnKey m
    → All IsOwnKey (adjust id f m)
unfolding adjust
adjust-IsOwnKey id f keeps [] h = tt
adjust-IsOwnKey id f keeps ((j, w) ∷ m) h = elim (Bool-cases (j == id)) [
  | inl same ↦ rw same (keeps w ∙ h.0, h.1)
  | inr differ ↦ rw differ (h.0, adjust-IsOwnKey id f keeps m h.1)
]

module _ {X L : Type 0} where
  pub save-IsWellFormed :
      (spec : ThreadSpec) (status : RegisteredThreadStatus) (s : ThreadStore X L)
      → IsWellFormed s
      → IsWellFormed (save spec status s)
  unfolding save
  save-IsWellFormed spec status s h = (
    insert-UniqueKeys spec.thread_id (spec, status) s.specs h.0,
    insert-IsOwnKey spec status s.specs h.1,
  )

  pub store_remove-IsWellFormed :
      (id : ℕ) (s : ThreadStore X L) → IsWellFormed s → IsWellFormed (store_remove id s)
  unfolding store_remove
  store_remove-IsWellFormed id s h =
      (remove-UniqueKeys id s.specs h.0, remove-IsOwnKey id s.specs h.1)

  -- The store after an operation: a refused one leaves it as it is.
  abbrev pub after : ThreadStore X L → Result (ThreadStore X L) → ThreadStore X L
  after s (ok s') = s'
  after s (err e) = s

  adjust-IsWellFormed :
      (id : ℕ) (f : ThreadSpec × RegisteredThreadStatus → ThreadSpec × RegisteredThreadStatus)
      (keeps : (e : ThreadSpec × RegisteredThreadStatus) → (f e).0.thread_id ≡ e.0.thread_id)
      (s : ThreadStore X L)
      → IsWellFormed s
      → IsWellFormed (record s { specs = adjust id f s.specs })
  adjust-IsWellFormed id f keeps s h =
      (adjust-UniqueKeys id f s.specs h.0, adjust-IsOwnKey id f keeps s.specs h.1)

  write_found-IsWellFormed :
      (id : ℕ) (f : ThreadSpec × RegisteredThreadStatus → ThreadSpec × RegisteredThreadStatus)
      (keeps : (e : ThreadSpec × RegisteredThreadStatus) → (f e).0.thread_id ≡ e.0.thread_id)
      (found : Option (ThreadSpec × RegisteredThreadStatus)) (s : ThreadStore X L)
      → IsWellFormed s
      → IsWellFormed (after s (write_found f id found s))
  unfolding write_found
  write_found-IsWellFormed id f keeps none s h = h
  write_found-IsWellFormed id f keeps (some e) s h = adjust-IsWellFormed id f keeps s h

  pub store_update_status-IsWellFormed :
      (id : ℕ) (status : RegisteredThreadStatus) (s : ThreadStore X L)
      → IsWellFormed s
      → IsWellFormed (after s (store_update_status id status s))
  unfolding store_update_status
  store_update_status-IsWellFormed id status s h =
      write_found-IsWellFormed id (λ e. (e.0, status)) (λ e. refl) (lookup id s.specs) s h

  pub store_update_charter-IsWellFormed :
      (id : ℕ) (charter : String) (s : ThreadStore X L)
      → IsWellFormed s
      → IsWellFormed (after s (store_update_charter id charter s))
  unfolding store_update_charter
  store_update_charter-IsWellFormed id charter s h =
      write_found-IsWellFormed id (λ e. (record e.0 { charter = charter }, e.1)) (λ e. refl)
        (lookup id s.specs) s h

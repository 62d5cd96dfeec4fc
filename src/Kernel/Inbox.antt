-- ===== src/Kernel/Inbox.antt =====
-- crates/exoskeleton-host/src/inbox/memory_inbox.rs: the in-memory inbox.
use exoskeleton.Base.{
  if◌then◌else◌, Bool-cases, filter, any, ◌==◌, ==→eq, ℕ, ◌≡◌, refl, ◌∙◌, ◌⊎◌, inl, inr, Bool, true,
  false, not, ◌&&◌, ◌||◌, List, [], ◌∷◌, ◌++◌, arith, nat_eq, string_eq,
}
use exoskeleton.Relationship.Types.{MessageEnvelope}

pub record InMemoryInbox : Type 0 where
  pub pending : List MessageEnvelope
  pub acknowledged : List ℕ

abbrev pub contains_id : ℕ → List ℕ → Bool
contains_id id ids = any (λ i. i == id) ids

pub receive : InMemoryInbox → List MessageEnvelope
receive s = filter (λ env. not (contains_id env.id s.acknowledged)) s.pending

-- The loop of `acknowledge`.
add_ids : List ℕ → List ℕ → List ℕ
add_ids [] acked = acked
add_ids (id ∷ ids) acked = add_ids ids (if contains_id id acked then acked else acked ++ id ∷ [])

pub acknowledge : List ℕ → InMemoryInbox → InMemoryInbox
acknowledge ids s = record s { acknowledged = add_ids ids s.acknowledged }

pub submit : MessageEnvelope → InMemoryInbox → InMemoryInbox
submit e s = record s { pending = s.pending ++ e ∷ [] }

contains_id-snoc :
    (j id : ℕ) (acked : List ℕ)
    → contains_id j (acked ++ id ∷ []) ≡ (contains_id j acked || (id == j))
contains_id-snoc j id [] = ground arith
contains_id-snoc j id (i ∷ acked) = ground (arith, contains_id-snoc j id acked)

contains_id-step :
    (j id : ℕ) (acked : List ℕ)
    → contains_id j (if contains_id id acked then acked else acked ++ id ∷ [])
      ≡ (contains_id j acked || (id == j))
contains_id-step j id acked = elim (Bool-cases (contains_id id acked)) [
  | inl e ↦ rw e (absorb e (Bool-cases (id == j)))
  | inr e ↦ rw e (contains_id-snoc j id acked)
]
  where
    absorb :
        contains_id id acked ≡ true
        → ((id == j) ≡ true) ⊎ ((id == j) ≡ false)
        → contains_id j acked ≡ (contains_id j acked || (id == j))
    absorb e (inl same) = rw (← ==→eq id j same) (rw e refl)
    absorb e (inr differ) = rw differ (ground arith)

contains_id-add_ids :
    (j : ℕ) (ids acked : List ℕ)
    → contains_id j (add_ids ids acked) ≡ (contains_id j acked || contains_id j ids)
unfolding add_ids
contains_id-add_ids j [] acked = ground arith
contains_id-add_ids j (id ∷ ids) acked =
    contains_id-add_ids j ids (if contains_id id acked then acked else acked ++ id ∷ [])
    ∙ ground (arith, contains_id-step j id acked)

filter-both :
    {A : Type 0}
    → (p q r : A → Bool) (same : (a : A) → r a ≡ (p a && q a)) (xs : List A)
    → filter r xs ≡ filter q (filter p xs)
filter-both p q r same [] = refl
filter-both p q r same (x ∷ xs) = ground (arith, same x, filter-both p q r same xs)

filter-snoc :
    {A : Type 0}
    → (p : A → Bool) (xs : List A) (x : A)
    → filter p (xs ++ x ∷ []) ≡ filter p xs ++ (if p x then x ∷ [] else [])
filter-snoc p [] x = refl
filter-snoc p (y ∷ xs) x = ground (arith, filter-snoc p xs x)

-- After some ids are acknowledged, what is received is what was received before without the
-- messages of those ids, in the same order; a submitted message is received after all others,
-- unless its id was acknowledged before.
pub receive_lem :
    (ids : List ℕ) (e : MessageEnvelope) (s : InMemoryInbox)
    → (receive (acknowledge ids s) ≡ filter (λ env. not (contains_id env.id ids)) (receive s))
      × (receive (submit e s)
          ≡ receive s ++ (if contains_id e.id s.acknowledged then [] else e ∷ []))
unfolding receive acknowledge submit
receive_lem ids e s = (
  filter-both (λ env. not (contains_id env.id s.acknowledged)) (λ env. not (contains_id env.id ids))
      (λ env. not (contains_id env.id (add_ids ids s.acknowledged)))
      (λ env. ground (arith, contains_id-add_ids env.id ids s.acknowledged)) s.pending,
  filter-snoc (λ env. not (contains_id env.id s.acknowledged)) s.pending e ∙ ground arith,
)

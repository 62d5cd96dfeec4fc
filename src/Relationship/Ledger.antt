-- ===== src/Relationship/Ledger.antt =====
-- crates/exoskeleton-relationship/src/ledger.rs: the append-only ledger, as the vector that the
-- in-memory implementation keeps, oldest record first. No holder of its lock panics, so the lock is
-- never poisoned and is left out.
pub mod AppendOnly
pub mod Queries
pub mod Principals
use exoskeleton.Base.{
  leb, if◌then◌else◌, length, take, filter, any, sort_by, ◌==◌, ℕ, min, Bool, Option, none, some,
  List, [], ◌∷◌, ◌++◌, map, nat_eq, string_eq,
}
use exoskeleton.Base.Errors.{storage, Result, ok, err}
use exoskeleton.Relationship.Types.{RelationshipRecord}

abbrev pub RelationshipLedger : Type 0
RelationshipLedger = List RelationshipRecord

unfoldable pub append : RelationshipRecord → RelationshipLedger → Result (RelationshipLedger × ℕ)
append r l =
    if any (λ s. s.id == r.id) l
    then err (storage "relationship record already exists with id")
    else ok (l ++ r ∷ [], r.id)

-- `sort_by(|a, b| b.timestamp.cmp(&a.timestamp))`, and the same the other way round.
abbrev pub newest_first : RelationshipRecord → RelationshipRecord → Bool
newest_first a b = leb b.timestamp a.timestamp

abbrev pub oldest_first : RelationshipRecord → RelationshipRecord → Bool
oldest_first a b = leb a.timestamp b.timestamp

abbrev pub concerns : ℕ → RelationshipRecord → Bool
concerns p r = r.principal_id == p

unfoldable pub for_principal : ℕ → ℕ → RelationshipLedger → List RelationshipRecord
for_principal p limit l = take limit (sort_by newest_first (filter (concerns p) l))

unfoldable recent : ℕ → RelationshipLedger → List RelationshipRecord
recent limit l = take limit (sort_by newest_first l)

-- The least of the timestamps of a tick, if it has any.
min_timestamp : ℕ → RelationshipLedger → Option ℕ
min_timestamp tick [] = none
min_timestamp tick (r ∷ l) =
    if r.tick_id == tick
    then some (elim (min_timestamp tick l) [ none ↦ r.timestamp | some ts ↦ min r.timestamp ts ])
    else min_timestamp tick l

unfoldable since_tick : ℕ → RelationshipLedger → List RelationshipRecord
unfolding min_timestamp
since_tick tick l = elim (min_timestamp tick l) [
  | none ↦ []
  | some ts ↦ sort_by oldest_first (filter (λ r. leb ts r.timestamp) l)
]

-- `dedup` drops a value that equals the one before it.
dedup : List ℕ → List ℕ
dedup [] = []
dedup (x ∷ []) = x ∷ []
dedup (x ∷ y ∷ ys) = let rest = dedup (y ∷ ys) in if x == y then rest else x ∷ rest

unfoldable pub distinct_principals : RelationshipLedger → List ℕ
unfolding dedup
distinct_principals l = dedup (sort_by leb (map (λ r. r.principal_id) l))

unfoldable count : RelationshipLedger → ℕ
count l = length l

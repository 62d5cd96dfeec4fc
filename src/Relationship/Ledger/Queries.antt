-- ===== src/Relationship/Ledger/Queries.antt =====
-- The queries of crates/exoskeleton-relationship/src/ledger.rs.
use exoskeleton.Base.{
  leb→le, length, take, drop, filter, All, length-take, All-imp, All-take, filter-All, All-filter,
  take-append-drop, take-of_le, AllPairs-take, AllPairs-take-drop, sort_by, IsSorted, sort_by-perm,
  sort_by-All, sort_by-IsSorted, ℕ, ◌≤◌, ◌<◌, ◌≡◌, true, List, [], ◌∷◌, ◌++◌, Perm, arith,
}
use exoskeleton.Relationship.Types.{RelationshipRecord}
use exoskeleton.Relationship.Ledger.{RelationshipLedger, for_principal, newest_first, concerns}

pub newest_first-IsSorted :
    (l : RelationshipLedger) → IsSorted newest_first (sort_by newest_first l)
newest_first-IsSorted = sort_by-IsSorted newest_first (λ x y. ground arith) (λ x y z. ground arith)

pub for_principal-All {κ} :
    (P : RelationshipRecord → Type κ) (p limit : ℕ) (l : RelationshipLedger)
    → All P l
    → All P (for_principal p limit l)
unfolding for_principal
for_principal-All P p limit l h =
    All-take P limit _ (sort_by-All newest_first P _ (All-filter P (concerns p) l h))

-- A query for a principal returns at most `limit` records; they are its own, newest first, and the
-- records of the principal that the limit cuts off are none of them newer than one that is
-- returned: with those, the result is a permutation of all records of the principal.
pub for_principal_lem :
    (p limit : ℕ) (l : RelationshipLedger)
    → let found = for_principal p limit l in
      (length found ≤ limit)
      × All (λ r. concerns p r ≡ true) found
      × IsSorted newest_first found
      × ((cut : List RelationshipRecord) × Perm (found ++ cut) (filter (concerns p) l)
          × All (λ r. All (λ s. s.timestamp ≤ r.timestamp) cut) found)
unfolding for_principal
for_principal_lem p limit l =
    let own = filter (concerns p) l in
    let sorted = sort_by newest_first own in
    let order = newest_first-IsSorted own in
    let together = take-append-drop limit sorted in
    (
      omega (arith, length-take limit sorted),
      All-take (λ r. concerns p r ≡ true) limit sorted
          (sort_by-All newest_first (λ r. concerns p r ≡ true) own (filter-All (concerns p) l)),
      AllPairs-take (λ x y. newest_first x y ≡ true) limit sorted order,
      (
        drop limit sorted,
        rw together (sort_by-perm newest_first own),
        All-imp (λ r. All-imp (λ s. leb→le s.timestamp r.timestamp) (drop limit sorted))
            (take limit sorted)
            (AllPairs-take-drop (λ x y. newest_first x y ≡ true) limit sorted order),
      ),
    )

-- The only record of a ledger is found.
pub for_principal_single :
    (p limit : ℕ) (r : RelationshipRecord)
    → concerns p r ≡ true
    → 0 < limit
    → for_principal p limit (r ∷ []) ≡ r ∷ []
unfolding for_principal sort_by
for_principal_single p limit r h k = rw h (take-of_le limit (r ∷ []) (omega arith))

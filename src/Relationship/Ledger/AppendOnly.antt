-- ===== src/Relationship/Ledger/AppendOnly.antt =====
-- The ledger of crates/exoskeleton-relationship/src/ledger.rs over time: sequences of appends.
use exoskeleton.Base.{
  Bool-cases, any, All, AllPairs, All-append, ◌==◌, ◌≡◌, refl, sym, ap, ◌∙◌, ◌⊎◌, inl, inr, false,
  List, [], ◌∷◌, ◌++◌, arith, nat_eq, string_eq,
}
use exoskeleton.Base.Errors.{ExoError, storage, ok, err}
use exoskeleton.Relationship.Types.{RelationshipRecord}
use exoskeleton.Relationship.Ledger.{RelationshipLedger, append}
use mathlib.Core.List.{append-nil, append_assoc}

-- Any sequence of appends; a refused one leaves the ledger as it is.
pub append_all : List RelationshipRecord → RelationshipLedger → RelationshipLedger
append_all [] l = l
append_all (r ∷ rs) l = append_all rs (elim (append r l) [ ok (l', _) ↦ l' | err _ ↦ l ])

abbrev Differ : RelationshipRecord → RelationshipRecord → Type 0
Differ a b = (a.id == b.id) ≡ false

abbrev pub DistinctIds : RelationshipLedger → Type 0
DistinctIds = AllPairs Differ

-- `later` is `l` with records added at its end.
abbrev pub Extends : RelationshipLedger → RelationshipLedger → Type 0
Extends l later = (added : RelationshipLedger) × (later ≡ l ++ added)

abbrev append_one : RelationshipRecord → RelationshipLedger → RelationshipLedger
append_one r l = elim (append r l) [ ok (l', _) ↦ l' | err _ ↦ l ]

none_has-Differ :
    (r : RelationshipRecord) (l : RelationshipLedger)
    → any (λ s. s.id == r.id) l ≡ false
    → All (λ s. Differ s r) l
none_has-Differ r [] h = tt
none_has-Differ r (s ∷ l) h = (ground (arith, h), none_has-Differ r l (ground (arith, h)))

snoc-DistinctIds :
    (r : RelationshipRecord) (l : RelationshipLedger)
    → DistinctIds l
    → All (λ s. Differ s r) l
    → DistinctIds (l ++ r ∷ [])
snoc-DistinctIds r [] d h = (tt, tt)
snoc-DistinctIds r (s ∷ l) d h =
    (All-append (Differ s) l (r ∷ []) d.0 (h.0, tt), snoc-DistinctIds r l d.1 h.1)

-- An append is accepted, with the record at the end, or refused.
pub append-cases :
    (r : RelationshipRecord) (l : RelationshipLedger)
    → DistinctIds l
    → ((append r l ≡ ok (l ++ r ∷ [], r.id)) × DistinctIds (l ++ r ∷ []))
      ⊎ ((e : ExoError) × (append r l ≡ err e))
unfolding append
append-cases r l d = elim (Bool-cases (any (λ s. s.id == r.id) l)) [
  | inl e ↦ inr (storage "relationship record already exists with id", rw e refl)
  | inr e ↦ inl (rw e refl, snoc-DistinctIds r l d (none_has-Differ r l e))
]

append_one_lem :
    (r : RelationshipRecord) (l : RelationshipLedger)
    → DistinctIds l
    → DistinctIds (append_one r l) × Extends l (append_one r l)
append_one_lem r l d = elim (append-cases r l d) [
  | inl (e, distinct) ↦ rw (append_one, e) (distinct, (r ∷ [], refl))
  | inr (x, e) ↦ rw (append_one, e) (d, ([], sym (append-nil l)))
]

-- Whatever is appended to a ledger whose records have different ids, accepted or refused, the
-- records already there stay, unchanged and in their places, and the ids stay different.
pub append_all_keeps_records :
    (rs : List RelationshipRecord) (l : RelationshipLedger)
    → DistinctIds l
    → DistinctIds (append_all rs l) × Extends l (append_all rs l)
unfolding append_all
append_all_keeps_records [] l d = (d, ([], sym (append-nil l)))
append_all_keeps_records (r ∷ rs) l d =
    let one = append_one_lem r l d in
    let rest = append_all_keeps_records rs (append_one r l) one.0 in
    (
      rest.0,
      (
        one.1.0 ++ rest.1.0,
        rest.1.1 ∙ ap (λ m. m ++ rest.1.0) one.1.1 ∙ append_assoc l one.1.0 rest.1.0,
      ),
    )

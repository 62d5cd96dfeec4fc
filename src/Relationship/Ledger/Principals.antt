-- ===== src/Relationship/Ledger/Principals.antt =====
-- The principals of crates/exoskeleton-relationship/src/ledger.rs.
use exoskeleton.Base.{
  leb, Bool-cases, length, filter, any, All, AllPairs, length-take, All-imp, sort_by, IsSorted,
  sort_by-All, sort_by-IsSorted, sort_by-any, length-sort_by, ◌==◌, ==→eq, ==_refl, ℕ, ◌<◌, ◌≡◌,
  refl, ◌∙◌, inl, inr, Bool, true, false, List, [], ◌∷◌, map, arith, nat_eq, string_eq,
}
use exoskeleton.Relationship.Types.{RelationshipRecord}
use exoskeleton.Relationship.Ledger.{
  RelationshipLedger, for_principal, newest_first, concerns, dedup, distinct_principals,
}

dedup-All {κ} : (P : ℕ → Type κ) (xs : List ℕ) → All P xs → All P (dedup xs)
unfolding dedup
dedup-All P [] h = tt
dedup-All P (x ∷ []) h = h
dedup-All P (x ∷ y ∷ ys) h = elim (Bool-cases (x == y)) [
  | inl e ↦ rw e (dedup-All P (y ∷ ys) h.1)
  | inr e ↦ rw e (h.0, dedup-All P (y ∷ ys) h.1)
]

above-imp :
    (x y : ℕ) (ys : List ℕ)
    → leb x y ≡ true
    → (x == y) ≡ false
    → All (λ z. leb y z ≡ true) ys
    → All (λ z. x < z) (y ∷ ys)
above-imp x y ys h e k = (ground arith, All-imp (λ z m. ground arith) ys k)

dedup-ascending : (xs : List ℕ) → IsSorted leb xs → AllPairs (λ a b. a < b) (dedup xs)
unfolding dedup
dedup-ascending [] h = tt
dedup-ascending (x ∷ []) h = (tt, tt)
dedup-ascending (x ∷ y ∷ ys) h = elim (Bool-cases (x == y)) [
  | inl e ↦ rw e (dedup-ascending (y ∷ ys) h.1)
  | inr e ↦ rw e (
    dedup-All (λ z. x < z) (y ∷ ys) (above-imp x y ys h.0.0 e h.1.0),
    dedup-ascending (y ∷ ys) h.1,
  )
]

dedup-any : (t : ℕ → Bool) (xs : List ℕ) → any t (dedup xs) ≡ any t xs
unfolding dedup
dedup-any t [] = refl
dedup-any t (x ∷ []) = refl
dedup-any t (x ∷ y ∷ ys) = elim (Bool-cases (x == y)) [
  | inl e ↦ rw e (rw (dedup-any t (y ∷ ys)) (rw (==→eq x y e) (ground arith)))
  | inr e ↦ rw e (ground (arith, dedup-any t (y ∷ ys)))
]

any-map {ℓ κ} :
    {A : Type ℓ} {B : Type κ} (t : B → Bool) (g : A → B) (xs : List A)
    → any t (map g xs) ≡ any (λ a. t (g a)) xs
any-map t g [] = refl
any-map t g (x ∷ xs) = ground (arith, any-map t g xs)

All-map {ℓ κ μ} :
    {A : Type ℓ} {B : Type κ} (P : B → Type μ) (g : A → B) (xs : List A)
    → All (λ a. P (g a)) xs
    → All P (map g xs)
All-map P g [] h = tt
All-map P g (x ∷ xs) h = (h.0, All-map P g xs h.1)

concerns_self : (l : RelationshipLedger) → All (λ r. any (concerns r.principal_id) l ≡ true) l
concerns_self [] = tt
concerns_self (r ∷ l) =
    (rw (==_refl r.principal_id) refl, All-imp (λ s h. ground arith) l (concerns_self l))

-- The distinct principals come in ascending order, each once, and they are those of which the
-- ledger has a record.
pub distinct_principals_lem :
    (l : RelationshipLedger)
    → AllPairs (λ p q. p < q) (distinct_principals l)
      × ((p : ℕ) → any (λ q. q == p) (distinct_principals l) ≡ any (concerns p) l)
unfolding distinct_principals
distinct_principals_lem l = (
  dedup-ascending _ (
      sort_by-IsSorted leb (λ x y. ground arith) (λ x y z. ground arith)
        (map (λ (r : RelationshipRecord). r.principal_id) l)),
  λ p.
      dedup-any (λ q. q == p) _
      ∙ sort_by-any leb (λ q. q == p) _
      ∙ any-map (λ q. q == p) (λ (r : RelationshipRecord). r.principal_id) l,
)

pub distinct_principals-All :
    (l : RelationshipLedger) → All (λ p. any (concerns p) l ≡ true) (distinct_principals l)
unfolding distinct_principals
distinct_principals-All l = dedup-All _ _ (
    sort_by-All leb _ _ (
      All-map (λ p. any (concerns p) l ≡ true) (λ (r : RelationshipRecord). r.principal_id) l
        (concerns_self l)))

length-filter-pos {ℓ} :
    {A : Type ℓ} (t : A → Bool) (xs : List A) → any t xs ≡ true → 0 < length (filter t xs)
length-filter-pos t [] h = absurd (ground arith)
length-filter-pos t (x ∷ xs) h = ground (arith, length-filter-pos t xs)

-- A principal of whom there is a record has one in the answer, unless the limit is 0.
pub for_principal-pos :
    (p limit : ℕ) (l : RelationshipLedger)
    → 0 < limit
    → any (concerns p) l ≡ true
    → 0 < length (for_principal p limit l)
unfolding for_principal
for_principal-pos p limit l h k = omega (
  arith,
  length-take limit (sort_by newest_first (filter (concerns p) l)),
  length-sort_by newest_first (filter (concerns p) l),
  length-filter-pos (concerns p) l k,
)

-- ===== src/Relationship/Snapshot/Principals.antt =====
-- Whom the snapshot of crates/exoskeleton-relationship/src/snapshot.rs summarizes.
use exoskeleton.Base.{
  length, any, All, AllPairs, ◌==◌, ℕ, ◌<◌, String, ◌≡◌, refl, ap, ◌∙◌, true, Option, List, [], ◌∷◌,
  map, arith, nat_eq, string_eq,
}
use exoskeleton.Base.Float.{F64}
use exoskeleton.Relationship.Types.{RelationshipRecord, PrincipalSummary, TrustDecayConfig}
use exoskeleton.Relationship.Ledger.{
  RelationshipLedger, for_principal, concerns, distinct_principals,
}
use exoskeleton.Relationship.Ledger.Principals.{
  distinct_principals_lem, distinct_principals-All, for_principal-pos,
}
use exoskeleton.Relationship.Snapshot.{
  summarize_into, summarize_all, compile_relationship_snapshot, usize_max,
}

abbrev pub principal_ids : {F : Type 0} → List (PrincipalSummary F) → List ℕ
principal_ids ps = map (λ s. s.principal_id) ps

module _ {F : Type 0} (f : F64 F) (parse : String → Option F) (id_text : ℕ → String)
    (c : Option (TrustDecayConfig F)) (now : ℕ) where
  summarize_into-ids :
      (p : ℕ) (records : List RelationshipRecord) (later : List (PrincipalSummary F))
      → 0 < length records
      → principal_ids (summarize_into f parse id_text c now p records later)
        ≡ p ∷ principal_ids later
  summarize_into-ids p [] later h = absurd (omega arith)
  summarize_into-ids p (r ∷ older) later h = refl

  summarize_all-ids :
      (l : RelationshipLedger) (ps : List ℕ)
      → All (λ p. any (concerns p) l ≡ true) ps
      → principal_ids (summarize_all f parse id_text c now l ps) ≡ ps
  unfolding summarize_all
  summarize_all-ids l [] h = refl
  summarize_all-ids l (p ∷ ps) h =
      summarize_into-ids p (for_principal p usize_max l) _
        (for_principal-pos p usize_max l (omega arith) h.0)
      ∙ ap (◌∷◌ p) (summarize_all-ids l ps h.1)

  -- The snapshot has one summary for each principal of whom the ledger has a record, and no other,
  -- in ascending order of their ids.
  pub compile_relationship_snapshot-principals :
      (compiled_at : ℕ) (l : RelationshipLedger)
      → let ids =
          principal_ids
            (compile_relationship_snapshot f parse id_text c now compiled_at l).principals in
        AllPairs (λ p q. p < q) ids × ((p : ℕ) → any (λ q. q == p) ids ≡ any (concerns p) l)
  unfolding compile_relationship_snapshot
  compile_relationship_snapshot-principals compiled_at l =
      rw (summarize_all-ids l (distinct_principals l) (distinct_principals-All l))
        (distinct_principals_lem l)

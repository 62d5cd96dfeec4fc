-- ===== src/Relationship/Snapshot/Nan.antt =====
-- What a trust update to NaN does in crates/exoskeleton-relationship/src/snapshot.rs and align.rs.
use exoskeleton.Base.{
  Bool-cases, ℕ, String, ◌≡◌, refl, ◌∙◌, inl, inr, false, Option, none, some, List, [], ◌∷◌, arith,
}
use exoskeleton.Base.Float.{F64, clamp}
use exoskeleton.Relationship.Types.{
  RelationshipRecord, PrincipalSummary, trust_update, TrustDecayConfig,
}
use exoskeleton.Relationship.Ledger.{RelationshipLedger, for_principal, distinct_principals}
use exoskeleton.Relationship.Align.{AlignConfig, AlignAction, block_reason}
use exoskeleton.Relationship.Align.Gate.{MinLaws, max_lt-threshold}
use exoskeleton.Relationship.Snapshot.{
  zero_trust, full_trust, stated_trust, walk, start, usize_max, summarize_all,
  compile_relationship_snapshot, elapsed_days, decayed, decay, long_enough,
}
use exoskeleton.Relationship.Snapshot.Commitments.{trust_update_wins}
use mathlib.Core.List.{reverse, reverse-cons}

-- A NaN: no comparison with it holds, and a minimum with it is the other number.
pub record IsNan {F : Type 0} (f : F64 F) (x : F) : Type 0 where
  pub lt_left : (y : F) → f.lt x y ≡ false
  pub lt_right : (y : F) → f.lt y x ≡ false
  pub least_right : (y : F) → f.least y x ≡ y

module _ {F : Type 0} (f : F64 F) where
  clamp-nan : (least most x : F) → IsNan f x → clamp f least most x ≡ x
  clamp-nan least most x h = rw (h.lt_left least) (rw (h.lt_right most) refl)

  -- A single principal of whose trust nothing is known but that it is NaN blocks nothing.
  nan_blocks_nothing :
      (c : AlignConfig F) (p : PrincipalSummary F) (a : AlignAction)
      → MinLaws f c
      → IsNan f p.trust_level
      → block_reason f c (p ∷ []) a ≡ none
  unfolding block_reason
  nan_blocks_nothing c p a laws h =
      rw (h.least_right f.max_value)
        (rw (max_lt-threshold f c laws a) (rw (h.lt_left c.min_trust_for_action) (ground arith)))

  decay-IsNan :
      ((x y : F) → IsNan f x → IsNan f (f.add x y))
      → (d : Option (TrustDecayConfig F)) (now last : ℕ) (x : F) → IsNan f x
      → IsNan f (decay f d now last x)
  decay-IsNan sum none now last x h = h
  decay-IsNan sum (some c) now last x h =
      let days = elapsed_days now last in
      elim (Bool-cases (long_enough days c.min_inactivity_days)) [
        | inl long ↦
            let nan : IsNan f (decayed f c days x) = sum x _ h in
            rw long (rw (clamp-nan (zero_trust f) (full_trust f) _ nan) nan)
        | inr short ↦ rw short h
      ]

module _ {F : Type 0} (f : F64 F) (parse : String → Option F) (id_text : ℕ → String) where
  newest_update-trust :
      (r : RelationshipRecord) (older : List RelationshipRecord)
      → r.signal_type ≡ trust_update
      → IsNan f (stated_trust f parse r)
      → (walk f parse (reverse (r ∷ older)) (start f)).trust_level ≡ stated_trust f parse r
  unfolding walk
  newest_update-trust r older h k =
      rw reverse-cons (trust_update_wins f parse (reverse older) [] r h)
      ∙ clamp-nan f (zero_trust f) (full_trust f) (stated_trust f parse r) k

  -- When a sum with a NaN on its left is a NaN, and the ledger knows one principal, whose newest
  -- record is a trust update that states NaN, the gate approves every action against the compiled
  -- snapshot, whatever the thresholds below the greatest number and the configured decay are.
  pub nan_update_opens_gate :
      (c : AlignConfig F) (a : AlignAction) (d : Option (TrustDecayConfig F))
      (now compiled_at p : ℕ) (l : RelationshipLedger) (r : RelationshipRecord)
      (older : List RelationshipRecord)
      → ((x y : F) → IsNan f x → IsNan f (f.add x y))
      → MinLaws f c
      → distinct_principals l ≡ p ∷ []
      → for_principal p usize_max l ≡ r ∷ older
      → r.signal_type ≡ trust_update
      → IsNan f (stated_trust f parse r)
      → block_reason f c
          (compile_relationship_snapshot f parse id_text d now compiled_at l).principals
          a
        ≡ none
  unfolding compile_relationship_snapshot summarize_all
  nan_update_opens_gate c a d now compiled_at p l r older sum laws one newest update nan = rw one (
      rw newest (
        nan_blocks_nothing f c _ a laws (
          decay-IsNan f sum d now r.timestamp _ (rw (newest_update-trust r older update nan) nan))))

-- ===== src/Relationship/Snapshot/Trust.antt =====
-- The trust levels of crates/exoskeleton-relationship/src/snapshot.rs.
use exoskeleton.Base.{
  Bool-cases, All, All-reverse, lookup, ℕ, ◌≤◌, String, ◌≡◌, refl, ◌⊎◌, inl, inr, true, false,
  Option, none, some, List, [], ◌∷◌, arith, nat_eq, string_eq,
}
use exoskeleton.Base.Float.{F64, clamp}
use exoskeleton.Relationship.Ledger.Queries.{for_principal-All}
use exoskeleton.Relationship.Ledger.{RelationshipLedger, for_principal, distinct_principals}
use mathlib.Core.List.{reverse}
use exoskeleton.Relationship.Types.{
  RelationshipRecord, RelationalSignalType, TrustDecayConfig, trust_update, commitment_made,
  commitment_fulfilled, commitment_broken, feedback_received, alignment_check, alignment_mismatch,
  tone_observation, PrincipalSummary,
}
use exoskeleton.Relationship.Snapshot.{
  Standing, zero_trust, full_trust, neutral_trust, stated_trust, sentiment_delta, is_negative,
  apply_signal, walk, decayed, decay, elapsed_days, usize_max, start, summarize_into, summarize_all,
  compile_relationship_snapshot, Days, long_enough,
}

module _ {F : Type 0} (f : F64 F) where
  -- Only NaN is not at most itself.
  abbrev pub IsNumber : F → Type 0
  IsNumber x = f.le x x ≡ true

  abbrev pub IsFinite : F → Type 0
  IsFinite x = f.le (f.abs x) f.max_value ≡ true

  abbrev pub InUnit : F → Type 0
  InUnit x = (f.le (zero_trust f) x ≡ true) × (f.le x (full_trust f) ≡ true)

  -- What IEEE 754 says of the operations that the walk uses.
  pub record TrustLaws : Type 0 where
    pub le_trans : (x y z : F) → f.le x y ≡ true → f.le y z ≡ true → f.le x z ≡ true
    pub le_of_not_lt : (x y : F) → IsNumber x → IsNumber y → f.lt x y ≡ false → f.le y x ≡ true
    pub least_cases :
        (x y : F)
        → IsNumber x
        → IsNumber y
        → ((f.least x y ≡ x) × (f.le x y ≡ true)) ⊎ ((f.least x y ≡ y) × (f.le y x ≡ true))
    pub greatest_cases :
        (x y : F)
        → IsNumber x
        → IsNumber y
        → ((f.greatest x y ≡ x) × (f.le y x ≡ true)) ⊎ ((f.greatest x y ≡ y) × (f.le x y ≡ true))
    pub add_number : (x y : F) → IsFinite x → IsFinite y → IsNumber (f.add x y)
    pub sub_number : (x y : F) → IsFinite x → IsFinite y → IsNumber (f.sub x y)
    pub add_grows :
        (x y : F)
        → IsFinite x
        → IsFinite y
        → f.le (zero_trust f) y ≡ true
        → f.le x (f.add x y) ≡ true
    pub sub_shrinks :
        (x y : F)
        → IsFinite x
        → IsFinite y
        → f.le (zero_trust f) y ≡ true
        → f.le (f.sub x y) x ≡ true
    pub unit_finite : (x : F) → InUnit x → IsFinite x
    pub decimal_finite : (m : ℕ) → m ≤ 15 → IsFinite (f.decimal m 2)
    pub decimal_positive : (m : ℕ) → f.le (zero_trust f) (f.decimal m 2) ≡ true
    pub neg_finite : (x : F) → IsFinite x → IsFinite (f.neg x)
    pub zero_unit : InUnit (zero_trust f)
    pub full_unit : InUnit (full_trust f)
    pub neutral_unit : InUnit (neutral_trust f)

module _ {F : Type 0} (f : F64 F) where
  -- The configured decay of a trust level in the range is a number, after whatever days it applies.
  abbrev pub DecaysToNumbers : Option (TrustDecayConfig F) → Type 0
  DecaysToNumbers none = Unit
  DecaysToNumbers (some c) =
      (days : Days) (x : F)
      → long_enough days c.min_inactivity_days ≡ true
      → InUnit f x
      → IsNumber f (decayed f c days x)

module _ {F : Type 0} (f : F64 F) (parse : String → Option F) where
  -- A trust update states a number: it may be infinite, but it is not NaN.
  abbrev pub IsReadable : RelationshipRecord → Type 0
  IsReadable r = r.signal_type ≡ trust_update → IsNumber f (stated_trust f parse r)

module _ {F : Type 0} (f : F64 F) (parse : String → Option F) (laws : TrustLaws f) where
  clamp-InUnit : (x : F) → IsNumber f x → InUnit f (clamp f (zero_trust f) (full_trust f) x)
  clamp-InUnit x h = elim (Bool-cases (f.lt x (zero_trust f))) [
    | inl low ↦ rw low laws.zero_unit
    | inr high_enough ↦ elim (Bool-cases (f.lt (full_trust f) x)) [
      | inl high ↦ rw high_enough (rw high laws.full_unit)
      | inr low_enough ↦ rw high_enough (
          rw low_enough (
            laws.le_of_not_lt x (zero_trust f) h laws.zero_unit.0 high_enough,
            laws.le_of_not_lt (full_trust f) x laws.full_unit.1 h low_enough,
          ))
    ]
  ]

  raised-InUnit :
      (x y : F)
      → InUnit f x
      → IsFinite f y
      → f.le (zero_trust f) y ≡ true
      → InUnit f (f.least (f.add x y) (full_trust f))
  raised-InUnit x y h k positive =
      let fin = laws.unit_finite x h in
      let grown = laws.add_number x y fin k in
      elim (laws.least_cases (f.add x y) (full_trust f) grown laws.full_unit.1) [
        | inl e ↦ rw (e.0) (
          laws.le_trans (zero_trust f) x (f.add x y) h.0 (laws.add_grows x y fin k positive),
          e.1,
        )
        | inr e ↦ rw (e.0) laws.full_unit
      ]

  lowered-InUnit :
      (x y : F)
      → InUnit f x
      → IsFinite f y
      → f.le (zero_trust f) y ≡ true
      → InUnit f (f.greatest (f.sub x y) (zero_trust f))
  lowered-InUnit x y h k positive =
      let fin = laws.unit_finite x h in
      let shrunk = laws.sub_number x y fin k in
      elim (laws.greatest_cases (f.sub x y) (zero_trust f) shrunk laws.zero_unit.0) [
        | inl e ↦ rw (e.0) (
          e.1,
          laws.le_trans (f.sub x y) x (full_trust f) (laws.sub_shrinks x y fin k positive) h.1,
        )
        | inr e ↦ rw (e.0) laws.zero_unit
      ]

  delta-IsFinite : (r : RelationshipRecord) → IsFinite f (sentiment_delta f r)
  delta-IsFinite r = elim (Bool-cases (is_negative (lookup "sentiment" r.metadata))) [
    | inl e ↦ rw e (laws.neg_finite (f.decimal 2 2) (laws.decimal_finite 2 (omega arith)))
    | inr e ↦ rw e (laws.decimal_finite 2 (omega arith))
  ]

  apply_signal-InUnit :
      (r : RelationshipRecord) (t : RelationalSignalType) (s : Standing F)
      → (t ≡ trust_update → IsNumber f (stated_trust f parse r))
      → InUnit f s.trust_level
      → InUnit f (apply_signal f parse r t s).trust_level
  unfolding apply_signal
  apply_signal-InUnit r trust_update s readable h =
      clamp-InUnit (stated_trust f parse r) (readable refl)
  apply_signal-InUnit r commitment_made s readable h = h
  apply_signal-InUnit r commitment_fulfilled s readable h =
      raised-InUnit s.trust_level (f.decimal 5 2) h (laws.decimal_finite 5 (omega arith))
        (laws.decimal_positive 5)
  apply_signal-InUnit r commitment_broken s readable h =
      lowered-InUnit s.trust_level (f.decimal 15 2) h (laws.decimal_finite 15 (omega arith))
        (laws.decimal_positive 15)
  apply_signal-InUnit r feedback_received s readable h = clamp-InUnit _ (
      laws.add_number s.trust_level (sentiment_delta f r) (laws.unit_finite s.trust_level h)
        (delta-IsFinite r))
  apply_signal-InUnit r alignment_mismatch s readable h =
      lowered-InUnit s.trust_level (f.decimal 5 2) h (laws.decimal_finite 5 (omega arith))
        (laws.decimal_positive 5)
  apply_signal-InUnit r alignment_check s readable h = h
  apply_signal-InUnit r tone_observation s readable h = h

  walk-InUnit :
      (rs : List RelationshipRecord) (s : Standing F)
      → All (IsReadable f parse) rs
      → InUnit f s.trust_level
      → InUnit f (walk f parse rs s).trust_level
  unfolding walk
  walk-InUnit [] s readable h = h
  walk-InUnit (r ∷ rs) s readable h =
      walk-InUnit rs (apply_signal f parse r r.signal_type s) readable.1
        (apply_signal-InUnit r r.signal_type s readable.0 h)

  decay-InUnit :
      (c : Option (TrustDecayConfig F)) (now last : ℕ) (x : F)
      → DecaysToNumbers f c
      → InUnit f x
      → InUnit f (decay f c now last x)
  decay-InUnit none now last x k h = h
  decay-InUnit (some c) now last x k h =
      let days = elapsed_days now last in
      elim (Bool-cases (long_enough days c.min_inactivity_days)) [
        | inl e ↦ rw e (clamp-InUnit (decayed f c days x) (k days x e h))
        | inr e ↦ rw e h
      ]

  module _ (id_text : ℕ → String) where
    summarize_into-InUnit :
        (c : Option (TrustDecayConfig F)) (now p : ℕ) (records : List RelationshipRecord)
        (later : List (PrincipalSummary F))
        → DecaysToNumbers f c
        → All (IsReadable f parse) records
        → All (λ s. InUnit f s.trust_level) later
        → All (λ s. InUnit f s.trust_level) (summarize_into f parse id_text c now p records later)
    summarize_into-InUnit c now p [] later k readable h = h
    summarize_into-InUnit c now p (r ∷ older) later k readable h = (
      decay-InUnit c now r.timestamp (walk f parse (reverse (r ∷ older)) (start f)).trust_level k (
          walk-InUnit (reverse (r ∷ older)) (start f)
            (All-reverse (IsReadable f parse) (r ∷ older) readable) laws.neutral_unit),
      h,
    )

    summarize_all-InUnit :
        (c : Option (TrustDecayConfig F)) (now : ℕ) (l : RelationshipLedger) (ps : List ℕ)
        → DecaysToNumbers f c
        → All (IsReadable f parse) l
        → All (λ s. InUnit f s.trust_level) (summarize_all f parse id_text c now l ps)
    unfolding summarize_all
    summarize_all-InUnit c now l [] k readable = tt
    summarize_all-InUnit c now l (p ∷ ps) k readable =
        summarize_into-InUnit c now p (for_principal p usize_max l) _ k
          (for_principal-All (IsReadable f parse) p usize_max l readable)
          (summarize_all-InUnit c now l ps k readable)

    -- With numbers as `TrustLaws` says, and when no trust update of the ledger states NaN and the
    -- configured decay gives numbers, every trust level of the compiled snapshot lies between 0 and
    -- 1, at every time and after every history.
    pub compile_relationship_snapshot-InUnit :
        (c : Option (TrustDecayConfig F)) (now compiled_at : ℕ) (l : RelationshipLedger)
        → DecaysToNumbers f c
        → All (IsReadable f parse) l
        → All
            (λ s. InUnit f s.trust_level)
            (compile_relationship_snapshot f parse id_text c now compiled_at l).principals
    unfolding compile_relationship_snapshot
    compile_relationship_snapshot-InUnit c now compiled_at l k readable =
        summarize_all-InUnit c now l (distinct_principals l) k readable

-- ===== src/Relationship/Snapshot/Commitments.antt =====
-- The walk of crates/exoskeleton-relationship/src/snapshot.rs over the records of a principal.
use exoskeleton.Base.{
  ℕ, ◌+◌, ◌-◌, ◌≤◌, String, ◌≡◌, refl, sym, ap, ◌∙◌, Option, List, [], ◌∷◌, ◌++◌, arith,
}
use exoskeleton.Base.Float.{F64, clamp}
use exoskeleton.Relationship.Types.{
  RelationshipRecord, RelationalSignalType, trust_update, commitment_made, commitment_fulfilled,
  commitment_broken, feedback_received, alignment_check, alignment_mismatch, tone_observation,
}
use exoskeleton.Relationship.Snapshot.{
  Standing, zero_trust, full_trust, stated_trust, apply_signal, walk, start,
}

-- 1 for a signal that makes a commitment, and for one that settles it.
abbrev made_by : RelationalSignalType → ℕ
made_by commitment_made = 1
made_by commitment_fulfilled = 0
made_by commitment_broken = 0
made_by trust_update = 0
made_by feedback_received = 0
made_by alignment_check = 0
made_by alignment_mismatch = 0
made_by tone_observation = 0

abbrev settled_by : RelationalSignalType → ℕ
settled_by commitment_made = 0
settled_by commitment_fulfilled = 1
settled_by commitment_broken = 1
settled_by trust_update = 0
settled_by feedback_received = 0
settled_by alignment_check = 0
settled_by alignment_mismatch = 0
settled_by tone_observation = 0

abbrev pub made : List RelationshipRecord → ℕ
made [] = 0
made (r ∷ rs) = made_by r.signal_type + made rs

abbrev pub settled : List RelationshipRecord → ℕ
settled [] = 0
settled (r ∷ rs) = settled_by r.signal_type + settled rs

-- With `held` commitments before, no record settles one when none is left.
abbrev pub NeverOverdrawn : ℕ → List RelationshipRecord → Type 0
NeverOverdrawn held [] = Unit
NeverOverdrawn held (r ∷ rs) =
    (settled_by r.signal_type ≤ held)
    × NeverOverdrawn (made_by r.signal_type + held - settled_by r.signal_type) rs

module _ {F : Type 0} (f : F64 F) (parse : String → Option F) where
  apply_signal-commitments :
      (r : RelationshipRecord) (t : RelationalSignalType) (s : Standing F)
      → (apply_signal f parse r t s).active_commitments
        ≡ made_by t + s.active_commitments - settled_by t
  unfolding apply_signal
  apply_signal-commitments r trust_update s = omega arith
  apply_signal-commitments r commitment_made s = omega arith
  apply_signal-commitments r commitment_fulfilled s = omega arith
  apply_signal-commitments r commitment_broken s = omega arith
  apply_signal-commitments r feedback_received s = omega arith
  apply_signal-commitments r alignment_check s = omega arith
  apply_signal-commitments r alignment_mismatch s = omega arith
  apply_signal-commitments r tone_observation s = omega arith

  walk-commitments :
      (rs : List RelationshipRecord) (s : Standing F)
      → (s.active_commitments + made rs ≤ (walk f parse rs s).active_commitments + settled rs)
        × ((walk f parse rs s).active_commitments ≤ s.active_commitments + made rs)
  unfolding walk
  walk-commitments [] s = (omega arith, omega arith)
  walk-commitments (r ∷ rs) s =
      let next = apply_signal f parse r r.signal_type s in
      let here = apply_signal-commitments r r.signal_type s in
      let after = walk-commitments rs next in
      (omega (arith, here, after), omega (arith, here, after))

  walk-balance :
      (rs : List RelationshipRecord) (s : Standing F)
      → NeverOverdrawn s.active_commitments rs
      → (walk f parse rs s).active_commitments + settled rs ≡ s.active_commitments + made rs
  unfolding walk
  walk-balance [] s h = omega arith
  walk-balance (r ∷ rs) s h =
      let next = apply_signal f parse r r.signal_type s in
      let here = apply_signal-commitments r r.signal_type s in
      let after = walk-balance rs next (rw here h.1) in omega (arith, here, after, h.0)

  -- The count of active commitments is never below the commitments made less those settled, and
  -- never above those made; it is the difference when, at each point of the history, no more were
  -- settled than had been made.
  pub active_commitments_lem :
      (rs : List RelationshipRecord)
      → let count = (walk f parse rs (start f)).active_commitments in
        (made rs ≤ count + settled rs)
        × (count ≤ made rs)
        × (NeverOverdrawn 0 rs → count + settled rs ≡ made rs)
  active_commitments_lem rs =
      let bounds = walk-commitments rs (start f) in
      (
        omega (arith, bounds),
        omega (arith, bounds),
        λ h. omega (arith, walk-balance rs (start f) h),
      )

  walk-append :
      (rs ss : List RelationshipRecord) (s : Standing F)
      → walk f parse (rs ++ ss) s ≡ walk f parse ss (walk f parse rs s)
  unfolding walk
  walk-append [] ss s = refl
  walk-append (r ∷ rs) ss s = walk-append rs ss (apply_signal f parse r r.signal_type s)

  -- The trust after a walk depends on the trust before it only.
  abbrev with_trust : F → Standing F
  with_trust t = record { trust_level = t; active_commitments = 0 }

  apply_signal-trust :
      (r : RelationshipRecord) (k : RelationalSignalType) (s : Standing F)
      → (apply_signal f parse r k s).trust_level
        ≡ (apply_signal f parse r k (with_trust s.trust_level)).trust_level
  unfolding apply_signal
  apply_signal-trust r trust_update s = refl
  apply_signal-trust r commitment_made s = refl
  apply_signal-trust r commitment_fulfilled s = refl
  apply_signal-trust r commitment_broken s = refl
  apply_signal-trust r feedback_received s = refl
  apply_signal-trust r alignment_check s = refl
  apply_signal-trust r alignment_mismatch s = refl
  apply_signal-trust r tone_observation s = refl

  walk-trust :
      (rs : List RelationshipRecord) (s : Standing F)
      → (walk f parse rs s).trust_level ≡ (walk f parse rs (with_trust s.trust_level)).trust_level
  unfolding walk
  walk-trust [] s = refl
  walk-trust (r ∷ rs) s =
      walk-trust rs (apply_signal f parse r r.signal_type s)
      ∙ ap (λ t. (walk f parse rs (with_trust t)).trust_level)
          (apply_signal-trust r r.signal_type s)
      ∙ sym (walk-trust rs (apply_signal f parse r r.signal_type (with_trust s.trust_level)))

  -- A trust update replaces the trust: the records before it have no effect on the trust level at
  -- the end, which is what the records after it make of the stated level, cut to the range from 0
  -- to 1.
  pub trust_update_wins :
      (before after : List RelationshipRecord) (r : RelationshipRecord)
      → r.signal_type ≡ trust_update
      → (walk f parse (before ++ r ∷ after) (start f)).trust_level
        ≡ (walk f parse after (record {
          trust_level = clamp f (zero_trust f) (full_trust f) (stated_trust f parse r);
          active_commitments = 0;
        })).trust_level
  unfolding walk apply_signal
  trust_update_wins before after r h =
      ap (λ (s : Standing F). s.trust_level) (walk-append before (r ∷ after) (start f))
      ∙ walk-trust after (apply_signal f parse r r.signal_type (walk f parse before (start f)))
      ∙ rw h refl

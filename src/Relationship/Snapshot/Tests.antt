-- ===== src/Relationship/Snapshot/Tests.antt =====
-- The theorems on the snapshot at concrete inputs.
use exoskeleton.Base.{
  if◌then◌else◌, any, All, AllPairs, sort_by, lookup, ◌==◌, ℕ, suc, ◌+◌, ◌<◌, String, ◌≡◌, refl,
  true, false, ◌||◌, Option, none, some, List, [], ◌∷◌, map, arith, nat_eq, string_eq,
}
use exoskeleton.Relationship.Snapshot.Nan.{IsNan, nan_update_opens_gate}
use exoskeleton.Relationship.Align.Gate.{MinLaws}
use exoskeleton.Relationship.Align.{AlignConfig, block_reason}
use exoskeleton.Relationship.Ledger.Queries.{for_principal_single}
use exoskeleton.Samples.{hundredths, hundredths_or_nan}
use exoskeleton.Relationship.Types.{
  RelationshipRecord, RelationalSignalType, trust_update, commitment_made, commitment_fulfilled,
  commitment_broken, TrustDecayConfig,
}
use exoskeleton.Relationship.Ledger.{
  RelationshipLedger, concerns, distinct_principals, for_principal,
}
use exoskeleton.Relationship.Snapshot.{
  apply_signal, walk, start, summarize_all, compile_relationship_snapshot, usize_max,
}
use exoskeleton.Relationship.Snapshot.Trust.{
  TrustLaws, InUnit, compile_relationship_snapshot-InUnit,
}
use exoskeleton.Relationship.Snapshot.Commitments.{active_commitments_lem}
use exoskeleton.Relationship.Snapshot.Principals.{
  principal_ids, compile_relationship_snapshot-principals,
}

abbrev parse_sample : String → Option ℕ
parse_sample s = if s == "0.8" then some 80 else if s == "3" then some 300 else none

abbrev id_sample : ℕ → String
id_sample p = "someone"

abbrev signal_at : RelationalSignalType → ℕ → ℕ → String → RelationshipRecord
signal_at t id p value = record {
  id = id;
  principal_id = p;
  signal_type = t;
  content_ref = 0;
  tick_id = 0;
  timestamp = id;
  metadata = ("trust_level", value) ∷ [];
}

abbrev history : RelationshipLedger
history =
    signal_at trust_update 1 7 "3"
    ∷ signal_at commitment_broken 2 7 ""
    ∷ signal_at commitment_made 3 4 ""
    ∷ signal_at commitment_made 4 7 ""
    ∷ []

-- The trust of the first principal is neutral, the other's fell from 1; a commitment that was
-- broken before any was made leaves a later one active.
history_summary :
    map {B = ℕ × ℕ × ℕ}
      (λ s. (s.principal_id, s.trust_level, s.active_commitments))
      (compile_relationship_snapshot hundredths parse_sample id_sample none 9 9 history).principals
    ≡ (4, 50, 1) ∷ (7, 85, 1) ∷ []
unfolding compile_relationship_snapshot summarize_all walk apply_signal distinct_principals
    for_principal sort_by lookup
history_summary = refl

hundredths_trust : TrustLaws hundredths
hundredths_trust = record {
  le_trans = λ x y z. ground arith;
  le_of_not_lt = λ x y h k. ground arith;
  least_cases = λ x y h k. ground arith;
  greatest_cases = λ x y h k. ground arith;
  add_number = λ x y h k. ground arith;
  sub_number = λ x y h k. ground arith;
  add_grows = λ x y h k p. ground arith;
  sub_shrinks = λ x y h k p. ground arith;
  unit_finite = λ x h. ground (arith, h.0, h.1);
  decimal_finite = λ m h. ground arith;
  decimal_positive = λ m. ground arith;
  neg_finite = λ x h. h;
  zero_unit = (refl, refl);
  full_unit = (refl, refl);
  neutral_unit = (refl, refl);
}

compile_relationship_snapshot-InUnit_example :
    All
      (λ s. InUnit hundredths s.trust_level)
      (compile_relationship_snapshot hundredths parse_sample id_sample none 9 9 history).principals
unfolding lookup
compile_relationship_snapshot-InUnit_example =
    compile_relationship_snapshot-InUnit hundredths parse_sample hundredths_trust id_sample none 9 9
      history tt (λ h. refl, (λ h. refl, (λ h. refl, (λ h. refl, tt))))

compile_relationship_snapshot-principals_example :
    let ids =
      principal_ids
        (compile_relationship_snapshot hundredths parse_sample id_sample none 9 9
          history).principals in
    AllPairs (λ p q. p < q) ids × ((p : ℕ) → any (λ q. q == p) ids ≡ any (concerns p) history)
compile_relationship_snapshot-principals_example =
    compile_relationship_snapshot-principals hundredths parse_sample id_sample none 9 9 history

abbrev kept_promise : List RelationshipRecord
kept_promise = signal_at commitment_made 1 7 "" ∷ signal_at commitment_fulfilled 2 7 "" ∷ []

active_commitments_lem_example :
    (walk hundredths parse_sample kept_promise (start hundredths)).active_commitments + 1 ≡ 1
active_commitments_lem_example =
    (active_commitments_lem hundredths parse_sample kept_promise).2 (omega arith, (omega arith, tt))

abbrev nan_sample : String → Option (Option ℕ)
nan_sample s = if s == "NaN" then some none else none

abbrev strict_gate : AlignConfig (Option ℕ)
strict_gate = record {
  min_trust_for_action = some 90;
  min_trust_for_destructive = some 95;
  destructive_tools = "fs.write" ∷ [];
  dynamic_destructive_tools = [];
  block_on_broken_commitments = true;
  min_trust_for_vessel_messaging = some 90;
  vessel_messaging_tools = [];
}

strict_laws : MinLaws hundredths_or_nan strict_gate
strict_laws = record {
  least_lt = λ a b t. least_cases a b t;
  max_lt_action = refl;
  max_lt_destructive = refl;
}
  where
    least_cases :
        (a b t : Option ℕ)
        → hundredths_or_nan.lt (hundredths_or_nan.least a b) t
          ≡ (hundredths_or_nan.lt a t || hundredths_or_nan.lt b t)
    least_cases (some a) (some b) (some t) = ground arith
    least_cases (some a) (some b) none = refl
    least_cases none b t = refl
    least_cases (some a) none t = ground arith

none-IsNan : IsNan hundredths_or_nan none
none-IsNan = record { lt_left = λ y. refl; lt_right = λ y. right y; least_right = λ y. least y }
  where
    right : (y : Option ℕ) → hundredths_or_nan.lt y none ≡ false
    right none = refl
    right (some y) = refl

    least : (y : Option ℕ) → hundredths_or_nan.least y none ≡ y
    least none = refl
    least (some y) = refl

-- A NaN of the sample is `none`.
sum-IsNan :
    (x y : Option ℕ)
    → IsNan hundredths_or_nan x
    → IsNan hundredths_or_nan (hundredths_or_nan.add x y)
sum-IsNan none y h = none-IsNan
sum-IsNan (some v) y h = absurd (
    let no : hundredths_or_nan.lt (some v) (some (suc v)) ≡ false = h.lt_left (some (suc v)) in
    ground (arith, no))

abbrev one_nan : RelationshipLedger
one_nan = signal_at trust_update 1 7 "NaN" ∷ []

one_principal : distinct_principals one_nan ≡ 7 ∷ []
unfolding distinct_principals sort_by
one_principal = refl

abbrev monthly : TrustDecayConfig (Option ℕ)
monthly = record { decay_rate = some 1; baseline = some 50; min_inactivity_days = 0 }

nan_update_opens_gate_example :
    block_reason hundredths_or_nan strict_gate
      (compile_relationship_snapshot hundredths_or_nan nan_sample id_sample
        (some monthly)
        9
        9
        one_nan).principals
      (record { tool_name = "fs.write"; rationale = "r" })
    ≡ none
unfolding lookup
nan_update_opens_gate_example =
    nan_update_opens_gate hundredths_or_nan nan_sample id_sample strict_gate
      (record { tool_name = "fs.write"; rationale = "r" }) (some monthly) 9 9 7 one_nan
      (signal_at trust_update 1 7 "NaN") [] sum-IsNan strict_laws one_principal
      (for_principal_single 7 usize_max (signal_at trust_update 1 7 "NaN") refl (omega arith)) refl
      none-IsNan

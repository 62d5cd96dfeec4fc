-- ===== src/Kernel/Amend/Order.antt =====
-- In which order crates/exoskeleton-host/src/kernel/amend.rs makes a tick durable.
use exoskeleton.Base.{All, ℕ, ◌≡◌, ◌⊎◌, Bool, true, false, List, [], ◌∷◌, ◌++◌}
use exoskeleton.Base.Errors.{ExoError, Result, ok, err}
use exoskeleton.Kernel.Amend.{
  Write, Written, acknowledge, put_snapshot, save_snapshot, put_tick, save_tick, append_event,
}

abbrev pub is_acknowledgement : Write → Bool
is_acknowledgement (acknowledge ids) = true
is_acknowledgement put_snapshot = false
is_acknowledgement save_snapshot = false
is_acknowledgement put_tick = false
is_acknowledgement save_tick = false
is_acknowledgement append_event = false

-- How a run ends: with nothing left to do, or with the error of the first write that is left.
abbrev pub Ended : (Write → Result (Unit {0})) → List Write → Result (Unit {0}) → Type 0
Ended attempt rest outcome =
    ((rest ≡ []) × (outcome ≡ ok tt))
    ⊎ ((w : Write) × (ws : List Write) × (e : ExoError) × (rest ≡ w ∷ ws)
        × (attempt w ≡ err e)
        × (outcome ≡ err e))

-- The writes that were done are the first of those asked for, each of them accepted, up to the first
-- that is refused.
abbrev pub IsPrefixRun : (Write → Result (Unit {0})) → List Write → Written → Type 0
IsPrefixRun attempt ws run =
    (rest : List Write) × (run.done ++ rest ≡ ws)
    × All (λ w. attempt w ≡ ok tt) run.done
    × Ended attempt rest run.outcome

-- The writes that come before any message is acknowledged.
abbrev pub durable : List Write
durable = put_snapshot ∷ save_snapshot ∷ put_tick ∷ save_tick ∷ append_event ∷ []

-- All the writes, of which the last is left out when there is no message.
abbrev pub all_writes : List ℕ → List Write
all_writes [] = durable
all_writes (id ∷ ids) = durable ++ acknowledge (id ∷ ids) ∷ []

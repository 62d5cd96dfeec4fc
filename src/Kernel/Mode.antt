-- ===== src/Kernel/Mode.antt =====
-- The mode of the vessel: what a decision may change (crates/exoskeleton-host/src/kernel/mod.rs) and
-- what the operator may (crates/exoskeleton-daemon/src/handlers.rs). The artifact store of the
-- daemon is a parameter: `exists` says whether it has any artifact with the id of the request, which
-- need not be that of a plan draft, and `put_approval` stores the approval.
use exoskeleton.Base.{
  if◌then◌else◌, Bool-cases, ℕ, ◌≡◌, refl, inl, inr, Bool, true, false, not, ◌||◌, Option, none,
  some, arith,
}
use exoskeleton.Base.Errors.{Result, ok, err}
use exoskeleton.Kernel.Policy.{VesselMode, normal, planning, executing}
use exoskeleton.Kernel.Idle.{request_mode}

pub data ModeReply : Type 0 where
  bad_request not_found internal_server_error approved cancelled : ModeReply

-- The answer about a plan draft, and the mode afterwards.
abbrev pub approve_found : Result Bool → Result ℕ → ModeReply × VesselMode
approve_found (err e) stored = (internal_server_error, planning)
approve_found (ok false) stored = (not_found, planning)
approve_found (ok true) (err e) = (internal_server_error, planning)
approve_found (ok true) (ok id) = (approved, executing)

abbrev pub is_planning : VesselMode → Bool
is_planning planning = true
is_planning normal = false
is_planning executing = false

abbrev pub is_normal : VesselMode → Bool
is_normal normal = true
is_normal planning = false
is_normal executing = false

unfoldable pub post_plan_approve : Result Bool → Result ℕ → VesselMode → ModeReply × VesselMode
post_plan_approve exists put_approval mode =
    if not (is_planning mode) then (bad_request, mode) else approve_found exists put_approval

pub post_plan_cancel : VesselMode → ModeReply × VesselMode
post_plan_cancel mode = if is_normal mode then (bad_request, mode) else (cancelled, normal)

-- One change of the mode: a tick's decision, an approval, or a cancellation. An approval is by the
-- reply that the operator was given.
pub data Step : VesselMode → VesselMode → Type 0 where
  decision : (requested : Option VesselMode) (m : VesselMode) → Step m (request_mode requested m)
  approval :
      (exists : Result Bool) (put_approval : Result ℕ) (m : VesselMode)
      → Step m (post_plan_approve exists put_approval m).1
  cancellation : (m : VesselMode) → Step m (post_plan_cancel m).1

pub data Run : VesselMode → VesselMode → Type 0 where
  start : (m : VesselMode) → Run m m
  next_step : {a b c : VesselMode} → Run a b → Step b c → Run a c

-- Whether the step is an approval that the daemon accepted.
abbrev pub accepts : {a b : VesselMode} → Step a b → Bool
accepts (decision requested m) = false
accepts (approval (ok true) (ok id) m) = is_planning m
accepts (approval exists put_approval m) = false
accepts (cancellation m) = false

abbrev pub accepted : {a b : VesselMode} → Run a b → Bool
accepted (start m) = false
accepted (next_step r s) = accepted r || accepts s

abbrev pub is_executing : VesselMode → Bool
is_executing executing = true
is_executing normal = false
is_executing planning = false

decision_executing :
    (requested : Option VesselMode) (m : VesselMode)
    → is_executing m ≡ false
    → is_executing (request_mode requested m) ≡ false
unfolding request_mode
decision_executing none m h = h
decision_executing (some normal) m h = ground (arith, h)
decision_executing (some planning) m h = ground (arith, h)
decision_executing (some executing) normal h = refl
decision_executing (some executing) planning h = refl
decision_executing (some executing) executing h = h

approval_executing :
    (exists : Result Bool) (put_approval : Result ℕ) (m : VesselMode)
    → accepts (approval exists put_approval m) ≡ false
    → is_executing m ≡ false
    → is_executing (post_plan_approve exists put_approval m).1 ≡ false
unfolding post_plan_approve
approval_executing exists put_approval normal k h = refl
approval_executing (err e) put_approval planning k h = refl
approval_executing (ok false) put_approval planning k h = refl
approval_executing (ok true) (err e) planning k h = refl
approval_executing (ok true) (ok id) planning k h = k
approval_executing exists put_approval executing k h = absurd cc

stays_out :
    {a b : VesselMode} (s : Step a b)
    → accepts s ≡ false
    → is_executing a ≡ false
    → is_executing b ≡ false
unfolding post_plan_cancel
stays_out (decision requested m) k h = decision_executing requested m h
stays_out (approval exists put_approval m) k h = approval_executing exists put_approval m k h
stays_out (cancellation normal) k h = refl
stays_out (cancellation planning) k h = refl
stays_out (cancellation executing) k h = refl

-- A vessel that is not executing gets there, through any sequence of decisions of the model,
-- approvals and cancellations, only by an approval that the daemon accepted: in planning mode, with
-- an id under which the artifact store has something, a plan draft or not.
pub executing_needs_approval :
    {a b : VesselMode} (r : Run a b)
    → is_executing a ≡ false
    → is_executing b ≡ true
    → accepted r ≡ true
executing_needs_approval r h k = elim (Bool-cases (accepted r)) [
  | inl e ↦ e
  | inr e ↦ absurd (ground (arith, stays r h e, k))
]
  where
    stays :
        {a b : VesselMode} (r : Run a b)
        → is_executing a ≡ false
        → accepted r ≡ false
        → is_executing b ≡ false
    stays (start m) h e = h
    stays (next_step r s) h e = stays_out s (ground (arith, e)) (stays r h (ground (arith, e)))

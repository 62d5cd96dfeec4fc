-- ===== src/Budget/Thrash/Stagnation.antt =====
-- Stagnation is the run of stalled ticks since the last success.
use exoskeleton.Base.{
  length, filter, any, is_empty, All, ℕ, suc, ◌+◌, ◌≡◌, refl, ◌∙◌, true, false, List, [], ◌∷◌, ◌++◌,
  arith,
}
use exoskeleton.Core.Tick.{TickRecord, is_success, ActionRecord}
use exoskeleton.Budget.Thrash.{
  check_stagnation, has_actions, has_successful_action, stagnation_from, stagnation_step,
}

has_actions_of_success :
    (l : List ActionRecord) → any (λ a. is_success a.outcome) l ≡ true → is_empty l ≡ false
has_actions_of_success [] h = cc
has_actions_of_success (a ∷ l) h = refl

module _ {F : Type 0} where
  abbrev pub NoSuccess : TickRecord F → Type 0
  NoSuccess t = has_successful_action t ≡ false

  stagnation_from-append :
      (n : ℕ) (ts us : List (TickRecord F))
      → stagnation_from n (ts ++ us) ≡ stagnation_from (stagnation_from n ts) us
  unfolding stagnation_from stagnation_step
  stagnation_from-append n [] us = refl
  stagnation_from-append n (t ∷ ts) us = stagnation_from-append (stagnation_step n t) ts us

  pub stagnation_from-NoSuccess :
      (n : ℕ) (us : List (TickRecord F))
      → All NoSuccess us
      → stagnation_from n us ≡ n + length (filter has_actions us)
  unfolding stagnation_from stagnation_step
  stagnation_from-NoSuccess n [] h = omega arith
  stagnation_from-NoSuccess n (u ∷ us) h =
      ground
        (arith, h.0, stagnation_from-NoSuccess n us h.1, stagnation_from-NoSuccess (suc n) us h.1)

  pub stagnation_from-success :
      (n : ℕ) (us : List (TickRecord F)) (p : TickRecord F)
      → has_successful_action p ≡ true
      → stagnation_from n (p ∷ us) ≡ stagnation_from 0 us
  unfolding stagnation_from stagnation_step
  stagnation_from-success n us p won = ground (arith, has_actions_of_success p.actions_taken won)

  stagnation_from-filter :
      (n : ℕ) (ts : List (TickRecord F))
      → stagnation_from n (filter has_actions ts) ≡ stagnation_from n ts
  unfolding stagnation_from stagnation_step
  stagnation_from-filter n [] = refl
  stagnation_from-filter n (t ∷ ts) = ground (
    arith,
    stagnation_from-filter 0 ts,
    stagnation_from-filter (suc n) ts,
    stagnation_from-filter n ts,
    has_actions_of_success t.actions_taken,
  )

  -- Once a tick has had a successful action, only what follows it counts: if no later tick has one,
  -- the stagnation is the number of later ticks that took actions, whatever came before.
  pub check_stagnation_after_success :
      (ts us : List (TickRecord F)) (p : TickRecord F)
      → has_successful_action p ≡ true
      → All NoSuccess us
      → check_stagnation (ts ++ p ∷ us) ≡ length (filter has_actions us)
  unfolding check_stagnation
  check_stagnation_after_success ts us p won stalled =
      rw (stagnation_from-append 0 ts (p ∷ us))
        (stagnation_from-success _ us p won ∙ stagnation_from-NoSuccess 0 us stalled ∙ omega arith)

  -- Ticks that took no action do not matter, wherever they stand.
  pub check_stagnation_ignores_idle :
      (ts : List (TickRecord F)) → check_stagnation (filter has_actions ts) ≡ check_stagnation ts
  unfolding check_stagnation
  check_stagnation_ignores_idle ts = stagnation_from-filter 0 ts

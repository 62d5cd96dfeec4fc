-- ===== src/Base/Errors.antt =====
-- `ExoError` (crates/exoskeleton-core/src/error.rs) and the result monad. The text of an error
-- keeps the words of its format string; the values printed into it are left out.
use exoskeleton.Base.{String, Bool, true, false}

pub data ExoError : Type 0 where
  config storage engine llm_invocation context_compilation thread_execution : String → ExoError
  relationship_violation budget_exhausted invariant_violation shutdown not_found : String → ExoError
  serde io : String → ExoError

pub data Result {ℓ} (T : Type ℓ) : Type ℓ where
  err : ExoError → Result T
  ok : T → Result T

-- The operator `?`.
infixl 5 ◌>>=◌
abbrev pub ◌>>=◌ {ℓ κ} : {T : Type ℓ} {U : Type κ} → Result T → (T → Result U) → Result U
err why >>= next = err why
ok t >>= next = next t

-- `if test { return Err(e) }`.
abbrev pub reject : Bool → ExoError → Result (Unit {0})
reject false why = ok tt
reject true why = err why

-- A check, and what follows when it passes.
infixl 5 ◌>>◌
abbrev pub ◌>>◌ {κ} : {U : Type κ} → Result (Unit {0}) → Result U → Result U
err why >> second = err why
ok done >> second = second

-- What holds of the value when there is one.
abbrev pub WhenOk {ℓ κ} : {T : Type ℓ} → (T → Type κ) → Result T → Type κ
WhenOk P (err why) = Unit
WhenOk P (ok t) = P t

pub WhenOk-bind {ℓ κ μ} :
    {T : Type ℓ} {U : Type κ} (P : U → Type μ) (r : Result T) (next : T → Result U)
    → ((t : T) → WhenOk P (next t))
    → WhenOk P (r >>= next)
WhenOk-bind P (err why) next h = tt
WhenOk-bind P (ok t) next h = h t

pub WhenOk-imp {ℓ κ μ} :
    {T : Type ℓ} {P : T → Type κ} {Q : T → Type μ} (r : Result T)
    → ((t : T) → P t → Q t)
    → WhenOk P r
    → WhenOk Q r
WhenOk-imp (err why) imp h = tt
WhenOk-imp (ok t) imp h = imp t h

pub WhenOk-then {ℓ κ μ ν} :
    {T : Type ℓ} {U : Type κ} {P : T → Type μ} (Q : U → Type ν) (r : Result T) (next : T → Result U)
    → WhenOk P r
    → ((t : T) → P t → WhenOk Q (next t))
    → WhenOk Q (r >>= next)
WhenOk-then Q (err why) next h imp = tt
WhenOk-then Q (ok t) next h imp = imp t h

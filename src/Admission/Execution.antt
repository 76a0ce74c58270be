-- ===== src/Admission/Execution.antt =====
-- ProviderExecution of providers/admission.py: one logical operation and its attempt budget.
-- Method bodies that do not await run as one step, so each is a function on the record.
use design.Common.{
  ℕ, suc, ◌-◌, Bool, true, false, ◌&&◌, Option, none, some, Key, ltb, if◌then◌else◌,
}
use mathlib.Core.Logic.{ite}
use native.Mathlib.Decide.{ℕ_discrete}

pub data OperationKind : Type 0 where
  model_discovery generation continuation tool_repair : OperationKind

pub data ExecutionState : Type 0 where
  active succeeded failed abandoned : ExecutionState

pub data CorrectionAction : Type 0 where
  retry final : CorrectionAction

pub record FailureDecision : Type 0 where
  pub retryable : Bool
  pub retry_allowed : Bool

-- An exception with what this file reads of it: its status, the answer of
-- `is_retryable_provider_error`, and the seconds of its `retry-after` header.
pub record ProviderError : Type 0 where
  pub name : Key
  pub status : Option ℕ
  pub is_retryable : Bool
  pub retry_after : Option ℕ

pub record AttemptClaim : Type 0 where
  pub execution_id : Key
  pub ordinal : ℕ
  pub operation_kind : OperationKind

unfoldable pub OperationKind-discrete : Discrete OperationKind
OperationKind-discrete = hlevel

unfoldable pub AttemptClaim-discrete : Discrete AttemptClaim
AttemptClaim-discrete = hlevel (ℕ_discrete, OperationKind-discrete)

pub record Execution : Type 0 where
  pub execution_id : Key
  pub max_attempts : ℕ
  pub request_id : Option Key
  pub attempts_started : ℕ
  pub active_claim : Option AttemptClaim
  pub last_failure : Option ProviderError
  pub state : ExecutionState

unfoldable pub start : Key → ℕ → Option Key → Execution
start execution_id max_attempts request_id = record {
  execution_id = execution_id;
  max_attempts = max_attempts;
  request_id = request_id;
  attempts_started = 0;
  active_claim = none;
  last_failure = none;
  state = active;
}

abbrev pub is_active : ExecutionState → Bool
is_active active = true
is_active _ = false

abbrev pub can_attempt : Execution → Bool
can_attempt e = is_active e.state && ltb e.attempts_started e.max_attempts

unfoldable pub attempts_remaining : Execution → ℕ
attempts_remaining e = if is_active e.state then e.max_attempts - e.attempts_started else 0

unfoldable pub succeed : Execution → Execution
succeed e = if is_active e.state then record e { state = succeeded } else e

unfoldable pub fail : Execution → ProviderError → Execution
fail e error =
    if is_active e.state then record e { last_failure = some error; state = failed } else e

unfoldable pub abandon : Execution → Execution
abandon e = if is_active e.state then record e { state = abandoned } else e

-- The two texts that `_claim_attempt` raises.
pub data ClaimError : Type 0 where
  terminal_or_exhausted already_active : ClaimError

pub data ClaimResult : Type 0 where
  claimed : Execution → AttemptClaim → ClaimResult
  refused : ClaimError → ClaimResult

abbrev pub next_claim : Execution → OperationKind → AttemptClaim
next_claim e kind = record {
  execution_id = e.execution_id;
  ordinal = suc e.attempts_started;
  operation_kind = kind;
}

unfoldable pub claim_attempt : Execution → OperationKind → ClaimResult
claim_attempt e kind =
    if can_attempt e
    then elim e.active_claim [
      | some _ ↦ refused already_active
      | none ↦
          claimed
            (record e {
              attempts_started = suc e.attempts_started;
              active_claim = some (next_claim e kind);
            })
            (next_claim e kind)
    ]
    else refused terminal_or_exhausted

-- `self._active_claim == claim`, a comparison of the dataclass's fields.
unfoldable pub clear_claim : Option AttemptClaim → AttemptClaim → Option AttemptClaim
clear_claim none claim = none
clear_claim (some c) claim = ite (AttemptClaim-discrete c claim) none (some c)

unfoldable pub close_attempt : Execution → AttemptClaim → Execution
unfolding clear_claim
close_attempt e claim = record e { active_claim = clear_claim e.active_claim claim }

unfoldable pub record_failure : Execution → ProviderError → Execution
record_failure e error = if is_active e.state then record e { last_failure = some error } else e

abbrev pub fail_recovery : Execution → ProviderError → Execution
fail_recovery e error = fail e error

abbrev failure_of : ExecutionState → Option ProviderError → Option ProviderError
failure_of failed last = last
failure_of _ last = none

abbrev pub terminal_failure : Execution → Option ProviderError
terminal_failure e = failure_of e.state e.last_failure

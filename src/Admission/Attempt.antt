-- ===== src/Admission/Attempt.antt =====
-- ProviderAttempt of providers/admission.py with the controller that owns it. An attempt object is
-- its position in the list of all attempts. A method runs as one step, but for `aclose`; where the
-- source awaits the condition's lock inside another one, no other task is taken to run in between.
pub mod Touches
pub mod Invariant
pub mod Runs
pub mod Methods
use design.Common.{
  ℕ, zero, suc, Bool, true, false, ◌||◌, Option, none, some, List, [], ◌∷◌, ◌++◌, Key,
  if◌then◌else◌, from_option, length, get_elem?, set,
}
use design.Admission.Execution.{
  Execution, ProviderError, AttemptClaim, OperationKind, CorrectionAction, retry, final,
  FailureDecision, ClaimResult, claimed, refused, can_attempt, start, record_failure, fail,
  close_attempt, claim_attempt,
}
use design.Admission.Gate.{
  Gate, Permit, update, attempt_accepted, attempt_rejected, attempt_corrected, attempt_abandoned,
  attempt_failed, permit_is_current, abandon_probe_permit,
}

pub record Attempt : Type 0 where
  pub execution : Key
  pub permit : Permit
  pub claim : AttemptClaim
  pub resolved : Bool
  pub accepted : Bool
  pub closed : Bool
  -- A call of `aclose` awaits the abandonment.
  pub closing : Bool

-- The controller with its semaphore's free slots, and the attempts opened so far.
pub record System : Type 0 where
  pub gate : Gate
  pub free_slots : ℕ
  pub attempts : List Attempt

abbrev pub execution_at : System → Key → Execution
execution_at s e = s.gate.executions e

abbrev pub with_gate : System → Gate → System
with_gate s g = record s { gate = g }

abbrev pub set_execution : Gate → Key → Execution → Gate
set_execution g e x = record g { executions = update g.executions e x }

abbrev pub with_execution : System → Key → Execution → System
with_execution s e x = with_gate s (set_execution s.gate e x)

abbrev pub on_attempt {ℓ} : {A : Type ℓ} → System → ℕ → A → (Attempt → A) → A
on_attempt s i absent f = from_option (get_elem? s.attempts i) absent f

-- `_resolve`: only the first outcome counts.
unfoldable pub resolve : Attempt → (accepted : Bool) → Attempt
resolve a accepted = if a.resolved then a else record a { resolved = true; accepted = accepted }

abbrev pub resolve_at : System → ℕ → Attempt → (accepted : Bool) → System
resolve_at s i a accepted = record s { attempts = set s.attempts i (resolve a accepted) }

abbrev pub is_done : Attempt → Bool
is_done a = a.resolved || a.closed

unfoldable pub start_execution : System → Key → (max_attempts : ℕ) → Option Key → System
unfolding start
start_execution s e max_attempts request_id = with_execution s e (start e max_attempts request_id)

unfoldable pub accept : System → ℕ → System
unfolding attempt_accepted resolve
accept s i = on_attempt s i s λ a.
    if is_done a
    then s
    else resolve_at (with_gate s (attempt_accepted s.gate a.execution a.permit)) i a true

unfoldable pub correct_attempt :
    System → ℕ → Attempt → ProviderError → ℕ → System × CorrectionAction
unfolding record_failure fail attempt_corrected attempt_rejected resolve
correct_attempt s i a error now =
    let noted = with_execution s a.execution (record_failure (execution_at s a.execution) error) in
    if can_attempt (execution_at noted a.execution)
    then (
      resolve_at (with_gate noted (attempt_corrected noted.gate a.execution a.permit now)) i a
          false,
      retry,
    )
    else (let rejected = with_gate noted (attempt_rejected noted.gate a.execution a.permit) in
        (
          resolve_at
              (with_execution rejected a.execution (fail (execution_at rejected a.execution) error))
              i a false,
          final,
        ))

unfoldable pub correct : System → ℕ → ProviderError → (now : ℕ) → System × CorrectionAction
unfolding correct_attempt
correct s i error now =
    on_attempt s i (s, final) λ a. if is_done a then (s, final) else correct_attempt s i a error now

abbrev pub Override : Type 0
Override = Option (ProviderError → Option ProviderError)

abbrev or_else : Option ProviderError → ProviderError → ProviderError
or_else none error = error
or_else (some e) error = e

unfoldable pub effective_error : Override → ProviderError → ProviderError
effective_error none error = error
effective_error (some override) error = or_else (override error) error

unfoldable pub fail_rejected : System → ℕ → Attempt → ProviderError → System
unfolding attempt_rejected fail resolve
fail_rejected s i a error =
    let rejected = with_gate s (attempt_rejected s.gate a.execution a.permit) in
    resolve_at
      (with_execution rejected a.execution (fail (execution_at rejected a.execution) error)) i a
      false

unfoldable pub fail_retryable :
    System → ℕ → Attempt → ProviderError → (now delay terminal_delay : ℕ) → System × Bool
unfolding attempt_failed fail resolve
fail_retryable s i a error now delay terminal_delay =
    let noted =
      with_gate s (attempt_failed s.gate a.execution a.permit error now delay terminal_delay) in
    if can_attempt (execution_at noted a.execution) then (resolve_at noted i a false, true) else (
      resolve_at (with_execution noted a.execution (fail (execution_at noted a.execution) error)) i
          a false,
      false,
    )

abbrev pub decision : Bool → Bool → FailureDecision
decision retryable retry_allowed = record { retryable = retryable; retry_allowed = retry_allowed }

unfoldable pub fail_attempt :
    System
    → ℕ
    → Attempt
    → Override
    → ProviderError
    → (now delay terminal_delay : ℕ) → System × FailureDecision
unfolding effective_error record_failure fail_rejected fail_retryable
fail_attempt s i a override error now delay terminal_delay =
    let noted = with_execution s a.execution (record_failure (execution_at s a.execution) error) in
    if (effective_error override error).is_retryable
    then (let (s', allowed) = fail_retryable noted i a error now delay terminal_delay in
        (s', decision true allowed))
    else (fail_rejected noted i a error, decision false false)

-- `ProviderAttempt.fail`.
unfoldable pub fail_at :
    System
    → ℕ
    → Override
    → ProviderError
    → (now delay terminal_delay : ℕ) → System × FailureDecision
unfolding fail_attempt
fail_at s i override error now delay terminal_delay =
    on_attempt s i (s, decision false false)
      λ a.
        if is_done a
        then (s, decision false false)
        else fail_attempt s i a override error now delay terminal_delay

abbrev pub close_fields : Attempt → Attempt
close_fields a = record (resolve a false) { closing = false }

-- The `finally` clauses of `aclose`: the attempt is resolved, the claim and the slot are given back.
unfoldable pub release : System → ℕ → Attempt → System
unfolding close_attempt resolve
release s i a =
    let unclaimed =
      with_execution s a.execution (close_attempt (execution_at s a.execution) a.claim) in
    record unclaimed {
      free_slots = suc unclaimed.free_slots;
      attempts = set unclaimed.attempts i (close_fields a);
    }

abbrev pub begin_close : Attempt → Attempt
begin_close a = record a { closed = true; closing = true }

-- `aclose` up to its await, and to its end if the attempt is resolved. Otherwise the abandonment of
-- the attempt is a task of its own, and `end_close` goes on after it, or before it when the call is
-- cancelled.
unfoldable pub aclose : System → ℕ → System
unfolding release
aclose s i = on_attempt s i s λ a.
    if a.closed
    then s
    else (if a.resolved
        then release s i (begin_close a)
        else record s { attempts = set s.attempts i (begin_close a) })

unfoldable pub end_close : System → ℕ → System
unfolding release
end_close s i = on_attempt s i s λ a. if a.closing then release s i a else s

-- What the task does when it holds the semaphore: go round the loop, raise, or hold an attempt.
pub data Opened : Type 0 where
  again raised : Opened
  opened : (index : ℕ) → Opened

abbrev pub new_attempt : Key → Permit → AttemptClaim → Attempt
new_attempt e permit claim = record {
  execution = e;
  permit = permit;
  claim = claim;
  resolved = false;
  accepted = false;
  closed = false;
  closing = false;
}

unfoldable pub finish_open : System → ℕ → Key → Permit → (now : ℕ) → ClaimResult → System × Opened
unfolding attempt_abandoned
finish_open s slots e permit now (refused _) =
    (with_gate s (abandon_probe_permit s.gate e permit now), raised)
finish_open s slots e permit now (claimed x claim) =
    let held = with_execution s e x in
    (
      record held {
        free_slots = slots;
        attempts = held.attempts ++ new_attempt e permit claim ∷ [];
      },
      opened (length s.attempts),
    )

-- `_open_attempt` from the semaphore on, when one of its slots is free. The slot is taken, and
-- given back on every path that opens no attempt.
unfoldable pub take_slot_from :
    (free_slots : ℕ) → System → Key → Permit → OperationKind → (now : ℕ) → System × Opened
unfolding permit_is_current attempt_abandoned claim_attempt finish_open
take_slot_from zero s e permit kind now = (s, again)
take_slot_from (suc slots) s e permit kind now =
    if permit_is_current s.gate e permit
    then finish_open s slots e permit now (claim_attempt (execution_at s e) kind)
    else (with_gate s (abandon_probe_permit s.gate e permit now), again)

unfoldable pub take_slot : System → Key → Permit → OperationKind → (now : ℕ) → System × Opened
unfolding take_slot_from
take_slot s = take_slot_from s.free_slots s

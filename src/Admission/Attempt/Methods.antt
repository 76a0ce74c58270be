-- ===== src/Admission/Attempt/Methods.antt =====
-- `accept`, `correct` and `fail` of an attempt neither take nor give a slot.
use design.Common.{ℕ, ◌≡◌, Bool, true, false, some, if_ind, from_option_ind, get_elem?}
use design.Admission.Execution.{
  ProviderError, CorrectionAction, FailureDecision, record_failure, can_attempt,
}
use design.Admission.Gate.{Gate, attempt_failed}
use design.Admission.Attempt.{
  Attempt, System, set_execution, is_done, accept, correct, correct_attempt, fail_at, fail_attempt,
  effective_error, Override,
}
use design.Admission.Attempt.Touches.{
  Touches, Touches-refl, GateTouches-trans, resolve_at-Touches, accepted-Touches, rejected-Touches,
  corrected-Touches, failed-Touches, failing-Touches, noted_then-Touches,
}

pub accept-Touches : (s : System) (i : ℕ) → Touches s (accept s i)
unfolding accept
accept-Touches s i = from_option_ind (Touches s) (get_elem? s.attempts i) (Touches-refl s) λ a here.
    if_ind (Touches s) (is_done a) (Touches-refl s)
      (resolve_at-Touches s _ i a true here (accepted-Touches s.gate a.execution a.permit))

module _ (s : System) (i : ℕ) (a : Attempt) (here : get_elem? s.attempts i ≡ some a)
    (error : ProviderError) where
  noted : Gate
  noted = set_execution s.gate a.execution (record_failure (s.gate.executions a.execution) error)

  correct_attempt-Touches : (now : ℕ) → Touches s (correct_attempt s i a error now).0
  unfolding correct_attempt noted
  correct_attempt-Touches now =
      if_ind (λ (r : System × CorrectionAction). Touches s r.0)
        (can_attempt (noted.executions a.execution))
        (resolve_at-Touches s _ i a false here (
          noted_then-Touches s.gate a.execution error _
            (corrected-Touches noted a.execution a.permit now)))
        (resolve_at-Touches s _ i a false here (
          noted_then-Touches s.gate a.execution error _ (
            GateTouches-trans noted _ _ (rejected-Touches noted a.execution a.permit)
              (failing-Touches _ a.execution error))))

  fail_attempt-Touches :
      (override : Override) (now delay terminal_delay : ℕ)
      → Touches s (fail_attempt s i a override error now delay terminal_delay).0
  unfolding fail_attempt noted
  fail_attempt-Touches override now delay terminal_delay =
      if_ind (λ (r : System × FailureDecision). Touches s r.0)
        (effective_error override error).is_retryable
        (if_ind (λ (r : System × Bool). Touches s r.0)
          (can_attempt (
            (attempt_failed noted a.execution a.permit error now delay terminal_delay).executions
              a.execution))
          (resolve_at-Touches s _ i a false here (
            noted_then-Touches s.gate a.execution error _
              (failed-Touches noted a.execution a.permit error now delay terminal_delay)))
          (resolve_at-Touches s _ i a false here (
            noted_then-Touches s.gate a.execution error _ (
              GateTouches-trans noted _ _
                (failed-Touches noted a.execution a.permit error now delay terminal_delay)
                (failing-Touches _ a.execution error)))))
        (resolve_at-Touches s _ i a false here (
          noted_then-Touches s.gate a.execution error _ (
            GateTouches-trans noted _ _ (rejected-Touches noted a.execution a.permit)
              (failing-Touches _ a.execution error))))

pub correct-Touches :
    (s : System) (i : ℕ) (error : ProviderError) (now : ℕ) → Touches s (correct s i error now).0
unfolding correct
correct-Touches s i error now =
    from_option_ind (λ (r : System × CorrectionAction). Touches s r.0) (get_elem? s.attempts i)
      (Touches-refl s)
      λ a here.
        if_ind (λ (r : System × CorrectionAction). Touches s r.0) (is_done a) (Touches-refl s)
          (correct_attempt-Touches s i a here error now)

pub fail_at-Touches :
    (s : System) (i : ℕ) (override : Override) (error : ProviderError)
    (now delay terminal_delay : ℕ)
    → Touches s (fail_at s i override error now delay terminal_delay).0
unfolding fail_at
fail_at-Touches s i override error now delay terminal_delay =
    from_option_ind (λ (r : System × FailureDecision). Touches s r.0) (get_elem? s.attempts i)
      (Touches-refl s)
      λ a here.
        if_ind (λ (r : System × FailureDecision). Touches s r.0) (is_done a) (Touches-refl s)
          (fail_attempt-Touches s i a here error override now delay terminal_delay)

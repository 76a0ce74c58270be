-- ===== src/Admission/Samples.antt =====
-- The properties of the provider's admission on small runs.
use native.Mathlib.Decide.{ℕ_discrete}
use design.Common.{
  ℕ, ◌+◌, ◌≤◌, ◌<◌, max, ◌≡◌, ◌≢◌, ◌⊎◌, refl, true, false, none, some, is_some, [], ◌∷◌, Key,
  get_elem?, set, contains, if◌then◌else◌, arith,
}
use design.Admission.Execution.{
  Execution, ProviderError, generation, active, fail, AttemptClaim-discrete, OperationKind-discrete,
  terminal_failure,
}
use design.Admission.Delay.{Backoff, retry_delay, retry_delay_bounds}
use design.Admission.Gate.{
  Gate, Episode, normal_permit, probe_permit, wait_for_gate, matching_probe, attempt_failed,
  permit_is_current, wait, granted, exhausted, attempt_accepted, attempt_abandoned,
}
use design.Admission.Gate.Valid.{GateIsValid}
use design.Admission.Gate.Recovery.{
  wait_for_gate-one_probe, wait_for_gate-granted, permit_is_current-matching,
  attempt_accepted-opens, attempt_abandoned-hands_over, attempt_failed-ends_episode,
}
use design.Admission.Attempt.{
  System, Attempt, start_execution, take_slot, fail_at, aclose, end_close, with_gate,
}
use design.Admission.Attempt.Invariant.{IsSound}
use design.Admission.Attempt.Runs.{
  Run, here, next, starts, opens, fails, closes, drops, goes_on, polls, IsInitial, Run-IsSound,
  Run-one_probe,
}

abbrev overloaded : ProviderError
overloaded = record { name = 529; status = some 529; is_retryable = true; retry_after = some 9 }

abbrev unstarted : Key → Execution
unstarted e = record {
  execution_id = e;
  max_attempts = 0;
  request_id = none;
  attempts_started = 0;
  active_claim = none;
  last_failure = none;
  state = active;
}

abbrev initial : System
initial = record {
  gate = record { episode = none; next_generation = 1; executions = unstarted };
  free_slots = 2;
  attempts = [];
}

initial-IsInitial : IsInitial 2 initial
initial-IsInitial = record {
  no_attempts = refl;
  all_free = refl;
  no_episode = refl;
  unstarted = λ e. refl;
}

-- Execution 7 starts, fails its first attempt, and comes back as the probe of generation 1.
abbrev started : System
started = start_execution initial 7 3 none

abbrev first_open : System
first_open = (take_slot started 7 normal_permit generation 10).0

abbrev first_failed : System
first_failed = (fail_at first_open 0 none overloaded 20 5 5).0

abbrev first_closed : System
first_closed = aclose first_failed 0

abbrev polled : System
polled = with_gate first_closed (wait_for_gate first_closed.gate 7 30).0

abbrev probing : System
probing = (take_slot polled 7 (record { generation = some 1; probe = true }) generation 30).0

probing-Run : Run initial probing
unfolding get_elem?
probing-Run =
    next
      (next
        (next
          (next
            (next (next here (starts 7 3 none (λ i a p. ground (arith))))
              (opens 7 normal_permit generation 10))
            (fails 0 none overloaded 20 5 5))
          (closes 0))
        (polls 7 30))
      (opens 7 (record { generation = some 1; probe = true }) generation 30)

-- The probe is closed without an outcome: its abandonment runs while it still holds its slot.
abbrev abandoned : System
abandoned =
    let closing = aclose probing 1 in
    with_gate closing
      (attempt_abandoned closing.gate 7 (record { generation = some 1; probe = true }) 31)

abbrev given_back : System
given_back = end_close abandoned 1

given_back-Run : Run initial given_back
given_back-Run =
    next
      (next (next probing-Run (closes 1))
        (drops 7 (record { generation = some 1; probe = true }) 31))
      (goes_on 1)

Run-IsSound_example : IsSound 2 given_back
Run-IsSound_example = Run-IsSound 2 initial initial-IsInitial given_back-Run

program : Unit {0}
unfolding start_execution take_slot fail_at aclose end_close attempt_abandoned wait_for_gate
    matching_probe permit_is_current get_elem? set AttemptClaim-discrete ℕ_discrete
    OperationKind-discrete
program = tt

abandoned-slots : abandoned.free_slots ≡ 1
unfolding program
abandoned-slots = refl

given_back-slots : given_back.free_slots ≡ 2
unfolding program
given_back-slots = refl

abbrev second_attempt : Attempt
second_attempt = record {
  execution = 7;
  permit = record { generation = some 1; probe = true };
  claim = record { execution_id = 7; ordinal = 2; operation_kind = generation };
  resolved = false;
  accepted = false;
  closed = false;
  closing = false;
}

second_there : get_elem? probing.attempts 1 ≡ some second_attempt
unfolding program
second_there = refl

second_is_probe :
    is_some (matching_probe probing.gate second_attempt.execution second_attempt.permit) ≡ true
unfolding program
second_is_probe = refl

second_probes : matching_probe probing.gate second_attempt.execution second_attempt.permit ≢ none
second_probes h = ground (arith, rw h at second_is_probe)

Run-one_probe_example : ◌≡◌ {A = ℕ} 1 1
Run-one_probe_example =
    Run-one_probe 2 initial 1 1 second_attempt second_attempt initial-IsInitial probing-Run
      second_there second_there refl refl second_probes second_probes

-- Execution 7 probes for generation 1, and 8 waits.
abbrev probe : Episode
probe = record {
  generation = 1;
  leader = some 7;
  ready_at = 20;
  last_error = overloaded;
  waiters = 8 ∷ [];
  probe_active = true;
  terminal_until = none;
}

abbrev probed : Gate
probed = record { episode = some probe; next_generation = 2; executions = unstarted }

probed-IsValid : GateIsValid probed
probed-IsValid = record {
  fresh = omega arith;
  probe_has_leader = λ _. refl;
  no_leader = λ h. ground (arith);
  no_waiters = λ h. ground (arith);
}

probed-matching : matching_probe probed 7 (probe_permit probe) ≡ some probe
unfolding program
probed-matching = refl

wait_for_gate-one_probe_example :
    ((wait_for_gate probed 8 21).1 ≡ wait)
    ⊎ ((error : ProviderError) × ((wait_for_gate probed 8 21).1 ≡ exhausted error)
        × (terminal_failure (unstarted 8) ≡ some error))
wait_for_gate-one_probe_example = wait_for_gate-one_probe probed 8 21 probe probed-IsValid refl refl

abbrev idle : Gate
idle = record probed { episode = some (record probe { leader = none; probe_active = false }) }

idle-IsValid : GateIsValid idle
idle-IsValid = record {
  fresh = omega arith;
  probe_has_leader = λ h. ground (arith);
  no_leader = λ _. refl;
  no_waiters = λ h. ground (arith);
}

idle-grants : (wait_for_gate idle 8 21).1 ≡ granted (probe_permit probe)
unfolding program
idle-grants = refl

wait_for_gate-granted_example :
    (permit_is_current (wait_for_gate idle 8 21).0 8 (probe_permit probe) ≡ true)
    × (true ≡ is_some (wait_for_gate idle 8 21).0.episode)
wait_for_gate-granted_example =
    wait_for_gate-granted idle 8 21 (probe_permit probe) idle-IsValid idle-grants

permit_is_current-matching_example :
    permit_is_current probed 7 (probe_permit probe)
    ≡ is_some (matching_probe probed 7 (probe_permit probe))
permit_is_current-matching_example =
    permit_is_current-matching probed 7 (probe_permit probe) probed-IsValid refl

attempt_accepted-opens_example :
    (wait_for_gate (attempt_accepted probed 7 (probe_permit probe)) 8 21).1 ≡ granted normal_permit
attempt_accepted-opens_example =
    attempt_accepted-opens probed 7 8 (probe_permit probe) probe 21 probed-matching refl

attempt_abandoned-hands_over_example :
    (wait_for_gate (attempt_abandoned probed 7 (probe_permit probe) 21) 8 22).1
    ≡ granted (probe_permit probe)
attempt_abandoned-hands_over_example =
    attempt_abandoned-hands_over probed 7 8 (probe_permit probe) probe 21 22 probed-IsValid
      probed-matching refl (omega arith)

attempt_failed-ends_episode_example :
    let g' = attempt_failed probed 7 (probe_permit probe) overloaded 21 5 5 in
    ((k : Key)
      → g'.executions k
        ≡ (if contains k (8 ∷ []) then fail (unstarted k) overloaded else unstarted k))
    × ((k : Key) (later : ℕ)
        → later < 21 + 5
        → (x : ProviderError) × ((wait_for_gate g' k later).1 ≡ exhausted x)
          × ((terminal_failure (g'.executions k) ≡ some x) ⊎ (x ≡ overloaded)))
attempt_failed-ends_episode_example =
    attempt_failed-ends_episode probed 7 (probe_permit probe) probe overloaded 21 5 5
      probed-matching refl

abbrev backoff : Backoff
backoff = record { base_delay = 2; max_delay = 60; jitter = 1 }

retry_delay_bounds_example :
    (2 ≤ retry_delay backoff 1 overloaded 3)
    × (9 ≤ retry_delay backoff 1 overloaded 3)
    × (retry_delay backoff 1 overloaded 3 ≤ max 61 9)
retry_delay_bounds_example = retry_delay_bounds backoff 1 overloaded 3 (omega arith) (omega arith)

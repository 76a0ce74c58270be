-- ===== src/Admission/Attempt/Runs.antt =====
-- All interleavings of the controller's operations, and what holds in every state that they reach.
use design.Common.{ℕ, ap, ◌≢◌, ◌≡◌, false, Option, none, some, [], get_elem?, count, Key, arith}
use design.Admission.Execution.{Execution, OperationKind, ProviderError, fail, succeed, abandon}
use design.Admission.Gate.{
  Gate, Permit, wait_for_gate, wake_leader, cancel_waiter, abandon_waiting_leader,
  attempt_abandoned, matching_probe,
}
use design.Admission.Gate.Keeps.{
  SameCore, wait_for_gate-Keeps, wake_leader-Keeps, cancel_waiter-Keeps,
  abandon_waiting_leader-Keeps,
}
use design.Admission.Gate.Valid.{
  GateIsValid, wait_for_gate-IsValid, wake_leader-IsValid, cancel_waiter-IsValid,
  abandon_waiting_leader-IsValid,
}
use design.Admission.Attempt.{
  Attempt, System, with_gate, with_execution, execution_at, accept, correct, fail_at, aclose,
  end_close, take_slot, start_execution, Override,
}
use design.Admission.Attempt.Touches.{
  GateTouches, set_execution-Touches, with_gate-Touches, abandoned-Touches,
}
use design.Admission.Attempt.Methods.{accept-Touches, correct-Touches, fail_at-Touches}
use design.Admission.Attempt.Invariant.{
  IsSound, Touches-IsSound, aclose-IsSound, end_close-IsSound, take_slot-IsSound, IsFresh,
  start_execution-IsSound,
}

-- One step of some task. A task that waits for the limiter or the semaphore carries a permit that
-- it got earlier; the step is taken for any permit whatever. A call of `aclose` that awaits the
-- abandonment, which `drops` is, goes on at any time after it began.
pub data Step (s : System) : System → Type 0 where
  starts :
      (e : Key) (max_attempts : ℕ) (request_id : Option Key)
      → IsFresh s e
      → Step s (start_execution s e max_attempts request_id)
  polls : (e : Key) (now : ℕ) → Step s (with_gate s (wait_for_gate s.gate e now).0)
  wakes : (e : Key) (generation : ℕ) → Step s (with_gate s (wake_leader s.gate e generation).0)
  cancels : (e : Key) (generation : ℕ) → Step s (with_gate s (cancel_waiter s.gate e generation))
  leaves :
      (e : Key) (generation : ℕ) → Step s (with_gate s (abandon_waiting_leader s.gate e generation))
  drops :
      (e : Key) (permit : Permit) (now : ℕ)
      → Step s (with_gate s (attempt_abandoned s.gate e permit now))
  opens :
      (e : Key) (permit : Permit) (kind : OperationKind) (now : ℕ)
      → Step s (take_slot s e permit kind now).0
  accepts : (i : ℕ) → Step s (accept s i)
  corrects : (i : ℕ) (error : ProviderError) (now : ℕ) → Step s (correct s i error now).0
  fails :
      (i : ℕ) (override : Override) (error : ProviderError) (now delay terminal_delay : ℕ)
      → Step s (fail_at s i override error now delay terminal_delay).0
  closes : (i : ℕ) → Step s (aclose s i)
  goes_on : (i : ℕ) → Step s (end_close s i)
  ends_succeeded : (e : Key) → Step s (with_execution s e (succeed (execution_at s e)))
  ends_failed :
      (e : Key) (error : ProviderError)
      → Step s (with_execution s e (fail (execution_at s e) error))
  ends_abandoned : (e : Key) → Step s (with_execution s e (abandon (execution_at s e)))

pub data Run (s : System) : System → Type 0 where
  here : Run s s
  next : {t u : System} → Run s t → Step t u → Run s u

GateTouches-same :
    (g h : Gate) → h.executions ≡ g.executions → (GateIsValid g → GateIsValid h) → GateTouches g h
GateTouches-same g h same valid = record {
  keeps = λ k. ground (arith, ap (λ (f : Key → Execution). f k) same);
  stays_valid = valid;
}

succeed-SameCore : (x : Execution) → SameCore x (succeed x)
unfolding succeed
succeed-SameCore x = ground arith

fail-SameCore : (x : Execution) (error : ProviderError) → SameCore x (fail x error)
unfolding fail
fail-SameCore x error = ground arith

abandon-SameCore : (x : Execution) → SameCore x (abandon x)
unfolding abandon
abandon-SameCore x = ground arith

module _ (capacity : ℕ) (s : System) (v : IsSound capacity s) where
  by_gate : (g : Gate) → GateTouches s.gate g → IsSound capacity (with_gate s g)
  by_gate g touch = Touches-IsSound capacity s (with_gate s g) (with_gate-Touches s g touch) v

  by_execution :
      (e : Key) (x : Execution)
      → SameCore (execution_at s e) x
      → IsSound capacity (with_execution s e x)
  by_execution e x same = by_gate _ (set_execution-Touches s.gate e x same)

  pub Step-IsSound : {t : System} → Step s t → IsSound capacity t
  Step-IsSound (starts e max_attempts request_id fresh) =
      start_execution-IsSound capacity s e max_attempts request_id v fresh
  Step-IsSound (polls e now) = by_gate _ (
      GateTouches-same s.gate _ (wait_for_gate-Keeps s.gate e now)
        (λ w. wait_for_gate-IsValid s.gate w e now))
  Step-IsSound (wakes e generation) = by_gate _ (
      GateTouches-same s.gate _ (wake_leader-Keeps s.gate e generation)
        (λ w. wake_leader-IsValid s.gate w e generation))
  Step-IsSound (cancels e generation) = by_gate _ (
      GateTouches-same s.gate _ (cancel_waiter-Keeps s.gate e generation)
        (λ w. cancel_waiter-IsValid s.gate w e generation))
  Step-IsSound (leaves e generation) = by_gate _ (
      GateTouches-same s.gate _ (abandon_waiting_leader-Keeps s.gate e generation)
        (λ w. abandon_waiting_leader-IsValid s.gate w e generation))
  Step-IsSound (drops e permit now) = by_gate _ (abandoned-Touches s.gate e permit now)
  Step-IsSound (opens e permit kind now) = take_slot-IsSound capacity s v e permit kind now
  Step-IsSound (accepts i) = Touches-IsSound capacity s _ (accept-Touches s i) v
  Step-IsSound (corrects i error now) =
      Touches-IsSound capacity s _ (correct-Touches s i error now) v
  Step-IsSound (fails i override error now delay terminal_delay) =
      Touches-IsSound capacity s _ (fail_at-Touches s i override error now delay terminal_delay) v
  Step-IsSound (closes i) = aclose-IsSound capacity s v i
  Step-IsSound (goes_on i) = end_close-IsSound capacity s v i
  Step-IsSound (ends_succeeded e) = by_execution e _ (succeed-SameCore (execution_at s e))
  Step-IsSound (ends_failed e error) = by_execution e _ (fail-SameCore (execution_at s e) error)
  Step-IsSound (ends_abandoned e) = by_execution e _ (abandon-SameCore (execution_at s e))

-- A controller before its first execution.
pub record IsInitial (capacity : ℕ) (s : System) : Type 0 where
  pub no_attempts : s.attempts ≡ []
  pub all_free : s.free_slots ≡ capacity
  pub no_episode : s.gate.episode ≡ none
  pub unstarted : (e : Key) → (execution_at s e).attempts_started ≡ 0

IsInitial-IsSound : (capacity : ℕ) (s : System) → IsInitial capacity s → IsSound capacity s
unfolding get_elem? count
IsInitial-IsSound capacity s h = record {
  budget = λ e. ground (arith, h.unstarted e);
  owned = λ i a p. ground (arith, h.no_attempts);
  sole = λ i j a b p q. ground (arith, h.no_attempts);
  begun = λ i a p. ground (arith, h.no_attempts);
  slots = ground (arith, h.no_attempts, h.all_free);
  valid = ground (arith, h.no_episode);
}

-- In every state that the operations reach from a new controller, in any order, no execution has
-- started more attempts than it may, no more attempts hold a slot than there are slots, an attempt
-- that is not closed, or still closes, is its execution's active claim and its only such attempt,
-- and the recovery episode is valid.
pub Run-IsSound :
    (capacity : ℕ) (s : System) {t : System} → IsInitial capacity s → Run s t → IsSound capacity t
Run-IsSound capacity s h here = IsInitial-IsSound capacity s h
Run-IsSound capacity s h (next r step) = Step-IsSound capacity _ (Run-IsSound capacity s h r) step

matching_probe-leader :
    (g : Gate) (e k : Key) (permit other : Permit)
    → matching_probe g e permit ≢ none
    → matching_probe g k other ≢ none
    → e ≡ k
unfolding matching_probe
matching_probe-leader g e k permit other p q = ground arith

-- In every state that the operations reach from a new controller at most one open attempt probes
-- for the open episode: two open attempts whose permits match it are one.
pub Run-one_probe :
    (capacity : ℕ) (s : System) {t : System} (i j : ℕ) (a b : Attempt)
    → IsInitial capacity s
    → Run s t
    → get_elem? t.attempts i ≡ some a
    → get_elem? t.attempts j ≡ some b
    → a.closed ≡ false
    → b.closed ≡ false
    → matching_probe t.gate a.execution a.permit ≢ none
    → matching_probe t.gate b.execution b.permit ≢ none
    → i ≡ j
Run-one_probe capacity s {t} i j a b init run p q open_a open_b probe_a probe_b =
    (Run-IsSound capacity s init run).sole i j a b p q (ground (arith, open_a))
      (ground (arith, open_b))
      (matching_probe-leader t.gate a.execution b.execution a.permit b.permit probe_a probe_b)

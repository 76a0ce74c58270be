-- ===== src/Admission/Gate/Valid.antt =====
-- What the gate's episode always looks like, and that each critical section keeps it so.
use design.Common.{ℕ, ◌<◌, ◌≡◌, true, Option, none, some, List, [], Key, is_some, arith}
use design.Admission.Execution.{ProviderError}
use design.Admission.Gate.{
  Gate, Permit, Episode, is_terminal, discard_waiter, attempt_accepted, attempt_rejected,
  attempt_corrected, attempt_abandoned, schedule_retry, exhaust_episode, attempt_failed,
  wait_for_gate, wake_leader, cancel_waiter, abandon_waiting_leader,
}

-- Generations are fresh, a probe belongs to a leader, and a terminal episode has neither leader,
-- nor probe, nor waiters.
pub record EpisodeIsValid (next : ℕ) (ep : Episode) : Type 0 where
  pub fresh : ep.generation < next
  pub probe_has_leader : ep.probe_active ≡ true → is_some ep.leader ≡ true
  pub no_leader : is_terminal ep.terminal_until ≡ true → ep.leader ≡ none
  pub no_waiters : is_terminal ep.terminal_until ≡ true → ep.waiters ≡ []

abbrev pub OnEpisode : (Episode → Type 0) → Option Episode → Type 0
OnEpisode P none = Unit
OnEpisode P (some ep) = P ep

abbrev pub GateIsValid : Gate → Type 0
GateIsValid g = OnEpisode (EpisodeIsValid g.next_generation) g.episode

discard_waiter-nil : (e : Key) (ws : List Key) → ws ≡ [] → discard_waiter e ws ≡ []
unfolding discard_waiter
discard_waiter-nil e ws h = rw h

module _ (g : Gate) (v : GateIsValid g) (e : Key) where
  pub wait_for_gate-IsValid : (now : ℕ) → GateIsValid (wait_for_gate g e now).0
  unfolding wait_for_gate
  wait_for_gate-IsValid now = ground arith

  pub wake_leader-IsValid : (generation : ℕ) → GateIsValid (wake_leader g e generation).0
  unfolding wake_leader
  wake_leader-IsValid generation = ground arith

  pub cancel_waiter-IsValid : (generation : ℕ) → GateIsValid (cancel_waiter g e generation)
  unfolding cancel_waiter
  cancel_waiter-IsValid generation = ground arith

  pub abandon_waiting_leader-IsValid :
      (generation : ℕ) → GateIsValid (abandon_waiting_leader g e generation)
  unfolding abandon_waiting_leader
  abandon_waiting_leader-IsValid generation = ground arith

  module _ (permit : Permit) where
    pub attempt_accepted-IsValid : GateIsValid (attempt_accepted g e permit)
    unfolding attempt_accepted
    attempt_accepted-IsValid = ground arith

    pub attempt_rejected-IsValid : GateIsValid (attempt_rejected g e permit)
    unfolding attempt_rejected
    attempt_rejected-IsValid = ground arith

    pub attempt_corrected-IsValid : (now : ℕ) → GateIsValid (attempt_corrected g e permit now)
    unfolding attempt_corrected
    attempt_corrected-IsValid now = ground arith

    pub attempt_abandoned-IsValid : (now : ℕ) → GateIsValid (attempt_abandoned g e permit now)
    unfolding attempt_abandoned
    attempt_abandoned-IsValid now = ground arith

    schedule_retry-IsValid :
        (error : ProviderError) (now delay : ℕ)
        → GateIsValid (schedule_retry g e permit error now delay)
    unfolding schedule_retry
    schedule_retry-IsValid error now delay = ground arith

    exhaust_episode-IsValid :
        (error : ProviderError) (now delay : ℕ)
        → GateIsValid (exhaust_episode g e permit error now delay)
    unfolding exhaust_episode
    exhaust_episode-IsValid error now delay = ground arith

    pub attempt_failed-IsValid :
        (error : ProviderError) (now delay terminal_delay : ℕ)
        → GateIsValid (attempt_failed g e permit error now delay terminal_delay)
    unfolding attempt_failed
    attempt_failed-IsValid error now delay terminal_delay = ground (
      arith,
      schedule_retry-IsValid error now delay,
      exhaust_episode-IsValid error now terminal_delay,
    )

-- ===== src/Admission/Gate/Keeps.antt =====
-- The gate's critical sections leave every execution's attempt count and claim alone: they only
-- fail executions.
use design.Common.{ℕ, ◌≡◌, refl, inl, inr, List, [], ◌∷◌, Key, Option-cases, arith}
use design.Admission.Execution.{Execution, ProviderError, fail, record_failure}
use design.Admission.Gate.{
  Gate, Permit, update, fail_waiters, attempt_accepted, attempt_rejected, attempt_corrected,
  attempt_abandoned, schedule_retry, exhaust_episode, attempt_failed, wait_for_gate, wake_leader,
  cancel_waiter, abandon_waiting_leader,
}

pub record SameCore (x y : Execution) : Type 0 where
  pub started : y.attempts_started ≡ x.attempts_started
  pub limit : y.max_attempts ≡ x.max_attempts
  pub claim : y.active_claim ≡ x.active_claim

abbrev pub Keeps : (Key → Execution) → (Key → Execution) → Type 0
Keeps f g = (k : Key) → SameCore (f k) (g k)

pub fail-SameCore : (x : Execution) (error : ProviderError) → SameCore x (fail x error)
unfolding fail
fail-SameCore x error = ground arith

pub record_failure-SameCore :
    (x : Execution) (error : ProviderError) → SameCore x (record_failure x error)
unfolding record_failure
record_failure-SameCore x error = ground arith

pub update-Keeps :
    (f : Key → Execution) (e : Key) (x : Execution) → SameCore (f e) x → Keeps f (update f e x)
update-Keeps f e x h k = ground arith

pub Keeps-trans : (f g h : Key → Execution) → Keeps f g → Keeps g h → Keeps f h
Keeps-trans f g h p q k = ground (arith, p k, q k)

fail_waiters-Keeps :
    (ws : List Key) (error : ProviderError) (f : Key → Execution)
    → Keeps f (fail_waiters ws error f)
unfolding fail_waiters
fail_waiters-Keeps [] error f k = record { started = refl; limit = refl; claim = refl }
fail_waiters-Keeps (w ∷ ws) error f k =
    Keeps-trans f _ _ (update-Keeps f w _ (fail-SameCore (f w) error))
      (fail_waiters-Keeps ws error _) k

module _ (g : Gate) (e : Key) (permit : Permit) where
  pub attempt_accepted-Keeps : Keeps g.executions (attempt_accepted g e permit).executions
  unfolding attempt_accepted
  attempt_accepted-Keeps k = ground arith

  pub attempt_rejected-Keeps : Keeps g.executions (attempt_rejected g e permit).executions
  unfolding attempt_rejected
  attempt_rejected-Keeps k = ground arith

  pub attempt_corrected-Keeps :
      (now : ℕ) → Keeps g.executions (attempt_corrected g e permit now).executions
  unfolding attempt_corrected
  attempt_corrected-Keeps now k = ground arith

  pub attempt_abandoned-Keeps :
      (now : ℕ) → Keeps g.executions (attempt_abandoned g e permit now).executions
  unfolding attempt_abandoned
  attempt_abandoned-Keeps now k = ground arith

  schedule_retry-Keeps :
      (error : ProviderError) (now delay : ℕ)
      → Keeps g.executions (schedule_retry g e permit error now delay).executions
  unfolding schedule_retry fail
  schedule_retry-Keeps error now delay k = ground arith

  exhaust_episode-Keeps :
      (error : ProviderError) (now delay : ℕ)
      → Keeps g.executions (exhaust_episode g e permit error now delay).executions
  unfolding exhaust_episode
  exhaust_episode-Keeps error now delay k = elim (Option-cases g.episode) [
    | inl p ↦ rw (p, exhaust_episode) (record { started = refl; limit = refl; claim = refl })
    | inr (ep, p) ↦
        rw (p, exhaust_episode) (ground (arith, fail_waiters-Keeps ep.waiters error g.executions k))
  ]

  pub attempt_failed-Keeps :
      (error : ProviderError) (now delay terminal_delay : ℕ)
      → Keeps g.executions (attempt_failed g e permit error now delay terminal_delay).executions
  unfolding attempt_failed
  attempt_failed-Keeps error now delay terminal_delay k = ground (
    arith,
    schedule_retry-Keeps error now delay k,
    exhaust_episode-Keeps error now terminal_delay k,
  )

module _ (g : Gate) (e : Key) where
  pub wait_for_gate-Keeps : (now : ℕ) → (wait_for_gate g e now).0.executions ≡ g.executions
  unfolding wait_for_gate
  wait_for_gate-Keeps now = ground arith

  pub wake_leader-Keeps :
      (generation : ℕ) → (wake_leader g e generation).0.executions ≡ g.executions
  unfolding wake_leader
  wake_leader-Keeps generation = ground arith

  pub cancel_waiter-Keeps :
      (generation : ℕ) → (cancel_waiter g e generation).executions ≡ g.executions
  unfolding cancel_waiter
  cancel_waiter-Keeps generation = ground arith

  pub abandon_waiting_leader-Keeps :
      (generation : ℕ) → (abandon_waiting_leader g e generation).executions ≡ g.executions
  unfolding abandon_waiting_leader
  abandon_waiting_leader-Keeps generation = ground arith

-- ===== src/Admission/Gate/Recovery.antt =====
-- Who is let through during a recovery episode, and how the episode ends.
use design.Common.{
  ℕ, ◌+◌, ◌≤◌, ◌<◌, ◌≡◌, refl, ◌⊎◌, inl, inr, true, false, none, some, List, [], ◌∷◌, Key,
  Option-cases, is_some, contains, if◌then◌else◌, arith,
}
use design.Admission.Execution.{
  Execution, ProviderError, fail, fail_recovery, can_attempt, terminal_failure,
}
use design.Admission.Gate.{
  Gate, Permit, Episode, with_episode, exhaust, granted, exhausted, wait, matches, normal_permit,
  probe_permit, update, fail_waiters, permit_is_current, matching_probe, attempt_accepted,
  attempt_abandoned, attempt_failed, wait_for_gate,
}
use design.Admission.Gate.Valid.{GateIsValid}

-- While a probe is out of a valid gate, the gate lets nobody else through: a caller waits, or is told that its
-- execution has failed for good.
pub wait_for_gate-one_probe :
    (g : Gate) (e : Key) (now : ℕ) (ep : Episode)
    → GateIsValid g
    → g.episode ≡ some ep
    → ep.probe_active ≡ true
    → ((wait_for_gate g e now).1 ≡ wait)
      ⊎ ((error : ProviderError) × ((wait_for_gate g e now).1 ≡ exhausted error)
          × (terminal_failure (g.executions e) ≡ some error))
unfolding wait_for_gate
wait_for_gate-one_probe g e now ep v p busy = ground arith

-- A permit that a valid gate grants is current in the state that it leaves; it is a probe exactly if
-- an episode is open there.
pub wait_for_gate-granted :
    (g : Gate) (e : Key) (now : ℕ) (permit : Permit)
    → GateIsValid g
    → (wait_for_gate g e now).1 ≡ granted permit
    → (permit_is_current (wait_for_gate g e now).0 e permit ≡ true)
      × (permit.probe ≡ is_some (wait_for_gate g e now).0.episode)
unfolding wait_for_gate permit_is_current
wait_for_gate-granted g e now permit v h = ground arith

-- In a valid gate a probe permit is current exactly if its attempt would match the episode.
pub permit_is_current-matching :
    (g : Gate) (e : Key) (permit : Permit)
    → GateIsValid g
    → permit.probe ≡ true
    → permit_is_current g e permit ≡ is_some (matching_probe g e permit)
unfolding permit_is_current matching_probe
permit_is_current-matching g e permit v h = ground arith

-- The episode that a probe matches is the current one.
pub matching_probe-some :
    (g : Gate) (e : Key) (permit : Permit) (ep : Episode)
    → matching_probe g e permit ≡ some ep
    → (g.episode ≡ some ep) × (matches permit e ep ≡ true)
unfolding matching_probe
matching_probe-some g e permit ep h = ground arith

-- When the probe is accepted, the gate is open to every execution that has not failed.
pub attempt_accepted-opens :
    (g : Gate) (e k : Key) (permit : Permit) (ep : Episode) (now : ℕ)
    → matching_probe g e permit ≡ some ep
    → terminal_failure (g.executions k) ≡ none
    → (wait_for_gate (attempt_accepted g e permit) k now).1 ≡ granted normal_permit
unfolding wait_for_gate attempt_accepted
attempt_accepted-opens g e k permit ep now h t = ground arith

attempt_abandoned_lem :
    (g : Gate) (e : Key) (permit : Permit) (ep : Episode) (now : ℕ)
    → matching_probe g e permit ≡ some ep
    → attempt_abandoned g e permit now
      ≡ with_episode g (record ep { leader = none; probe_active = false; ready_at = now })
unfolding attempt_abandoned
attempt_abandoned_lem g e permit ep now h = ground arith

-- When the leader gives its probe up in a valid gate, the next execution that asks, not before that
-- time and not failed for good, gets
-- the probe of the same generation at once.
pub attempt_abandoned-hands_over :
    (g : Gate) (e k : Key) (permit : Permit) (ep : Episode) (now later : ℕ)
    → GateIsValid g
    → matching_probe g e permit ≡ some ep
    → terminal_failure (g.executions k) ≡ none
    → now ≤ later
    → (wait_for_gate (attempt_abandoned g e permit now) k later).1 ≡ granted (probe_permit ep)
unfolding wait_for_gate
attempt_abandoned-hands_over g e k permit ep now later v h t le =
    let (p, m) = matching_probe-some g e permit ep h in
    rw (attempt_abandoned_lem g e permit ep now h) (ground arith)

fail_again : (x : Execution) (error : ProviderError) → fail (fail x error) error ≡ fail x error
unfolding fail
fail_again x error = ground arith

fail_waiters-at :
    (ws : List Key) (error : ProviderError) (f : Key → Execution) (k : Key)
    → fail_waiters ws error f k ≡ (if contains k ws then fail (f k) error else f k)
unfolding fail_waiters contains
fail_waiters-at [] error f k = refl
fail_waiters-at (w ∷ ws) error f k = ground (
  arith,
  fail_waiters-at ws error (update f w (fail_recovery (f w) error)) k,
  fail_again (f k) error,
)

attempt_failed-exhaust :
    (g : Gate) (e : Key) (permit : Permit) (ep : Episode) (error : ProviderError)
    (now delay terminal_delay : ℕ)
    → matching_probe g e permit ≡ some ep
    → can_attempt (g.executions e) ≡ false
    → attempt_failed g e permit error now delay terminal_delay
      ≡ exhaust g ep error (now + terminal_delay)
unfolding attempt_failed
attempt_failed-exhaust g e permit ep error now delay terminal_delay h spent =
    let (p, m) = matching_probe-some g e permit ep h in ground (arith, p, m)

exhaust-refuses :
    (g : Gate) (ep : Episode) (error : ProviderError) (until : ℕ) (k : Key) (later : ℕ)
    → later < until
    → (x : ProviderError) × ((wait_for_gate (exhaust g ep error until) k later).1 ≡ exhausted x)
      × ((terminal_failure ((exhaust g ep error until).executions k) ≡ some x) ⊎ (x ≡ error))
unfolding wait_for_gate
exhaust-refuses g ep error until k later le =
    elim (Option-cases (terminal_failure (fail_waiters ep.waiters error g.executions k))) [
      | inl p ↦ (error, ground arith, inr refl)
      | inr (x, p) ↦ (x, ground arith, inl p)
    ]

-- When the probe fails on its execution's last attempt, every execution that was active and waited
-- for the episode has failed with that error, no other execution has changed, and until the delay
-- is over whoever asks the gate is refused with that error or with its own execution's failure.
pub attempt_failed-ends_episode :
    (g : Gate) (e : Key) (permit : Permit) (ep : Episode) (error : ProviderError)
    (now delay terminal_delay : ℕ)
    → matching_probe g e permit ≡ some ep
    → can_attempt (g.executions e) ≡ false
    → let g' = attempt_failed g e permit error now delay terminal_delay in
      ((k : Key)
        → g'.executions k
          ≡ (if contains k ep.waiters then fail (g.executions k) error else g.executions k))
      × ((k : Key) (later : ℕ)
          → later < now + terminal_delay
          → (x : ProviderError) × ((wait_for_gate g' k later).1 ≡ exhausted x)
            × ((terminal_failure (g'.executions k) ≡ some x) ⊎ (x ≡ error)))
attempt_failed-ends_episode g e permit ep error now delay terminal_delay h spent =
    rw (attempt_failed-exhaust g e permit ep error now delay terminal_delay h spent)
      (fail_waiters-at ep.waiters error g.executions, exhaust-refuses g ep error _)

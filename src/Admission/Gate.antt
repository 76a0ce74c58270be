-- ===== src/Admission/Gate.antt =====
-- The recovery gate of ProviderAdmissionController. What runs under `self._condition` between two
-- awaits is one function; `now` is what `time.monotonic()` returns there.

pub mod Keeps
pub mod Recovery
pub mod Valid
use design.Common.{
  ℕ, suc, ◌+◌, ◌-◌, Bool, true, false, not, ◌&&◌, ◌||◌, Option, none, some, List, [], ◌∷◌, Key, ltb,
  ◌==◌, if◌then◌else◌, from_option, contains, filter,
}
use design.Admission.Execution.{
  Execution, ProviderError, can_attempt, fail_recovery, terminal_failure,
}

pub record Permit : Type 0 where
  pub generation : Option ℕ
  pub probe : Bool

-- An execution object is named by its id. `waiters` is a set.
pub record Episode : Type 0 where
  pub generation : ℕ
  pub leader : Option Key
  pub ready_at : ℕ
  pub last_error : ProviderError
  pub waiters : List Key
  pub probe_active : Bool
  pub terminal_until : Option ℕ

pub record Gate : Type 0 where
  pub episode : Option Episode
  pub next_generation : ℕ
  pub executions : Key → Execution

-- What a caller of the gate goes on to do: take the permit, raise ProviderRecoveryExhausted, wait
-- on the condition, or sleep as the leader of a generation.
pub data Reply : Type 0 where
  granted : Permit → Reply
  exhausted : ProviderError → Reply
  wait : Reply
  sleep : (delay generation : ℕ) → Reply

abbrev pub leads : Option Key → Key → Bool
leads none e = false
leads (some l) e = l == e

abbrev pub same_generation : Option ℕ → ℕ → Bool
same_generation none g = false
same_generation (some h) g = h == g

abbrev pub is_terminal : Option ℕ → Bool
is_terminal none = false
is_terminal (some _) = true

unfoldable pub add_waiter : Key → List Key → List Key
unfolding contains
add_waiter e ws = if contains e ws then ws else e ∷ ws

unfoldable pub discard_waiter : Key → List Key → List Key
unfolding filter
discard_waiter e ws = filter (λ w. not (w == e)) ws

abbrev pub with_episode : Gate → Episode → Gate
with_episode g ep = record g { episode = some ep }

abbrev pub update : (Key → Execution) → Key → Execution → Key → Execution
update executions e x k = if e == k then x else executions k

abbrev pub new_episode : Gate → Option Key → ℕ → ProviderError → Episode
new_episode g leader ready_at error = record {
  generation = g.next_generation;
  leader = leader;
  ready_at = ready_at;
  last_error = error;
  waiters = [];
  probe_active = false;
  terminal_until = none;
}

unfoldable pub start_recovery_episode : Gate → Option Key → ℕ → ProviderError → Gate × Episode
start_recovery_episode g leader ready_at error = (
  record g {
    episode = some (new_episode g leader ready_at error);
    next_generation = suc g.next_generation;
  },
  new_episode g leader ready_at error,
)

abbrev pub probe_permit : Episode → Permit
probe_permit ep = record { generation = some ep.generation; probe = true }

abbrev pub normal_permit : Permit
normal_permit = record { generation = none; probe = false }

abbrev pub elect : Option Key → Key → Episode → Episode
elect none e ep = record ep { leader = some e; waiters = discard_waiter e ep.waiters }
elect (some _) e ep = ep

-- The rest of the critical section, once the episode is known not to be terminal.
unfoldable pub join : Gate → Key → ℕ → Episode → Gate × Reply
unfolding add_waiter
join g e now ep =
    if leads ep.leader e
    then (if ep.probe_active
        then (with_episode g ep, wait)
        else (if ep.ready_at - now == 0
            then (with_episode g (record ep { probe_active = true }), granted (probe_permit ep))
            else (with_episode g ep, sleep (ep.ready_at - now) ep.generation)))
    else (with_episode g (record ep { waiters = add_waiter e ep.waiters }), wait)

unfoldable pub enter : Gate → Key → ℕ → Episode → Gate × Reply
unfolding join start_recovery_episode discard_waiter
enter g e now ep = elim ep.terminal_until [
  | none ↦ join g e now (elect ep.leader e ep)
  | some until ↦
      if ltb now until
      then (g, exhausted ep.last_error)
      else (let (g', fresh) = start_recovery_episode g (some e) now ep.last_error in
          join g' e now (elect fresh.leader e fresh))
]

-- One round of `_wait_for_gate` up to its first await.
unfoldable pub wait_for_gate : Gate → Key → ℕ → Gate × Reply
unfolding enter
wait_for_gate g e now = elim (terminal_failure (g.executions e)) [
  | some error ↦ (g, exhausted error)
  | none ↦ elim g.episode [ none ↦ (g, granted normal_permit) | some ep ↦ enter g e now ep ]
]

-- The leader's second critical section, after its sleep; `none` goes round the loop again.
unfoldable pub wake_leader : Gate → Key → (generation : ℕ) → Gate × Option Permit
wake_leader g e generation =
    from_option g.episode (g, none)
      λ ep.
        if ep.generation == generation
          && not (is_terminal ep.terminal_until)
          && leads ep.leader e
          && not ep.probe_active
        then (with_episode g (record ep { probe_active = true }), some (probe_permit ep))
        else (g, none)

-- A waiter is cancelled while it waits on the condition.
unfoldable pub cancel_waiter : Gate → Key → (generation : ℕ) → Gate
unfolding discard_waiter
cancel_waiter g e generation = from_option g.episode g λ ep.
    if ep.generation == generation
    then with_episode g (record ep { waiters = discard_waiter e ep.waiters })
    else g

unfoldable pub abandon_waiting_leader : Gate → Key → (generation : ℕ) → Gate
abandon_waiting_leader g e generation = from_option g.episode g λ ep.
    if not (ep.generation == generation) || not (leads ep.leader e) || ep.probe_active
    then g
    else with_episode g (record ep { leader = none })

abbrev pub matches : Permit → Key → Episode → Bool
matches permit e ep =
    permit.probe
    && same_generation permit.generation ep.generation
    && leads ep.leader e
    && ep.probe_active

unfoldable pub permit_is_current : Gate → Key → Permit → Bool
permit_is_current g e permit =
    if permit.probe
    then from_option g.episode false (λ ep.
      same_generation permit.generation ep.generation
      && not (is_terminal ep.terminal_until)
      && leads ep.leader e
      && ep.probe_active)
    else from_option g.episode true (λ ep. false)

unfoldable pub matching_probe : Gate → Key → Permit → Option Episode
matching_probe g e permit =
    from_option g.episode none (λ ep. if matches permit e ep then some ep else none)

-- `_attempt_accepted`. `_attempt_rejected` makes the same change of state.
unfoldable pub attempt_accepted : Gate → Key → Permit → Gate
unfolding matching_probe
attempt_accepted g e permit =
    from_option (matching_probe g e permit) g (λ _. record g { episode = none })

unfoldable pub attempt_rejected : Gate → Key → Permit → Gate
unfolding matching_probe
attempt_rejected g e permit =
    from_option (matching_probe g e permit) g (λ _. record g { episode = none })

unfoldable pub attempt_corrected : Gate → Key → Permit → ℕ → Gate
unfolding matching_probe
attempt_corrected g e permit now =
    from_option (matching_probe g e permit) g
      (λ ep. with_episode g (record ep { probe_active = false; ready_at = now }))

-- `_attempt_abandoned`, and `_abandon_probe_permit`, which has the same body.
unfoldable pub attempt_abandoned : Gate → Key → Permit → ℕ → Gate
unfolding matching_probe
attempt_abandoned g e permit now =
    from_option (matching_probe g e permit) g
      (λ ep. with_episode g (record ep { leader = none; probe_active = false; ready_at = now }))

abbrev pub abandon_probe_permit : Gate → Key → Permit → ℕ → Gate
abandon_probe_permit = attempt_abandoned

unfoldable pub fail_waiters : List Key → ProviderError → (Key → Execution) → Key → Execution
fail_waiters [] error executions = executions
fail_waiters (w ∷ ws) error executions =
    fail_waiters ws error (update executions w (fail_recovery (executions w) error))

-- A failure whose execution may retry.
unfoldable pub schedule_retry : Gate → Key → Permit → ProviderError → (now delay : ℕ) → Gate
unfolding start_recovery_episode add_waiter
schedule_retry g e permit error now delay =
    from_option g.episode (start_recovery_episode g (some e) (now + delay) error).0 λ ep.
      if matches permit e ep
      then with_episode g
          (record ep { last_error = error; probe_active = false; ready_at = now + delay })
      else (if is_terminal ep.terminal_until
          then record g {
            executions = update g.executions e (fail_recovery (g.executions e) ep.last_error);
          }
          else with_episode g (record ep { waiters = add_waiter e ep.waiters }))

abbrev pub exhausted_episode : Episode → ProviderError → ℕ → Episode
exhausted_episode ep error until = record ep {
  last_error = error;
  leader = none;
  probe_active = false;
  terminal_until = some until;
  waiters = [];
}

abbrev pub exhaust : Gate → Episode → ProviderError → ℕ → Gate
exhaust g ep error until = record g {
  episode = some (exhausted_episode ep error until);
  executions = fail_waiters ep.waiters error g.executions;
}

-- A failure that used the last attempt: the episode ends for every waiter.
unfoldable pub exhaust_episode : Gate → Key → Permit → ProviderError → (now delay : ℕ) → Gate
unfolding start_recovery_episode fail_waiters
exhaust_episode g e permit error now delay = elim g.episode [
  | none ↦
      let (g', fresh) = start_recovery_episode g none now error in
      exhaust g' fresh error (now + delay)
  | some ep ↦ if matches permit e ep then exhaust g ep error (now + delay) else g
]

-- `_attempt_failed`; the delays are those that `_retry_delay` returns at its two calls.
unfoldable pub attempt_failed :
    Gate → Key → Permit → ProviderError → (now delay terminal_delay : ℕ) → Gate
unfolding schedule_retry exhaust_episode
attempt_failed g e permit error now delay terminal_delay =
    if can_attempt (g.executions e)
    then schedule_retry g e permit error now delay
    else exhaust_episode g e permit error now terminal_delay

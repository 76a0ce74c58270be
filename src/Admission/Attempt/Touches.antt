-- ===== src/Admission/Attempt/Touches.antt =====
-- Operations that change neither who holds a slot nor what an execution has started.
use design.Common.{
  true, ◌||◌, ℕ, ◌≡◌, refl, inl, inr, Bool, not, some, List, ◌==◌, Bool-cases, get_elem?, set,
  get_elem?-set, count, count-set, Key, arith,
}
use design.Admission.Execution.{Execution, ProviderError, fail, record_failure}
use design.Admission.Gate.{
  Gate, Permit, attempt_accepted, attempt_rejected, attempt_corrected, attempt_abandoned,
  attempt_failed,
}
use design.Admission.Gate.Keeps.{
  SameCore, Keeps, fail-SameCore, record_failure-SameCore, update-Keeps, Keeps-trans,
  attempt_accepted-Keeps, attempt_rejected-Keeps, attempt_corrected-Keeps, attempt_abandoned-Keeps,
  attempt_failed-Keeps,
}
use design.Admission.Gate.Valid.{
  GateIsValid, attempt_accepted-IsValid, attempt_rejected-IsValid, attempt_corrected-IsValid,
  attempt_abandoned-IsValid, attempt_failed-IsValid,
}
use design.Admission.Attempt.{Attempt, System, set_execution, with_gate, resolve, resolve_at}

-- It holds its slot: it is not closed, or still closing.
abbrev pub is_open : Attempt → Bool
is_open a = not a.closed || a.closing

pub record GateTouches (g h : Gate) : Type 0 where
  pub keeps : Keeps g.executions h.executions
  pub stays_valid : GateIsValid g → GateIsValid h

pub GateTouches-trans : (g h k : Gate) → GateTouches g h → GateTouches h k → GateTouches g k
GateTouches-trans g h k p q = record {
  keeps = Keeps-trans g.executions h.executions k.executions p.keeps q.keeps;
  stays_valid = λ v. q.stays_valid (p.stays_valid v);
}

pub set_execution-Touches :
    (g : Gate) (e : Key) (x : Execution)
    → SameCore (g.executions e) x
    → GateTouches g (set_execution g e x)
set_execution-Touches g e x h = record {
  keeps = update-Keeps g.executions e x h;
  stays_valid = λ v. v;
}

-- An attempt whose resolution may have changed.
pub record SameHolder (a b : Attempt) : Type 0 where
  pub execution : b.execution ≡ a.execution
  pub claim : b.claim ≡ a.claim
  pub held : is_open b ≡ is_open a
  pub begun : (a.closing ≡ true → a.closed ≡ true) → b.closing ≡ true → b.closed ≡ true

pub record Touches (s t : System) : Type 0 where
  pub gate : GateTouches s.gate t.gate
  pub slots : t.free_slots ≡ s.free_slots
  pub holders :
      (j : ℕ) (b : Attempt)
      → get_elem? t.attempts j ≡ some b
      → (a : Attempt) × (get_elem? s.attempts j ≡ some a) × SameHolder a b
  pub held : count is_open t.attempts ≡ count is_open s.attempts

pub GateTouches-refl : (g : Gate) → GateTouches g g
GateTouches-refl g = record {
  keeps = λ k. record { started = refl; limit = refl; claim = refl };
  stays_valid = λ v. v;
}

pub with_gate-Touches : (s : System) (g : Gate) → GateTouches s.gate g → Touches s (with_gate s g)
with_gate-Touches s g touch = record {
  gate = touch;
  slots = refl;
  holders = λ j b h. (b, h, record { execution = refl; claim = refl; held = refl; begun = λ h. h });
  held = refl;
}

pub Touches-refl : (s : System) → Touches s s
Touches-refl s = with_gate-Touches s s.gate (GateTouches-refl s.gate)

resolve-SameHolder : (a : Attempt) (accepted : Bool) → SameHolder a (resolve a accepted)
unfolding resolve
resolve-SameHolder a accepted = record {
  execution = ground (arith);
  claim = ground (arith);
  held = ground (arith);
  begun = λ h c. ground (arith, h);
}

set-SameHolder :
    (xs : List Attempt) (i : ℕ) (a v : Attempt)
    → get_elem? xs i ≡ some a
    → SameHolder a v
    → (j : ℕ) (b : Attempt) → get_elem? (set xs i v) j ≡ some b
    → (c : Attempt) × (get_elem? xs j ≡ some c) × SameHolder c b
set-SameHolder xs i a v h same j b p = elim (Bool-cases (i == j)) [
  | inl e ↦ (a, ground (arith), ground (arith, get_elem?-set xs i j v h))
  | inr e ↦ (
    b,
    ground (arith, get_elem?-set xs i j v h),
    record { execution = refl; claim = refl; held = refl; begun = λ h. h },
  )
]

pub replaced-Touches :
    (s : System) (i : ℕ) (a b : Attempt)
    → get_elem? s.attempts i ≡ some a
    → SameHolder a b
    → Touches s (record s { attempts = set s.attempts i b })
replaced-Touches s i a b h same = record {
  gate = GateTouches-refl s.gate;
  slots = refl;
  holders = set-SameHolder s.attempts i a b h same;
  held = ground (arith, count-set is_open s.attempts i b h, same);
}

pub resolve_at-Touches :
    (s : System) (g : Gate) (i : ℕ) (a : Attempt) (accepted : Bool)
    → get_elem? s.attempts i ≡ some a
    → GateTouches s.gate g
    → Touches s (resolve_at (with_gate s g) i a accepted)
resolve_at-Touches s g i a accepted h touch =
    let same = replaced-Touches s i a (resolve a accepted) h (resolve-SameHolder a accepted) in
    record { gate = touch; slots = refl; holders = same.holders; held = same.held }

-- The gate's operations and the changes of one execution, as touches of the gate.
module _ (g : Gate) (e : Key) (permit : Permit) where
  pub accepted-Touches : GateTouches g (attempt_accepted g e permit)
  accepted-Touches = record {
    keeps = attempt_accepted-Keeps g e permit;
    stays_valid = λ v. attempt_accepted-IsValid g v e permit;
  }

  pub rejected-Touches : GateTouches g (attempt_rejected g e permit)
  rejected-Touches = record {
    keeps = attempt_rejected-Keeps g e permit;
    stays_valid = λ v. attempt_rejected-IsValid g v e permit;
  }

  pub corrected-Touches : (now : ℕ) → GateTouches g (attempt_corrected g e permit now)
  corrected-Touches now = record {
    keeps = attempt_corrected-Keeps g e permit now;
    stays_valid = λ v. attempt_corrected-IsValid g v e permit now;
  }

  pub abandoned-Touches : (now : ℕ) → GateTouches g (attempt_abandoned g e permit now)
  abandoned-Touches now = record {
    keeps = attempt_abandoned-Keeps g e permit now;
    stays_valid = λ v. attempt_abandoned-IsValid g v e permit now;
  }

  pub failed-Touches :
      (error : ProviderError) (now delay terminal_delay : ℕ)
      → GateTouches g (attempt_failed g e permit error now delay terminal_delay)
  failed-Touches error now delay terminal_delay = record {
    keeps = attempt_failed-Keeps g e permit error now delay terminal_delay;
    stays_valid = λ v. attempt_failed-IsValid g v e permit error now delay terminal_delay;
  }

module _ (g : Gate) (e : Key) (error : ProviderError) where
  pub noted-Touches : GateTouches g (set_execution g e (record_failure (g.executions e) error))
  noted-Touches = set_execution-Touches g e _ (record_failure-SameCore (g.executions e) error)

  pub failing-Touches : GateTouches g (set_execution g e (fail (g.executions e) error))
  failing-Touches = set_execution-Touches g e _ (fail-SameCore (g.executions e) error)

  pub noted_then-Touches :
      (h : Gate)
      → GateTouches (set_execution g e (record_failure (g.executions e) error)) h
      → GateTouches g h
  noted_then-Touches h t = GateTouches-trans g _ h noted-Touches t

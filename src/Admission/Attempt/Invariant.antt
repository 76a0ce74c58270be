-- ===== src/Admission/Attempt/Invariant.antt =====
-- The attempt budget and the concurrency bulkhead, over every interleaving of the controller's
-- operations.
use design.Common.{
  ℕ, zero, suc, ◌+◌, ◌≤◌, ◌≡◌, refl, ◌≢◌, true, false, Option, none, some, if_ind, if_cases,
  from_option_ind, get_elem?, get_elem?-set, set, get_elem?-snoc, count, count-set, count-snoc, Key,
  arith,
}
use design.Admission.Execution.{
  Execution, AttemptClaim, OperationKind, close_attempt, claim_attempt, ClaimResult, claimed,
  refused,
}
use design.Admission.Gate.{Gate, Permit, permit_is_current}
use design.Admission.Gate.Valid.{GateIsValid}
use design.Admission.Attempt.{
  Attempt, System, with_gate, execution_at, new_attempt, resolve, close_fields, begin_close, aclose,
  end_close, release, take_slot, take_slot_from, Opened, finish_open, start_execution,
}
use design.Admission.Attempt.Touches.{
  is_open, Touches, replaced-Touches, GateTouches, with_gate-Touches, abandoned-Touches,
}

-- Every execution is within its budget; an open attempt is its execution's claim, and its only one;
-- only a closed attempt closes;
-- the slots that are not free are those of the open attempts; the gate is valid.
pub record IsSound (capacity : ℕ) (s : System) : Type 0 where
  pub budget : (e : Key) → (execution_at s e).attempts_started ≤ (execution_at s e).max_attempts
  pub owned :
      (i : ℕ) (a : Attempt)
      → get_elem? s.attempts i ≡ some a
      → is_open a ≡ true
      → (execution_at s a.execution).active_claim ≡ some a.claim
  pub sole :
      (i j : ℕ) (a b : Attempt)
      → get_elem? s.attempts i ≡ some a
      → get_elem? s.attempts j ≡ some b
      → is_open a ≡ true
      → is_open b ≡ true
      → a.execution ≡ b.execution
      → i ≡ j
  pub begun :
      (i : ℕ) (a : Attempt) → get_elem? s.attempts i ≡ some a → a.closing ≡ true → a.closed ≡ true
  pub slots : s.free_slots + count is_open s.attempts ≡ capacity
  pub valid : GateIsValid s.gate

pub Touches-IsSound :
    (capacity : ℕ) (s t : System) → Touches s t → IsSound capacity s → IsSound capacity t
Touches-IsSound capacity s t h v = record {
  budget = λ e. ground (arith, h.gate.keeps e, v.budget e);
  owned = λ i a p open_.
      let (b, q, same) = h.holders i a p in
      ground (arith, h.gate.keeps a.execution, v.owned i b q, same);
  sole = λ i j a b p q open_a open_b same.
      let (a', p', sa) = h.holders i a p in
      let (b', q', sb) = h.holders j b q in ground (arith, v.sole i j a' b' p' q', sa, sb);
  begun = λ i a p. let (b, q, same) = h.holders i a p in same.begun (v.begun i b q);
  slots = ground (arith, h.slots, h.held, v.slots);
  valid = h.gate.stays_valid v.valid;
}

module _ (capacity : ℕ) (s : System) (v : IsSound capacity s) where
  with_gate-IsSound : (g : Gate) → GateTouches s.gate g → IsSound capacity (with_gate s g)
  with_gate-IsSound g touch =
      Touches-IsSound capacity s (with_gate s g) (with_gate-Touches s g touch) v

  -- Another attempt that is still open belongs to another execution.
  module _ (i : ℕ) (a c : Attempt) (here : get_elem? s.attempts i ≡ some a)
      (open_a : is_open a ≡ true) (same_execution : c.execution ≡ a.execution)
      (done : c.closed ≡ true) where
    close_fields-is_open : is_open (close_fields c) ≡ false
    unfolding resolve
    close_fields-is_open = ground (arith, done)

    others :
        (j : ℕ) (b : Attempt)
        → get_elem? (release s i c).attempts j ≡ some b
        → is_open b ≡ true
        → (get_elem? s.attempts j ≡ some b) × (c.execution ≢ b.execution)
    unfolding release
    others j b p open_b = (
      ground (arith, get_elem?-set s.attempts i j (close_fields c) here, close_fields-is_open),
      λ same. ground (
        arith,
        get_elem?-set s.attempts i j (close_fields c) here,
        close_fields-is_open,
        same_execution,
        v.sole i j a b here,
      ),
    )

    release-IsSound : IsSound capacity (release s i c)
    unfolding release close_attempt
    release-IsSound = record {
      budget = λ e. ground (arith, v.budget e);
      owned = λ j b p open_b. let (q, other) = others j b p open_b in ground (arith, v.owned j b q);
      sole = λ j k b d p q open_b open_d same.
          v.sole j k b d (others j b p open_b).0 (others k d q open_d).0 open_b open_d same;
      begun = λ j b p h.
          ground (arith, get_elem?-set s.attempts i j (close_fields c) here, v.begun j b);
      slots = ground (
        arith,
        v.slots,
        count-set is_open s.attempts i (close_fields c) here,
        close_fields-is_open,
      );
      valid = v.valid;
    }

  -- An attempt that starts to close goes on to hold its slot.
  begin_close-IsSound :
      (i : ℕ) (a : Attempt)
      → get_elem? s.attempts i ≡ some a
      → a.closed ≡ false
      → IsSound capacity (record s { attempts = set s.attempts i (begin_close a) })
  begin_close-IsSound i a here open_a =
      Touches-IsSound capacity s _
        (replaced-Touches s i a (begin_close a) here (record {
          execution = refl;
          claim = refl;
          held = ground (arith, open_a);
          begun = λ h c. refl;
        }))
        v

  pub aclose-IsSound : (i : ℕ) → IsSound capacity (aclose s i)
  unfolding aclose
  aclose-IsSound i = from_option_ind (IsSound capacity) (get_elem? s.attempts i) v λ a here.
      if_cases (IsSound capacity) a.closed (λ _. v)
        λ c.
          if_ind (IsSound capacity) a.resolved
            (release-IsSound i a (begin_close a) here (ground (arith, c)) refl refl)
            (begin_close-IsSound i a here c)

  pub end_close-IsSound : (i : ℕ) → IsSound capacity (end_close s i)
  unfolding end_close
  end_close-IsSound i = from_option_ind (IsSound capacity) (get_elem? s.attempts i) v λ a here.
      if_cases (IsSound capacity) a.closing
        (λ c. release-IsSound i a a here (ground (arith, c)) refl (v.begun i a here c)) (λ _. v)

module _ (capacity : ℕ) (s : System) (v : IsSound capacity s) (e : Key) where
  -- A claim that is granted starts the next attempt of an execution that has no claim.
  abbrev Granted : Execution → AttemptClaim → Type 0
  Granted x claim =
      ((execution_at s e).active_claim ≡ none)
      × (x.active_claim ≡ some claim)
      × (x.max_attempts ≡ (execution_at s e).max_attempts)
      × (x.attempts_started ≤ x.max_attempts)

  finish_open-IsSound :
      (slots : ℕ) (permit : Permit) (now : ℕ) (r : ClaimResult)
      → s.free_slots ≡ suc slots
      → ((x : Execution) (claim : AttemptClaim) → r ≡ claimed x claim → Granted x claim)
      → IsSound capacity (finish_open s slots e permit now r).0
  unfolding finish_open
  finish_open-IsSound slots permit now (refused _) free g =
      with_gate-IsSound capacity s v _ (abandoned-Touches s.gate e permit now)
  finish_open-IsSound slots permit now (claimed x claim) free g =
      let (idle, held, limit, within) = g x claim refl in
      let fresh = new_attempt e permit claim in
      record {
        budget = λ k. ground (arith, v.budget k);
        owned = λ j b p open_b. ground (arith, get_elem?-snoc s.attempts j fresh, v.owned j b);
        sole = λ i j a b p q open_a open_b same. ground (
          arith,
          get_elem?-snoc s.attempts i fresh,
          get_elem?-snoc s.attempts j fresh,
          v.owned i a,
          v.owned j b,
          v.sole i j a b,
        );
        begun = λ j b p h. ground (arith, get_elem?-snoc s.attempts j fresh, v.begun j b);
        slots = ground (arith, v.slots, count-snoc is_open s.attempts fresh);
        valid = v.valid;
      }

  claim_attempt-Granted :
      (kind : OperationKind) (x : Execution) (claim : AttemptClaim)
      → claim_attempt (execution_at s e) kind ≡ claimed x claim
      → Granted x claim
  unfolding claim_attempt
  claim_attempt-Granted kind x claim h = ground arith

  take_slot_from-IsSound :
      (slots : ℕ) (permit : Permit) (kind : OperationKind) (now : ℕ)
      → s.free_slots ≡ slots
      → IsSound capacity (take_slot_from slots s e permit kind now).0
  unfolding take_slot_from
  take_slot_from-IsSound zero permit kind now free = v
  take_slot_from-IsSound (suc slots) permit kind now free =
      if_ind (λ (r : System × Opened). IsSound capacity r.0) (permit_is_current s.gate e permit)
        (finish_open-IsSound slots permit now _ free (claim_attempt-Granted kind))
        (with_gate-IsSound capacity s v _ (abandoned-Touches s.gate e permit now))

  pub take_slot-IsSound :
      (permit : Permit) (kind : OperationKind) (now : ℕ)
      → IsSound capacity (take_slot s e permit kind now).0
  unfolding take_slot
  take_slot-IsSound permit kind now = take_slot_from-IsSound s.free_slots permit kind now refl

-- An execution id that no attempt carries.
abbrev pub IsFresh : System → Key → Type 0
IsFresh s e = (i : ℕ) (a : Attempt) → get_elem? s.attempts i ≡ some a → a.execution ≢ e

pub start_execution-IsSound :
    (capacity : ℕ) (s : System) (e : Key) (max_attempts : ℕ) (request_id : Option Key)
    → IsSound capacity s
    → IsFresh s e
    → IsSound capacity (start_execution s e max_attempts request_id)
unfolding start_execution
start_execution-IsSound capacity s e max_attempts request_id v fresh = record {
  budget = λ k. ground (arith, v.budget k);
  owned = λ i a p open_a. ground (arith, v.owned i a p open_a, fresh i a p);
  sole = v.sole;
  begun = v.begun;
  slots = v.slots;
  valid = v.valid;
}

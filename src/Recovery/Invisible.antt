-- ===== src/Recovery/Invisible.antt =====
-- A client never sees a part of an attempt that was retried, and all of the one that was not.
use design.Common.{
  ℕ, ◌≡◌, refl, sym, ap, ◌∙◌, true, false, not, ◌&&◌, ◌||◌, some, from_option, ◌+◌, List, [], ◌∷◌,
  ◌++◌, append_nil, append_assoc, leb, if◌then◌else◌, if_cases, Bool-cases, inl, inr, arith,
}
use design.Recovery.{
  SseText, HoldbackBuffer, new_buffer, flush_buffer, discard_buffer, push_event, Decision, Failure,
  may_retry, may_recover, advance_failure, flush_uncommitted,
}

-- The calls on one controller.
pub data Call : Type 0 where
  push : SseText → (first second : ℕ) → Call
  flush : Call
  discard : Call
  fail : Failure → Call
  hand_over : Decision → Call

module _ (size : SseText → ℕ) (holdback max_bytes : ℕ) where
  abbrev pub step : HoldbackBuffer → Call → HoldbackBuffer × List SseText
  step b (push event first second) = push_event size b event first second
  step b flush = flush_buffer b
  step b discard = (discard_buffer b, [])
  step b (fail f) = ((advance_failure holdback max_bytes b f).0, [])
  step b (hand_over d) = flush_uncommitted b d

  -- The events of the attempt that goes on, which a retry, or a discard before the commit, ends.
  abbrev pub attempt_after : HoldbackBuffer → List SseText → Call → List SseText
  attempt_after b attempt (push event first second) = attempt ++ event ∷ []
  attempt_after b attempt flush = attempt
  attempt_after b attempt discard = if b.committed then attempt else []
  attempt_after b attempt (fail f) = if may_retry b f then [] else attempt
  attempt_after b attempt (hand_over d) = attempt

  -- A controller, what the client was handed, and the attempt that goes on.
  pub record Session : Type 0 where
    pub buffer : HoldbackBuffer
    pub handed : List SseText
    pub attempt : List SseText

  abbrev pub call : Session → Call → Session
  call s c =
      let (b, out) = step s.buffer c in
      record { buffer = b; handed = s.handed ++ out; attempt = attempt_after s.buffer s.attempt c }

  unfoldable pub calls : Session → List Call → Session
  unfolding push_event flush_buffer discard_buffer advance_failure flush_uncommitted
  calls s [] = s
  calls s (c ∷ cs) = calls (call s c) cs

  -- Before the commit the client has nothing; what it has and what is held make up the attempt.
  pub record IsFaithful (buffer : HoldbackBuffer) (handed attempt : List SseText) : Type 0 where
    pub whole : handed ++ buffer.events ≡ attempt
    pub hidden : buffer.committed ≡ false → handed ≡ []
    pub drained : buffer.committed ≡ true → buffer.events ≡ []

  -- What a call returns is handed over.
  abbrev Handed : (handed attempt : List SseText) → HoldbackBuffer × List SseText → Type 0
  Handed handed attempt w = IsFaithful w.0 (handed ++ w.1) attempt

  nothing-Handed :
      (b : HoldbackBuffer) (handed attempt : List SseText)
      → IsFaithful b handed attempt
      → Handed handed attempt (b, [])
  nothing-Handed b handed attempt v = rw (← append_nil handed) v

  flush_buffer-Handed :
      (b : HoldbackBuffer) (handed attempt : List SseText)
      → IsFaithful b handed attempt
      → Handed handed attempt (flush_buffer b)
  unfolding flush_buffer
  flush_buffer-Handed b handed attempt v =
      if_cases (Handed handed attempt) b.committed (λ _. nothing-Handed b handed attempt v)
        (λ e. record {
          whole = sym (append_nil (handed ++ b.events)) ∙ v.whole;
          hidden = λ h. absurd (ground (arith));
          drained = λ h. refl;
        })

  push_event-Handed :
      (b : HoldbackBuffer) (handed attempt : List SseText) (event : SseText) (first second : ℕ)
      → IsFaithful b handed attempt
      → Handed handed (attempt ++ event ∷ []) (push_event size b event first second)
  unfolding push_event
  push_event-Handed b handed attempt event first second v =
      let started = from_option b.started_at first (λ t. t) in
      let held = record b {
        started_at = some started;
        events = b.events ++ event ∷ [];
        bytes = b.bytes + size event;
      } in
      let longer = attempt ++ event ∷ [] in
      if_cases (Handed handed longer) b.committed
        (λ e. record {
          whole = rw (v.drained e) (
              sym (append_nil (handed ++ event ∷ []))
              ∙ ap (λ s. s ++ event ∷ []) (append_nil handed ∙ rw (v.drained e) at (v.whole)));
          hidden = λ h. absurd (ground (arith));
          drained = v.drained;
        })
        (λ e.
          let kept : IsFaithful held handed longer = record {
            whole =
                sym (append_assoc handed b.events (event ∷ [])) ∙ ap (λ s. s ++ event ∷ []) v.whole;
            hidden = v.hidden;
            drained = λ h. absurd (ground (arith));
          } in
          if_cases (Handed handed longer)
            (leb b.max_bytes (b.bytes + size event) || leb (started + b.holdback) second)
            (λ _. flush_buffer-Handed held handed longer kept)
            (λ _. nothing-Handed held handed longer kept))

  discard-Handed :
      (b : HoldbackBuffer) (handed attempt : List SseText)
      → IsFaithful b handed attempt
      → Handed handed (if b.committed then attempt else []) (discard_buffer b, [])
  unfolding discard_buffer
  discard-Handed b handed attempt v = elim (Bool-cases b.committed) [
    | inl e ↦ record {
      whole =
          rw e (
            sym (append_nil (handed ++ []))
            ∙ (ap (λ s. handed ++ s) (sym (v.drained e)) ∙ v.whole));
      hidden = λ h. absurd (ground (arith));
      drained = λ h. refl;
    }
    | inr e ↦ record {
      whole = rw (e, v.hidden e) refl;
      hidden = λ h. rw (v.hidden e) refl;
      drained = λ h. refl;
    }
  ]

  fail-Handed :
      (b : HoldbackBuffer) (handed attempt : List SseText) (f : Failure)
      → IsFaithful b handed attempt
      → Handed handed
          (if may_retry b f then [] else attempt)
          ((advance_failure holdback max_bytes b f).0, [])
  unfolding advance_failure
  fail-Handed b handed attempt f v = elim (Bool-cases (may_retry b f)) [
    | inl e ↦ rw e (record {
      whole = rw (v.hidden (ground (arith, e))) refl;
      hidden = λ h. rw (v.hidden (ground (arith, e))) refl;
      drained = λ h. refl;
    })
    | inr e ↦ rw e (
        if_cases (λ (w : HoldbackBuffer × Decision). Handed handed attempt (w.0, []))
          (may_recover f) (λ _. nothing-Handed b handed attempt v)
          (λ _. nothing-Handed b handed attempt v))
  ]

  step-Handed :
      (b : HoldbackBuffer) (handed attempt : List SseText) (c : Call)
      → IsFaithful b handed attempt
      → Handed handed (attempt_after b attempt c) (step b c)
  unfolding flush_uncommitted
  step-Handed b handed attempt (push event first second) v =
      push_event-Handed b handed attempt event first second v
  step-Handed b handed attempt flush v = flush_buffer-Handed b handed attempt v
  step-Handed b handed attempt discard v = discard-Handed b handed attempt v
  step-Handed b handed attempt (fail f) v = fail-Handed b handed attempt f v
  step-Handed b handed attempt (hand_over d) v =
      if_cases (Handed handed attempt) (not d.was_committed && d.had_buffered)
        (λ _. flush_buffer-Handed b handed attempt v) (λ _. nothing-Handed b handed attempt v)

  calls-from :
      (cs : List Call) (s : Session)
      → IsFaithful s.buffer s.handed s.attempt
      → IsFaithful (calls s cs).buffer (calls s cs).handed (calls s cs).attempt
  unfolding calls
  calls-from [] s v = v
  calls-from (c ∷ cs) s v = calls-from cs (call s c) (step-Handed s.buffer s.handed s.attempt c v)

  abbrev pub begun : Session
  begun = record { buffer = new_buffer holdback max_bytes; handed = []; attempt = [] }

  -- After any calls on a new controller, what the client was handed and what is held back are
  -- together, in order, the events of the attempt that goes on; before the commit the client has
  -- nothing, so that a retried attempt was invisible; after it nothing is held back.
  pub calls-IsFaithful :
      (cs : List Call)
      → IsFaithful (calls begun cs).buffer (calls begun cs).handed (calls begun cs).attempt
  calls-IsFaithful cs =
      calls-from cs begun (record { whole = refl; hidden = λ h. refl; drained = λ h. refl })

-- ===== src/Recovery.antt =====
-- providers/stream_recovery.py: the holdback of a provider's stream and the decision on its failure.
-- Times are whole ticks; `size` is the length of an event in UTF-8.
pub mod Invisible
mod Samples
use design.Common.{
  ℕ, ◌+◌, Bool, true, false, not, ◌&&◌, ◌||◌, Option, none, some, from_option, List, [], ◌∷◌, ◌++◌,
  ◌==◌, leb, ltb, if◌then◌else◌,
}

abbrev pub SseText : Type 0
SseText = List ℕ

-- `_now` is given to each call.
pub record HoldbackBuffer : Type 0 where
  pub holdback : ℕ
  pub max_bytes : ℕ
  pub events : List SseText
  pub bytes : ℕ
  pub started_at : Option ℕ
  pub committed : Bool

abbrev pub new_buffer : (holdback max_bytes : ℕ) → HoldbackBuffer
new_buffer holdback max_bytes = record {
  holdback = holdback;
  max_bytes = max_bytes;
  events = [];
  bytes = 0;
  started_at = none;
  committed = false;
}

unfoldable pub flush_buffer : HoldbackBuffer → HoldbackBuffer × List SseText
flush_buffer b =
    if b.committed
    then (b, [])
    else (record b { committed = true; events = []; bytes = 0; started_at = none }, b.events)

unfoldable pub discard_buffer : HoldbackBuffer → HoldbackBuffer
discard_buffer b = record b { events = []; bytes = 0; started_at = none }

abbrev pub has_buffered : HoldbackBuffer → Bool
has_buffered b = elim b.events [ [] ↦ false | ◌∷◌ e rest ↦ true ]

-- The clock is read once or twice: for a buffer that has not started, and after the event.
unfoldable pub push_event :
    (size : SseText → ℕ)
    → HoldbackBuffer
    → SseText
    → (first second : ℕ) → HoldbackBuffer × List SseText
unfolding flush_buffer
push_event size b event first second =
    if b.committed
    then (b, event ∷ [])
    else (let started = from_option b.started_at first (λ t. t) in
        let bytes = b.bytes + size event in
        let held = record b {
          started_at = some started;
          events = b.events ++ event ∷ [];
          bytes = bytes;
        } in
        if leb b.max_bytes bytes || leb (started + b.holdback) second
        then flush_buffer held
        else (held, []))

pub data FailureAction : Type 0 where
  early_retry midstream_recovery final_error : FailureAction

pub record Decision : Type 0 where
  pub action : FailureAction
  pub retryable : Bool
  pub was_committed : Bool
  pub had_buffered : Bool

-- The arguments of `advance_failure`.
pub record Failure : Type 0 where
  pub is_retryable : Bool
  pub stream_opened : Bool
  pub generated_output : Bool
  pub complete_tool_salvageable : Bool
  pub attempts_remaining : ℕ

abbrev pub may_retry : HoldbackBuffer → Failure → Bool
may_retry b f =
    f.is_retryable
    && (ltb 0 f.attempts_remaining
        && (f.stream_opened
            && (not b.committed
                && (not f.complete_tool_salvageable
                    && not (f.generated_output && f.attempts_remaining == 1)))))

abbrev pub may_recover : Failure → Bool
may_recover f =
    f.is_retryable
    && (f.generated_output && (ltb 0 f.attempts_remaining || f.complete_tool_salvageable))

-- A retry takes a new buffer with the source's two defaults.
unfoldable pub advance_failure :
    (holdback max_bytes : ℕ) → HoldbackBuffer → Failure → HoldbackBuffer × Decision
unfolding discard_buffer
advance_failure holdback max_bytes b f =
    if may_retry b f
    then (
      new_buffer holdback max_bytes,
      record {
        action = early_retry;
        retryable = true;
        was_committed = false;
        had_buffered = has_buffered b;
      },
    )
    else (if may_recover f
        then (
          b,
          record {
            action = midstream_recovery;
            retryable = true;
            was_committed = b.committed;
            had_buffered = has_buffered b;
          },
        )
        else (
          b,
          record {
            action = final_error;
            retryable = f.is_retryable;
            was_committed = b.committed;
            had_buffered = has_buffered b;
          },
        ))

unfoldable pub flush_uncommitted : HoldbackBuffer → Decision → HoldbackBuffer × List SseText
unfolding flush_buffer
flush_uncommitted b d = if not d.was_committed && d.had_buffered then flush_buffer b else (b, [])

-- ===== src/Recovery/Samples.antt =====
-- A stream that is retried once, and whose second attempt is committed.
use design.Common.{ℕ, ◌≡◌, refl, true, false, List, [], ◌∷◌, length}
use design.Recovery.{SseText, Failure}
use design.Recovery.Invisible.{Call, push, fail, calls, begun, IsFaithful, calls-IsFaithful}

abbrev cut_off : Failure
cut_off = record {
  is_retryable = true;
  stream_opened = true;
  generated_output = true;
  complete_tool_salvageable = false;
  attempts_remaining = 2;
}

abbrev size : SseText → ℕ
size event = length event

abbrev session : List Call
session =
    push (1 ∷ []) 0 1
    ∷ fail cut_off
    ∷ push (2 ∷ []) 5 5
    ∷ push (3 ∷ []) 5 90
    ∷ push (4 ∷ []) 91 91
    ∷ []

session-handed :
    (calls size 75 1000 (begun size 75 1000) session).handed ≡ (2 ∷ []) ∷ (3 ∷ []) ∷ (4 ∷ []) ∷ []
unfolding calls
session-handed = refl

calls-IsFaithful_example :
    IsFaithful size 75 1000
      (calls size 75 1000 (begun size 75 1000) session).buffer
      (calls size 75 1000 (begun size 75 1000) session).handed
      (calls size 75 1000 (begun size 75 1000) session).attempt
calls-IsFaithful_example = calls-IsFaithful size 75 1000 session

-- ===== src/Stream/Meeting.antt =====
-- A whole response, from `start` to the upstream's end, meets the contract of the stream.
use design.Common.{ℕ, ◌≡◌, refl, Bool, true, List, [], ◌∷◌, Key, lookup, contains, arith}
use design.Stream.Events.{Event, message_start}
use design.Stream.Ledger.{write_start}
use design.Stream.Responses.{
  Adapter, Context, Fed, fed, key_error, stream_failure, and_fed, ResponseEvent, feed_all, start,
  new_adapter, respond,
}
use design.Stream.Contract.{
  fine, check_event, check_events, ends_well, any_start, assert_contract, nothing_open,
}
use design.Stream.Linked.{Linked-new}
use design.Stream.Passing.{State}
use design.Stream.Orderly.{is_orderly, finishes}
use design.Stream.Finishing.{Ends, feed_all-Ends}

-- The adapter after `start`.
abbrev pub begun : (message_id model : Key) (input_tokens : ℕ) → Adapter
begun message_id model input_tokens =
    let a = new_adapter message_id model input_tokens in
    record a { ledger = record a.ledger { message_started = true } }

pub begun-State :
    (message_id model : Key) (input_tokens : ℕ)
    → State [] [] (begun message_id model input_tokens) nothing_open
unfolding lookup contains
begun-State message_id model input_tokens = record {
  agrees = record {
    tracks = record {
      fresh = λ k h. absurd (ground (arith));
      opened = λ k h. absurd (ground (arith));
      seen = λ k. refl;
      indexed = λ k s h. absurd (ground (arith));
      kinds = λ k s t h g. absurd (ground (arith));
    };
    active = record {
      text_open = λ h. absurd (ground (arith));
      thinking_open = λ h. absurd (ground (arith));
      tools_open = λ i s r. absurd (ground (arith, r.0));
      distinct = λ i j s t r q e. absurd (ground (arith, r.0));
      covered = λ k h. absurd (ground (arith));
    };
  };
  linked = Linked-new;
  unfinished = refl;
}

module _ (is_space : ℕ → Bool) (allow_error : Bool) where
  -- A result whose stream meets the contract.
  abbrev pub Meets : Fed → Type 0
  Meets r =
      (b : Adapter) × (events : List Event) × (r ≡ fed b events)
      × (assert_contract is_space allow_error events ≡ fine tt)

  ended-Meets :
      (x : Context) (a : Adapter) (message_id model : Key) (input_tokens : ℕ) (r : Fed)
      → Ends is_space allow_error x nothing_open r
      → Meets (and_fed (fed a (message_start message_id model input_tokens ∷ [])) (λ _. r))
  unfolding assert_contract any_start check_events check_event ends_well
  ended-Meets x a message_id model input_tokens (fed b []) (completed, well, over) =
      absurd (ground (arith))
  ended-Meets x a message_id model input_tokens (fed b (e ∷ es)) (completed, well, over) =
      (b, message_start message_id model input_tokens ∷ e ∷ es, refl, ground (arith, over))
  ended-Meets x a message_id model input_tokens key_error v = absurd v
  ended-Meets x a message_id model input_tokens (stream_failure message written) v = absurd v

  -- If a call's item comes before its arguments and nothing of it after its end, and the response
  -- ends without a failure, no exception is raised, and the events from `start` to the end meet
  -- the contract: every block is started once, gets deltas of its kind while it is open, and is
  -- stopped once, and there is a block.
  pub respond-assert_contract :
      (x : Context) (message_id model : Key) (input_tokens : ℕ) (es : List ResponseEvent)
      → is_orderly [] [] es ≡ true
      → finishes es ≡ true
      → Meets (respond x message_id model input_tokens es)
  unfolding respond start write_start
  respond-assert_contract x message_id model input_tokens es ordered finished =
      let a = begun message_id model input_tokens in
      ended-Meets x a message_id model input_tokens (feed_all x a es) (
        feed_all-Ends is_space allow_error x es [] [] a nothing_open
          (begun-State message_id model input_tokens) ordered finished)

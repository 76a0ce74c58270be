-- ===== src/Stream/Safety.antt =====
-- No orderly response makes the adapter raise a KeyError, whether it finishes or breaks off.
use design.Common.{ℕ, ◌≡◌, refl, ◌∙◌, Bool, true, false, List, [], ◌∷◌, Key, inl, inr, arith}
use design.Stream.Events.{Event, message_start}
use design.Stream.Ledger.{write_start}
use design.Stream.Contract.{Open, fine, check_event, check_events, nothing_open}
use design.Stream.Responses.{
  Adapter, Context, Fed, fed, key_error, stream_failure, and_fed, ResponseEvent, item_added,
  item_done, reasoning_delta, text_delta, arguments_delta, finish, failure, unknown, feed_open,
  feed, feed_all, start, respond,
}
use design.Stream.Accepted.{Checked-cases, check_events-append}
use design.Stream.Passing.{State, Passes}
use design.Stream.Orderly.{is_orderly, in_order, seen_after, done_after, is_end}
use design.Stream.Stepping.{feed_open-Passes}
use design.Stream.Finishing.{Ends, finish-Ends, feed-open, and_left, and_right}
use design.Stream.Meeting.{begun, begun-State}

module _ (is_space : ℕ → Bool) (allow_error : Bool) where
  -- Whatever was returned is accepted so far, also before the upstream's failure was raised.
  abbrev pub Safe : Open → Fed → Type 0
  Safe o (fed a es) = (p : Open) × (check_events is_space allow_error o es ≡ fine p)
  Safe o key_error = ⊥
  Safe o (stream_failure message es) =
      (p : Open) × (check_events is_space allow_error o es ≡ fine p)

  prepend-Safe :
      (o p : Open) (a : Adapter) (es : List Event) (r : Fed)
      → check_events is_space allow_error o es ≡ fine p
      → Safe p r
      → Safe o (and_fed (fed a es) (λ _. r))
  prepend-Safe o p a es (fed b fs) h (q, g) =
      (q, check_events-append is_space allow_error o p es fs h ∙ g)
  prepend-Safe o p a es key_error h v = absurd v
  prepend-Safe o p a es (stream_failure message fs) h (q, g) =
      (q, check_events-append is_space allow_error o p es fs h ∙ g)

  and_fed-Safe :
      (P : Adapter → Open → Type 0) (o : Open) (r : Fed) (f : Adapter → Fed)
      → Passes is_space allow_error o r P
      → ((a : Adapter) (p : Open) → P a p → Safe p (f a))
      → Safe o (and_fed r f)
  and_fed-Safe P o (fed a es) f (p, h, v) g = prepend-Safe o p a es (f a) h (g a p v)
  and_fed-Safe P o key_error f v g = absurd v
  and_fed-Safe P o (stream_failure message written) f v g = absurd v

  Ends-Safe : (x : Context) (o : Open) (r : Fed) → Ends is_space allow_error x o r → Safe o r
  Ends-Safe x o (fed a es) (completed, well, over) =
      elim (Checked-cases (check_events is_space allow_error o es)) [
        | inl (p, e) ↦ (p, e)
        | inr (v, e) ↦ absurd (ground (arith, rw e at over))
      ]
  Ends-Safe x o key_error v = absurd v
  Ends-Safe x o (stream_failure message written) v = absurd v

  module _ (x : Context) where
    step-Safe :
        (seen done : List Key) (a : Adapter) (o : Open) (e : ResponseEvent)
        (es : List ResponseEvent)
        → State seen done a o
        → in_order seen done e ≡ true
        → is_end e ≡ false
        → ((b : Adapter) (p : Open)
            → State (seen_after seen e) (done_after done e) b p
            → Safe p (feed_all x b es))
        → Safe o (feed_all x a (e ∷ es))
    unfolding feed_all
    step-Safe seen done a o e es v ordered open_ rest =
        rw (feed-open is_space allow_error x a e v.unfinished) (
          and_fed-Safe (State (seen_after seen e) (done_after done e)) o (feed_open x a e)
            (λ b. feed_all x b es)
            (feed_open-Passes is_space allow_error x seen done a o e v ordered open_) rest)

    failure-Safe :
        (a : Adapter) (o : Open) (message : Key) (es : List ResponseEvent)
        → a.completed ≡ false
        → Safe o (feed_all x a (failure message ∷ es))
    unfolding feed_all feed feed_open check_events
    failure-Safe a o message es h = rw h (o, refl)

    feed_all-Safe :
        (es : List ResponseEvent) (seen done : List Key) (a : Adapter) (o : Open)
        → State seen done a o
        → is_orderly seen done es ≡ true
        → Safe o (feed_all x a es)
    unfolding is_orderly
    feed_all-Safe [] seen done a o v h = unfold feed_all in unfold check_events in (o, refl)
    feed_all-Safe (finish incomplete usage ∷ es) seen done a o v h =
        Ends-Safe x o (feed_all x a (finish incomplete usage ∷ es))
          (finish-Ends is_space allow_error x seen done a o incomplete usage es v)
    feed_all-Safe (failure message ∷ es) seen done a o v h =
        failure-Safe a o message es v.unfinished
    feed_all-Safe (item_added item ∷ es) seen done a o v h =
        step-Safe seen done a o (item_added item) es v
          (and_left (in_order seen done (item_added item)) _ h) refl
          (λ b p w.
            feed_all-Safe es (seen_after seen (item_added item)) (done_after done (item_added item))
              b p w (and_right (in_order seen done (item_added item)) _ h))
    feed_all-Safe (item_done item ∷ es) seen done a o v h =
        step-Safe seen done a o (item_done item) es v
          (and_left (in_order seen done (item_done item)) _ h) refl
          (λ b p w.
            feed_all-Safe es (seen_after seen (item_done item)) (done_after done (item_done item)) b
              p w (and_right (in_order seen done (item_done item)) _ h))
    feed_all-Safe (reasoning_delta delta ∷ es) seen done a o v h =
        step-Safe seen done a o (reasoning_delta delta) es v
          (and_left (in_order seen done (reasoning_delta delta)) _ h) refl
          (λ b p w.
            feed_all-Safe es (seen_after seen (reasoning_delta delta))
              (done_after done (reasoning_delta delta)) b p w
              (and_right (in_order seen done (reasoning_delta delta)) _ h))
    feed_all-Safe (text_delta delta ∷ es) seen done a o v h =
        step-Safe seen done a o (text_delta delta) es v
          (and_left (in_order seen done (text_delta delta)) _ h) refl
          (λ b p w.
            feed_all-Safe es (seen_after seen (text_delta delta))
              (done_after done (text_delta delta)) b p w
              (and_right (in_order seen done (text_delta delta)) _ h))
    feed_all-Safe (arguments_delta id delta ∷ es) seen done a o v h =
        step-Safe seen done a o (arguments_delta id delta) es v
          (and_left (in_order seen done (arguments_delta id delta)) _ h) refl
          (λ b p w.
            feed_all-Safe es (seen_after seen (arguments_delta id delta))
              (done_after done (arguments_delta id delta)) b p w
              (and_right (in_order seen done (arguments_delta id delta)) _ h))
    feed_all-Safe (unknown ∷ es) seen done a o v h =
        step-Safe seen done a o unknown es v (and_left (in_order seen done unknown) _ h) refl
          (λ b p w.
            feed_all-Safe es (seen_after seen unknown) (done_after done unknown) b p w
              (and_right (in_order seen done unknown) _ h))

    -- While the events are in order, no KeyError is raised, and the events returned up to there,
    -- also those returned before the upstream's failure is raised, have none that the contract
    -- forbids.
    pub respond-Safe :
        (message_id model : Key) (input_tokens : ℕ) (es : List ResponseEvent)
        → is_orderly [] [] es ≡ true
        → Safe nothing_open (respond x message_id model input_tokens es)
    unfolding respond start write_start check_events check_event
    respond-Safe message_id model input_tokens es ordered =
        let a = begun message_id model input_tokens in
        prepend-Safe nothing_open nothing_open a (message_start message_id model input_tokens ∷ [])
          (feed_all x a es) refl
          (feed_all-Safe es [] [] a nothing_open (begun-State message_id model input_tokens)
            ordered)

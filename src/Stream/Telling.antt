-- ===== src/Stream/Telling.antt =====
-- An orderly response conveys the upstream's text and thinking.
use design.Common.{
  append_nil, ℕ, ◌≡◌, refl, ap, sym, subst, ◌∙◌, Bool, true, false, List, [], ◌∷◌, ◌++◌, Key, inl,
  inr, arith,
}
use design.Stream.Events.{Text, Event, message_start}
use design.Stream.Ledger.{write_start, close_all_blocks}
use design.Stream.Contract.{Open, fine, check_events, text_content, thinking_content, nothing_open}
use design.Stream.Responses.{
  Adapter, Context, Fed, fed, key_error, stream_failure, and_fed, ResponseUsage, ResponseEvent,
  item_added, item_done, reasoning_delta, text_delta, arguments_delta, finish, failure, unknown,
  on_finish, write_finish, feed_open, feed_all, start, respond,
}
use design.Stream.Content.{Says}
use design.Stream.CloseAll.{close_all_blocks-Accepts}
use design.Stream.Spoken.{OpenedSeen, Tracks-OpenedSeen, unseen-Says, unseen-has_content_block}
use design.Stream.Conveys.{Conveys, prepend-Conveys}
use design.Stream.Passing.{State, Passes}
use design.Stream.Orderly.{is_orderly, finishes, in_order, seen_after, done_after, is_end}
use design.Stream.Stepping.{feed_open-Passes}
use design.Stream.Finishing.{feed_all-completed, feed-open, and_left, and_right}
use design.Stream.Meeting.{begun, begun-State, respond-assert_contract}
use design.Stream.Told.{
  given, given_thought, given_text, given_thinking, Filled, FilledFrom, Tells, Finishes,
  feed_open-Conveys, write_finish-Says,
}

module _ (is_space : ℕ → Bool) (allow_error : Bool) (x : Context) where
  append-FilledFrom :
      (o p : Open) (es : List Event) (s t u v told : Text)
      → OpenedSeen o
      → check_events is_space allow_error o es ≡ fine p
      → Says s t es
      → FilledFrom p u v told
      → FilledFrom o (s ++ u) (t ++ v) (s ++ told)
  append-FilledFrom o p es s t u v told opened e says (inl f) = inl (ap (λ w. s ++ w) f)
  append-FilledFrom o p es s t u v told opened e (said, thought)
        (inr (none_p, text, thinking, space)) =
      let (none_o, (x, y)) = unseen-Says is_space allow_error o p es opened e none_p in
      let none_s : s ≡ [] = sym said ∙ x in
      let none_t : t ≡ [] = sym thought ∙ y in
      inr (none_o, rw (none_s, text) refl, rw (none_t, thinking) refl, rw (none_s, space) refl)

  and_fed-Tells :
      (P : Adapter → Open → Type 0) (o : Open) (s t u v : Text) (r : Fed) (f : Adapter → Fed)
      → OpenedSeen o
      → Passes is_space allow_error o r P
      → Conveys s t r
      → ((a : Adapter) (p : Open) → P a p → Tells p u v (f a))
      → Tells o (s ++ u) (t ++ v) (and_fed r f)
  and_fed-Tells P o s t u v (fed a es) f opened (p, e, w) h g =
      let (told, filled, k) = g a p w in
      (
        s ++ told,
        append-FilledFrom o p es s t u v told opened e h filled,
        prepend-Conveys s t told v a es (f a) h k,
      )
  and_fed-Tells P o s t u v key_error f opened w h g = absurd w
  and_fed-Tells P o s t u v (stream_failure message written) f opened w h g = absurd w

  step-Tells :
      (u v : Text) (seen done : List Key) (a : Adapter) (o : Open) (e : ResponseEvent)
      (es : List ResponseEvent)
      → State seen done a o
      → in_order seen done e ≡ true
      → is_end e ≡ false
      → ((b : Adapter) (p : Open)
          → State (seen_after seen e) (done_after done e) b p
          → Tells p u v (feed_all x b es))
      → Tells o (given e ++ u) (given_thought e ++ v) (feed_all x a (e ∷ es))
  unfolding feed_all
  step-Tells u v seen done a o e es w ordered open_ rest =
      rw (feed-open is_space allow_error x a e w.unfinished) (
        and_fed-Tells (State (seen_after seen e) (done_after done e)) o (given e) (given_thought e)
          u v (feed_open x a e) (λ b. feed_all x b es)
          (Tracks-OpenedSeen a.ledger o w.agrees.tracks)
          (feed_open-Passes is_space allow_error x seen done a o e w ordered open_)
          (feed_open-Conveys x a e open_) rest)

  finished-Filled :
      (seen done : List Key) (a : Adapter) (o : Open) (told : Text)
      → State seen done a o
      → Finishes (close_all_blocks a.ledger).0 told
      → FilledFrom o [] [] told
  finished-Filled seen done a o told v (inl e) = inl e
  finished-Filled seen done a o told v (inr (off, e)) =
      let (p, h, (w, _)) =
        close_all_blocks-Accepts is_space allow_error a.ledger o v.agrees v.linked.distinct in
      let (none_o, _) =
        unseen-Says is_space allow_error o p (close_all_blocks a.ledger).1
          (Tracks-OpenedSeen a.ledger o v.agrees.tracks) h
          (unseen-has_content_block (close_all_blocks a.ledger).0 p w.tracks off) in
      inr (none_o, refl, refl, e)

  finish-Tells :
      (seen done : List Key) (a : Adapter) (o : Open) (incomplete : Bool) (usage : ResponseUsage)
      (es : List ResponseEvent)
      → State seen done a o
      → Tells o [] [] (feed_all x a (finish incomplete usage ∷ es))
  unfolding feed_all feed_open on_finish
  finish-Tells seen done a o incomplete usage es v =
      let (told, filled, says) = write_finish-Says x a.ledger incomplete usage in
      let w = write_finish x a.ledger incomplete usage in
      let b = record a { ledger = w.0; completed = true } in
      (
        told,
        finished-Filled seen done a o told v filled,
        rw (feed-open is_space allow_error x a (finish incomplete usage) v.unfinished) (
            subst (λ r. Conveys told [] (and_fed (fed b (w.1 ++ [])) (λ _. r)))
              (sym (feed_all-completed is_space allow_error x b es refl))
              (rw (← append_nil (w.1 ++ []), ← append_nil w.1) says)),
      )

  feed_all-Tells :
      (es : List ResponseEvent) (seen done : List Key) (a : Adapter) (o : Open)
      → State seen done a o
      → is_orderly seen done es ≡ true
      → finishes es ≡ true
      → Tells o (given_text es) (given_thinking es) (feed_all x a es)
  unfolding is_orderly finishes given_text given_thinking
  feed_all-Tells [] seen done a o v h g = absurd (ground (arith))
  feed_all-Tells (finish incomplete usage ∷ es) seen done a o v h g =
      finish-Tells seen done a o incomplete usage es v
  feed_all-Tells (failure message ∷ es) seen done a o v h g = absurd (ground (arith))
  feed_all-Tells (item_added item ∷ es) seen done a o v h g =
      step-Tells (given_text es) (given_thinking es) seen done a o (item_added item) es v
        (and_left (in_order seen done (item_added item)) _ h) refl
        (λ b p w.
          feed_all-Tells es (seen_after seen (item_added item)) (done_after done (item_added item))
            b p w (and_right (in_order seen done (item_added item)) _ h) g)
  feed_all-Tells (item_done item ∷ es) seen done a o v h g =
      step-Tells (given_text es) (given_thinking es) seen done a o (item_done item) es v
        (and_left (in_order seen done (item_done item)) _ h) refl
        (λ b p w.
          feed_all-Tells es (seen_after seen (item_done item)) (done_after done (item_done item)) b
            p w (and_right (in_order seen done (item_done item)) _ h) g)
  feed_all-Tells (reasoning_delta delta ∷ es) seen done a o v h g =
      step-Tells (given_text es) (given_thinking es) seen done a o (reasoning_delta delta) es v
        (and_left (in_order seen done (reasoning_delta delta)) _ h) refl
        (λ b p w.
          feed_all-Tells es (seen_after seen (reasoning_delta delta))
            (done_after done (reasoning_delta delta)) b p w
            (and_right (in_order seen done (reasoning_delta delta)) _ h) g)
  feed_all-Tells (text_delta delta ∷ es) seen done a o v h g =
      step-Tells (given_text es) (given_thinking es) seen done a o (text_delta delta) es v
        (and_left (in_order seen done (text_delta delta)) _ h) refl
        (λ b p w.
          feed_all-Tells es (seen_after seen (text_delta delta))
            (done_after done (text_delta delta)) b p w
            (and_right (in_order seen done (text_delta delta)) _ h) g)
  feed_all-Tells (arguments_delta id delta ∷ es) seen done a o v h g =
      step-Tells (given_text es) (given_thinking es) seen done a o (arguments_delta id delta) es v
        (and_left (in_order seen done (arguments_delta id delta)) _ h) refl
        (λ b p w.
          feed_all-Tells es (seen_after seen (arguments_delta id delta))
            (done_after done (arguments_delta id delta)) b p w
            (and_right (in_order seen done (arguments_delta id delta)) _ h) g)
  feed_all-Tells (unknown ∷ es) seen done a o v h g =
      step-Tells (given_text es) (given_thinking es) seen done a o unknown es v
        (and_left (in_order seen done unknown) _ h) refl
        (λ b p w.
          feed_all-Tells es (seen_after seen unknown) (done_after done unknown) b p w
            (and_right (in_order seen done unknown) _ h) g)

  begun-Tells :
      (a : Adapter) (message_id model : Key) (input_tokens : ℕ) (u v : Text) (r : Fed)
      → Tells nothing_open u v r
      → Tells nothing_open u v
          (and_fed (fed a (message_start message_id model input_tokens ∷ [])) (λ _. r))
  unfolding text_content thinking_content
  begun-Tells a message_id model input_tokens u v r (told, filled, h) = (
    told,
    filled,
    prepend-Conveys [] [] told v a (message_start message_id model input_tokens ∷ []) r (refl, refl)
        h,
  )

  told-content :
      (u v : Text) (r : Fed) (b : Adapter) (events : List Event)
      → r ≡ fed b events
      → Tells nothing_open u v r
      → Filled u v (text_content events) × (thinking_content events ≡ v)
  told-content u v r b events e h =
      let (told, filled, (said, thought)) = subst (Tells nothing_open u v) e h in
      (rw said (elim filled [ inl f ↦ inl f | inr (_, p, q, f) ↦ inr (p, q, f) ]), thought)

-- An orderly response that finishes conveys its texts: the thinking that a client reads is the
-- upstream's reasoning, and the text is the upstream's, but for a single space that may stand for
-- the text of a response with neither text nor reasoning.
pub respond-text_content :
    (x : Context) (message_id model : Key) (input_tokens : ℕ) (es : List ResponseEvent)
    → is_orderly [] [] es ≡ true
    → finishes es ≡ true
    → (b : Adapter) × (events : List Event) × (respond x message_id model input_tokens es
        ≡ fed b events)
      × Filled (given_text es) (given_thinking es) (text_content events)
      × (thinking_content events ≡ given_thinking es)
unfolding respond start write_start
respond-text_content x message_id model input_tokens es ordered finished =
    let a = begun message_id model input_tokens in
    let none_is : ℕ → Bool = λ c. false in
    let (b, events, e, _) =
      respond-assert_contract none_is false x message_id model input_tokens es ordered finished in
    let (said, thought) =
      told-content none_is false x (given_text es) (given_thinking es)
        (respond x message_id model input_tokens es) b events e
        (begun-Tells none_is false x a message_id model input_tokens (given_text es)
          (given_thinking es) (feed_all x a es)
          (feed_all-Tells none_is false x es [] [] a nothing_open
            (begun-State message_id model input_tokens) ordered finished)) in
    (b, events, e, said, thought)

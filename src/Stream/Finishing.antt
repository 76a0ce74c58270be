-- ===== src/Stream/Finishing.antt =====
-- An orderly upstream response that finishes becomes a stream that meets the contract.
use design.Common.{
  append_nil, subst, sym, ℕ, ap, ◌≡◌, refl, ◌∙◌, Bool, true, false, ◌&&◌, List, [], ◌∷◌, ◌++◌, Key,
  if◌then◌else◌, if_cases, keys, arith,
}
use design.Stream.Events.{Event}
use design.Stream.Ledger.{
  Ledger, Written, and_then, has_content_block, close_all_blocks, write_delta, write_stop,
}
use design.Stream.Responses.{
  Adapter, Context, Fed, fed, key_error, stream_failure, and_fed, writes, ResponseUsage,
  ResponseEvent, item_added, item_done, reasoning_delta, text_delta, arguments_delta, finish,
  failure, unknown, write_space, write_end, write_finish, on_finish, feed_open, feed, feed_all,
}
use design.Stream.Contract.{Open, fine, and_check, check_event, check_events, check_end, ends_well}
use design.Trees.Queue.Laws.{IsDistinct}
use design.Stream.Accepted.{Agrees, Accepts, and_then-Accepts, nothing-Accepts, check_events-append}
use design.Stream.Writers.{Closed, none_live, all_live}
use design.Stream.CloseAll.{close_all_blocks-Accepts}
use design.Stream.Passing.{State, Passes}
use design.Stream.Orderly.{is_orderly, finishes, in_order, seen_after, done_after, is_end}
use design.Stream.Stepping.{feed_open-Passes}
use design.Stream.Closing.{Over, nothing_left, seen-has_content_block, write_space-Accepts}

ends_well-append :
    (allow_error : Bool) (es fs : List Event)
    → ends_well allow_error fs ≡ true
    → ends_well allow_error (es ++ fs) ≡ true
unfolding ends_well
ends_well-append allow_error [] fs h = h
ends_well-append allow_error (e ∷ []) [] h = absurd (ground (arith))
ends_well-append allow_error (e ∷ []) (f ∷ fs) h = h
ends_well-append allow_error (e ∷ d ∷ es) fs h = ends_well-append allow_error (d ∷ es) fs h

pub and_left : (a b : Bool) → (a && b) ≡ true → a ≡ true
and_left a b h = ground (arith)

pub and_right : (a b : Bool) → (a && b) ≡ true → b ≡ true
and_right a b h = ground (arith)

module _ (is_space : ℕ → Bool) (allow_error : Bool) (x : Context) where
  -- The rest of the stream is well-formed, and the response is completed.
  abbrev pub Ends : Open → Fed → Type 0
  Ends o (fed a es) =
      (a.completed ≡ true)
      × (ends_well allow_error es ≡ true)
      × (and_check (check_events is_space allow_error o es) check_end ≡ fine tt)
  Ends o key_error = ⊥
  Ends o (stream_failure message written) = ⊥

  prepend-Ends :
      (o p : Open) (a : Adapter) (es : List Event) (r : Fed)
      → check_events is_space allow_error o es ≡ fine p
      → Ends p r
      → Ends o (and_fed (fed a es) (λ _. r))
  prepend-Ends o p a es (fed b fs) h (completed, well, closed) = (
    completed,
    ends_well-append allow_error es fs well,
    ap (λ c. and_check c check_end) (check_events-append is_space allow_error o p es fs h) ∙ closed,
  )
  prepend-Ends o p a es key_error h v = absurd v
  prepend-Ends o p a es (stream_failure message written) h v = absurd v

  and_fed-Ends :
      (P : Adapter → Open → Type 0) (o : Open) (r : Fed) (f : Adapter → Fed)
      → Passes is_space allow_error o r P
      → ((a : Adapter) (p : Open) → P a p → Ends p (f a))
      → Ends o (and_fed r f)
  and_fed-Ends P o (fed a es) f (p, h, v) g = prepend-Ends o p a es (f a) h (g a p v)
  and_fed-Ends P o key_error f v g = absurd v
  and_fed-Ends P o (stream_failure message written) f v g = absurd v

  write_end-ends_well :
      (l : Ledger) (incomplete : Bool) (usage : ResponseUsage)
      → ends_well allow_error (write_end x l incomplete usage).1 ≡ true
  unfolding write_end write_delta write_stop ends_well
  write_end-ends_well l incomplete usage = refl

  write_finish-ends_well :
      (l : Ledger) (incomplete : Bool) (usage : ResponseUsage)
      → ends_well allow_error (write_finish x l incomplete usage).1 ≡ true
  unfolding write_finish
  write_finish-ends_well l incomplete usage =
      let m = (close_all_blocks l).0 in
      let w = if has_content_block m then (m, []) else write_space m in
      ends_well-append allow_error (close_all_blocks l).1
        (w.1 ++ (write_end x w.0 incomplete usage).1)
        (ends_well-append allow_error w.1 (write_end x w.0 incomplete usage).1
          (write_end-ends_well w.0 incomplete usage))

  write_end-Accepts :
      (l : Ledger) (o : Open) (incomplete : Bool) (usage : ResponseUsage)
      → Over l o
      → Accepts is_space allow_error o (write_end x l incomplete usage) Over
  unfolding write_end write_delta write_stop check_events check_event
  write_end-Accepts l o incomplete usage v = (o, refl, v)

  write_finish-Accepts :
      (l : Ledger) (o : Open) (incomplete : Bool) (usage : ResponseUsage)
      → Agrees all_live l o
      → IsDistinct (keys l.blocks.tool_states)
      → Accepts is_space allow_error o (write_finish x l incomplete usage) Over
  unfolding write_finish
  write_finish-Accepts l o incomplete usage v d =
      and_then-Accepts is_space allow_error (λ m p. Agrees none_live m p × Closed m) Over o
        (close_all_blocks l)
        (λ m.
          and_then (if has_content_block m then (m, []) else write_space m)
            (λ n. write_end x n incomplete usage))
        (close_all_blocks-Accepts is_space allow_error l o v d)
        (λ m p (w, closed).
          and_then-Accepts is_space allow_error Over Over p
            (if has_content_block m then (m, []) else write_space m)
            (λ n. write_end x n incomplete usage)
            (if_cases (λ c. Accepts is_space allow_error p c Over) (has_content_block m)
              (λ on.
                nothing-Accepts is_space allow_error Over m p
                  (nothing_left m p w closed, seen-has_content_block m p w.tracks on))
              (λ _. write_space-Accepts is_space allow_error m p w closed))
            (λ n q over. write_end-Accepts n q incomplete usage over))

  write-Ends :
      (a : Adapter) (o : Open) (w : Written)
      → Accepts is_space allow_error o w Over
      → ends_well allow_error w.1 ≡ true
      → Ends o (and_fed (writes a w) (λ b. fed (record b { completed = true }) []))
  write-Ends a o (l, es) (p, h, (nothing, some')) well =
      (refl, rw (← append_nil es) well, rw (← append_nil es) (ground (arith, h, nothing, some')))

  on_finish-Ends :
      (seen done : List Key) (a : Adapter) (o : Open) (incomplete : Bool) (usage : ResponseUsage)
      → State seen done a o
      → Ends o (on_finish x a incomplete usage)
  unfolding on_finish
  on_finish-Ends seen done a o incomplete usage v =
      write-Ends a o (write_finish x a.ledger incomplete usage)
        (write_finish-Accepts a.ledger o incomplete usage v.agrees v.linked.distinct)
        (write_finish-ends_well a.ledger incomplete usage)

  feed-completed : (a : Adapter) (e : ResponseEvent) → a.completed ≡ true → feed x a e ≡ fed a []
  unfolding feed
  feed-completed a e h = ground (arith)

  pub feed_all-completed :
      (a : Adapter) (es : List ResponseEvent) → a.completed ≡ true → feed_all x a es ≡ fed a []
  unfolding feed_all
  feed_all-completed a [] h = refl
  feed_all-completed a (e ∷ es) h =
      rw (feed-completed a e h) (ap (λ r. and_fed (fed a []) (λ _. r)) (feed_all-completed a es h))

  -- What comes after the end changes nothing.
  end-Ends :
      (o : Open) (r : Fed) (es : List ResponseEvent)
      → Ends o r
      → Ends o (and_fed r (λ b. feed_all x b es))
  end-Ends o (fed a fs) es (h, well, closed) =
      subst (λ r. Ends o (and_fed (fed a fs) (λ _. r))) (sym (feed_all-completed a es h))
        (h, rw (← append_nil fs) well, rw (← append_nil fs) closed)
  end-Ends o key_error es v = absurd v
  end-Ends o (stream_failure message written) es v = absurd v

  pub feed-open :
      (a : Adapter) (e : ResponseEvent) → a.completed ≡ false → feed x a e ≡ feed_open x a e
  unfolding feed
  feed-open a e h = ground (arith)

  pub finish-Ends :
      (seen done : List Key) (a : Adapter) (o : Open) (incomplete : Bool) (usage : ResponseUsage)
      (es : List ResponseEvent)
      → State seen done a o
      → Ends o (feed_all x a (finish incomplete usage ∷ es))
  unfolding feed_all feed_open
  finish-Ends seen done a o incomplete usage es v =
      rw (feed-open a (finish incomplete usage) v.unfinished) (
        end-Ends o (on_finish x a incomplete usage) es
          (on_finish-Ends seen done a o incomplete usage v))

  step-Ends :
      (seen done : List Key) (a : Adapter) (o : Open) (e : ResponseEvent) (es : List ResponseEvent)
      → State seen done a o
      → in_order seen done e ≡ true
      → is_end e ≡ false
      → ((b : Adapter) (p : Open)
          → State (seen_after seen e) (done_after done e) b p
          → Ends p (feed_all x b es))
      → Ends o (feed_all x a (e ∷ es))
  unfolding feed_all
  step-Ends seen done a o e es v ordered open_ rest = rw (feed-open a e v.unfinished) (
      and_fed-Ends (State (seen_after seen e) (done_after done e)) o (feed_open x a e)
        (λ b. feed_all x b es)
        (feed_open-Passes is_space allow_error x seen done a o e v ordered open_) rest)

  pub feed_all-Ends :
      (es : List ResponseEvent) (seen done : List Key) (a : Adapter) (o : Open)
      → State seen done a o
      → is_orderly seen done es ≡ true
      → finishes es ≡ true
      → Ends o (feed_all x a es)
  unfolding is_orderly finishes
  feed_all-Ends [] seen done a o v h g = absurd (ground (arith))
  feed_all-Ends (finish incomplete usage ∷ es) seen done a o v h g =
      finish-Ends seen done a o incomplete usage es v
  feed_all-Ends (failure message ∷ es) seen done a o v h g = absurd (ground (arith))
  feed_all-Ends (item_added item ∷ es) seen done a o v h g =
      step-Ends seen done a o (item_added item) es v
        (and_left (in_order seen done (item_added item)) _ h) refl
        (λ b p w.
          feed_all-Ends es (seen_after seen (item_added item)) (done_after done (item_added item)) b
            p w (and_right (in_order seen done (item_added item)) _ h) g)
  feed_all-Ends (item_done item ∷ es) seen done a o v h g =
      step-Ends seen done a o (item_done item) es v
        (and_left (in_order seen done (item_done item)) _ h) refl
        (λ b p w.
          feed_all-Ends es (seen_after seen (item_done item)) (done_after done (item_done item)) b p
            w (and_right (in_order seen done (item_done item)) _ h) g)
  feed_all-Ends (reasoning_delta delta ∷ es) seen done a o v h g =
      step-Ends seen done a o (reasoning_delta delta) es v
        (and_left (in_order seen done (reasoning_delta delta)) _ h) refl
        (λ b p w.
          feed_all-Ends es (seen_after seen (reasoning_delta delta))
            (done_after done (reasoning_delta delta)) b p w
            (and_right (in_order seen done (reasoning_delta delta)) _ h) g)
  feed_all-Ends (text_delta delta ∷ es) seen done a o v h g =
      step-Ends seen done a o (text_delta delta) es v
        (and_left (in_order seen done (text_delta delta)) _ h) refl
        (λ b p w.
          feed_all-Ends es (seen_after seen (text_delta delta)) (done_after done (text_delta delta))
            b p w (and_right (in_order seen done (text_delta delta)) _ h) g)
  feed_all-Ends (arguments_delta id delta ∷ es) seen done a o v h g =
      step-Ends seen done a o (arguments_delta id delta) es v
        (and_left (in_order seen done (arguments_delta id delta)) _ h) refl
        (λ b p w.
          feed_all-Ends es (seen_after seen (arguments_delta id delta))
            (done_after done (arguments_delta id delta)) b p w
            (and_right (in_order seen done (arguments_delta id delta)) _ h) g)
  feed_all-Ends (unknown ∷ es) seen done a o v h g =
      step-Ends seen done a o unknown es v (and_left (in_order seen done unknown) _ h) refl
        (λ b p w.
          feed_all-Ends es (seen_after seen unknown) (done_after done unknown) b p w
            (and_right (in_order seen done unknown) _ h) g)

-- ===== src/Stream/Orderly.antt =====
-- The order in which an upstream sends its items, and the adapter's steps on such events.
use design.Common.{
  ℕ, ◌≡◌, ◌∙◌, Bool, true, false, not, ◌&&◌, ◌||◌, some, is_some, List, [], ◌∷◌, Key, if◌then◌else◌,
  if_cases, lookup, contains, length, is_text, arith,
}
use design.Stream.Events.{Text}
use design.Stream.Ledger.{
  Written, and_then, ensure_text_block, ensure_thinking_block, emit_text_delta, emit_thinking_delta,
}
use design.Stream.Responses.{
  Adapter, and_fed, writes, generated, ToolState, Item, function_call, ResponseEvent, item_added,
  item_done, arguments_delta, finish, failure, set_tool, on_reasoning_done, on_reasoning_delta,
  on_text_delta, remembered, write_redacted,
}
use design.Stream.Contract.{Open}
use design.Stream.Accepted.{Accepts, and_then-Accepts}
use design.Stream.Writers.{
  Same, all_live, ensure_text_block-Accepts, ensure_thinking_block-Accepts, emit_text_delta-Accepts,
  emit_thinking_delta-Accepts,
}
use design.Stream.Linked.{Linked-add, Linked-set}
use design.Stream.Passing.{State, Passes, and_fed-Passes, writes-Passes, fed-Passes}
use design.Stream.Redacted.{write_redacted-Accepts}

-- The ids seen, and those done, after an event.
abbrev pub seen_after : List Key → ResponseEvent → List Key
seen_after seen (item_added (some item)) = elim item.type [
  | function_call ↦ if is_text item.id then item.id ∷ seen else seen
  | _ ↦ seen
]
seen_after seen (item_done (some item)) = elim item.type [
  | function_call ↦ item.id ∷ seen
  | _ ↦ seen
]
seen_after seen (arguments_delta id (some delta)) = if is_text id then id ∷ seen else seen
seen_after seen e = seen

abbrev pub done_after : List Key → ResponseEvent → List Key
done_after done (item_done (some item)) = elim item.type [
  | function_call ↦ item.id ∷ done
  | _ ↦ done
]
done_after done e = done

-- A call's item is added before anything else of it, and nothing of it follows its end.
abbrev pub in_order : (seen done : List Key) → ResponseEvent → Bool
in_order seen done (item_added (some item)) = elim item.type [
  | function_call ↦ not (is_text item.id) || not (contains item.id seen)
  | _ ↦ true
]
in_order seen done (item_done (some item)) = elim item.type [
  | function_call ↦ not (contains item.id done)
  | _ ↦ true
]
in_order seen done (arguments_delta id (some delta)) = not (is_text id) || not (contains id done)
in_order seen done e = true

-- Until the response finishes or fails, its events come in order.
unfoldable pub is_orderly : (seen done : List Key) → List ResponseEvent → Bool
unfolding contains
is_orderly seen done [] = true
is_orderly seen done (finish incomplete usage ∷ es) = true
is_orderly seen done (failure message ∷ es) = true
is_orderly seen done (e ∷ es) =
    let rest = is_orderly (seen_after seen e) (done_after done e) es in in_order seen done e && rest

-- The response finishes, and does not fail before.
unfoldable pub finishes : List ResponseEvent → Bool
finishes [] = false
finishes (finish incomplete usage ∷ es) = true
finishes (failure message ∷ es) = false
finishes (e ∷ es) = finishes es

abbrev pub is_end : ResponseEvent → Bool
is_end (finish incomplete usage) = true
is_end (failure message) = true
is_end _ = false

module _ (seen done : List Key) (a : Adapter) (o : Open) (v : State seen done a o) where
  pub State-add :
      (k : Key) (s : ToolState)
      → contains k seen ≡ false
      → s.tool_index ≡ length a.tools
      → s.started ≡ false
      → s.stopped ≡ false
      → State (k ∷ seen) done (set_tool a k s) o
  State-add k s new index idle live = record {
    agrees = v.agrees;
    linked =
        Linked-add seen done a.tools a.ledger.blocks.tool_states v.linked k s new index idle live;
    unfinished = v.unfinished;
  }

  -- An id that has a tool is seen again.
  pub State-again : (k : Key) → is_some (lookup k a.tools) ≡ true → State (k ∷ seen) done a o
  unfolding contains
  State-again k here =
      let w = v.linked in
      record {
        agrees = v.agrees;
        linked = record {
          known = λ j. ground (arith, w.known j, w.known k);
          below = w.below;
          below_states = w.below_states;
          apart = w.apart;
          idle = w.idle;
          runs = w.runs;
          unstopped = w.unstopped;
          distinct = w.distinct;
        };
        unfinished = v.unfinished;
      }

  pub State-set :
      (k : Key) (s s' : ToolState)
      → lookup k a.tools ≡ some s
      → s'.tool_index ≡ s.tool_index
      → s'.started ≡ s.started
      → s'.stopped ≡ s.stopped
      → State seen done (set_tool a k s') o
  State-set k s s' here index same same' = record {
    agrees = v.agrees;
    linked =
        Linked-set seen done a.tools a.ledger.blocks.tool_states v.linked k s s' here index same
          same';
    unfinished = v.unfinished;
  }

module _ (is_space : ℕ → Bool) (allow_error : Bool) (seen done : List Key) where
  -- An operation of the ledger that keeps the tools, and then `generated_output`.
  generated-Passes :
      (a : Adapter) (o : Open) (w : Written)
      → State seen done a o
      → Accepts is_space allow_error o w (Same all_live a.ledger)
      → Passes is_space allow_error o (and_fed (writes a w) generated) (State seen done)
  generated-Passes a o w v accepted =
      and_fed-Passes is_space allow_error (State seen done) (State seen done) o (writes a w)
        generated
        (writes-Passes is_space allow_error (Same all_live a.ledger) (State seen done) o a w
          accepted
          (λ l p (x, tools). record {
            agrees = x;
            linked = rw tools v.linked;
            unfinished = v.unfinished;
          }))
        (λ b p x.
          fed-Passes is_space allow_error (State seen done) p (record b { generated_output = true })
            (record { agrees = x.agrees; linked = x.linked; unfinished = x.unfinished }))

  pub on_text_delta-Passes :
      (a : Adapter) (o : Open) (delta : Text)
      → State seen done a o
      → Passes is_space allow_error o (on_text_delta a delta) (State seen done)
  unfolding on_text_delta
  on_text_delta-Passes a o delta v =
      let l = a.ledger in
      generated-Passes a o (and_then (ensure_text_block l) (λ m. emit_text_delta m delta)) v (
        and_then-Accepts is_space allow_error
          (λ m p. Same all_live l m p × (m.blocks.text_started ≡ true)) (Same all_live l) o
          (ensure_text_block l) (λ m. emit_text_delta m delta)
          (ensure_text_block-Accepts is_space allow_error all_live l o v.agrees)
          (λ m p ((w, tools), on).
            let (q, e, ((x, tools'), same)) =
              emit_text_delta-Accepts is_space allow_error all_live m p delta w on in
            (q, e, (x, tools' ∙ tools))))

  pub on_reasoning_delta-Passes :
      (a : Adapter) (o : Open) (delta : Text)
      → State seen done a o
      → Passes is_space allow_error o (on_reasoning_delta a delta) (State seen done)
  unfolding on_reasoning_delta
  on_reasoning_delta-Passes a o delta v =
      let l = a.ledger in
      generated-Passes a o (and_then (ensure_thinking_block l) (λ m. emit_thinking_delta m delta)) v
        (and_then-Accepts is_space allow_error
          (λ m p. Same all_live l m p × (m.blocks.thinking_started ≡ true)) (Same all_live l) o
          (ensure_thinking_block l) (λ m. emit_thinking_delta m delta)
          (ensure_thinking_block-Accepts is_space allow_error all_live l o v.agrees)
          (λ m p ((w, tools), on).
            let (q, e, ((x, tools'), same)) =
              emit_thinking_delta-Accepts is_space allow_error all_live m p delta w on in
            (q, e, (x, tools' ∙ tools))))

  pub on_reasoning_done-Passes :
      (a : Adapter) (o : Open) (item : Item)
      → State seen done a o
      → Passes is_space allow_error o (on_reasoning_done a item) (State seen done)
  unfolding on_reasoning_done
  on_reasoning_done-Passes a o item v =
      if_cases (λ r. Passes is_space allow_error o r (State seen done))
        (is_text (remembered a item))
        (λ _.
          generated-Passes a o (write_redacted a.ledger (remembered a item)) v
            (write_redacted-Accepts is_space allow_error a.ledger o (remembered a item) v.agrees))
        (λ _. fed-Passes is_space allow_error (State seen done) o a v)

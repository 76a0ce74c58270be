-- ===== src/Stream/Conveys.antt =====
-- What the adapter conveys of each upstream event.
use design.Common.{
  ℕ, suc, refl, true, ◌||◌, Option, none, some, from_option, List, [], ◌++◌, Key, if◌then◌else◌,
  if_cases, lookup, Option-cases, from_option_ind, inl, inr, is_text,
}
use design.Stream.Events.{Text, Event, is_empty}
use design.Stream.Ledger.{
  Ledger, and_then, with_blocks, block_delta, block_start, block_stop, start_tool_block,
  emit_tool_delta, stop_tool_block, close_content_blocks,
}
use design.Stream.Contract.{text_content, thinking_content}
use design.Stream.Responses.{
  Adapter, Context, Fed, fed, key_error, stream_failure, and_fed, writes, may_write, generated,
  ToolState, Item, set_tool, new_tool, call_id_of, receive, stopped_tool, on_item_done,
  on_tool_done, on_reasoning_done, on_arguments_delta, ensure_tool_started, all_arguments,
  tool_delta, finish_tool, named, remembered, redacted, write_redacted,
}
use design.Stream.Stepping.{ItemType-cases}
use design.Stream.Content.{
  Says, append-Says, Quiet, and_then-Quiet, start_tool_block-Quiet, close_content_blocks-Quiet,
}

-- What a result says, unless the call raised.
abbrev pub Conveys : (said thought : Text) → Fed → Type 0
Conveys said thought (fed a es) = Says said thought es
Conveys said thought key_error = Unit
Conveys said thought (stream_failure message written) = Unit

pub prepend-Conveys :
    (s t u v : Text) (a : Adapter) (es : List Event) (r : Fed)
    → Says s t es
    → Conveys u v r
    → Conveys (s ++ u) (t ++ v) (and_fed (fed a es) (λ _. r))
prepend-Conveys s t u v a es (fed b fs) h g = append-Says s t u v es fs h g
prepend-Conveys s t u v a es key_error h g = tt
prepend-Conveys s t u v a es (stream_failure message written) h g = tt

pub and_fed-Conveys :
    (s t u v : Text) (r : Fed) (f : Adapter → Fed)
    → Conveys s t r
    → ((a : Adapter) → Conveys u v (f a))
    → Conveys (s ++ u) (t ++ v) (and_fed r f)
and_fed-Conveys s t u v (fed a es) f h g = prepend-Conveys s t u v a es (f a) h (g a)
and_fed-Conveys s t u v key_error f h g = tt
and_fed-Conveys s t u v (stream_failure message written) f h g = tt

and_fed-Still :
    (r : Fed) (f : Adapter → Fed)
    → Conveys [] [] r
    → ((a : Adapter) → Conveys [] [] (f a))
    → Conveys [] [] (and_fed r f)
and_fed-Still r f h g = and_fed-Conveys [] [] [] [] r f h g

pub fed-Still : (a : Adapter) → Conveys [] [] (fed a [])
unfolding text_content thinking_content
fed-Still a = (refl, refl)

ensure_tool_started-Still :
    (a : Adapter) (id : Key) (state : ToolState) → Conveys [] [] (ensure_tool_started a id state)
unfolding ensure_tool_started
ensure_tool_started-Still a id state =
    if_cases (Conveys [] []) state.started (λ _. fed-Still a)
      (λ _.
        and_fed-Still (generated (set_tool a id (record state { started = true })))
          (λ b. writes b (start_tool_block b.ledger state.tool_index state.call_id state.name none))
          (fed-Still
            (record (set_tool a id (record state { started = true })) { generated_output = true }))
          (λ b. start_tool_block-Quiet b.ledger state.tool_index state.call_id state.name none))

emit_tool-Still :
    (a : Adapter) (i : Key) (delta : Text)
    → Conveys [] [] (may_write a (emit_tool_delta a.ledger i delta))
unfolding emit_tool_delta block_delta text_content thinking_content
emit_tool-Still a i delta = elim (Option-cases (lookup i a.ledger.blocks.tool_states)) [
  | inl e ↦ rw e tt
  | inr (t, e) ↦ rw e (refl, refl)
]

stop_tool-Still : (a : Adapter) (i : Key) → Conveys [] [] (may_write a (stop_tool_block a.ledger i))
unfolding stop_tool_block block_stop text_content thinking_content
stop_tool-Still a i = elim (Option-cases (lookup i a.ledger.blocks.tool_states)) [
  | inl e ↦ rw e tt
  | inr (t, e) ↦ rw e (refl, refl)
]

tool_delta-Still :
    (a : Adapter) (id : Key) (state : ToolState) (delta : Text)
    → Conveys [] [] (tool_delta a id state delta)
unfolding tool_delta
tool_delta-Still a id state delta =
    let rest : Adapter → Fed = λ c.
      if is_empty delta
      then fed c []
      else and_fed (may_write c (emit_tool_delta c.ledger state.tool_index delta))
          (λ d. receive d id) in
    and_fed-Still (writes a (close_content_blocks a.ledger))
      (λ b. and_fed (ensure_tool_started b id state) rest) (close_content_blocks-Quiet a.ledger)
      (λ b.
        and_fed-Still (ensure_tool_started b id state) rest (ensure_tool_started-Still b id state)
          (λ c.
            if_cases (Conveys [] []) (is_empty delta) (λ _. fed-Still c)
              (λ _.
                and_fed-Still (may_write c (emit_tool_delta c.ledger state.tool_index delta))
                  (λ d. receive d id) (emit_tool-Still c state.tool_index delta)
                  (λ d. fed-Still d))))

pub on_arguments_delta-Still :
    (a : Adapter) (id : Key) (delta : Option Text) → Conveys [] [] (on_arguments_delta a id delta)
unfolding on_arguments_delta
on_arguments_delta-Still a id none = fed-Still a
on_arguments_delta-Still a id (some delta) =
    if_cases (Conveys [] []) (is_text id)
      (λ _.
        from_option_ind (Conveys [] []) (lookup id a.tools)
          (tool_delta-Still (set_tool a id (new_tool a id [])) id (new_tool a id []) delta)
          (λ state _. tool_delta-Still a id state delta))
      (λ _. fed-Still a)

all_arguments-Still :
    (a : Adapter) (state : ToolState) (arguments : Option Text)
    → Conveys [] [] (all_arguments a state arguments)
all_arguments-Still a state none = fed-Still a
all_arguments-Still a state (some arguments) =
    if_cases (Conveys [] []) (state.received_delta || is_empty arguments) (λ _. fed-Still a)
      (λ _.
        and_fed-Still (may_write a (emit_tool_delta a.ledger state.tool_index arguments)) generated
          (emit_tool-Still a state.tool_index arguments)
          (λ b. fed-Still (record b { generated_output = true })))

finish_tool-Still :
    (a : Adapter) (item : Item) (state : ToolState) → Conveys [] [] (finish_tool a item state)
unfolding finish_tool
finish_tool-Still a item state =
    let stop : Adapter → Fed = λ d.
      if state.stopped
      then fed d []
      else and_fed (may_write d (stop_tool_block d.ledger state.tool_index))
          (λ e. fed (stopped_tool e item.id state) []) in
    and_fed-Still (writes a (close_content_blocks a.ledger))
      (λ b.
        and_fed (ensure_tool_started b item.id state)
          (λ c. and_fed (all_arguments c state item.arguments) stop))
      (close_content_blocks-Quiet a.ledger)
      (λ b.
        and_fed-Still (ensure_tool_started b item.id state)
          (λ c. and_fed (all_arguments c state item.arguments) stop)
          (ensure_tool_started-Still b item.id state)
          (λ c.
            and_fed-Still (all_arguments c state item.arguments) stop
              (all_arguments-Still c state item.arguments)
              (λ d.
                if_cases (Conveys [] []) state.stopped (λ _. fed-Still d)
                  (λ _.
                    and_fed-Still (may_write d (stop_tool_block d.ledger state.tool_index))
                      (λ e. fed (stopped_tool e item.id state) [])
                      (stop_tool-Still d state.tool_index)
                      (λ e. fed-Still (stopped_tool e item.id state))))))

redacted-Quiet :
    (l : Ledger) (k : ℕ) (encrypted : Key)
    → Quiet (and_then (block_start l k (redacted encrypted)) (λ n. block_stop n k))
unfolding block_start block_stop text_content thinking_content
redacted-Quiet l k encrypted = (refl, refl)

write_redacted-Quiet : (l : Ledger) (encrypted : Key) → Quiet (write_redacted l encrypted)
unfolding write_redacted
write_redacted-Quiet l encrypted =
    and_then-Quiet (close_content_blocks l)
      (λ m.
        and_then
          (block_start (with_blocks m (record m.blocks { next_index = suc m.blocks.next_index }))
            m.blocks.next_index (redacted encrypted))
          (λ n. block_stop n m.blocks.next_index))
      (close_content_blocks-Quiet l)
      (λ m.
        redacted-Quiet (with_blocks m (record m.blocks { next_index = suc m.blocks.next_index }))
          m.blocks.next_index encrypted)

pub on_item_done-Still :
    (x : Context) (a : Adapter) (item : Option Item) → Conveys [] [] (on_item_done x a item)
unfolding on_item_done on_tool_done on_reasoning_done
on_item_done-Still x a none = fed-Still a
on_item_done-Still x a (some item) = elim (ItemType-cases item.type) [
  | inl e ↦ rw e (
      let state = named x item (
        from_option (lookup item.id a.tools) (new_tool a (call_id_of item) (x.decode item.name))
          (λ s. s)) in
      finish_tool-Still (set_tool a item.id state) item state)
  | inr (inl e) ↦ rw e (
      if_cases (Conveys [] []) (is_text (remembered a item))
        (λ _.
          and_fed-Still (writes a (write_redacted a.ledger (remembered a item))) generated
            (write_redacted-Quiet a.ledger (remembered a item))
            (λ b. fed-Still (record b { generated_output = true })))
        (λ _. fed-Still a))
  | inr (inr e) ↦ rw e (fed-Still a)
]

-- ===== src/Stream/Responses.antt =====
-- core/openai_responses/provider_stream.py: ResponsesProviderStream. An upstream event holds what
-- `isinstance` lets through: a value of another type is `none`, or the empty text under `_string`.
use design.Common.{
  ℕ, Bool, true, false, ◌&&◌, ◌||◌, Option, none, some, from_option, List, [], ◌∷◌, ◌++◌, Key,
  if◌then◌else◌, lookup, insert, length, is_text,
}
use design.Stream.Events.{Text, redacted_thinking, Block, Event, is_empty}
use design.Stream.Ledger.{
  Ledger, Written, and_then, with_blocks, new_ledger, allocate_index, write_start, write_delta,
  write_stop, block_start, block_stop, ensure_thinking_block, ensure_text_block,
  emit_thinking_delta, emit_text_delta, stop_text_block, start_tool_block, emit_tool_delta,
  stop_tool_block, close_content_blocks, close_all_blocks, has_content_block, final_stop_reason,
}

pub data ItemType : Type 0 where
  function_call reasoning other_item : ItemType

pub record Item : Type 0 where
  pub type : ItemType
  pub id : Key
  pub call_id : Key
  pub name : Text
  pub arguments : Option Text
  pub encrypted_content : Key

-- What `_finish` reads of the response's usage; `fields` is `anthropic_input_usage_fields`.
pub record ResponseUsage : Type 0 where
  pub input_tokens : Option ℕ
  pub output_tokens : Option ℕ
  pub fields : List (Key × ℕ)

pub data ResponseEvent : Type 0 where
  item_added item_done : Option Item → ResponseEvent
  reasoning_delta text_delta : Option Text → ResponseEvent
  arguments_delta : (item_id : Key) → Option Text → ResponseEvent
  finish : (incomplete : Bool) → ResponseUsage → ResponseEvent
  failure : (message : Key) → ResponseEvent
  unknown : ResponseEvent

pub record ToolState : Type 0 where
  pub tool_index : Key
  pub call_id : Key
  pub name : Text
  pub started : Bool
  pub received_delta : Bool
  pub stopped : Bool

pub record Adapter : Type 0 where
  pub ledger : Ledger
  pub completed : Bool
  pub generated_output : Bool
  pub tools : List (Key × ToolState)
  pub encrypted_reasoning : List (Key × Key)

-- The two stop reasons, the one for tools, and the collaborators: `decode` of the tool names, and
-- the token estimate of a ledger.
pub record Context : Type 0 where
  pub max_tokens : Key
  pub end_turn : Key
  pub tool_use_reason : Key
  pub decode : Text → Text
  pub estimate : Ledger → ℕ

-- What `feed` returns, or the exceptions that it raises. A failure of the upstream is raised before
-- its event has written anything; it keeps what the calls before it returned.
pub data Fed : Type 0 where
  fed : Adapter → List Event → Fed
  key_error : Fed
  stream_failure : (message : Key) (written : List Event) → Fed

abbrev pub and_fed : Fed → (Adapter → Fed) → Fed
and_fed (fed a first) f = elim (f a) [
  | fed b second ↦ fed b (first ++ second)
  | key_error ↦ key_error
  | stream_failure message written ↦ stream_failure message (first ++ written)
]
and_fed key_error f = key_error
and_fed (stream_failure message written) f = stream_failure message written

-- An operation of the ledger, and one that may raise a KeyError.
abbrev pub writes : Adapter → Written → Fed
writes a (l, events) = fed (record a { ledger = l }) events

abbrev pub may_write : Adapter → Option Written → Fed
may_write a none = key_error
may_write a (some w) = writes a w

abbrev pub generated : Adapter → Fed
generated a = fed (record a { generated_output = true }) []

abbrev pub new_adapter : (message_id model : Key) (input_tokens : ℕ) → Adapter
new_adapter message_id model input_tokens = record {
  ledger = new_ledger message_id model input_tokens;
  completed = false;
  generated_output = false;
  tools = [];
  encrypted_reasoning = [];
}

unfoldable pub start : Adapter → Fed
unfolding write_start
start a = writes a (write_start a.ledger)

abbrev pub new_tool : Adapter → (call_id : Key) → Text → ToolState
new_tool a call_id name = record {
  tool_index = length a.tools;
  call_id = call_id;
  name = name;
  started = false;
  received_delta = false;
  stopped = false;
}

abbrev pub set_tool : Adapter → Key → ToolState → Adapter
set_tool a item_id state = record a { tools = insert item_id state a.tools }

abbrev pub call_id_of : Item → Key
call_id_of item = if is_text item.call_id then item.call_id else item.id

unfoldable pub added_item : Context → Adapter → Item → Adapter
unfolding insert
added_item x a item = elim item.type [
  | function_call ↦
      if is_text item.id
      then set_tool a item.id (new_tool a (call_id_of item) (x.decode item.name))
      else a
  | reasoning ↦
      if is_text item.id && is_text item.encrypted_content
      then record a {
        encrypted_reasoning = insert item.id item.encrypted_content a.encrypted_reasoning;
      }
      else a
  | other_item ↦ a
]

unfoldable pub on_item_added : Context → Adapter → Option Item → Fed
unfolding added_item
on_item_added x a none = fed a []
on_item_added x a (some item) = fed (added_item x a item) []

unfoldable pub on_reasoning_delta : Adapter → Text → Fed
unfolding ensure_thinking_block
on_reasoning_delta a delta =
    and_fed
      (writes a (and_then (ensure_thinking_block a.ledger) (λ l. emit_thinking_delta l delta)))
      generated

unfoldable pub on_text_delta : Adapter → Text → Fed
unfolding ensure_text_block
on_text_delta a delta =
    and_fed (writes a (and_then (ensure_text_block a.ledger) (λ l. emit_text_delta l delta)))
      generated

-- `_ensure_tool_started`, with the state of the item under this id.
unfoldable pub ensure_tool_started : Adapter → Key → ToolState → Fed
unfolding start_tool_block insert
ensure_tool_started a item_id state =
    if state.started
    then fed a []
    else and_fed (generated (set_tool a item_id (record state { started = true })))
        (λ b. writes b (start_tool_block b.ledger state.tool_index state.call_id state.name none))

-- The state is read again by its id, since it is one shared object.
abbrev pub modify_tool : Adapter → Key → (ToolState → ToolState) → Adapter
modify_tool a item_id f = from_option (lookup item_id a.tools) a (λ s. set_tool a item_id (f s))

abbrev pub receive : Adapter → Key → Fed
receive a item_id = generated (modify_tool a item_id (λ s. record s { received_delta = true }))

unfoldable pub tool_delta : Adapter → Key → ToolState → Text → Fed
unfolding close_content_blocks ensure_tool_started emit_tool_delta lookup insert
tool_delta a item_id state delta = and_fed (writes a (close_content_blocks a.ledger)) λ b.
    and_fed (ensure_tool_started b item_id state) λ c.
      if is_empty delta
      then fed c []
      else and_fed (may_write c (emit_tool_delta c.ledger state.tool_index delta))
          (λ d. receive d item_id)

unfoldable pub on_arguments_delta : Adapter → Key → Option Text → Fed
unfolding tool_delta lookup insert
on_arguments_delta a item_id none = fed a []
on_arguments_delta a item_id (some delta) =
    if is_text item_id
    then from_option (lookup item_id a.tools)
        (let state = new_tool a item_id [] in
          tool_delta (set_tool a item_id state) item_id state delta)
        (λ state. tool_delta a item_id state delta)
    else fed a []

-- `self.ledger.blocks.tool_states[i].started = False`; the index exists, or `stop_tool_block` raised.
unfoldable pub forget_tool : Ledger → Key → Ledger
unfolding lookup insert
forget_tool l i = from_option (lookup i l.blocks.tool_states) l λ state.
    let b = l.blocks in
    with_blocks l
      (record b { tool_states = insert i (record state { started = false }) b.tool_states })

abbrev pub stopped_tool : Adapter → Key → ToolState → Adapter
stopped_tool a item_id state = record (modify_tool a item_id (λ s. record s { stopped = true })) {
  ledger = forget_tool a.ledger state.tool_index;
}

abbrev pub all_arguments : Adapter → ToolState → Option Text → Fed
all_arguments a state none = fed a []
all_arguments a state (some arguments) =
    if state.received_delta || is_empty arguments
    then fed a []
    else and_fed (may_write a (emit_tool_delta a.ledger state.tool_index arguments)) generated

unfoldable pub finish_tool : Adapter → Item → ToolState → Fed
unfolding close_content_blocks ensure_tool_started emit_tool_delta stop_tool_block forget_tool
    lookup insert
finish_tool a item state = and_fed (writes a (close_content_blocks a.ledger)) λ b.
    and_fed (ensure_tool_started b item.id state) λ c.
      and_fed (all_arguments c state item.arguments) λ d.
        if state.stopped
        then fed d []
        else and_fed (may_write d (stop_tool_block d.ledger state.tool_index))
            (λ e. fed (stopped_tool e item.id state) [])

abbrev pub named : Context → Item → ToolState → ToolState
named x item state =
    if is_empty state.name then record state { name = x.decode item.name } else state

unfoldable pub on_tool_done : Context → Adapter → Item → Fed
unfolding finish_tool lookup insert
on_tool_done x a item =
    let state = named x item (
      from_option (lookup item.id a.tools) (new_tool a (call_id_of item) (x.decode item.name))
        (λ s. s)) in
    finish_tool (set_tool a item.id state) item state

abbrev pub redacted : Key → Block
redacted encrypted = record {
  type = redacted_thinking;
  content = [];
  id = 0;
  name = [];
  extra_content = none;
  payload = some encrypted;
}

unfoldable pub write_redacted : Ledger → Key → Written
unfolding close_content_blocks block_start block_stop
write_redacted l encrypted = and_then (close_content_blocks l) λ m.
    let (b, index) = allocate_index m.blocks in
    and_then (block_start (with_blocks m b) index (redacted encrypted)) (λ n. block_stop n index)

abbrev pub remembered : Adapter → Item → Key
remembered a item =
    if is_text item.encrypted_content
    then item.encrypted_content
    else from_option (lookup item.id a.encrypted_reasoning) 0 (λ k. k)

unfoldable pub on_reasoning_done : Adapter → Item → Fed
unfolding write_redacted lookup
on_reasoning_done a item =
    if is_text (remembered a item)
    then and_fed (writes a (write_redacted a.ledger (remembered a item))) generated
    else fed a []

unfoldable pub on_item_done : Context → Adapter → Option Item → Fed
unfolding on_tool_done on_reasoning_done
on_item_done x a none = fed a []
on_item_done x a (some item) = elim item.type [
  | function_call ↦ on_tool_done x a item
  | reasoning ↦ on_reasoning_done a item
  | other_item ↦ fed a []
]

-- A response without content gets a text block with a space.
unfoldable pub write_space : Ledger → Written
unfolding ensure_text_block stop_text_block
write_space l =
    and_then (and_then (ensure_text_block l) (λ m. emit_text_delta m (32 ∷ []))) stop_text_block

abbrev pub output_tokens_of : Context → Ledger → Option ℕ → Option ℕ
output_tokens_of x l none = some (x.estimate l)
output_tokens_of x l (some n) = some n

unfoldable pub write_end : Context → Ledger → (incomplete : Bool) → ResponseUsage → Written
unfolding write_delta write_stop
write_end x l incomplete usage =
    and_then
      (write_delta l
        (final_stop_reason l x.tool_use_reason (if incomplete then x.max_tokens else x.end_turn))
        (output_tokens_of x l usage.output_tokens) usage.input_tokens usage.fields)
      write_stop

unfoldable pub write_finish : Context → Ledger → (incomplete : Bool) → ResponseUsage → Written
unfolding close_all_blocks write_space write_end
write_finish x l incomplete usage = and_then (close_all_blocks l) λ m.
    and_then (if has_content_block m then (m, []) else write_space m)
      (λ n. write_end x n incomplete usage)

unfoldable pub on_finish : Context → Adapter → Bool → ResponseUsage → Fed
unfolding write_finish
on_finish x a incomplete usage =
    and_fed (writes a (write_finish x a.ledger incomplete usage))
      (λ b. fed (record b { completed = true }) [])

abbrev pub on_text : (Adapter → Text → Fed) → Adapter → Option Text → Fed
on_text f a none = fed a []
on_text f a (some delta) = if is_empty delta then fed a [] else f a delta

unfoldable pub feed_open : Context → Adapter → ResponseEvent → Fed
unfolding on_item_added on_item_done on_reasoning_delta on_text_delta on_arguments_delta on_finish
feed_open x a (item_added item) = on_item_added x a item
feed_open x a (item_done item) = on_item_done x a item
feed_open x a (reasoning_delta delta) = on_text on_reasoning_delta a delta
feed_open x a (text_delta delta) = on_text on_text_delta a delta
feed_open x a (arguments_delta item_id delta) = on_arguments_delta a item_id delta
feed_open x a (finish incomplete usage) = on_finish x a incomplete usage
feed_open x a (failure message) = stream_failure message []
feed_open x a unknown = fed a []

unfoldable pub feed : Context → Adapter → ResponseEvent → Fed
unfolding feed_open
feed x a e = if a.completed then fed a [] else feed_open x a e

-- `feed` of each event.
unfoldable pub feed_all : Context → Adapter → List ResponseEvent → Fed
unfolding feed
feed_all x a [] = fed a []
feed_all x a (e ∷ es) = and_fed (feed x a e) (λ b. feed_all x b es)

-- One response: `start`, and then the upstream's events.
unfoldable pub respond :
    Context → (message_id model : Key) (input_tokens : ℕ) → List ResponseEvent → Fed
unfolding start feed_all
respond x message_id model input_tokens events =
    and_fed (start (new_adapter message_id model input_tokens)) (λ a. feed_all x a events)
